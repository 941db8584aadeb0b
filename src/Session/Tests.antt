-- ===== src/Session/Tests.antt =====
-- crates/dustnet-core/src/session.rs: the laws of the stores at concrete tokens.
use dustnet.Base.{true, false, none, some, [], ◌∷◌, ◌≡◌, ◌↔◌, ◌≢◌, refl, ap, arith}
use dustnet.Base.Text.{codes, text_eq}
use dustnet.Protocol.Origin.{Origin, verified_tls, origin_eq, security_eq}
use dustnet.Protocol.Origin.Key.{IsOrigin, OneByte-IsChar, storage_key_display}
use dustnet.Session.Directive.{SessionDirective, set, clear}
use dustnet.Session.Store.{
  SessionToken, SiteSessionStore, SessionStore, scope_matches, find_in_site, find_token, find_site,
  total, clear_origin, clear_storage_key, try_set_token, make_room, Grants, set_candidate,
  apply_directive,
}
use dustnet.Session.Store.Bounds.{StoreFits, apply_directive-StoreFits}
use dustnet.Session.Store.Isolation.{find_token-apply_directive}
use dustnet.Session.Store.Keys.{clear_storage_key-clear_origin}
use dustnet.Session.Store.Lookup.{IsChoice, find_in_site-IsChoice}
use dustnet.Session.Store.Matches.{Covers, scope_matches_iff}
use dustnet.Session.Store.Refusal.{apply_directive-unchanged}

abbrev home : Origin
home = record { host = codes "home"; port = 1985; security = verified_tls }

abbrev away : Origin
away = record { host = codes "away"; port = 1986; security = verified_tls }

abbrev admin : SessionToken
admin = record { token = codes "t1"; scope = codes "/admin"; expires = some 100 }

abbrev everywhere : SessionToken
everywhere = record { token = codes "t2"; scope = codes "/"; expires = none }

abbrev site : SiteSessionStore
site = record { tokens = everywhere ∷ admin ∷ [] }

abbrev store : SessionStore
store = record { sites = (home, site) ∷ [] }

abbrev all_granted : Grants
all_granted = record {
  clone_token = true;
  site_vector = true;
  clone_origin = true;
  sites_vector = true;
}

abbrev no_growth : Grants
no_growth = record {
  clone_token = true;
  site_vector = false;
  clone_origin = true;
  sites_vector = true;
}

abbrev login : SessionDirective
login = set (codes "t3") (codes "/mail") none

store-StoreFits : StoreFits store
unfolding find_site total text_eq
store-StoreFits = record {
  sites_fit = (record { few = omega arith; distinct = (refl, (refl, tt)) }, refl, tt);
  bounded = omega arith;
}

apply_directive-StoreFits_example : StoreFits (apply_directive all_granted store away login).0
apply_directive-StoreFits_example =
    apply_directive-StoreFits all_granted store away login store-StoreFits

home-ne-away : home ≢ away
home-ne-away h = let k : 1985 ≡ 1986 = ap (λ o. o.port) h in omega (arith, k)

find_token-apply_directive_example :
    find_token 50
      (apply_directive all_granted store away (clear (codes "/"))).0
      home
      (codes "/admin/x")
    ≡ find_token 50 store home (codes "/admin/x")
find_token-apply_directive_example =
    find_token-apply_directive all_granted store away home (clear (codes "/")) 50 (codes "/admin/x")
      home-ne-away

find_in_site-IsChoice_example :
    IsChoice 50 (codes "/admin/x") site.tokens (find_in_site 50 site (codes "/admin/x"))
find_in_site-IsChoice_example = find_in_site-IsChoice 50 site (codes "/admin/x")

refused : (apply_directive no_growth store home login).1 ≡ false
unfolding apply_directive find_site set_candidate total try_set_token make_room origin_eq
    security_eq text_eq
refused = refl

apply_directive-unchanged_example : (apply_directive no_growth store home login).0 ≡ store
apply_directive-unchanged_example = apply_directive-unchanged no_growth store home login refused

scope_matches_iff_example :
    (scope_matches (codes "/admin") (codes "/administrator") ≡ true)
    ↔ Covers (codes "/admin") (codes "/administrator")
scope_matches_iff_example = scope_matches_iff (codes "/admin") (codes "/administrator")

home-IsOrigin : IsOrigin home
home-IsOrigin = record {
  host_chars = OneByte-IsChar (codes "home") (omega arith);
  port_fits = omega arith;
}

clear_storage_key-clear_origin_example :
    clear_storage_key (storage_key_display home) store.sites ≡ clear_origin home store.sites
clear_storage_key-clear_origin_example =
    clear_storage_key-clear_origin home store.sites home-IsOrigin (home-IsOrigin, tt)
