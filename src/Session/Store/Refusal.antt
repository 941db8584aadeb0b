-- ===== src/Session/Store/Refusal.antt =====
-- crates/dustnet-core/src/session.rs, `apply_directive`: a directive that is refused.
use mathlib.Core.Bool.{true≢false}
use dustnet.Base.{
  Bool, true, false, not, ◌&&◌, Option, none, some, [], ◌∷◌, ◌≡◌, refl, sym, ap, ◌∙◌, leb, length,
  if◌then◌else◌, Bool-cases, inl, inr,
}
use mathlib.Core.Option.{some_inj}
use dustnet.Protocol.Origin.{Origin, origin_eq}
use dustnet.Session.Directive.{SessionDirective, set, clear}
use dustnet.Session.Store.{
  max_sessions_per_site, max_total_sessions, SessionToken, SiteSessionStore, has_scope, make_room,
  append_token, try_set_token, Sites, SessionStore, find_site, write_site, total, Grants,
  set_candidate, apply_directive, existing_has, existing_full, stored, added, Applied,
}

if-unchanged :
    (b : Bool) (store : SessionStore) (x y : Applied)
    → (x.1 ≡ false → x.0 ≡ store)
    → (y.1 ≡ false → y.0 ≡ store)
    → (if b then x else y).1 ≡ false
    → (if b then x else y).0 ≡ store
if-unchanged true store x y h k e = h e
if-unchanged false store x y h k e = k e

append_token-unchanged :
    (new : SessionToken) (r : SiteSessionStore × Bool)
    → (append_token new r).1 ≡ false
    → ((append_token new r).0 ≡ r.0) × (r.1 ≡ false)
append_token-unchanged new (site, false) e = (refl, refl)
append_token-unchanged new (site, true) e = absurd (true≢false e)

make_room-unchanged :
    (granted : Bool) (site : SiteSessionStore)
    → (make_room granted site).1 ≡ false
    → (make_room granted site).0 ≡ site
unfolding make_room
make_room-unchanged granted site =
    elim (Bool-cases (leb max_sessions_per_site (length site.tokens))) [
      | inl k ↦ rw k (λ e. absurd (true≢false e))
      | inr k ↦ rw k (λ e. refl)
    ]

-- A token that does not get into a site has left all of the site's tokens in it.
try_set_token-unchanged :
    (granted : Bool) (new : SessionToken) (site : SiteSessionStore)
    → (try_set_token granted new site).1 ≡ false
    → (try_set_token granted new site).0 ≡ site
unfolding try_set_token
try_set_token-unchanged granted new site = elim (Bool-cases (has_scope new.scope site.tokens)) [
  | inl k ↦ rw k (λ e. absurd (true≢false e))
  | inr k ↦ rw k (λ e.
      let (same, refused) = append_token-unchanged new (make_room granted site) e in
      same ∙ make_room-unchanged granted site refused)
]

-- Writing back the site that was found changes nothing.
write_site-found :
    (o : Origin) (sites : Sites) {site : SiteSessionStore}
    → find_site o sites ≡ some site
    → write_site o site sites ≡ sites
unfolding find_site write_site
write_site-found o [] h = absurd cc
write_site-found o ((p, s) ∷ rest) {site} h = elim (Bool-cases (origin_eq p o)) [
  | inl e ↦ rw e (ap (λ t. (p, t) ∷ rest) (some_inj.0 (sym h ∙ rw e refl)))
  | inr e ↦ rw e (ap (λ r. (p, s) ∷ r) (write_site-found o rest (sym (rw e refl) ∙ h)))
]

stored-unchanged :
    (store : SessionStore) (o : Origin) (r : SiteSessionStore × Bool) {site : SiteSessionStore}
    → find_site o store.sites ≡ some site
    → (r.1 ≡ false → r.0 ≡ site)
    → (stored store o r).1 ≡ false
    → (stored store o r).0 ≡ store
stored-unchanged store o (changed, done) {site} found same e =
    ap (λ s. record { sites = write_site o s store.sites }) (same e)
    ∙ ap (λ sites. record { sites = sites }) (write_site-found o store.sites found)

added-unchanged :
    (store : SessionStore) (o : Origin) (granted : Bool) (r : SiteSessionStore × Bool)
    → (added store o granted r).1 ≡ false
    → (added store o granted r).0 ≡ store
added-unchanged store o granted (site, false) e = refl
added-unchanged store o false (site, true) e = refl
added-unchanged store o true (site, true) e = absurd (true≢false e)

set_candidate-unchanged :
    (grants : Grants) (store : SessionStore) (o : Origin) (t : SessionToken)
    (existing : Option SiteSessionStore)
    → find_site o store.sites ≡ existing
    → (set_candidate grants store o t existing).1 ≡ false
    → (set_candidate grants store o t existing).0 ≡ store
unfolding set_candidate
set_candidate-unchanged grants store o t (some site) found =
    stored-unchanged store o (try_set_token grants.site_vector t site) found
      (try_set_token-unchanged grants.site_vector t site)
set_candidate-unchanged grants store o t none found =
    if-unchanged grants.clone_origin store
      (added store o grants.sites_vector
        (try_set_token grants.site_vector t (record { tokens = [] })))
      (store, false)
      (added-unchanged store o grants.sites_vector
        (try_set_token grants.site_vector t (record { tokens = [] })))
      (λ _. refl)

-- A directive that `apply_directive` reports as refused, by a bound or by the allocator, has left
-- the store as it was: no token of any site has been replaced or evicted, and no site was added.
pub apply_directive-unchanged :
    (grants : Grants) (store : SessionStore) (o : Origin) (d : SessionDirective)
    → (apply_directive grants store o d).1 ≡ false
    → (apply_directive grants store o d).0 ≡ store
unfolding apply_directive
apply_directive-unchanged grants store o (clear scope) e = absurd (true≢false e)
apply_directive-unchanged grants store o (set token scope expires) e =
    let existing = find_site o store.sites in
    let t : SessionToken = record { token = token; scope = scope; expires = expires } in
    if-unchanged
      (not (existing_has scope existing)
        && not (existing_full existing)
        && leb max_total_sessions (total store.sites))
      store (store, false)
      (if grants.clone_token then set_candidate grants store o t existing else (store, false))
      (λ _. refl)
      (if-unchanged grants.clone_token store (set_candidate grants store o t existing)
        (store, false) (set_candidate-unchanged grants store o t existing refl) (λ _. refl))
      e
