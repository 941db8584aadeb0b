-- ===== src/Session/Store.antt =====
-- crates/dustnet-core/src/session.rs: the session stores of one site and of all sites. The clock's
-- reading is an argument of the lookup, and what the allocator answers is one of an update.
pub mod Bounds
pub mod Isolation
pub mod Keys
pub mod Lookup
pub mod Matches
pub mod Refusal
pub mod Scopes
pub mod Sites
use dustnet.Base.{
  ℕ, suc, ◌+◌, Bool, true, false, not, ◌&&◌, ◌||◌, Option, none, some, List, [], ◌∷◌, ◌++◌, ◌==◌,
  leb, ltb, if◌then◌else◌, length, any,
}
use dustnet.Base.Text.{Text, len, text_eq, strip_prefix, ends_with}
use dustnet.Protocol.Origin.{Origin, origin_eq}
use dustnet.Protocol.Origin.Key.{matches_storage_key}
use dustnet.Scanner.Escape.{next_is}
use dustnet.Session.Directive.{SessionDirective, set, clear}

abbrev pub max_sessions_per_site : ℕ
max_sessions_per_site = 8

abbrev pub max_total_sessions : ℕ
max_total_sessions = 256

pub record SessionToken : Type 0 where
  pub token : Text
  pub scope : Text
  pub expires : Option ℕ

pub record SiteSessionStore : Type 0 where
  pub tokens : List SessionToken

abbrev pub has_scope : Text → List SessionToken → Bool
has_scope scope [] = false
has_scope scope (t ∷ ts) = text_eq t.scope scope || has_scope scope ts

abbrev pub suffix_fits : Text → Option Text → Bool
suffix_fits scope none = false
suffix_fits scope (some rest) = ends_with b'/' scope || next_is b'/' rest

unfoldable pub scope_matches : Text → Text → Bool
scope_matches scope path =
    if text_eq scope (b'/' ∷ []) || text_eq path scope
    then true
    else suffix_fits scope (strip_prefix scope path)

abbrev pub unexpired : ℕ → Option ℕ → Bool
unexpired now none = true
unexpired now (some e) = ltb now e

-- what both filters of `find_token` let through
abbrev pub applies : ℕ → Text → SessionToken → Bool
applies now path t = scope_matches t.scope path && unexpired now t.expires

-- a step of `max_by_key`, which keeps the last of the greatest
abbrev pub longer : Option SessionToken → SessionToken → Option SessionToken
longer none t = some t
longer (some best) t = if leb (len best.scope) (len t.scope) then some t else some best

unfoldable pub find_from : ℕ → Text → Option SessionToken → List SessionToken → Option SessionToken
find_from now path best [] = best
find_from now path best (t ∷ ts) =
    find_from now path (if applies now path t then longer best t else best) ts

-- `SiteSessionStore::find_token`, at the time `now`
unfoldable pub find_in_site : ℕ → SiteSessionStore → Text → Option SessionToken
find_in_site now site path = find_from now path none site.tokens

-- `*existing = token` at the first token of the same scope
unfoldable pub replace_token : SessionToken → List SessionToken → List SessionToken
replace_token new [] = []
replace_token new (t ∷ ts) =
    if text_eq t.scope new.scope then new ∷ ts else t ∷ replace_token new ts

abbrev pub remove_first : List SessionToken → List SessionToken
remove_first [] = []
remove_first (t ∷ ts) = ts

-- Room for one token more: the first goes if there are eight, and else the vector is asked to grow. With
-- the site as it is then, and whether there is room.
unfoldable pub make_room : Bool → SiteSessionStore → SiteSessionStore × Bool
make_room granted site =
    if leb max_sessions_per_site (length site.tokens)
    then (record { tokens = remove_first site.tokens }, true)
    else (site, granted)

-- `self.tokens.push(token)`, which is not reached where `?` has returned
abbrev pub append_token : SessionToken → SiteSessionStore × Bool → SiteSessionStore × Bool
append_token new (site, false) = (site, false)
append_token new (site, true) = (record { tokens = site.tokens ++ new ∷ [] }, true)

-- `SiteSessionStore::try_set_token`: the site as it leaves it, and whether the allocator let it succeed
unfoldable pub try_set_token : Bool → SessionToken → SiteSessionStore → SiteSessionStore × Bool
try_set_token granted new site =
    if has_scope new.scope site.tokens
    then (record { tokens = replace_token new site.tokens }, true)
    else append_token new (make_room granted site)

unfoldable pub retain_tokens : Text → List SessionToken → List SessionToken
retain_tokens scope [] = []
retain_tokens scope (t ∷ ts) =
    if text_eq t.scope scope then retain_tokens scope ts else t ∷ retain_tokens scope ts

-- `SiteSessionStore::clear_scope`
unfoldable pub clear_scope : Text → SiteSessionStore → SiteSessionStore
clear_scope scope site = record { tokens = retain_tokens scope site.tokens }

abbrev pub Sites : Type 0
Sites = List (Origin × SiteSessionStore)

-- `SessionStore`
pub record SessionStore : Type 0 where
  pub sites : Sites

unfoldable pub find_site : Origin → Sites → Option SiteSessionStore
find_site origin [] = none
find_site origin ((o, site) ∷ rest) =
    if origin_eq o origin then some site else find_site origin rest

-- a write through `iter_mut().find`
unfoldable pub write_site : Origin → SiteSessionStore → Sites → Sites
write_site origin new [] = []
write_site origin new ((o, site) ∷ rest) =
    if origin_eq o origin then (o, new) ∷ rest else (o, site) ∷ write_site origin new rest

abbrev pub find_token_in : ℕ → Text → Option SiteSessionStore → Option SessionToken
find_token_in now path none = none
find_token_in now path (some site) = find_in_site now site path

-- `SessionStore::find_token`
unfoldable pub find_token : ℕ → SessionStore → Origin → Text → Option SessionToken
find_token now store origin path = find_token_in now path (find_site origin store.sites)

-- `total_count`
unfoldable pub total : Sites → ℕ
total [] = 0
total ((o, site) ∷ rest) = length site.tokens + total rest

-- What the allocator answers in one call of `apply_directive`: to the copy of the token, to the
-- growth of the site's vector, to the copy of the origin, and to the growth of the store's vector.
pub record Grants : Type 0 where
  pub clone_token : Bool
  pub site_vector : Bool
  pub clone_origin : Bool
  pub sites_vector : Bool

abbrev pub is_nil : List SessionToken → Bool
is_nil [] = true
is_nil (t ∷ ts) = false

-- The last step of a `Clear`: the origin's site goes if it is empty.
unfoldable pub retain_sites : Origin → Sites → Sites
retain_sites origin [] = []
retain_sites origin ((o, site) ∷ rest) =
    if not (origin_eq o origin) || not (is_nil site.tokens)
    then (o, site) ∷ retain_sites origin rest
    else retain_sites origin rest

abbrev pub existing_has : Text → Option SiteSessionStore → Bool
existing_has scope none = false
existing_has scope (some site) = has_scope scope site.tokens

abbrev pub existing_full : Option SiteSessionStore → Bool
existing_full none = false
existing_full (some site) = leb max_sessions_per_site (length site.tokens)

-- a store and what `apply_directive` returns with it
abbrev pub Applied : Type 0
Applied = SessionStore × Bool

-- The site was changed in place, so that what it is now stands in the store, after a failure as well.
abbrev pub stored : SessionStore → Origin → SiteSessionStore × Bool → Applied
stored store origin (site, done) = (record { sites = write_site origin site store.sites }, done)

-- `self.sites.push`, behind the growth of the vector
abbrev pub push_site : Bool → SessionStore → Origin → SiteSessionStore → Applied
push_site granted store origin site =
    if granted
    then (record { sites = store.sites ++ (origin, site) ∷ [] }, true)
    else (store, false)

-- The site is a local variable here, and goes where the token did not get into it.
abbrev pub added : SessionStore → Origin → Bool → SiteSessionStore × Bool → Applied
added store origin granted (site, false) = (store, false)
added store origin granted (site, true) = push_site granted store origin site

-- the branches of a `Set` whose token was copied
unfoldable pub set_candidate :
    Grants → SessionStore → Origin → SessionToken → Option SiteSessionStore → Applied
set_candidate grants store origin candidate (some site) =
    stored store origin (try_set_token grants.site_vector candidate site)
set_candidate grants store origin candidate none =
    if grants.clone_origin
    then added store origin grants.sites_vector
        (try_set_token grants.site_vector candidate (record { tokens = [] }))
    else (store, false)

abbrev pub clear_existing : SessionStore → Origin → Text → Option SiteSessionStore → Sites
clear_existing store origin scope none = store.sites
clear_existing store origin scope (some site) =
    write_site origin (clear_scope scope site) store.sites

-- `SessionStore::apply_directive`
unfoldable pub apply_directive : Grants → SessionStore → Origin → SessionDirective → Applied
apply_directive grants store origin (set token scope expires) =
    let existing = find_site origin store.sites in
    let candidate : SessionToken = record { token = token; scope = scope; expires = expires } in
    if not (existing_has scope existing)
      && not (existing_full existing)
      && leb max_total_sessions (total store.sites)
    then (store, false)
    else if grants.clone_token
    then set_candidate grants store origin candidate existing
    else (store, false)
apply_directive grants store origin (clear scope) = (
  record {
    sites = retain_sites origin (clear_existing store origin scope (find_site origin store.sites));
  },
  true,
)

-- `SessionStore::clear_origin`
unfoldable pub clear_origin : Origin → Sites → Sites
clear_origin origin [] = []
clear_origin origin ((o, site) ∷ rest) =
    if origin_eq o origin then clear_origin origin rest else (o, site) ∷ clear_origin origin rest

-- `SessionStore::clear_storage_key`
unfoldable pub clear_storage_key : Text → Sites → Sites
clear_storage_key key [] = []
clear_storage_key key ((o, site) ∷ rest) =
    if matches_storage_key o key
    then clear_storage_key key rest
    else (o, site) ∷ clear_storage_key key rest
