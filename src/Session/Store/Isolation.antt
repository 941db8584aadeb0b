-- ===== src/Session/Store/Isolation.antt =====
-- crates/dustnet-core/src/session.rs, `apply_directive`: what a directive of one origin leaves alone.
use dustnet.Base.{
  ℕ, Bool, true, false, not, ◌&&◌, Option, none, some, [], ◌∷◌, ◌++◌, ◌≡◌, ◌≢◌, refl, sym, ◌∙◌, ap,
  Bool-cases, leb, if◌then◌else◌, inl, inr,
}
use dustnet.Base.Text.{Text}
use dustnet.Protocol.Origin.{Origin, origin_eq, origin_eq_iff}
use dustnet.Session.Directive.{SessionDirective, set, clear}
use dustnet.Session.Store.{
  find_token_in, max_total_sessions, SessionToken, SiteSessionStore, try_set_token, clear_scope,
  Sites, SessionStore, find_site, find_token, write_site, total, Grants, retain_sites,
  set_candidate, apply_directive, existing_has, existing_full, stored, added, clear_existing,
  is_nil, Applied,
}

-- The site of `p` in the one store is its site in the other.
abbrev SameSite : Origin → SessionStore → SessionStore → Type 0
SameSite p a b = find_site p a.sites ≡ find_site p b.sites

other : (p o q : Origin) → p ≢ o → origin_eq q o ≡ true → origin_eq q p ≡ false
other p o q n e = elim (Bool-cases (origin_eq q p)) [
  | inl k ↦ absurd (n (sym ((origin_eq_iff q p).0 k) ∙ (origin_eq_iff q o).0 e))
  | inr k ↦ k
]

find_site-write_other :
    (p o : Origin) (new : SiteSessionStore) (sites : Sites)
    → p ≢ o
    → find_site p (write_site o new sites) ≡ find_site p sites
unfolding find_site write_site
find_site-write_other p o new [] n = refl
find_site-write_other p o new ((q, s) ∷ rest) n = elim (Bool-cases (origin_eq q o)) [
  | inl e ↦ rw (e, other p o q n e) refl
  | inr e ↦
      rw e (ap (λ r. if origin_eq q p then some s else r) (find_site-write_other p o new rest n))
]

find_site-append_other :
    (p o : Origin) (site : SiteSessionStore) (sites : Sites)
    → origin_eq o p ≡ false
    → find_site p (sites ++ (o, site) ∷ []) ≡ find_site p sites
unfolding find_site
find_site-append_other p o site [] k = rw k refl
find_site-append_other p o site ((q, s) ∷ rest) k =
    ap (λ r. if origin_eq q p then some s else r) (find_site-append_other p o site rest k)

find_site-retain_other :
    (p o : Origin) (sites : Sites) → p ≢ o → find_site p (retain_sites o sites) ≡ find_site p sites
unfolding find_site retain_sites
find_site-retain_other p o [] n = refl
find_site-retain_other p o ((q, s) ∷ rest) n = elim (Bool-cases (origin_eq q o)) [
  | inl e ↦ elim (Bool-cases (is_nil s.tokens)) [
    | inl k ↦ rw (e, k, other p o q n e) (find_site-retain_other p o rest n)
    | inr k ↦ rw (e, k, other p o q n e) (find_site-retain_other p o rest n)
  ]
  | inr e ↦ rw e (ap (λ r. if origin_eq q p then some s else r) (find_site-retain_other p o rest n))
]

stored-SameSite :
    (store : SessionStore) (o p : Origin) (r : SiteSessionStore × Bool)
    → p ≢ o
    → SameSite p (stored store o r).0 store
stored-SameSite store o p (site, done) n = find_site-write_other p o site store.sites n

added-SameSite :
    (store : SessionStore) (o p : Origin) (granted : Bool) (r : SiteSessionStore × Bool)
    → p ≢ o
    → SameSite p (added store o granted r).0 store
added-SameSite store o p granted (site, false) n = refl
added-SameSite store o p false (site, true) n = refl
added-SameSite store o p true (site, true) n =
    find_site-append_other p o site store.sites (elim (Bool-cases (origin_eq o p)) [
      | inl k ↦ absurd (n (sym ((origin_eq_iff o p).0 k)))
      | inr k ↦ k
    ])

if-SameSite :
    (b : Bool) (p : Origin) (store : SessionStore) (x y : Applied)
    → SameSite p x.0 store
    → SameSite p y.0 store
    → SameSite p (if b then x else y).0 store
if-SameSite true p store x y h k = h
if-SameSite false p store x y h k = k

set_candidate-SameSite :
    (grants : Grants) (store : SessionStore) (o p : Origin) (t : SessionToken)
    (existing : Option SiteSessionStore)
    → p ≢ o
    → SameSite p (set_candidate grants store o t existing).0 store
unfolding set_candidate
set_candidate-SameSite grants store o p t (some site) n =
    stored-SameSite store o p (try_set_token grants.site_vector t site) n
set_candidate-SameSite grants store o p t none n =
    if-SameSite grants.clone_origin p store
      (added store o grants.sites_vector
        (try_set_token grants.site_vector t (record { tokens = [] })))
      (store, false)
      (added-SameSite store o p grants.sites_vector
        (try_set_token grants.site_vector t (record { tokens = [] })) n)
      refl

clear_existing-SameSite :
    (store : SessionStore) (o p : Origin) (scope : Text) (existing : Option SiteSessionStore)
    → p ≢ o
    → find_site p (clear_existing store o scope existing) ≡ find_site p store.sites
clear_existing-SameSite store o p scope none n = refl
clear_existing-SameSite store o p scope (some site) n =
    find_site-write_other p o (clear_scope scope site) store.sites n

apply_directive-SameSite :
    (grants : Grants) (store : SessionStore) (o p : Origin) (d : SessionDirective)
    → p ≢ o
    → SameSite p (apply_directive grants store o d).0 store
unfolding apply_directive
apply_directive-SameSite grants store o p (clear scope) n =
    find_site-retain_other p o (clear_existing store o scope (find_site o store.sites)) n
    ∙ clear_existing-SameSite store o p scope (find_site o store.sites) n
apply_directive-SameSite grants store o p (set token scope expires) n =
    let existing = find_site o store.sites in
    let t : SessionToken = record { token = token; scope = scope; expires = expires } in
    if-SameSite
      (not (existing_has scope existing)
        && not (existing_full existing)
        && leb max_total_sessions (total store.sites))
      p store (store, false)
      (if grants.clone_token then set_candidate grants store o t existing else (store, false)) refl
      (if-SameSite grants.clone_token p store (set_candidate grants store o t existing)
        (store, false) (set_candidate-SameSite grants store o p t existing n) refl)

-- A directive of one origin changes no lookup of another: whatever the time, the path and the
-- allocator's answers, the token that the other origin sends is the one that it sent before.
pub find_token-apply_directive :
    (grants : Grants) (store : SessionStore) (o p : Origin) (d : SessionDirective) (now : ℕ)
    (path : Text)
    → p ≢ o
    → find_token now (apply_directive grants store o d).0 p path ≡ find_token now store p path
unfolding find_token
find_token-apply_directive grants store o p d now path n =
    ap (find_token_in now path) (apply_directive-SameSite grants store o p d n)
