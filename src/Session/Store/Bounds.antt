-- ===== src/Session/Store/Bounds.antt =====
-- crates/dustnet-core/src/session.rs, `apply_directive`: the bounds of the store that it keeps.
use mathlib.Core.Bool.{true≢false}
use dustnet.Base.{
  ℕ, ◌+◌, ◌≤◌, Bool, true, false, not, ◌&&◌, none, some, [], ◌∷◌, ◌++◌, ◌≡◌, ◌⊎◌, inl, inr, refl,
  sym, ◌∙◌, arith, length, Option-cases, leb, if◌then◌else◌,
}
use dustnet.Base.Text.{Text}
use dustnet.Protocol.Origin.{Origin}
use dustnet.Session.Directive.{SessionDirective, set, clear}
use dustnet.Session.Store.{
  max_sessions_per_site, max_total_sessions, SessionToken, SiteSessionStore, has_scope,
  try_set_token, clear_scope, SessionStore, find_site, write_site, total, Grants, retain_sites,
  set_candidate, apply_directive, existing_has, existing_full, stored, added, clear_existing,
  Applied,
}
use dustnet.Session.Store.Scopes.{Grown, try_set_token-Grown}
use dustnet.Session.Store.Sites.{
  SitesFit, find_site-SiteFits, write_site-SitesFit, total-write_site, total-append,
  append-SitesFit, retain_sites-SitesFit, total-retain_sites, clear_scope-SiteFits,
  length-clear_scope,
}

-- Every site fits, no two are of one origin, and there are at most 256 tokens.
pub record StoreFits (store : SessionStore) : Type 0 where
  pub sites_fit : SitesFit store.sites
  pub bounded : total store.sites ≤ max_total_sessions

below : (n m : ℕ) → n ≡ m + 1 → leb max_total_sessions m ≡ false → n ≤ max_total_sessions
below n m e h = ground arith

set-SitesFit :
    (granted : Bool) (store : SessionStore) (o : Origin) (new : SessionToken)
    (old : SiteSessionStore)
    → StoreFits store
    → find_site o store.sites ≡ some old
    → existing_has new.scope (some old) ≡ true
      ⊎ (existing_full (some old) ≡ true)
      ⊎ (leb max_total_sessions (total store.sites) ≡ false)
    → StoreFits (stored store o (try_set_token granted new old)).0
set-SitesFit granted store o new old f h room =
    go (try_set_token granted new old)
      (try_set_token-Grown granted new old (find_site-SiteFits o store.sites f.sites_fit h))
  where
    room_left :
        (grown : ℕ) (site : SiteSessionStore)
        → grown + length old.tokens ≡ total store.sites + length site.tokens
        → (length site.tokens ≡ length old.tokens)
          ⊎ ((length site.tokens ≡ length old.tokens + 1)
              × (has_scope new.scope old.tokens ≡ false)
              × (leb max_sessions_per_site (length old.tokens) ≡ false))
        → existing_has new.scope (some old) ≡ true
          ⊎ (existing_full (some old) ≡ true)
          ⊎ (leb max_total_sessions (total store.sites) ≡ false)
        → grown ≤ max_total_sessions
    room_left grown site t (inl e) r = let b = f.bounded in omega (arith, b)
    room_left grown site t (inr (e, a, b)) (inl r) = absurd (true≢false (sym r ∙ a))
    room_left grown site t (inr (e, a, b)) (inr (inl r)) = absurd (true≢false (sym r ∙ b))
    room_left grown site t (inr (e, a, b)) (inr (inr r)) =
        below grown (total store.sites) (omega arith) r

    go : (r : SiteSessionStore × Bool) → Grown old r.0 new → StoreFits (stored store o r).0
    go (site, done) (g, size) =
        let t = total-write_site o site store.sites h in
        record {
          sites_fit = write_site-SitesFit o site store.sites g f.sites_fit;
          bounded = room_left (total (write_site o site store.sites)) site t size room;
        }

add-StoreFits :
    (granted : Bool) (store : SessionStore) (o : Origin) (new : SessionToken) (vector : Bool)
    → StoreFits store
    → find_site o store.sites ≡ none
    → leb max_total_sessions (total store.sites) ≡ false
    → StoreFits (added store o vector (try_set_token granted new (record { tokens = [] }))).0
add-StoreFits granted store o new vector f h room =
    go (try_set_token granted new (record { tokens = [] }))
      (try_set_token-Grown granted new (record { tokens = [] })
        (record { few = omega arith; distinct = tt }))
      vector
  where
    one_more :
        (site : SiteSessionStore)
        → (length site.tokens ≡ 0) ⊎ ((length site.tokens ≡ 1) × (false ≡ false) × (false ≡ false))
        → total (store.sites ++ (o, site) ∷ []) ≤ max_total_sessions
    one_more site (inl e) =
        let b = f.bounded in let t = total-append store.sites o site in omega (arith, b, t, e)
    one_more site (inr (e, _, _)) =
        let t = total-append store.sites o site in
        below (total (store.sites ++ (o, site) ∷ [])) (total store.sites) (omega (arith, t, e)) room

    go :
        (r : SiteSessionStore × Bool)
        → Grown (record { tokens = [] }) r.0 new
        → (v : Bool) → StoreFits (added store o v r).0
    go (site, false) g v = f
    go (site, true) g false = f
    go (site, true) (g, size) true = record {
      sites_fit = append-SitesFit o site store.sites f.sites_fit h g;
      bounded = one_more site size;
    }

clear-StoreFits :
    (store : SessionStore) (o : Origin) (scope : Text)
    → StoreFits store
    → StoreFits
        (record { sites = retain_sites o (clear_existing store o scope (find_site o store.sites)) })
clear-StoreFits store o scope f = retained (Option-cases (find_site o store.sites))
  where
    retained :
        (find_site o store.sites ≡ none)
          ⊎ ((site : SiteSessionStore) × (find_site o store.sites ≡ some site))
        → StoreFits (record {
          sites = retain_sites o (clear_existing store o scope (find_site o store.sites));
        })
    retained (inl h) =
        let t = total-retain_sites o store.sites in
        let b = f.bounded in
        rw h (record {
          sites_fit = retain_sites-SitesFit o store.sites f.sites_fit;
          bounded = omega (arith, t, b);
        })
    retained (inr (site, h)) =
        let cleared = write_site o (clear_scope scope site) store.sites in
        let t = total-retain_sites o cleared in
        let w = total-write_site o (clear_scope scope site) store.sites h in
        let l = length-clear_scope scope site in
        let b = f.bounded in
        rw h (record {
          sites_fit = retain_sites-SitesFit o cleared (
              write_site-SitesFit o (clear_scope scope site) store.sites
                (clear_scope-SiteFits scope site (find_site-SiteFits o store.sites f.sites_fit h))
                f.sites_fit);
          bounded = omega (arith, t, w, l, b);
        })

guarded-StoreFits :
    (has full room clone : Bool) (store : SessionStore) (x : Applied)
    → StoreFits store
    → ((has ≡ true) ⊎ (full ≡ true) ⊎ (room ≡ false) → StoreFits x.0)
    → StoreFits
        (if not has && not full && room
          then (store, false)
          else if clone
          then x
          else (store, false)).0
guarded-StoreFits false false true clone store x f g = f
guarded-StoreFits true full room true store x f g = g (inl refl)
guarded-StoreFits false true room true store x f g = g (inr (inl refl))
guarded-StoreFits false false false true store x f g = g (inr (inr refl))
guarded-StoreFits true full room false store x f g = f
guarded-StoreFits false true room false store x f g = f
guarded-StoreFits false false false false store x f g = f

new_site-StoreFits :
    (granted : Bool) (store : SessionStore) (x : Applied)
    → StoreFits store
    → StoreFits x.0
    → StoreFits (if granted then x else (store, false)).0
new_site-StoreFits true store x f g = g
new_site-StoreFits false store x f g = f

roomy : {b : Bool} → (false ≡ true) ⊎ (false ≡ true) ⊎ (b ≡ false) → b ≡ false
roomy (inl e) = absurd (true≢false (sym e))
roomy (inr (inl e)) = absurd (true≢false (sym e))
roomy (inr (inr e)) = e

-- Whatever the allocator grants, a directive keeps a store that fits: of each origin one site, in
-- each site at most 8 tokens, of different scopes, and at most 256 tokens in all sites together.
pub apply_directive-StoreFits :
    (grants : Grants) (store : SessionStore) (o : Origin) (d : SessionDirective)
    → StoreFits store
    → StoreFits (apply_directive grants store o d).0
unfolding apply_directive set_candidate
apply_directive-StoreFits grants store o (clear scope) f = clear-StoreFits store o scope f
apply_directive-StoreFits grants store o (set token scope expires) f =
    elim (Option-cases (find_site o store.sites)) [
      | inl h ↦
          let candidate : SessionToken = record {
            token = token;
            scope = scope;
            expires = expires;
          } in
          rw h (
            guarded-StoreFits false false (leb max_total_sessions (total store.sites))
              grants.clone_token store (set_candidate grants store o candidate none) f
              (λ room.
                new_site-StoreFits grants.clone_origin store
                  (added store o grants.sites_vector
                    (try_set_token grants.site_vector candidate (record { tokens = [] })))
                  f
                  (add-StoreFits grants.site_vector store o candidate grants.sites_vector f h
                    (roomy room))))
      | inr (old, h) ↦
          let candidate : SessionToken = record {
            token = token;
            scope = scope;
            expires = expires;
          } in
          rw h (
            guarded-StoreFits (existing_has scope (some old)) (existing_full (some old))
              (leb max_total_sessions (total store.sites)) grants.clone_token store
              (set_candidate grants store o candidate (some old)) f
              (set-SitesFit grants.site_vector store o candidate old f h))
    ]
