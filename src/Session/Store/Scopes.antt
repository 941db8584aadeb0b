-- ===== src/Session/Store/Scopes.antt =====
-- session.rs, `try_set_token` and `clear_scope`: a site keeps one token for each scope, and few.
use mathlib.Core.Bool.{true≢false}
use dustnet.Base.{
  suc, ◌+◌, ◌≤◌, Bool, true, false, ◌||◌, List, [], ◌∷◌, ◌++◌, ◌≡◌, ◌⊎◌, inl, inr, refl, sym, subst,
  ◌∙◌, ap, arith, length, length-append, Bool-cases, leb,
}
use dustnet.Base.Text.{Text, text_eq, text_eq_iff}
use dustnet.Session.Store.{
  max_sessions_per_site, SessionToken, SiteSessionStore, has_scope, replace_token, remove_first,
  try_set_token, make_room, append_token,
}

abbrev pub DistinctScopes : List SessionToken → Type 0
DistinctScopes [] = Unit
DistinctScopes (t ∷ ts) = (has_scope t.scope ts ≡ false) × DistinctScopes ts

-- At most eight tokens, of different scopes.
pub record SiteFits (site : SiteSessionStore) : Type 0 where
  pub few : length site.tokens ≤ max_sessions_per_site
  pub distinct : DistinctScopes site.tokens

text_eq_comm : (a b : Text) → text_eq a b ≡ false → text_eq b a ≡ false
text_eq_comm a b h = elim (Bool-cases (text_eq b a)) [
  | inl e ↦ absurd (true≢false (sym ((text_eq_iff a b).1 (sym ((text_eq_iff b a).0 e))) ∙ h))
  | inr e ↦ e
]

length-replace_token :
    (new : SessionToken) (ts : List SessionToken) → length (replace_token new ts) ≡ length ts
unfolding replace_token
length-replace_token new [] = refl
length-replace_token new (t ∷ ts) = ground (arith, length-replace_token new ts)

has_scope-replace_token :
    (s : Text) (new : SessionToken) (ts : List SessionToken)
    → has_scope s (replace_token new ts) ≡ has_scope s ts
unfolding replace_token
has_scope-replace_token s new [] = refl
has_scope-replace_token s new (t ∷ ts) = elim (Bool-cases (text_eq t.scope new.scope)) [
  | inl e ↦
      rw e (ap (λ r. text_eq r s || has_scope s ts) (sym ((text_eq_iff t.scope new.scope).0 e)))
  | inr e ↦ rw e (ap (λ r. text_eq t.scope s || r) (has_scope-replace_token s new ts))
]

replace_token-DistinctScopes :
    (new : SessionToken) (ts : List SessionToken)
    → DistinctScopes ts
    → DistinctScopes (replace_token new ts)
unfolding replace_token
replace_token-DistinctScopes new [] h = tt
replace_token-DistinctScopes new (t ∷ ts) h = elim (Bool-cases (text_eq t.scope new.scope)) [
  | inl e ↦ rw e (rw (← (text_eq_iff t.scope new.scope).0 e) h.0, h.1)
  | inr e ↦
      rw e (has_scope-replace_token t.scope new ts ∙ h.0, replace_token-DistinctScopes new ts h.1)
]

or-false_parts : (a b : Bool) → (a || b) ≡ false → (a ≡ false) × (b ≡ false)
or-false_parts true b h = absurd (true≢false h)
or-false_parts false b h = (refl, h)

pub has_scope-append :
    (s : Text) (ts : List SessionToken) (new : SessionToken)
    → has_scope s ts ≡ false
    → text_eq new.scope s ≡ false
    → has_scope s (ts ++ new ∷ []) ≡ false
has_scope-append s [] new h k = rw k
has_scope-append s (t ∷ ts) new h k =
    let (a, b) = or-false_parts (text_eq t.scope s) (has_scope s ts) h in
    rw a (has_scope-append s ts new b k)

append-DistinctScopes :
    (ts : List SessionToken) (new : SessionToken)
    → DistinctScopes ts
    → has_scope new.scope ts ≡ false
    → DistinctScopes (ts ++ new ∷ [])
append-DistinctScopes [] new h k = (refl, tt)
append-DistinctScopes (t ∷ ts) new h k =
    let (a, b) = or-false_parts (text_eq t.scope new.scope) (has_scope new.scope ts) k in
    (
      has_scope-append t.scope ts new h.0 (text_eq_comm t.scope new.scope a),
      append-DistinctScopes ts new h.1 b,
    )

remove_first-DistinctScopes :
    (s : Text) (ts : List SessionToken)
    → DistinctScopes ts
    → has_scope s ts ≡ false
    → DistinctScopes (remove_first ts) × (has_scope s (remove_first ts) ≡ false)
remove_first-DistinctScopes s [] h k = (tt, k)
remove_first-DistinctScopes s (t ∷ ts) h k =
    (h.1, (or-false_parts (text_eq t.scope s) (has_scope s ts) k).1)

length-remove_first :
    (ts : List SessionToken) → suc (length (remove_first ts)) ≡ length ts ⊎ (ts ≡ [])
length-remove_first [] = inr refl
length-remove_first (t ∷ ts) = inl refl

-- What `try_set_token` leaves, after a failure as well: a site that fits, with a token more unless one of its own went.
abbrev pub Grown : SiteSessionStore → SiteSessionStore → SessionToken → Type 0
Grown old site new =
    SiteFits site
    × ((length site.tokens ≡ length old.tokens)
        ⊎ ((length site.tokens ≡ length old.tokens + 1)
            × (has_scope new.scope old.tokens ≡ false)
            × (leb max_sessions_per_site (length old.tokens) ≡ false)))

full :
    (ts : List SessionToken)
    → length ts ≤ 8
    → leb 8 (length ts) ≡ true
    → length (remove_first ts) ≡ 7
full ts h k = ground (arith, length-remove_first ts)

append-SiteFits :
    (ts : List SessionToken) (new : SessionToken)
    → length ts ≤ 7
    → DistinctScopes ts
    → has_scope new.scope ts ≡ false
    → SiteFits (record { tokens = ts ++ new ∷ [] })
append-SiteFits ts new l d h = record {
  few = ground (arith, length-append ts (new ∷ []));
  distinct = append-DistinctScopes ts new d h;
}

length-append_one :
    (ts : List SessionToken) (new : SessionToken) → length (ts ++ new ∷ []) ≡ length ts + 1
length-append_one ts new = ground (arith, length-append ts (new ∷ []))

evict-Grown :
    (new : SessionToken) (old : SiteSessionStore)
    → SiteFits old
    → has_scope new.scope old.tokens ≡ false
    → leb max_sessions_per_site (length old.tokens) ≡ true
    → Grown old (record { tokens = remove_first old.tokens ++ new ∷ [] }) new
evict-Grown new old f h k =
    let l : length (remove_first old.tokens) ≡ 7 = full old.tokens f.few k in
    let (d, n) = remove_first-DistinctScopes new.scope old.tokens f.distinct h in
    (
      append-SiteFits (remove_first old.tokens) new (omega (arith, l)) d n,
      inl (ground (arith, f.few, k, l, length-append_one (remove_first old.tokens) new)),
    )

add-Grown :
    (granted : Bool) (new : SessionToken) (old : SiteSessionStore)
    → SiteFits old
    → has_scope new.scope old.tokens ≡ false
    → leb max_sessions_per_site (length old.tokens) ≡ false
    → Grown old (append_token new (old, granted)).0 new
add-Grown false new old f h k = (f, inl refl)
add-Grown true new old f h k = (
  append-SiteFits old.tokens new (ground arith) f.distinct h,
  inr (length-append_one old.tokens new, h, k),
)

pub try_set_token-Grown :
    (granted : Bool) (new : SessionToken) (old : SiteSessionStore)
    → SiteFits old
    → Grown old (try_set_token granted new old).0 new
unfolding try_set_token make_room
try_set_token-Grown granted new old f = elim (Bool-cases (has_scope new.scope old.tokens)) [
  | inl h ↦
      subst (λ r. Grown old r.0 new) (sym (replaced h))
        (
          record {
            few = rw (length-replace_token new old.tokens) f.few;
            distinct = replace_token-DistinctScopes new old.tokens f.distinct;
          },
          inl (length-replace_token new old.tokens),
        )
  | inr h ↦ elim (Bool-cases (leb max_sessions_per_site (length old.tokens))) [
    | inl k ↦ subst (λ r. Grown old r.0 new) (sym (evicted h k)) (evict-Grown new old f h k)
    | inr k ↦ subst (λ r. Grown old r.0 new) (sym (grown h k)) (add-Grown granted new old f h k)
  ]
]
  where
    replaced :
        has_scope new.scope old.tokens ≡ true
        → try_set_token granted new old ≡ (record { tokens = replace_token new old.tokens }, true)
    replaced h = rw h refl

    evicted :
        has_scope new.scope old.tokens ≡ false
        → leb max_sessions_per_site (length old.tokens) ≡ true
        → try_set_token granted new old
          ≡ (record { tokens = remove_first old.tokens ++ new ∷ [] }, true)
    evicted h k = rw (h, k) refl

    grown :
        has_scope new.scope old.tokens ≡ false
        → leb max_sessions_per_site (length old.tokens) ≡ false
        → try_set_token granted new old ≡ append_token new (old, granted)
    grown h k = rw (h, k) refl
