-- ===== src/Session/Store/Matches.antt =====
-- crates/dustnet-core/src/session.rs, `scope_matches`: a scope is a path or a prefix of it up to a
-- segment.
use mathlib.Core.Bool.{true≢false}
use dustnet.Base.{
  Bool, true, false, ◌||◌, some, [], ◌∷◌, ◌++◌, ◌≡◌, ◌⊎◌, ◌↔◌, inl, inr, refl, sym, ◌∙◌, ap,
  Bool-cases, Option-cases, if◌then◌else◌,
}
use dustnet.Base.Text.{
  Text, text_eq, text_eq_iff, strip_prefix, strip_prefix-append, strip_prefix-eq_some, ends_with,
}
use dustnet.Scanner.Escape.{next_is}
use dustnet.Session.Store.{scope_matches, suffix_fits}

-- What a scope must be to cover a path: the root, the path itself, or a prefix of it that ends in a
-- slash or before one.
abbrev pub Covers : Text → Text → Type 0
Covers scope path =
    (scope ≡ b'/' ∷ [])
    ⊎ (path ≡ scope)
    ⊎ ((rest : Text) × (path ≡ scope ++ rest)
        × ((ends_with b'/' scope || next_is b'/' rest) ≡ true))

scope_matches-Covers : (scope path : Text) → scope_matches scope path ≡ true → Covers scope path
unfolding scope_matches
scope_matches-Covers scope path h = elim (Bool-cases (text_eq scope (b'/' ∷ []))) [
  | inl e ↦ inl ((text_eq_iff scope (b'/' ∷ [])).0 e)
  | inr e ↦ elim (Bool-cases (text_eq path scope)) [
    | inl k ↦ inr (inl ((text_eq_iff path scope).0 k))
    | inr k ↦ elim (Option-cases (strip_prefix scope path)) [
      | inl n ↦ absurd (true≢false (sym h ∙ rw (e, k, n) refl))
      | inr (rest, s) ↦
          inr (inr (rest, strip_prefix-eq_some scope path s, sym (rw (e, k, s) refl) ∙ h))
    ]
  ]
]

either-true : (a b x : Bool) → x ≡ true → (if a || b then true else x) ≡ true
either-true true b x h = refl
either-true false true x h = refl
either-true false false x h = h

or_right : (a b : Bool) → b ≡ true → (a || b) ≡ true
or_right true b h = refl
or_right false b h = h

-- A scope applies to a path if and only if it is `/`, the path, or a prefix of the path that ends in a
-- slash or that a slash follows: never up to the middle of a segment.
pub scope_matches_iff : (scope path : Text) → (scope_matches scope path ≡ true) ↔ Covers scope path
unfolding scope_matches
scope_matches_iff scope path = (scope_matches-Covers scope path, back)
  where
    back : Covers scope path → scope_matches scope path ≡ true
    back (inl e) = rw ((text_eq_iff scope (b'/' ∷ [])).1 e) refl
    back (inr (inl e)) =
        rw
          (or_right (text_eq scope (b'/' ∷ [])) (text_eq path scope) ((text_eq_iff path scope).1 e))
          refl
    back (inr (inr (rest, e, f))) =
        let s : strip_prefix scope path ≡ some rest =
          ap (strip_prefix scope) e ∙ strip_prefix-append scope rest in
        either-true (text_eq scope (b'/' ∷ [])) (text_eq path scope)
          (suffix_fits scope (strip_prefix scope path)) (rw s f)
