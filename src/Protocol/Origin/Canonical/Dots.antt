-- ===== src/Protocol/Origin/Canonical/Dots.antt =====
-- crates/dustnet-core/src/protocol/origin.rs: the dots that `trim_end_matches('.')` drops.
use dustnet.Base.{
  ℕ, zero, suc, false, [], ◌∷◌, ◌++◌, ◌==◌, ◌≡◌, inl, inr, refl, ap, arith, Bool-cases,
}
use dustnet.Base.Text.{Text, ends_with}
use dustnet.Protocol.Origin.Canonical.{trim_end_dots, keep_label}

abbrev pub dots : ℕ → Text
dots zero = []
dots (suc k) = b'.' ∷ dots k

keep_label-dots :
    (c : ℕ) (t s : Text)
    → (ends_with b'.' t ≡ false)
    → ((k : ℕ) × (s ≡ t ++ dots k))
    → (ends_with b'.' (keep_label c t) ≡ false) × (k : ℕ) × (c ∷ s ≡ keep_label c t ++ dots k)
keep_label-dots c [] s h (k, q) = elim (Bool-cases (c == b'.')) [
  | inl e ↦ let same : c ≡ b'.' = ground arith in rw e (refl, suc k, rw same (ap (λ r. b'.' ∷ r) q))
  | inr e ↦ rw e (e, k, ap (λ r. c ∷ r) q)
]
keep_label-dots c (d ∷ t) s h (k, q) = (h, k, ap (λ r. c ∷ r) q)

pub trim_end_dots-dots :
    (s : Text)
    → (ends_with b'.' (trim_end_dots s) ≡ false) × (k : ℕ) × (s ≡ trim_end_dots s ++ dots k)
unfolding trim_end_dots
trim_end_dots-dots [] = (refl, 0, refl)
trim_end_dots-dots (c ∷ s) =
    let (e, k, q) = trim_end_dots-dots s in keep_label-dots c (trim_end_dots s) s e (k, q)

trim-only_dots : (k : ℕ) → trim_end_dots (dots k) ≡ []
unfolding trim_end_dots
trim-only_dots zero = refl
trim-only_dots (suc k) = rw (trim-only_dots k) refl

pub trim-append_dots :
    (name : Text) (k : ℕ) → ends_with b'.' name ≡ false → trim_end_dots (name ++ dots k) ≡ name
unfolding trim_end_dots
trim-append_dots [] k h = trim-only_dots k
trim-append_dots (c ∷ []) k h = rw (trim-only_dots k, h) refl
trim-append_dots (c ∷ d ∷ t) k h = rw (trim-append_dots (d ∷ t) k h) refl
