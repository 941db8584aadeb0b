-- ===== src/Scanner/Escape/Output.antt =====
-- escape.rs, what the filter lets through: the section "Text sanitization" of docs/spec/03-markup.md
-- names the characters that may not pass.
use dustnet.Base.{
  ℕ, ◌+◌, ◌≤◌, ◌<◌, Option, none, some, [], ◌∷◌, ◌++◌, ◌≡◌, ◌≢◌, ◌⊎◌, refl, ap, arith, length, All,
  append-nil, ◌∙◌,
}
use dustnet.Base.Text.{Text, len_utf8, len, len_utf8-pos}
use dustnet.Scanner.Escape.{
  skip_csi, skip_until_st_or_bel, skip_escape_sequence, skip_c1_sequence, sanitize_step, sanitize,
}
use dustnet.Scanner.Escape.Loop.{with_emitted, filtered, sanitize-filtered, sanitize-cons}

-- The characters that the specification lets through.
pub record IsAdmitted (c : ℕ) : Type 0 where
  pub no_c0 : c < 0x20 → (c ≡ b'\t') ⊎ (c ≡ b'\n')
  pub no_del : c ≢ 0x7F
  pub no_c1 : (c < 0x80) ⊎ (0x9F < c)
  pub no_bidi_mark : (c ≢ 0x061C) × (c ≢ 0x200E) × (c ≢ 0x200F)
  pub no_bidi_embedding : (c < 0x202A) ⊎ (0x202E < c)
  pub no_bidi_isolate : (c < 0x2066) ⊎ (0x2069 < c)
  pub no_zero_width : (c ≢ 0x200B) × (c ≢ 0xFEFF)
  pub no_invisible_operator : (c < 0x2060) ⊎ (0x2064 < c)
  pub no_annotation : (c < 0xFFF9) ⊎ (0xFFFB < c)

abbrev pub MayWrite : Option ℕ → Type 0
MayWrite none = Unit {0}
MayWrite (some c) = IsAdmitted c

sanitize_step-IsAdmitted : (c : ℕ) (s : Text) → MayWrite (sanitize_step c s).0
unfolding sanitize_step
sanitize_step-IsAdmitted c s = ground arith

All-with_emitted :
    (o : Option ℕ) (s : Text) → MayWrite o → All IsAdmitted s → All IsAdmitted (with_emitted o s)
All-with_emitted none s h k = k
All-with_emitted (some c) s h k = (h, k)

filtered-IsAdmitted : (f : ℕ) (s : Text) → All IsAdmitted (filtered f s)
unfolding filtered
filtered-IsAdmitted ℕ.zero s = tt
filtered-IsAdmitted (ℕ.suc f) [] = tt
filtered-IsAdmitted (ℕ.suc f) (c ∷ s) =
    All-with_emitted _ _ (sanitize_step-IsAdmitted c s)
      (filtered-IsAdmitted f (sanitize_step c s).1)

-- No character that the specification forbids is left in a sanitized text.
pub sanitize-IsAdmitted : (s : Text) → All IsAdmitted (sanitize s)
sanitize-IsAdmitted s = rw (sanitize-filtered s) (filtered-IsAdmitted (length s) s)

sanitize_step-of_IsAdmitted : (c : ℕ) (s : Text) → IsAdmitted c → sanitize_step c s ≡ (some c, s)
unfolding sanitize_step
sanitize_step-of_IsAdmitted c s h = ground arith

pub sanitize-nil : sanitize [] ≡ []
unfolding sanitize
sanitize-nil = refl

-- An admitted prefix passes through unchanged, whatever stands behind it.
pub sanitize-append : (a s : Text) → All IsAdmitted a → sanitize (a ++ s) ≡ a ++ sanitize s
sanitize-append [] s h = refl
sanitize-append (c ∷ a) s h =
    rw (sanitize-cons c (a ++ s), sanitize_step-of_IsAdmitted c (a ++ s) h.0)
      (ap (λ t. c ∷ t) (sanitize-append a s h.1))

-- A text is left as it is when, and only when, all of its characters are admitted.
pub sanitize-eq_self_iff :
    (s : Text) → (All IsAdmitted s → sanitize s ≡ s) × (sanitize s ≡ s → All IsAdmitted s)
sanitize-eq_self_iff s = (
  λ h. rw (← append-nil s) (sanitize-append s [] h ∙ rw sanitize-nil),
  λ e. rw e at (sanitize-IsAdmitted s),
)

len-skip_csi : (s : Text) → len (skip_csi s) ≤ len s
unfolding skip_csi
len-skip_csi [] = omega arith
len-skip_csi (c ∷ s) = ground (arith, len-skip_csi s, len_utf8-pos c)

len-skip_until : (s : Text) → len (skip_until_st_or_bel s) ≤ len s
unfolding skip_until_st_or_bel
len-skip_until [] = omega arith
len-skip_until (c ∷ []) = ground arith
len-skip_until (c ∷ d ∷ s) = ground (arith, len-skip_until (d ∷ s))

len-skip_escape : (s : Text) → len (skip_escape_sequence s) ≤ len s
unfolding skip_escape_sequence
len-skip_escape [] = omega arith
len-skip_escape (c ∷ s) = ground (arith, len-skip_csi s, len-skip_until s)

len-skip_c1 : (s : Text) (c : ℕ) → len (skip_c1_sequence s c) ≤ len s
unfolding skip_c1_sequence
len-skip_c1 s c = ground (arith, len-skip_csi s, len-skip_until s)

len-sanitize_step :
    (c : ℕ) (s : Text)
    → len (with_emitted (sanitize_step c s).0 []) + len (sanitize_step c s).1 ≤ len_utf8 c + len s
unfolding sanitize_step
len-sanitize_step c s = ground (arith, len-skip_escape s, len-skip_c1 s c)

len-with_emitted :
    (o : Option ℕ) (s : Text) → len (with_emitted o s) ≡ len (with_emitted o []) + len s
len-with_emitted none s = omega arith
len-with_emitted (some c) s = omega arith

len-filtered : (f : ℕ) (s : Text) → len (filtered f s) ≤ len s
unfolding filtered
len-filtered ℕ.zero s = omega arith
len-filtered (ℕ.suc f) [] = omega arith
len-filtered (ℕ.suc f) (c ∷ s) = omega (
  arith,
  len-filtered f (sanitize_step c s).1,
  len-sanitize_step c s,
  len-with_emitted (sanitize_step c s).0 (filtered f (sanitize_step c s).1),
)

-- A sanitized text takes no more bytes than the text that it came from.
pub len-sanitize : (s : Text) → len (sanitize s) ≤ len s
len-sanitize s = rw (sanitize-filtered s) (len-filtered (length s) s)
