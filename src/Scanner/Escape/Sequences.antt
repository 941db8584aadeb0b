-- ===== src/Scanner/Escape/Sequences.antt =====
-- escape.rs, the control sequences: each goes as a whole, with its parameters and its terminator.
use dustnet.Base.{
  ℕ, ◌≤◌, ◌<◌, false, [], ◌∷◌, ◌++◌, ◌≡◌, ◌≢◌, ◌⊎◌, refl, ap, arith, All, append-nil, ◌∙◌, inl, inr,
}
use dustnet.Base.Text.{Text}
use dustnet.Scanner.Escape.{
  next_is, skip_csi, skip_until_st_or_bel, skip_escape_sequence, skip_c1_sequence, sanitize_step,
  sanitize,
}
use dustnet.Scanner.Escape.Loop.{sanitize-cons}
use dustnet.Scanner.Escape.Output.{IsAdmitted, sanitize-nil, sanitize-append}

-- the two ways to begin a CSI sequence
abbrev pub BeginsCsi : Text → Type 0
BeginsCsi t = (t ≡ 0x1B ∷ b'[' ∷ []) ⊎ (t ≡ 0x9B ∷ [])

-- a character that may stand before the final byte
abbrev pub IsParameter : ℕ → Type 0
IsParameter c = (c < 0x40) ⊎ (0x7E < c)

-- the introducers of OSC, DCS, PM and APC, in seven bits and in eight
abbrev pub BeginsString : Text → Type 0
BeginsString t =
    ((t ≡ 0x1B ∷ b']' ∷ [])
      ⊎ (t ≡ 0x1B ∷ b'P' ∷ [])
      ⊎ (t ≡ 0x1B ∷ b'^' ∷ [])
      ⊎ (t ≡ 0x1B ∷ b'_' ∷ []))
    ⊎ ((t ≡ 0x9D ∷ []) ⊎ (t ≡ 0x90 ∷ []) ⊎ (t ≡ 0x9E ∷ []) ⊎ (t ≡ 0x9F ∷ []))

-- BEL and both forms of ST
abbrev pub EndsString : Text → Type 0
EndsString t = (t ≡ 0x07 ∷ []) ⊎ (t ≡ 0x9C ∷ []) ⊎ (t ≡ 0x1B ∷ b'\\' ∷ [])

-- not the second character of ST in seven bits
abbrev pub NotBackslash : Text → Type 0
NotBackslash [] = Unit
NotBackslash (c ∷ s) = c ≢ b'\\'

-- A text without a terminator in it: it may have ESC, but none in front of a backslash.
abbrev pub IsPayload : Text → Type 0
IsPayload [] = Unit
IsPayload (c ∷ s) = (c ≢ 0x07) × (c ≢ 0x9C) × (c ≡ 0x1B → NotBackslash s) × IsPayload s

skip_csi-parameters :
    (p : Text) (final : ℕ) (rest : Text)
    → All IsParameter p
    → 0x40 ≤ final
    → final ≤ 0x7E
    → skip_csi (p ++ final ∷ rest) ≡ rest
unfolding skip_csi
skip_csi-parameters [] final rest h lo hi = ground arith
skip_csi-parameters (c ∷ p) final rest h lo hi =
    ground (arith, skip_csi-parameters p final rest h.1)

NotBackslash-next_is : (s : Text) → NotBackslash s → next_is b'\\' s ≡ false
NotBackslash-next_is [] h = refl
NotBackslash-next_is (c ∷ s) h = ground arith

-- A terminator does not begin with a backslash, so an ESC in front of it is of the payload.
NotBackslash-append :
    (p ending rest : Text)
    → NotBackslash p
    → EndsString ending
    → NotBackslash (p ++ (ending ++ rest))
NotBackslash-append (c ∷ p) ending rest h e = h
NotBackslash-append [] ending rest h (inl e) = rw e (omega arith)
NotBackslash-append [] ending rest h (inr (inl e)) = rw e (omega arith)
NotBackslash-append [] ending rest h (inr (inr e)) = rw e (omega arith)

skip_until-step :
    (c : ℕ) (s : Text)
    → c ≢ 0x07
    → c ≢ 0x9C
    → (c ≡ 0x1B → next_is b'\\' s ≡ false)
    → skip_until_st_or_bel (c ∷ s) ≡ skip_until_st_or_bel s
unfolding skip_until_st_or_bel
skip_until-step c s h k l = ground arith

skip_until-IsPayload :
    (p ending rest : Text)
    → IsPayload p
    → EndsString ending
    → skip_until_st_or_bel (p ++ (ending ++ rest)) ≡ rest
unfolding skip_until_st_or_bel
skip_until-IsPayload [] ending rest h (inl e) = rw e
skip_until-IsPayload [] ending rest h (inr (inl e)) = rw e
skip_until-IsPayload [] ending rest h (inr (inr e)) = rw e
skip_until-IsPayload (c ∷ p) ending rest (bel, st, esc, h) e =
    skip_until-step c (p ++ (ending ++ rest)) bel st (λ q.
      NotBackslash-next_is (p ++ (ending ++ rest)) (NotBackslash-append p ending rest (esc q) e))
    ∙ skip_until-IsPayload p ending rest h e

skip_until-unterminated : (p : Text) → IsPayload p → skip_until_st_or_bel p ≡ []
unfolding skip_until_st_or_bel
skip_until-unterminated [] h = refl
skip_until-unterminated (c ∷ p) (bel, st, esc, h) =
    skip_until-step c p bel st (λ q. NotBackslash-next_is p (esc q)) ∙ skip_until-unterminated p h

sanitize-csi : (begin s : Text) → BeginsCsi begin → sanitize (begin ++ s) ≡ sanitize (skip_csi s)
unfolding sanitize_step skip_escape_sequence skip_c1_sequence
sanitize-csi begin s (inl e) = rw (e, sanitize-cons)
sanitize-csi begin s (inr e) = rw (e, sanitize-cons)

sanitize-string :
    (begin s : Text)
    → BeginsString begin
    → sanitize (begin ++ s) ≡ sanitize (skip_until_st_or_bel s)
unfolding sanitize_step skip_escape_sequence skip_c1_sequence
sanitize-string begin s (inl (inl e)) = rw (e, sanitize-cons)
sanitize-string begin s (inl (inr (inl e))) = rw (e, sanitize-cons)
sanitize-string begin s (inl (inr (inr (inl e)))) = rw (e, sanitize-cons)
sanitize-string begin s (inl (inr (inr (inr e)))) = rw (e, sanitize-cons)
sanitize-string begin s (inr (inl e)) = rw (e, sanitize-cons)
sanitize-string begin s (inr (inr (inl e))) = rw (e, sanitize-cons)
sanitize-string begin s (inr (inr (inr (inl e)))) = rw (e, sanitize-cons)
sanitize-string begin s (inr (inr (inr (inr e)))) = rw (e, sanitize-cons)

-- Behind an admitted text, a CSI sequence, begun by ESC [ or by U+009B, is taken out with its
-- parameters and its final byte, and nothing else is.
pub sanitize-removes_csi :
    (before begin p : Text) (final : ℕ) (rest : Text)
    → All IsAdmitted before
    → BeginsCsi begin
    → All IsParameter p
    → 0x40 ≤ final
    → final ≤ 0x7E
    → sanitize (before ++ (begin ++ (p ++ final ∷ rest))) ≡ before ++ sanitize rest
sanitize-removes_csi before begin p final rest a b h lo hi =
    sanitize-append before _ a
    ∙ ap (λ t. before ++ t)
        (sanitize-csi begin _ b ∙ ap sanitize (skip_csi-parameters p final rest h lo hi))

-- Behind an admitted text, an OSC, DCS, PM or APC string is taken out with its payload, which is any
-- text up to the first terminator, and with that terminator, BEL or either form of ST, and nothing else
-- is. One that has no terminator takes all that follows with it.
pub sanitize-removes_string :
    (before begin p ending rest : Text)
    → All IsAdmitted before
    → BeginsString begin
    → IsPayload p
    → EndsString ending
    → (sanitize (before ++ (begin ++ (p ++ (ending ++ rest)))) ≡ before ++ sanitize rest)
      × (sanitize (before ++ (begin ++ p)) ≡ before)
sanitize-removes_string before begin p ending rest a b h e = (
  sanitize-append before _ a
      ∙ ap (λ t. before ++ t)
          (sanitize-string begin _ b ∙ ap sanitize (skip_until-IsPayload p ending rest h e)),
  sanitize-append before _ a
      ∙ ap (λ t. before ++ t)
          (sanitize-string begin _ b ∙ ap sanitize (skip_until-unterminated p h) ∙ sanitize-nil)
      ∙ append-nil before,
)
