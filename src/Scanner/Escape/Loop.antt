-- ===== src/Scanner/Escape/Loop.antt =====
-- escape.rs, the loop of `sanitize_into`: it ends, and what it writes does not depend on the
-- destination.
use dustnet.Base.{
  ℕ, zero, suc, ◌≤◌, Option, none, some, [], ◌∷◌, ◌++◌, ◌≡◌, refl, sym, ◌∙◌, arith, length,
  append-nil, append_assoc, Option-cases, inl, inr,
}
use dustnet.Base.Text.{Text}
use dustnet.Scanner.Escape.{
  skip_csi, skip_until_st_or_bel, skip_escape_sequence, skip_c1_sequence, sanitize_step, Outcome,
  finished, write, write_then, sanitize_loop, sanitize_into, push, sanitize,
}

length-skip_csi : (s : Text) → length (skip_csi s) ≤ length s
unfolding skip_csi
length-skip_csi [] = omega arith
length-skip_csi (c ∷ s) = ground (arith, length-skip_csi s)

length-skip_until : (s : Text) → length (skip_until_st_or_bel s) ≤ length s
unfolding skip_until_st_or_bel
length-skip_until [] = omega arith
length-skip_until (c ∷ []) = ground arith
length-skip_until (c ∷ d ∷ s) = ground (arith, length-skip_until (d ∷ s))

length-skip_escape : (s : Text) → length (skip_escape_sequence s) ≤ length s
unfolding skip_escape_sequence
length-skip_escape [] = omega arith
length-skip_escape (c ∷ s) = ground (arith, length-skip_csi s, length-skip_until s)

length-skip_c1 : (s : Text) (c : ℕ) → length (skip_c1_sequence s c) ≤ length s
unfolding skip_c1_sequence
length-skip_c1 s c = ground (arith, length-skip_csi s, length-skip_until s)

-- Every round reads a character at least.
pub length-sanitize_step : (c : ℕ) (s : Text) → length (sanitize_step c s).1 ≤ length s
unfolding sanitize_step
length-sanitize_step c s = ground (arith, length-skip_escape s, length-skip_c1 s c)

abbrev pub with_emitted : Option ℕ → Text → Text
with_emitted none out = out
with_emitted (some c) out = c ∷ out

-- what the loop writes, with the destination left out
unfoldable pub filtered : ℕ → Text → Text
filtered zero s = []
filtered (suc fuel) [] = []
filtered (suc fuel) (c ∷ rest) =
    with_emitted (sanitize_step c rest).0 (filtered fuel (sanitize_step c rest).1)

pub filtered_fuel : (f g : ℕ) (s : Text) → length s ≤ f → length s ≤ g → filtered f s ≡ filtered g s
unfolding filtered
filtered_fuel zero zero s h k = refl
filtered_fuel zero (suc g) [] h k = refl
filtered_fuel zero (suc g) (c ∷ s) h k = absurd (omega arith)
filtered_fuel (suc f) zero [] h k = refl
filtered_fuel (suc f) zero (c ∷ s) h k = absurd (omega arith)
filtered_fuel (suc f) (suc g) [] h k = refl
filtered_fuel (suc f) (suc g) (c ∷ s) h k =
    let shorter = length-sanitize_step c s in
    rw (filtered_fuel f g (sanitize_step c s).1 (omega arith) (omega arith))

module _ {ℓ} {W : Type ℓ} (write_char : ℕ → W → Option W) where
  -- a text written character by character, up to the first refusal
  pub write_all : Text → W → Outcome W
  write_all [] w = finished w
  write_all (c ∷ cs) w = write_then write_char (write_all cs) (write_char c w)

  write_all-with_emitted :
      (o : Option ℕ) (cs : Text) (w : W)
      → write_all (with_emitted o cs) w
        ≡ write_then write_char (write_all cs) (write write_char o w)
  unfolding write_all
  write_all-with_emitted none cs w = refl
  write_all-with_emitted (some c) cs w = refl

  sanitize_loop-write_all :
      (f : ℕ) (s : Text) (w : W)
      → length s ≤ f
      → sanitize_loop write_char f s w ≡ write_all (filtered f s) w
  unfolding sanitize_loop filtered write_all
  sanitize_loop-write_all zero [] w h = refl
  sanitize_loop-write_all zero (c ∷ s) w h = absurd (omega arith)
  sanitize_loop-write_all (suc f) [] w h = refl
  sanitize_loop-write_all (suc f) (c ∷ s) w h =
      let shorter = length-sanitize_step c s in
      let o = (sanitize_step c s).0 in
      let next = (sanitize_step c s).1 in
      elim (Option-cases (write write_char o w)) [
        | inl e ↦ rw e (sym (write_all-with_emitted o (filtered f next) w ∙ rw e))
        | inr (w', e) ↦ rw e (
            sanitize_loop-write_all f next w' (omega arith)
            ∙ sym (write_all-with_emitted o (filtered f next) w ∙ rw e))
      ]

write_all-push : (s out : Text) → write_all push s out ≡ finished (out ++ s)
unfolding write_all
write_all-push [] out = rw append-nil
write_all-push (c ∷ s) out = write_all-push s (out ++ c ∷ []) ∙ rw append_assoc

pub sanitize-filtered : (s : Text) → sanitize s ≡ filtered (length s) s
unfolding sanitize
sanitize-filtered s = rw (
  sanitize_loop-write_all push (length s) s [] (omega arith),
  write_all-push (filtered (length s) s) [],
)

-- The equation of the filter: one round, then the rest.
pub sanitize-cons :
    (c : ℕ) (s : Text)
    → sanitize (c ∷ s) ≡ with_emitted (sanitize_step c s).0 (sanitize (sanitize_step c s).1)
sanitize-cons c s =
    let shorter = length-sanitize_step c s in
    let next = (sanitize_step c s).1 in
    rw (sanitize-filtered (c ∷ s), sanitize-filtered next)
      (unfold filtered in
        rw (filtered_fuel (length s) (length next) next (omega arith) (omega arith)))

-- Whatever the destination, `sanitize_into` writes the text that `sanitize` returns, in order, and
-- stops where the destination first refuses. It never runs out of fuel.
pub sanitize_into-write_all {ℓ} :
    {W : Type ℓ} (write_char : ℕ → W → Option W) (s : Text) (w : W)
    → sanitize_into write_char s w ≡ write_all write_char (sanitize s) w
unfolding sanitize_into
sanitize_into-write_all write_char s w =
    sanitize_loop-write_all write_char (length s) s w (omega arith) ∙ rw (sanitize-filtered s)
