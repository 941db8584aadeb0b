-- ===== src/Scanner/Ensures.antt =====
-- Total correctness of a scanning step: it ends, and its result, if it is no error, satisfies a
-- predicate. With the facts on the scanning of characters that the steps rest on.
use dustnet.Base.{
  if◌then◌else◌, ℕ, ◌+◌, ◌≤◌, ◌<◌, Bool, true, false, some, [], ◌∷◌, ◌≡◌, ◌≢◌, ◌⊎◌, inl, inr, arith,
  length, All,
}
use dustnet.Base.Text.{Text, len_utf8, len}
use dustnet.Scanner.Escape.{next_is, after_next}
use dustnet.Scanner.Token.{Scan, ok, err, out_of_fuel, ◌>>=◌, max_text_token_size}
use dustnet.Scanner.Lexer.{text_size, copy_text, pushed}

abbrev pub Ensures {ℓ κ} : {A : Type ℓ} → (A → Type κ) → Scan A → Type κ
Ensures P (ok a) = P a
Ensures P (err e) = Unit
Ensures P out_of_fuel = ⊥ × Unit

pub Ensures->>= {ℓ κ μ ν} :
    {A : Type ℓ} {B : Type κ} (P : A → Type μ) (Q : B → Type ν) (m : Scan A) (f : A → Scan B)
    → Ensures P m
    → ((a : A) → P a → Ensures Q (f a))
    → Ensures Q (m >>= f)
Ensures->>= P Q (ok a) f h k = k a h
Ensures->>= P Q (err e) f h k = tt
Ensures->>= P Q out_of_fuel f h k = absurd h.0

pub Ensures-weaken {ℓ κ μ} :
    {A : Type ℓ} (P : A → Type κ) (Q : A → Type μ) (m : Scan A)
    → ((a : A) → P a → Q a)
    → Ensures P m
    → Ensures Q m
Ensures-weaken P Q (ok a) f h = f a h
Ensures-weaken P Q (err e) f h = tt
Ensures-weaken P Q out_of_fuel f h = absurd h.0

pub Ensures-if {ℓ κ} :
    {A : Type ℓ} (P : A → Type κ) (b : Bool) (x y : Scan A)
    → Ensures P x
    → Ensures P y
    → Ensures P (if b then x else y)
Ensures-if P true x y h k = h
Ensures-if P false x y h k = k

pub length-copy_text : (s : Text) → length (copy_text s).1 ≤ length s
unfolding copy_text
length-copy_text [] = omega arith
length-copy_text (c ∷ []) = ground arith
length-copy_text (c ∷ d ∷ s) = ground (arith, length-copy_text s, length-copy_text (d ∷ s))

copy_text-cases :
    (c d : ℕ) (s : Text)
    → (copy_text (c ∷ d ∷ s) ≡ ([], c ∷ d ∷ s))
      ⊎ (copy_text (c ∷ d ∷ s) ≡ pushed c (copy_text s))
      ⊎ (copy_text (c ∷ d ∷ s) ≡ pushed c (copy_text (d ∷ s)))
unfolding copy_text
copy_text-cases c d s = ground arith

-- A text token, and what is left behind it, hold characters of the input.
pub copy_text-All :
    (P : ℕ → Type 0) (s : Text) → All P s → All P (copy_text s).0 × All P (copy_text s).1
unfolding copy_text
copy_text-All P [] h = (tt, tt)
copy_text-All P (c ∷ []) h = ground arith
copy_text-All P (c ∷ d ∷ s) (a, h) = elim (copy_text-cases c d s) [
  | inl e ↦ rw e (tt, (a, h))
  | inr (inl e) ↦ let ih = copy_text-All P s h.1 in rw e ((a, ih.0), ih.1)
  | inr (inr e) ↦ let ih = copy_text-All P (d ∷ s) h in rw e ((a, ih.0), ih.1)
]

-- What `scan_text` reserves is the size of the text that it then copies.
pub text_size-copy_text :
    (s : Text) (n : ℕ) {m : ℕ} → text_size s n ≡ some m → m ≡ n + len (copy_text s).0
unfolding text_size copy_text
text_size-copy_text [] n {m} e = ground arith
text_size-copy_text (c ∷ []) n {m} e = ground arith
text_size-copy_text (c ∷ d ∷ s) n {m} e =
    let doubled = text_size-copy_text s (n + len_utf8 c) {m = m} in
    let single = text_size-copy_text (d ∷ s) (n + len_utf8 c) {m = m} in
    ground (arith, doubled, single)

pub text_size-le :
    (s : Text) (n : ℕ) {m : ℕ}
    → n ≤ max_text_token_size
    → text_size s n ≡ some m
    → m ≤ max_text_token_size
unfolding text_size
text_size-le [] n {m} h e = ground arith
text_size-le (c ∷ []) n {m} h e = ground arith
text_size-le (c ∷ d ∷ s) n {m} h e =
    ground (
      arith,
      text_size-le s (n + len_utf8 c) {m = m},
      text_size-le (d ∷ s) (n + len_utf8 c) {m = m},
    )

abbrev pub StartsTag : Text → Type 0
StartsTag s = (next_is b'[' s ≡ true) × (next_is b'[' (after_next s) ≡ false)

pub copy_text_progress :
    (c : ℕ) (s : Text)
    → ¬ StartsTag (c ∷ s)
    → (length (copy_text (c ∷ s)).1 < length (c ∷ s)) × ((copy_text (c ∷ s)).0 ≢ [])
unfolding copy_text
copy_text_progress c [] h = ground arith
copy_text_progress c (d ∷ s) h = ground (arith, length-copy_text s, length-copy_text (d ∷ s))
