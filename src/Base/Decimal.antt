-- ===== src/Base/Decimal.antt =====
-- Rust's `Display` and `FromStr` for the unsigned integers.
use Prim.Native.Nat.{ℕ, zero, suc, ◌+◌, ◌-◌, ◌*◌, ◌/◌, ◌%◌, ◌≤◌, ◌<◌}
use mathlib.Core.Path.{◌≡◌, refl, ◌∙◌}
use mathlib.Core.Logic.{◌≢◌, inl, inr}
use mathlib.Core.Bool.{true, false}
use mathlib.Core.Option.{Option, none, some}
use mathlib.Core.List.{[], ◌∷◌}
use native.Mathlib.Omega.{arith}
use dustnet.Base.Tests.{leb, ◌==◌, if◌then◌else◌, Bool-cases}
use dustnet.Base.Text.{Text, is_ascii_digit}

-- the digits of `n` in front of `out`
unfoldable pub digits_onto : ℕ → ℕ → Text → Text
digits_onto zero n out = out
digits_onto (suc fuel) n out =
    let more = digits_onto fuel (n / 10) ((b'0' + n % 10) ∷ out) in
    if n / 10 == 0 then (b'0' + n % 10) ∷ out else more

-- `to_string`
unfoldable pub decimal : ℕ → Text
decimal n = digits_onto (suc n) n []

unfoldable pub parse_digits : ℕ → ℕ → Text → Option ℕ
parse_digits max acc [] = some acc
parse_digits max acc (c ∷ cs) =
    let v = acc * 10 + (c - b'0') in
    let more = parse_digits max v cs in
    if is_ascii_digit c then (if leb v max then more else none) else none

-- `parse`, for the integers up to `max`; a sign `+` may stand in front
unfoldable pub parse_unsigned : ℕ → Text → Option ℕ
parse_unsigned max [] = none
parse_unsigned max (c ∷ []) = parse_digits max 0 (c ∷ [])
parse_unsigned max (c ∷ d ∷ cs) =
    if c == b'+' then parse_digits max 0 (d ∷ cs) else parse_digits max 0 (c ∷ d ∷ cs)

parse_digits-digit :
    (max acc n : ℕ) (out : Text)
    → acc ≡ n / 10
    → n ≤ max
    → parse_digits max acc ((b'0' + n % 10) ∷ out) ≡ parse_digits max n out
unfolding parse_digits
parse_digits-digit max acc n out e h =
    let same : acc * 10 + (b'0' + n % 10 - b'0') ≡ n = omega arith in
    rw (is_digit (n % 10) (omega arith), same, fits n h)
  where
    is_digit : (k : ℕ) → k < 10 → is_ascii_digit (b'0' + k) ≡ true
    is_digit k h = ground arith

    fits : (k : ℕ) → k ≤ max → leb k max ≡ true
    fits k h = ground arith

pub parse_digits-digits_onto :
    (max fuel n : ℕ) (out : Text)
    → n < fuel
    → n ≤ max
    → parse_digits max 0 (digits_onto fuel n out) ≡ parse_digits max n out
unfolding digits_onto
parse_digits-digits_onto max zero n out f h = absurd (omega arith)
parse_digits-digits_onto max (suc fuel) n out f h = elim (Bool-cases (n / 10 == 0)) [
  | inl e ↦ rw e (parse_digits-digit max 0 n out (ground arith) h)
  | inr e ↦ rw e (
      parse_digits-digits_onto max fuel (n / 10) ((b'0' + n % 10) ∷ out) (ground arith)
        (omega arith)
      ∙ parse_digits-digit max (n / 10) n out refl h)
]

-- The characters of a printed number are digits.
abbrev pub Digits : Text → Type 0
Digits [] = Unit
Digits (c ∷ cs) = (is_ascii_digit c ≡ true) × Digits cs

pub Digits-digits_onto : (fuel n : ℕ) (out : Text) → Digits out → Digits (digits_onto fuel n out)
unfolding digits_onto
Digits-digits_onto zero n out h = h
Digits-digits_onto (suc fuel) n out h = elim (Bool-cases (n / 10 == 0)) [
  | inl e ↦ rw e (is_digit (n % 10) (omega arith), h)
  | inr e ↦ rw e (
      Digits-digits_onto fuel (n / 10) ((b'0' + n % 10) ∷ out) (is_digit (n % 10) (omega arith), h))
]
  where
    is_digit : (k : ℕ) → k < 10 → is_ascii_digit (b'0' + k) ≡ true
    is_digit k h = ground arith

no_sign : (max : ℕ) (s : Text) → Digits s → s ≢ [] → parse_unsigned max s ≡ parse_digits max 0 s
unfolding parse_unsigned
no_sign max [] h ne = absurd (ne refl)
no_sign max (c ∷ []) h ne = refl
no_sign max (c ∷ d ∷ s) h ne = rw (not_plus c h.0)
  where
    not_plus : (k : ℕ) → is_ascii_digit k ≡ true → (k == b'+') ≡ false
    not_plus k h = ground arith

digits_onto-ne-nil : (fuel n : ℕ) (out : Text) → out ≢ [] → digits_onto fuel n out ≢ []
unfolding digits_onto
digits_onto-ne-nil zero n out h = h
digits_onto-ne-nil (suc fuel) n out h = elim (Bool-cases (n / 10 == 0)) [
  | inl e ↦ rw e (λ q. cc)
  | inr e ↦ rw e (digits_onto-ne-nil fuel (n / 10) ((b'0' + n % 10) ∷ out) (λ q. cc))
]

pub decimal-ne-nil : (n : ℕ) → decimal n ≢ []
unfolding decimal digits_onto
decimal-ne-nil n = elim (Bool-cases (n / 10 == 0)) [
  | inl e ↦ rw e (λ q. cc)
  | inr e ↦ rw e (digits_onto-ne-nil n (n / 10) ((b'0' + n % 10) ∷ []) (λ q. cc))
]

pub decimal-Digits : (n : ℕ) → Digits (decimal n)
unfolding decimal
decimal-Digits n = Digits-digits_onto (suc n) n [] tt

-- A printed number parses to itself.
pub parse-decimal : (max n : ℕ) → n ≤ max → parse_unsigned max (decimal n) ≡ some n
parse-decimal max n h =
    no_sign max (decimal n) (decimal-Digits n) (decimal-ne-nil n)
    ∙ (unfold decimal parse_digits in parse_digits-digits_onto max (suc n) n [] (omega arith) h)

parse_digits-le :
    (max acc : ℕ) (s : Text) {n : ℕ} → acc ≤ max → parse_digits max acc s ≡ some n → n ≤ max
unfolding parse_digits
parse_digits-le max acc [] {n} h e = ground arith
parse_digits-le max acc (c ∷ cs) {n} h e =
    ground (arith, parse_digits-le max (acc * 10 + (c - b'0')) cs {n = n})

-- What parses is in range.
pub parse_unsigned-le : (max : ℕ) (s : Text) {n : ℕ} → parse_unsigned max s ≡ some n → n ≤ max
unfolding parse_unsigned
parse_unsigned-le max [] {n} e = cc
parse_unsigned-le max (c ∷ []) {n} e = parse_digits-le max 0 (c ∷ []) {n = n} (omega arith) e
parse_unsigned-le max (c ∷ d ∷ cs) {n} e =
    ground
      (arith, parse_digits-le max 0 (d ∷ cs) {n = n}, parse_digits-le max 0 (c ∷ d ∷ cs) {n = n})
