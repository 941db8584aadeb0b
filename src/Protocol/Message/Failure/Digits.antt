-- ===== src/Protocol/Message/Failure/Digits.antt =====
-- crates/dustnet-core/src/protocol/message.rs: the three digits of an error code.
use dustnet.Base.{
  ℕ, ◌+◌, ◌*◌, ◌-◌, ◌≤◌, true, false, some, [], ◌∷◌, ◌==◌, leb, all, ◌≡◌, refl, ◌∙◌, arith,
}
use dustnet.Base.Decimal.{parse_digits, parse_unsigned}
use dustnet.Base.Text.{Text, len, len_utf8, is_ascii_digit}
use dustnet.Protocol.Version.{u16_max}

parse_digits-step :
    (max acc c : ℕ) (cs : Text)
    → is_ascii_digit c ≡ true
    → acc * 10 + 9 ≤ max
    → (n : ℕ) × (n ≤ acc * 10 + 9) × (parse_digits max acc (c ∷ cs) ≡ parse_digits max n cs)
unfolding parse_digits
parse_digits-step max acc c cs h k = (acc * 10 + (c - b'0'), small c h, rw (h, fits c h) refl)
  where
    small : (c : ℕ) → is_ascii_digit c ≡ true → acc * 10 + (c - b'0') ≤ acc * 10 + 9
    small c h = ground arith

    fits : (c : ℕ) → is_ascii_digit c ≡ true → leb (acc * 10 + (c - b'0')) max ≡ true
    fits c h = ground arith

len_utf8-positive : (c : ℕ) → 1 ≤ len_utf8 c
len_utf8-positive c = ground arith

-- three digits are a number of 16 bits
pub three_digits :
    (s : Text)
    → len s ≡ 3
    → all is_ascii_digit s ≡ true
    → (n : ℕ) × (parse_unsigned u16_max s ≡ some n)
unfolding parse_unsigned parse_digits
three_digits (a ∷ b ∷ c ∷ []) h k =
    let (ha, hb, hc) = each a b c k in
    let (x, lx, ex) = parse_digits-step u16_max 0 a (b ∷ c ∷ []) ha (omega arith) in
    let (y, ly, ey) = parse_digits-step u16_max x b (c ∷ []) hb (omega arith) in
    let (z, lz, ez) = parse_digits-step u16_max y c [] hc (omega arith) in
    (z, rw (no_sign a ha) (ex ∙ ey ∙ ez))
  where
    each :
        (a b c : ℕ)
        → all is_ascii_digit (a ∷ b ∷ c ∷ []) ≡ true
        → (is_ascii_digit a ≡ true) × (is_ascii_digit b ≡ true) × (is_ascii_digit c ≡ true)
    each a b c k = ground arith

    no_sign : (a : ℕ) → is_ascii_digit a ≡ true → (a == b'+') ≡ false
    no_sign a h = ground arith
three_digits [] h k = absurd (omega arith)
three_digits (a ∷ []) h k = absurd (ground arith)
three_digits (a ∷ b ∷ []) h k = absurd (ground arith)
three_digits (a ∷ b ∷ c ∷ d ∷ s) h k =
    absurd
      (four (len_utf8-positive a) (len_utf8-positive b) (len_utf8-positive c) (len_utf8-positive d))
  where
    four : 1 ≤ len_utf8 a → 1 ≤ len_utf8 b → 1 ≤ len_utf8 c → 1 ≤ len_utf8 d → ⊥
    four p q r t = omega arith
