-- ===== src/Protocol/Message/Sizes.antt =====
-- crates/dustnet-core/src/protocol/message.rs: the sizes that a body is allocated with, and the fields
-- that are written and read back.
use dustnet.Base.{
  ℕ, zero, suc, ◌+◌, ◌/◌, ◌%◌, ◌≤◌, ◌<◌, leb, Bool-cases, inl, inr, Bool, true, false, ◌||◌, Option,
  none, some, List, [], ◌∷◌, ◌++◌, ltb, ◌==◌, any, ◌≡◌, refl, sym, ap, ◌∙◌, arith, append_assoc,
}
use dustnet.Base.Decimal.{decimal, digits_onto}
use dustnet.Base.Text.{Text, len_utf8, len, len-append, is_control}
use dustnet.Protocol.Error.{Result, ok, err, ◌>>=◌}
use dustnet.Protocol.Message.Fields.{
  checked_add_size, parse_control_field, for_each, add_field, field_line, count_digits,
  decimal_size,
}
use dustnet.Protocol.Message.Lines.{lines, split_field, lines-Line, Visible-Line}
use dustnet.Protocol.Path.{usize_max}
use dustnet.Scanner.Tags.{is_empty}

-- A value that a field or a first line can hold.
pub record IsValue (value : Text) : Type 0 where
  pub full : is_empty value ≡ false
  pub visible : any is_control value ≡ false

pub checked_add_size-fits : (a b : ℕ) → a + b ≤ usize_max → checked_add_size a b ≡ ok (a + b)
checked_add_size-fits a b h = rw (in_bound (a + b) h) refl
  where
    in_bound : (n : ℕ) → n ≤ usize_max → ltb usize_max n ≡ false
    in_bound n h = ground arith

pub any-append : (p : ℕ → Bool) (a b : Text) → any p (a ++ b) ≡ (any p a || any p b)
any-append p [] b = refl
any-append p (c ∷ a) b = let ih = any-append p a b in ground (arith, ih)

-- A label that is written in front of values.
pub record IsLabel (label key : Text) : Type 0 where
  pub visible : any is_control label ≡ false
  pub full : is_empty key ≡ false
  pub split : (value : Text) → split_field (label ++ value) ≡ some (key, value)
  pub first : (value : Text) → is_empty (label ++ value) ≡ false

-- A written field is read as its key and its value.
pub parse_control_field-label :
    (diagnostics : ℕ → Bool) (label key value : Text)
    → IsLabel label key
    → IsValue value
    → parse_control_field diagnostics (label ++ value) ≡ ok (key, value)
unfolding parse_control_field
parse_control_field-label diagnostics label key value l v =
    rw
      (
        l.first value,
        any-append is_control label value,
        l.visible,
        v.visible,
        l.split value,
        l.full,
        v.full,
      )
      refl

-- A label and a value are one line.
pub lines-label :
    (label value rest : Text)
    → any is_control label ≡ false
    → any is_control value ≡ false
    → lines (label ++ (value ++ b'\n' ∷ rest)) ≡ (label ++ value) ∷ lines rest
lines-label label value rest h k =
    ap lines (sym (append_assoc label value (b'\n' ∷ rest)))
    ∙ lines-Line (label ++ value) rest
        (Visible-Line (label ++ value) (any-append is_control label value ∙ rw (h, k) refl))

abbrev pub OptionalValue : Option Text → Type 0
OptionalValue none = Unit
OptionalValue (some value) = IsValue value

-- the lines that a field is written as
abbrev pub field_lines : Text → Option Text → List Text
field_lines label none = []
field_lines label (some value) = (label ++ value) ∷ []

abbrev pub field_size : Text → Option Text → ℕ
field_size label none = 0
field_size label (some value) = len label + len value

pub add_field-fits :
    (label : Text) (size : ℕ) (o : Option Text)
    → size + field_size label o ≤ usize_max
    → add_field label size o ≡ ok (size + field_size label o)
add_field-fits label size none h = ap ok (omega arith)
add_field-fits label size (some value) h =
    rw
      (
        checked_add_size-fits size (len label) (omega arith),
        checked_add_size-fits (size + len label) (len value) (omega arith),
      )
      (ap ok (omega arith))

pub len-field_line :
    (label : Text) (o : Option Text) → len (field_line label o) ≡ field_size (label ++ b'\n' ∷ []) o
len-field_line label none = refl
len-field_line label (some value) =
    let a = len-append label (value ++ b'\n' ∷ []) in
    let b = len-append value (b'\n' ∷ []) in
    let c = len-append label (b'\n' ∷ []) in omega (arith, a, b, c)

len-digits_onto :
    (fuel n : ℕ) (out : Text)
    → n ≤ fuel
    → len (digits_onto (suc fuel) n out) ≡ count_digits fuel n + len out
unfolding digits_onto count_digits
len-digits_onto zero n out h =
    let e : (n / 10 == 0) ≡ true = ground arith in
    let d = digit_size (n % 10) (omega arith) in rw e (omega (arith, d))
  where
    digit_size : (k : ℕ) → k < 10 → len_utf8 (b'0' + k) ≡ 1
    digit_size k h = ground arith
len-digits_onto (suc fuel) n out h = elim (Bool-cases (n / 10 == 0)) [
  | inl e ↦
      let small : leb 10 n ≡ false = ground arith in
      let d = digit_size (n % 10) (omega arith) in rw (e, small) (omega (arith, d))
  | inr e ↦
      let large : leb 10 n ≡ true = ground arith in
      let d = digit_size (n % 10) (omega arith) in
      let ih = len-digits_onto fuel (n / 10) ((b'0' + n % 10) ∷ out) (omega arith) in
      rw (e, large) (omega (arith, ih, d))
]
  where
    digit_size : (k : ℕ) → k < 10 → len_utf8 (b'0' + k) ≡ 1
    digit_size k h = ground arith

-- The size that is counted is that of the printed number.
pub len-decimal : (n : ℕ) → len (decimal n) ≡ decimal_size n
unfolding decimal
len-decimal n = len-digits_onto n n [] (omega arith) ∙ omega arith

-- A field that may be absent is read as its line, in front of the lines behind it.
pub lines-field_line :
    (label : Text) (o : Option Text) (rest : Text)
    → any is_control label ≡ false
    → OptionalValue o
    → lines (field_line label o ++ rest) ≡ field_lines label o ++ lines rest
lines-field_line label none rest h k = refl
lines-field_line label (some value) rest h k =
    ap lines (
      append_assoc label (value ++ b'\n' ∷ []) rest
      ∙ ap (λ t. label ++ t) (append_assoc value (b'\n' ∷ []) rest))
    ∙ lines-label label value rest h k.visible

-- A loop over two lists is two loops.
pub for_each-append {ℓ} :
    {S : Type ℓ} (step : S → Text → Result S) (s : S) (a b : List Text)
    → for_each step s (a ++ b) ≡ (for_each step s a >>= λ t. for_each step t b)
unfolding for_each
for_each-append step s [] b = refl
for_each-append {S = S} step s (l ∷ a) b = behind (step s l) (λ t. for_each-append step t a b)
  where
    behind :
        (r : Result S)
        → ((t : S) → for_each step t (a ++ b) ≡ (for_each step t a >>= λ u. for_each step u b))
        → (r >>= λ t. for_each step t (a ++ b))
          ≡ ((r >>= λ t. for_each step t a) >>= λ u. for_each step u b)
    behind (ok t) k = k t
    behind (err e) k = refl
