-- ===== src/Protocol/Message/Failure/RoundTrip.antt =====
-- crates/dustnet-core/src/protocol/message.rs: an ERROR body that is written is parsed back.
use dustnet.Base.{
  ℕ, suc, ◌+◌, ◌≤◌, Bool, true, false, Option, none, some, [], ◌∷◌, ltb, any, all, ◌≡◌, refl, ◌∙◌,
  arith,
}
use dustnet.Base.Decimal.{decimal, Digits, decimal-Digits, parse-decimal}
use dustnet.Base.Text.{
  Text, codes, len, len-append, is_control, is_ascii_digit, text_eq, strip_prefix-append,
}
use dustnet.Protocol.Error.{ok, ◌>>=◌}
use dustnet.Protocol.Message.Failure.{
  ErrorMessage, ErrorHeap, ErrorFields, parse_error_code, message_key, error_step, parse,
  error_body, serialize,
}
use dustnet.Protocol.Message.Failure.Checked.{Generous}
use dustnet.Protocol.Message.Fields.{
  max_control_message_size, for_each, field_line, decimal_size, count_digits,
}
use dustnet.Protocol.Message.Lines.{lines, split_field}
use dustnet.Protocol.Message.Sizes.{
  OptionalValue, field_lines, field_size, add_field-fits, len-field_line, IsLabel,
  parse_control_field-label, lines-label, len-decimal,
}
use dustnet.Protocol.Version.{u16_max}

-- A message whose parts a body can hold.
pub record IsError (m : ErrorMessage) : Type 0 where
  pub three_digits : (100 ≤ m.code) × (m.code ≤ 999)
  pub message : OptionalValue m.message

message-IsLabel : IsLabel (codes "Message: ") message_key
unfolding split_field
message-IsLabel = record { visible = refl; full = refl; split = λ v. refl; first = λ v. refl }

decimal_size-three : (n : ℕ) → 100 ≤ n → n ≤ 999 → decimal_size n ≡ 3
unfolding count_digits
decimal_size-three n h k = three n h k
  where
    three : (n : ℕ) → 100 ≤ n → n ≤ 999 → count_digits n n ≡ 3
    three (suc (suc (suc n))) h k = ground arith
    three _ h k = absurd (omega arith)

Digits-all : (s : Text) → Digits s → all is_ascii_digit s ≡ true
Digits-all [] h = refl
Digits-all (c ∷ s) h = rw (h.0, Digits-all s h.1) refl

Digits-visible : (s : Text) → Digits s → any is_control s ≡ false
Digits-visible [] h = refl
Digits-visible (c ∷ s) h = rw (digit c h.0, Digits-visible s h.1) refl
  where
    digit : (c : ℕ) → is_ascii_digit c ≡ true → is_control c ≡ false
    digit c h = ground arith

parse_error_code-decimal :
    (diagnostics : ℕ → Bool) (n : ℕ)
    → 100 ≤ n
    → n ≤ 999
    → parse_error_code diagnostics (decimal n) ≡ ok n
unfolding parse_error_code
parse_error_code-decimal diagnostics n h k =
    rw
      (
        len-decimal n ∙ decimal_size-three n h k,
        Digits-all (decimal n) (decimal-Digits n),
        parse-decimal u16_max n (omega arith),
      )
      refl

len-error_body :
    (m : ErrorMessage)
    → len (error_body m)
      ≡ len (codes "ERROR \n") + decimal_size m.code + field_size (codes "Message: \n") m.message
unfolding error_body
len-error_body m =
    let a = len-append (decimal m.code) (b'\n' ∷ field_line (codes "Message: ") m.message) in
    let b = len-field_line (codes "Message: ") m.message in
    let c = len-decimal m.code in omega (arith, a, b, c)

serialize-fits :
    (heap : ErrorHeap) (m : ErrorMessage)
    → Generous heap
    → len (error_body m) ≤ max_control_message_size
    → serialize heap m ≡ ok (error_body m)
unfolding serialize
serialize-fits heap m g h =
    let n = len (codes "ERROR \n") + decimal_size m.code in
    let s = field_size (codes "Message: \n") m.message in
    let total : n + s ≤ max_control_message_size = omega (arith, len-error_body m) in
    rw
      (
        add_field-fits (codes "Message: \n") n m.message (omega arith),
        in_bound (n + s) total,
        g.body (n + s),
      )
      refl
  where
    in_bound : (n : ℕ) → n ≤ max_control_message_size → ltb max_control_message_size n ≡ false
    in_bound n h = ground arith

lines-message :
    (o : Option Text)
    → OptionalValue o
    → lines (field_line (codes "Message: ") o) ≡ field_lines (codes "Message: ") o
unfolding lines
lines-message none h = refl
lines-message (some value) h = lines-label (codes "Message: ") value [] refl h.visible

abbrev written : Option Text → ErrorFields
written none = record { message = none; seen_message = false }
written (some value) = record { message = some value; seen_message = true }

written-message : (o : Option Text) → (written o).message ≡ o
written-message none = refl
written-message (some value) = refl

for_each-message :
    (heap : ErrorHeap) (o : Option Text)
    → Generous heap
    → OptionalValue o
    → for_each
        (error_step heap)
        (record { message = none; seen_message = false })
        (field_lines (codes "Message: ") o)
      ≡ ok (written o)
unfolding for_each error_step text_eq
for_each-message heap none g h = refl
for_each-message heap (some value) g h =
    rw
      (
        parse_control_field-label heap.diagnostics (codes "Message: ") message_key value
            message-IsLabel h,
        g.message (len value),
      )
      refl

parse-error_body :
    (heap : ErrorHeap) (m : ErrorMessage)
    → Generous heap
    → IsError m
    → len (error_body m) ≤ max_control_message_size
    → parse heap (error_body m) ≡ ok m
unfolding parse
parse-error_body heap m g w h = rw (in_bound (len (error_body m)) h) (
    unfold error_body in
    rw
      (
        lines-label (codes "ERROR ") (decimal m.code) (field_line (codes "Message: ") m.message)
            refl (Digits-visible (decimal m.code) (decimal-Digits m.code)),
        strip_prefix-append (codes "ERROR ") (decimal m.code),
        parse_error_code-decimal heap.diagnostics m.code w.three_digits.0 w.three_digits.1,
        lines-message m.message w.message,
        for_each-message heap m.message g w.message,
        written-message m.message,
      )
      refl)
  where
    in_bound : (n : ℕ) → n ≤ max_control_message_size → ltb max_control_message_size n ≡ false
    in_bound n h = ground arith

-- With an allocator that grants every request, an ERROR message is written and parsed back to itself, if
-- its code has three digits, its text is not empty and has no control character, and the body is within
-- the limit.
pub parse-serialize_error :
    (heap : ErrorHeap) (m : ErrorMessage)
    → Generous heap
    → IsError m
    → len (error_body m) ≤ max_control_message_size
    → (serialize heap m >>= parse heap) ≡ ok m
parse-serialize_error heap m g w h = rw (serialize-fits heap m g h) (parse-error_body heap m g w h)
