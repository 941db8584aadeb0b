-- ===== src/Protocol/Message/Input/RoundTrip.antt =====
-- crates/dustnet-core/src/protocol/message.rs: an INPUT body that is written is parsed back.
use dustnet.Base.{
  ℕ, ◌+◌, ◌≤◌, true, false, Option, none, some, [], ◌∷◌, ◌++◌, ltb, any, ◌≡◌, refl, ap, ◌∙◌, arith,
  append-nil, append_assoc,
}
use dustnet.Base.Text.{Text, codes, len, len-append, is_control, text_eq, strip_prefix-append}
use dustnet.Protocol.Error.{ok, ◌>>=◌}
use dustnet.Protocol.Message.Fields.{max_input_message_size, for_each, field_line}
use dustnet.Protocol.Message.Input.{
  InputMessage, InputHeap, InputFields, form_key, session_key, input_field, input_step, no_fields,
  input_line, parse, form_field, input_body, serialize,
}
use dustnet.Protocol.Message.Input.Checked.{Generous}
use dustnet.Protocol.Message.Lines.{lines, split_field}
use dustnet.Protocol.Message.Sizes.{
  IsValue, OptionalValue, field_lines, field_size, add_field-fits, len-field_line, IsLabel,
  checked_add_size-fits, parse_control_field-label, lines-label,
}

-- A message whose parts a body can hold.
pub record IsInput (m : InputMessage) : Type 0 where
  pub path : IsValue m.path
  pub form_data : any is_control m.form_data ≡ false
  pub session : OptionalValue m.session

form-IsLabel : IsLabel (codes "Form: ") form_key
unfolding split_field
form-IsLabel = record { visible = refl; full = refl; split = λ v. refl; first = λ v. refl }

session-IsLabel : IsLabel (codes "Session: ") session_key
unfolding split_field
session-IsLabel = record { visible = refl; full = refl; split = λ v. refl; first = λ v. refl }

len-input_body :
    (m : InputMessage)
    → len (input_body m)
      ≡ len (codes "INPUT \n")
        + len m.path
        + field_size (codes "Form: \n") (form_field m.form_data)
        + field_size (codes "Session: \n") m.session
unfolding input_body
len-input_body m =
    let form = field_line (codes "Form: ") (form_field m.form_data) in
    let token = field_line (codes "Session: ") m.session in
    let a = len-append m.path (b'\n' ∷ (form ++ token)) in
    let b = len-append form token in
    let c = len-field_line (codes "Form: ") (form_field m.form_data) in
    let d = len-field_line (codes "Session: ") m.session in omega (arith, a, b, c, d)

serialize-fits :
    (heap : InputHeap) (m : InputMessage)
    → Generous heap
    → len (input_body m) ≤ max_input_message_size
    → serialize heap m ≡ ok (input_body m)
unfolding serialize
serialize-fits heap m g h =
    let n = len (codes "INPUT \n") + len m.path in
    let f = field_size (codes "Form: \n") (form_field m.form_data) in
    let s = field_size (codes "Session: \n") m.session in
    let total : n + f + s ≤ max_input_message_size = omega (arith, len-input_body m) in
    rw
      (
        checked_add_size-fits (len (codes "INPUT \n")) (len m.path) (omega arith),
        add_field-fits (codes "Form: \n") n (form_field m.form_data) (omega arith),
        add_field-fits (codes "Session: \n") (n + f) m.session (omega arith),
        in_bound (n + f + s) total,
        g.body (n + f + s),
      )
      refl
  where
    in_bound : (n : ℕ) → n ≤ max_input_message_size → ltb max_input_message_size n ≡ false
    in_bound n h = ground arith

form_field-Optional : (form : Text) → any is_control form ≡ false → OptionalValue (form_field form)
form_field-Optional [] h = tt
form_field-Optional (c ∷ form) h = record { full = refl; visible = h }

lines-fields :
    (f s : Option Text)
    → OptionalValue f
    → OptionalValue s
    → lines (field_line (codes "Form: ") f ++ field_line (codes "Session: ") s)
      ≡ field_lines (codes "Form: ") f ++ field_lines (codes "Session: ") s
unfolding lines
lines-fields none none h k = refl
lines-fields none (some s) h k = lines-label (codes "Session: ") s [] refl k.visible
lines-fields (some f) none h k =
    ap lines (append-nil (codes "Form: " ++ (f ++ b'\n' ∷ [])))
    ∙ lines-label (codes "Form: ") f [] refl h.visible
lines-fields (some f) (some s) h k =
    ap (λ t. lines (codes "Form: " ++ t))
      (append_assoc f (b'\n' ∷ []) (codes "Session: " ++ (s ++ b'\n' ∷ [])))
    ∙ lines-label (codes "Form: ") f (codes "Session: " ++ (s ++ b'\n' ∷ [])) refl h.visible
    ∙ ap (λ ls. (codes "Form: " ++ f) ∷ ls) (lines-label (codes "Session: ") s [] refl k.visible)

-- the written form, or none
abbrev form_text : Option Text → Text
form_text none = []
form_text (some f) = f

abbrev written_fields : Option Text → Option Text → InputFields
written_fields none none = no_fields
written_fields (some f) none = record no_fields { form_data = f; seen_form = true }
written_fields none (some s) = record no_fields { session = some s; seen_session = true }
written_fields (some f) (some s) = record {
  form_data = f;
  session = some s;
  seen_form = true;
  seen_session = true;
}

for_each-fields :
    (heap : InputHeap) (f s : Option Text)
    → Generous heap
    → OptionalValue f
    → OptionalValue s
    → for_each
        (input_step heap)
        no_fields
        (field_lines (codes "Form: ") f ++ field_lines (codes "Session: ") s)
      ≡ ok (written_fields f s)
unfolding for_each input_step input_field text_eq
for_each-fields heap none none g h k = refl
for_each-fields heap none (some s) g h k =
    rw
      (
        parse_control_field-label heap.diagnostics (codes "Session: ") session_key s session-IsLabel
            k,
        g.session (len s),
      )
      refl
for_each-fields heap (some f) none g h k =
    rw
      (
        parse_control_field-label heap.diagnostics (codes "Form: ") form_key f form-IsLabel h,
        g.form_data (len f),
      )
      refl
for_each-fields heap (some f) (some s) g h k =
    rw
      (
        parse_control_field-label heap.diagnostics (codes "Form: ") form_key f form-IsLabel h,
        g.form_data (len f),
        parse_control_field-label heap.diagnostics (codes "Session: ") session_key s session-IsLabel
            k,
        g.session (len s),
      )
      refl

fields-session : (f s : Option Text) → (written_fields f s).session ≡ s
fields-session none none = refl
fields-session none (some s) = refl
fields-session (some f) none = refl
fields-session (some f) (some s) = refl

fields-form :
    (form : Text) (s : Option Text) → (written_fields (form_field form) s).form_data ≡ form
fields-form [] none = refl
fields-form [] (some s) = refl
fields-form (c ∷ form) none = refl
fields-form (c ∷ form) (some s) = refl

input_line-body :
    (heap : InputHeap) (m : InputMessage)
    → IsInput m
    → input_line heap (input_body m)
      ≡ ok (
        m.path,
        field_lines (codes "Form: ") (form_field m.form_data)
            ++ field_lines (codes "Session: ") m.session,
      )
unfolding input_body
input_line-body heap m w =
    let rest =
      field_line (codes "Form: ") (form_field m.form_data)
      ++ field_line (codes "Session: ") m.session in
    rw
      (
        lines-label (codes "INPUT ") m.path rest refl w.path.visible,
        strip_prefix-append (codes "INPUT ") m.path,
        lines-fields (form_field m.form_data) m.session
            (form_field-Optional m.form_data w.form_data) w.session,
      )
      refl

parse-input_body :
    (heap : InputHeap) (m : InputMessage)
    → Generous heap
    → IsInput m
    → len (input_body m) ≤ max_input_message_size
    → parse heap (input_body m) ≡ ok m
unfolding parse
parse-input_body heap m g w h =
    rw
      (
        in_bound (len (input_body m)) h,
        input_line-body heap m w,
        g.path (len m.path),
        w.path.full,
        w.path.visible,
        for_each-fields heap (form_field m.form_data) m.session g
            (form_field-Optional m.form_data w.form_data) w.session,
        fields-session (form_field m.form_data) m.session,
        fields-form m.form_data m.session,
      )
      refl
  where
    in_bound : (n : ℕ) → n ≤ max_input_message_size → ltb max_input_message_size n ≡ false
    in_bound n h = ground arith

-- With an allocator that grants every request, an INPUT message is written and parsed back to itself, if
-- its path and its token are not empty, no part of it has a control character, and the body is within
-- the limit.
pub parse-serialize_input :
    (heap : InputHeap) (m : InputMessage)
    → Generous heap
    → IsInput m
    → len (input_body m) ≤ max_input_message_size
    → (serialize heap m >>= parse heap) ≡ ok m
parse-serialize_input heap m g w h = rw (serialize-fits heap m g h) (parse-input_body heap m g w h)
