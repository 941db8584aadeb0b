-- ===== src/Protocol/Message/Input/Checked.antt =====
-- crates/dustnet-core/src/protocol/message.rs: the check of an INPUT body and its parser agree.
use dustnet.Base.{
  ℕ, Bool, true, false, not, ◌&&◌, ◌||◌, Option, none, some, List, [], ◌∷◌, ◌≡◌, refl, sym, ap, ◌∙◌,
  Bool-cases, inl, inr,
}
use dustnet.Base.Text.{Text, codes, len, text_eq, text_eq_iff}
use dustnet.Protocol.Error.{input, Result, ok, err, ◌>>=◌}
use dustnet.Protocol.Holds.{Holds, Holds-any, Holds->>=, Holds-if}
use dustnet.Protocol.Message.Fields.{
  max_input_message_size, enforce_message_limit, try_owned_string, parse_control_field,
  validate_primary_value, for_each, for_each-Holds, for_each-follows, >>=-follows,
}
use dustnet.Protocol.Message.Input.{
  InputMessage, InputHeap, InputFields, form_key, session_key, input_field, input_step, no_fields,
  input_line, parse, key_index, mark_key, check_step, second, validate_input_body, duplicate_field,
  unknown_field,
}

-- The allocator grants every copy.
pub record Generous (heap : InputHeap) : Type 0 where
  pub path : (n : ℕ) → heap.path n ≡ true
  pub form_data : (n : ℕ) → heap.form_data n ≡ true
  pub session : (n : ℕ) → heap.session n ≡ true
  pub body : (n : ℕ) → heap.body n ≡ true

abbrev pub is_some : Option Text → Bool
is_some none = false
is_some (some t) = true

-- the flags of the fields that were seen
abbrev flags : InputFields → List Bool
flags fields = fields.seen_form ∷ fields.seen_session ∷ []

one_key : (key : Text) → text_eq key form_key ≡ true → text_eq key session_key ≡ false
one_key key e = rw ((text_eq_iff key form_key).0 e) (unfold text_eq in refl)

mark_key-input_field :
    (heap : InputHeap) (form : Text) (token : Option Text) (f s : Bool) (key value : Text)
    → Generous heap
    → mark_key heap (f ∷ s ∷ []) key (key_index key) ≡ (
        input_field heap
          (record { form_data = form; session = token; seen_form = f; seen_session = s })
          key
          value
        >>= λ t. ok (flags t))
unfolding input_field
mark_key-input_field heap form token f s key value g = elim (Bool-cases (text_eq key form_key)) [
  | inl e ↦ elim (Bool-cases f) [
    | inl q ↦ rw (q, e, one_key key e) refl
    | inr q ↦ rw (q, e, g.form_data (len value)) refl
  ]
  | inr e ↦ elim (Bool-cases (text_eq key session_key)) [
    | inl k ↦ elim (Bool-cases s) [
      | inl q ↦ rw (q, e, k) refl
      | inr q ↦ rw (q, e, k, g.session (len value)) refl
    ]
    | inr k ↦ rw (e, k) refl
  ]
]

check_step-input_step :
    (heap : InputHeap) (fields : InputFields) (line : Text)
    → Generous heap
    → check_step heap (flags fields) line ≡ (input_step heap fields line >>= λ t. ok (flags t))
unfolding check_step input_step
check_step-input_step heap fields line g =
    >>=-follows (parse_control_field heap.diagnostics line) _ _ (λ t. ok (flags t))
      λ field.
        mark_key-input_field heap fields.form_data fields.session fields.seen_form
          fields.seen_session field.0 field.1 g

-- A token is there if and only if its field was seen.
abbrev SessionSeen : InputFields → Type 0
SessionSeen fields = is_some fields.session ≡ fields.seen_session

input_step-SessionSeen :
    (heap : InputHeap) (fields : InputFields) (line : Text)
    → SessionSeen fields
    → Holds SessionSeen (input_step heap fields line)
unfolding input_step input_field
input_step-SessionSeen heap fields line h =
    Holds->>= (λ f. Unit {0}) SessionSeen (parse_control_field heap.diagnostics line) _
      (Holds-any (parse_control_field heap.diagnostics line))
      λ field _.
        Holds-if SessionSeen (text_eq field.0 form_key && not fields.seen_form) _ _
          (λ _.
            Holds->>= (λ f. Unit {0}) SessionSeen (try_owned_string heap.form_data field.1) _
              (Holds-any (try_owned_string heap.form_data field.1)) (λ form _. h))
          λ _.
            Holds-if SessionSeen (text_eq field.0 session_key && not fields.seen_session) _ _
              (λ _.
                Holds->>= (λ f. Unit {0}) SessionSeen (try_owned_string heap.session field.1) _
                  (Holds-any (try_owned_string heap.session field.1)) (λ token _. refl))
              λ _.
                Holds-if SessionSeen (text_eq field.0 form_key || text_eq field.0 session_key)
                  (duplicate_field heap field.0) (unknown_field heap field.0) (λ _. tt) (λ _. tt)

-- With an allocator that grants every copy, the check of a body that allocates nothing answers as the
-- parser does: it refuses the same bodies with the same errors, and for the others it tells whether the
-- message has a session token.
pub validate_input_body-parse :
    (heap : InputHeap) (body : Text)
    → Generous heap
    → validate_input_body heap body ≡ (parse heap body >>= λ m. ok (is_some m.session))
unfolding validate_input_body parse
validate_input_body-parse heap body g =
    >>=-follows (enforce_message_limit input (len body) max_input_message_size) _ _ k λ _.
      >>=-follows (input_line heap body) _ _ k λ head. rw (g.path (len head.0)) (
        >>=-follows (validate_primary_value heap.diagnostics (codes "INPUT path") head.0) _ _ k
          λ _. loops head)
  where
    k : InputMessage → Result Bool
    k m = ok (is_some m.session)

    same :
        (path : Text) (r : Result InputFields)
        → Holds SessionSeen r
        → ((r >>= λ t. ok (flags t)) >>= λ seen. ok (second seen)) ≡ (
            (r >>= λ t. ok (record { path = path; form_data = t.form_data; session = t.session }))
            >>= k)
    same path (ok t) h = ap ok (sym h)
    same path (err e) h = refl

    loops :
        (head : Text × List Text)
        → (for_each (check_step heap) (false ∷ false ∷ []) head.1 >>= λ seen. ok (second seen)) ≡ (
            (for_each (input_step heap) no_fields head.1 >>= λ t.
            ok (record { path = head.0; form_data = t.form_data; session = t.session }))
            >>= k)
    loops head =
        ap (λ r. r >>= λ seen. ok (second seen))
          (for_each-follows flags (input_step heap) (check_step heap) no_fields head.1
            (λ s l. check_step-input_step heap s l g))
        ∙ same head.0 (for_each (input_step heap) no_fields head.1) (
            for_each-Holds SessionSeen (input_step heap) no_fields head.1
              (λ s l h. input_step-SessionSeen heap s l h) refl)
