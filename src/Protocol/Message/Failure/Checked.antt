-- ===== src/Protocol/Message/Failure/Checked.antt =====
-- crates/dustnet-core/src/protocol/message.rs: the check of an ERROR body and its parser agree.
use dustnet.Base.{ℕ, true, false, not, none, List, [], ◌∷◌, ◌≡◌, ◌↔◌, refl, ap, ◌∙◌}
use dustnet.Base.Text.{Text, codes, len, text_eq, strip_prefix}
use dustnet.Protocol.Error.{error, invalid_message, Result, ok, err, ◌>>=◌, reject}
use dustnet.Protocol.Message.Failure.{
  ErrorMessage, ErrorHeap, ErrorFields, parse_error_code, message_key, error_step, parse,
  check_step, validate_error_body,
}
use dustnet.Protocol.Message.Lines.{lines}
use dustnet.Protocol.Version.{or_else}
use dustnet.Protocol.Message.Failure.Accepted.{IsErrorBody, validate_error_body_iff}
use dustnet.Protocol.Message.Fields.{
  max_control_message_size, enforce_message_limit, invalid, first_line, parse_control_field,
  for_each, for_each-follows, >>=-follows,
}

-- The allocator grants every copy.
pub record Generous (heap : ErrorHeap) : Type 0 where
  pub message : (n : ℕ) → heap.message n ≡ true
  pub body : (n : ℕ) → heap.body n ≡ true

check_step-error_step :
    (heap : ErrorHeap) (fields : ErrorFields) (line : Text)
    → Generous heap
    → check_step heap fields.seen_message line
      ≡ (error_step heap fields line >>= λ t. ok t.seen_message)
unfolding check_step error_step
check_step-error_step heap fields line g =
    >>=-follows (parse_control_field heap.diagnostics line) _ _ (λ t. ok t.seen_message)
      λ field.
        >>=-follows
          (reject (not (text_eq field.0 message_key))
            (invalid heap.diagnostics (codes "unknown ERROR field: " ∷ field.0 ∷ [])))
          _ _ (λ t. ok t.seen_message)
          λ _.
            >>=-follows
              (reject fields.seen_message
                (invalid_message (codes "duplicate ERROR field: Message")))
              _ _ (λ t. ok t.seen_message) λ _. rw (g.message (len field.1)) refl

-- With an allocator that grants every copy, the check of an ERROR body, which copies nothing, accepts
-- what the parser accepts and refuses the others with the same errors. Both accept exactly the bodies
-- within the size limit whose first line is `ERROR ` with three digits behind it and that have no more
-- than one further line, which has the key `Message`, a value that is not empty and no control
-- character.
pub validate_error_body-parse :
    (heap : ErrorHeap) (body : Text)
    → Generous heap
    → (validate_error_body heap body ≡ (parse heap body >>= λ m. ok tt))
      × ((validate_error_body heap body ≡ ok tt) ↔ IsErrorBody body)
unfolding validate_error_body parse
validate_error_body-parse heap body g = (agree, validate_error_body_iff heap body)
  where
    k : ErrorMessage → Result (Unit {0})
    k m = ok tt

    start : ErrorFields
    start = record { message = none; seen_message = false }

    same :
        (code : ℕ) (r : Result ErrorFields)
        → ((r >>= λ t. ok t.seen_message) >>= λ seen. ok tt)
          ≡ ((r >>= λ t. ok (record { code = code; message = t.message })) >>= k)
    same code (ok t) = refl
    same code (err e) = refl

    loops :
        (code : ℕ) (rest : List Text)
        → (for_each (check_step heap) false rest >>= λ seen. ok tt) ≡ (
            (for_each (error_step heap) start rest >>= λ t.
            ok (record { code = code; message = t.message }))
            >>= k)
    loops code rest =
        ap (λ r. r >>= λ seen. ok tt)
          (for_each-follows (λ t. t.seen_message) (error_step heap) (check_step heap) start rest
            (λ s l. check_step-error_step heap s l g))
        ∙ same code (for_each (error_step heap) start rest)

    agree : validate_error_body heap body ≡ (parse heap body >>= k)
    agree = >>=-follows (enforce_message_limit error (len body) max_control_message_size) _ _ k λ _.
        >>=-follows (first_line (codes "empty ERROR body") (lines body)) _ _ k λ first.
          >>=-follows
            (or_else (invalid heap.diagnostics (codes "expected ERROR code, got: " ∷ first.0 ∷ []))
              (strip_prefix (codes "ERROR ") first.0))
            _ _ k
            λ stripped.
              >>=-follows (parse_error_code heap.diagnostics stripped) _ _ k
                λ code. loops code first.1
