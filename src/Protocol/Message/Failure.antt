-- ===== src/Protocol/Message/Failure.antt =====
-- crates/dustnet-core/src/protocol/message.rs: the body of ERROR, parsed, checked and written.
pub mod Accepted
pub mod Checked
pub mod Digits
pub mod RoundTrip
use dustnet.Base.{
  ℕ, ◌+◌, Bool, true, false, not, ◌&&◌, ◌||◌, Option, none, some, List, [], ◌∷◌, ◌++◌, ltb, ◌==◌,
  if◌then◌else◌, all,
}
use dustnet.Base.Decimal.{decimal, parse_unsigned}
use dustnet.Base.Text.{Text, codes, len, text_eq, strip_prefix, is_ascii_digit}
use dustnet.Protocol.Error.{error, invalid_message, Result, ok, err, ◌>>=◌, ◌>>◌, reject, reserve}
use dustnet.Protocol.Message.Fields.{
  max_control_message_size, checked_add_size, enforce_message_limit, try_owned_string, invalid,
  parse_control_field, first_line, for_each, add_field, field_line, decimal_size,
}
use dustnet.Protocol.Message.Lines.{lines}
use dustnet.Protocol.Version.{u16_max, or_else}

-- `ErrorMessage`
pub record ErrorMessage : Type 0 where
  pub code : ℕ
  pub message : Option Text

-- What the allocator grants: the copy of the text, the written body, and the text of an error.
pub record ErrorHeap : Type 0 where
  pub message : ℕ → Bool
  pub body : ℕ → Bool
  pub diagnostics : ℕ → Bool

unfoldable pub parse_error_code : (ℕ → Bool) → Text → Result ℕ
parse_error_code diagnostics code = do
  reject (not (len code == 3) || not (all is_ascii_digit code))
      (invalid diagnostics (codes "invalid error code: " ∷ code ∷ []))
  or_else (invalid diagnostics (codes "invalid error code: " ∷ code ∷ []))
      (parse_unsigned u16_max code)

abbrev pub message_key : Text
message_key = codes "Message"

-- the variables of the loop over the fields
pub record ErrorFields : Type 0 where
  pub message : Option Text
  pub seen_message : Bool

unfoldable pub error_step : ErrorHeap → ErrorFields → Text → Result ErrorFields
error_step heap fields line = do
  field ← parse_control_field heap.diagnostics line
  reject (not (text_eq field.0 message_key))
      (invalid heap.diagnostics (codes "unknown ERROR field: " ∷ field.0 ∷ []))
  reject fields.seen_message (invalid_message (codes "duplicate ERROR field: Message"))
  message ← try_owned_string heap.message field.1
  ok (record { message = some message; seen_message = true })

-- `ErrorMessage::parse`
unfoldable pub parse : ErrorHeap → Text → Result ErrorMessage
parse heap body = do
  enforce_message_limit error (len body) max_control_message_size
  first ← first_line (codes "empty ERROR body") (lines body)
  stripped ←
      or_else (invalid heap.diagnostics (codes "expected ERROR code, got: " ∷ first.0 ∷ []))
        (strip_prefix (codes "ERROR ") first.0)
  code ← parse_error_code heap.diagnostics stripped
  fields ← for_each (error_step heap) (record { message = none; seen_message = false }) first.1
  ok (record { code = code; message = fields.message })

unfoldable pub check_step : ErrorHeap → Bool → Text → Result Bool
check_step heap seen line = do
  field ← parse_control_field heap.diagnostics line
  reject (not (text_eq field.0 message_key))
      (invalid heap.diagnostics (codes "unknown ERROR field: " ∷ field.0 ∷ []))
  reject seen (invalid_message (codes "duplicate ERROR field: Message"))
  ok true

-- `validate_error_body`
unfoldable pub validate_error_body : ErrorHeap → Text → Result (Unit {0})
validate_error_body heap body = do
  enforce_message_limit error (len body) max_control_message_size
  first ← first_line (codes "empty ERROR body") (lines body)
  stripped ←
      or_else (invalid heap.diagnostics (codes "expected ERROR code, got: " ∷ first.0 ∷ []))
        (strip_prefix (codes "ERROR ") first.0)
  code ← parse_error_code heap.diagnostics stripped
  seen ← for_each (check_step heap) false first.1
  ok tt

-- the text that `serialize` writes
unfoldable pub error_body : ErrorMessage → Text
error_body self =
    codes "ERROR " ++ (decimal self.code ++ b'\n' ∷ field_line (codes "Message: ") self.message)

-- `ErrorMessage::serialize`
unfoldable pub serialize : ErrorHeap → ErrorMessage → Result Text
serialize heap self = do
  requested ←
      add_field (codes "Message: \n") (len (codes "ERROR \n") + decimal_size self.code) self.message
  enforce_message_limit error requested max_control_message_size
  reserve (heap.body requested) requested
  ok (error_body self)
