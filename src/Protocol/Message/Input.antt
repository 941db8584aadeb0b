-- ===== src/Protocol/Message/Input.antt =====
-- crates/dustnet-core/src/protocol/message.rs: the body of INPUT, parsed, checked and written.
pub mod Checked
pub mod RoundTrip
use dustnet.Base.{
  ℕ, ◌+◌, Bool, true, false, not, ◌&&◌, ◌||◌, Option, none, some, List, [], ◌∷◌, ◌++◌, ltb,
  if◌then◌else◌,
}
use dustnet.Base.Text.{Text, codes, len, text_eq, strip_prefix}
use dustnet.Protocol.Error.{input, invalid_message, Result, ok, err, ◌>>=◌, ◌>>◌, reject, reserve}
use dustnet.Protocol.Message.Fields.{
  max_input_message_size, checked_add_size, enforce_message_limit, try_owned_string, invalid,
  parse_control_field, validate_primary_value, mark_seen, add_field, field_line, first_line,
  for_each,
}
use dustnet.Protocol.Message.Lines.{lines}
use dustnet.Protocol.Version.{or_else}
use dustnet.Scanner.Tags.{is_empty}

-- `InputMessage`
pub record InputMessage : Type 0 where
  pub path : Text
  pub form_data : Text
  pub session : Option Text

-- What the allocator grants: the copies of the path, the form and the session token, the written body,
-- and the text of an error.
pub record InputHeap : Type 0 where
  pub path : ℕ → Bool
  pub form_data : ℕ → Bool
  pub session : ℕ → Bool
  pub body : ℕ → Bool
  pub diagnostics : ℕ → Bool

-- the variables of the loop over the fields
pub record InputFields : Type 0 where
  pub form_data : Text
  pub session : Option Text
  pub seen_form : Bool
  pub seen_session : Bool

abbrev pub form_key : Text
form_key = codes "Form"

abbrev pub session_key : Text
session_key = codes "Session"

abbrev pub duplicate_field : InputHeap → Text → Result InputFields
duplicate_field heap key =
    err (invalid heap.diagnostics (codes "duplicate INPUT field: " ∷ key ∷ []))

abbrev pub unknown_field : InputHeap → Text → Result InputFields
unknown_field heap key = err (invalid heap.diagnostics (codes "unknown INPUT field: " ∷ key ∷ []))

-- the arms of the match on a field's key
unfoldable pub input_field : InputHeap → InputFields → Text → Text → Result InputFields
input_field heap fields key value =
    if text_eq key form_key && not fields.seen_form
    then (try_owned_string heap.form_data value >>= λ form.
        ok (record fields { form_data = form; seen_form = true }))
    else if text_eq key session_key && not fields.seen_session
    then (try_owned_string heap.session value >>= λ token.
        ok (record fields { session = some token; seen_session = true }))
    else if text_eq key form_key || text_eq key session_key
    then duplicate_field heap key
    else unknown_field heap key

unfoldable pub input_step : InputHeap → InputFields → Text → Result InputFields
input_step heap fields line = do
  field ← parse_control_field heap.diagnostics line
  input_field heap fields field.0 field.1

abbrev pub no_fields : InputFields
no_fields = record { form_data = []; session = none; seen_form = false; seen_session = false }

abbrev pub input_line : InputHeap → Text → Result (Text × List Text)
input_line heap body = do
  first ← first_line (codes "empty INPUT body") (lines body)
  stripped ←
      or_else (invalid heap.diagnostics (codes "expected INPUT path, got: " ∷ first.0 ∷ []))
        (strip_prefix (codes "INPUT ") first.0)
  ok (stripped, first.1)

-- `InputMessage::parse`
unfoldable pub parse : InputHeap → Text → Result InputMessage
parse heap body = do
  enforce_message_limit input (len body) max_input_message_size
  head ← input_line heap body
  path ← try_owned_string heap.path head.0
  validate_primary_value heap.diagnostics (codes "INPUT path") path
  fields ← for_each (input_step heap) no_fields head.1
  ok (record { path = path; form_data = fields.form_data; session = fields.session })

abbrev pub key_index : Text → Option ℕ
key_index key =
    if text_eq key form_key then some 0 else if text_eq key session_key then some 1 else none

abbrev pub marked : InputHeap → Text → Option (List Bool) → Result (List Bool)
marked heap key none = err (invalid heap.diagnostics (codes "duplicate INPUT field: " ∷ key ∷ []))
marked heap key (some seen) = ok seen

abbrev pub mark_key : InputHeap → List Bool → Text → Option ℕ → Result (List Bool)
mark_key heap seen key none =
    err (invalid heap.diagnostics (codes "unknown INPUT field: " ∷ key ∷ []))
mark_key heap seen key (some index) = marked heap key (mark_seen seen index)

unfoldable pub check_step : InputHeap → List Bool → Text → Result (List Bool)
check_step heap seen line = do
  field ← parse_control_field heap.diagnostics line
  mark_key heap seen field.0 (key_index field.0)

-- `seen[1]`
abbrev pub second : List Bool → Bool
second (a ∷ b ∷ rest) = b
second _ = false

-- `validate_input_body`
unfoldable pub validate_input_body : InputHeap → Text → Result Bool
validate_input_body heap body = do
  enforce_message_limit input (len body) max_input_message_size
  head ← input_line heap body
  validate_primary_value heap.diagnostics (codes "INPUT path") head.0
  seen ← for_each (check_step heap) (false ∷ false ∷ []) head.1
  ok (second seen)

abbrev pub form_field : Text → Option Text
form_field form_data = if is_empty form_data then none else some form_data

-- the text that `serialize` writes
unfoldable pub input_body : InputMessage → Text
input_body self =
    codes "INPUT "
    ++ (self.path
        ++ b'\n'
          ∷ (field_line (codes "Form: ") (form_field self.form_data)
              ++ field_line (codes "Session: ") self.session))

-- `InputMessage::serialize`
unfoldable pub serialize : InputHeap → InputMessage → Result Text
serialize heap self = do
  requested ← checked_add_size (len (codes "INPUT \n")) (len self.path)
  requested ← add_field (codes "Form: \n") requested (form_field self.form_data)
  requested ← add_field (codes "Session: \n") requested self.session
  enforce_message_limit input requested max_input_message_size
  reserve (heap.body requested) requested
  ok (input_body self)
