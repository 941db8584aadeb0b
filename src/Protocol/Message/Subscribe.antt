-- ===== src/Protocol/Message/Subscribe.antt =====
-- crates/dustnet-core/src/protocol/message.rs: the body of SUBSCRIBE, parsed, checked and written.
pub mod Checked
pub mod RoundTrip
use dustnet.Base.{
  ℕ, ◌+◌, ◌%◌, ◌^◌, Bool, true, false, not, ◌&&◌, ◌||◌, Option, none, some, List, [], ◌∷◌, ◌++◌,
  ltb, if◌then◌else◌,
}
use dustnet.Base.Text.{Text, codes, len, text_eq, strip_prefix}
use dustnet.Protocol.Error.{
  subscribe, invalid_message, message_too_large, resource_exhausted, Result, ok, err, ◌>>=◌, ◌>>◌,
  reject, reserve,
}
use dustnet.Protocol.Message.Fields.{
  max_control_message_size, enforce_message_limit, try_owned_string, invalid, parse_control_field,
  validate_primary_value, mark_seen, field_line, first_line, for_each,
}
use dustnet.Protocol.Message.Lines.{lines}
use dustnet.Protocol.Path.{usize_max}
use dustnet.Protocol.Version.{or_else}
use dustnet.Scanner.Tags.{is_empty}

-- `SubscribeMode`
pub data SubscribeMode : Type 0 where
  replace delta : SubscribeMode

-- `SubscribeMessage`
pub record SubscribeMessage : Type 0 where
  pub path : Text
  pub region : Text
  pub mode : SubscribeMode
  pub session : Option Text

-- What the allocator grants: the copies of the path, the region and the token, the written body, and the
-- text of an error.
pub record SubscribeHeap : Type 0 where
  pub path : ℕ → Bool
  pub region : ℕ → Bool
  pub session : ℕ → Bool
  pub body : ℕ → Bool
  pub diagnostics : ℕ → Bool

-- the variables of the loop over the fields
pub record SubscribeFields : Type 0 where
  pub region : Text
  pub mode : SubscribeMode
  pub session : Option Text
  pub seen_region : Bool
  pub seen_mode : Bool
  pub seen_session : Bool

abbrev pub region_key : Text
region_key = codes "Region"

abbrev pub mode_key : Text
mode_key = codes "Mode"

abbrev pub token_key : Text
token_key = codes "Session"

abbrev pub duplicate_key : SubscribeHeap → Text → List Text
duplicate_key heap key = codes "duplicate SUBSCRIBE field: " ∷ key ∷ []

-- the last three arms of the match: what is refused
abbrev pub refused_field : SubscribeHeap → Bool → Text → Text → Result SubscribeFields
refused_field heap seen_mode key value =
    if text_eq key region_key || text_eq key token_key
    then err (invalid heap.diagnostics (duplicate_key heap key))
    else if text_eq key mode_key
    then (if seen_mode
        then err (invalid_message (codes "duplicate SUBSCRIBE field: Mode"))
        else err (invalid heap.diagnostics (codes "unknown subscription mode: " ∷ value ∷ [])))
    else err (invalid heap.diagnostics (codes "unknown SUBSCRIBE field: " ∷ key ∷ []))

-- the arms of the match on a field's key
unfoldable pub subscribe_field :
    SubscribeHeap → SubscribeFields → Text → Text → Result SubscribeFields
subscribe_field heap fields key value =
    if text_eq key region_key && not fields.seen_region
    then (try_owned_string heap.region value >>= λ region.
        ok (record fields { region = region; seen_region = true }))
    else if text_eq key mode_key && not fields.seen_mode && text_eq value (codes "delta")
    then ok (record fields { mode = delta; seen_mode = true })
    else if text_eq key mode_key && not fields.seen_mode && text_eq value (codes "replace")
    then ok (record fields { mode = replace; seen_mode = true })
    else if text_eq key token_key && not fields.seen_session
    then (try_owned_string heap.session value >>= λ token.
        ok (record fields { session = some token; seen_session = true }))
    else refused_field heap fields.seen_mode key value

unfoldable pub subscribe_step : SubscribeHeap → SubscribeFields → Text → Result SubscribeFields
subscribe_step heap fields line = do
  field ← parse_control_field heap.diagnostics line
  subscribe_field heap fields field.0 field.1

abbrev pub no_fields : SubscribeFields
no_fields = record {
  region = [];
  mode = replace;
  session = none;
  seen_region = false;
  seen_mode = false;
  seen_session = false;
}

abbrev pub subscribe_line : SubscribeHeap → Text → Result (Text × List Text)
subscribe_line heap body = do
  first ← first_line (codes "empty SUBSCRIBE body") (lines body)
  stripped ←
      or_else (invalid heap.diagnostics (codes "expected SUBSCRIBE path, got: " ∷ first.0 ∷ []))
        (strip_prefix (codes "SUBSCRIBE ") first.0)
  ok (stripped, first.1)

-- `SubscribeMessage::parse`
unfoldable pub parse : SubscribeHeap → Text → Result SubscribeMessage
parse heap body = do
  enforce_message_limit subscribe (len body) max_control_message_size
  head ← subscribe_line heap body
  path ← try_owned_string heap.path head.0
  validate_primary_value heap.diagnostics (codes "SUBSCRIBE path") path
  fields ← for_each (subscribe_step heap) no_fields head.1
  ok (record { path = path; region = fields.region; mode = fields.mode; session = fields.session })

abbrev pub key_index : Text → Option ℕ
key_index key =
    if text_eq key region_key
    then some 0
    else if text_eq key mode_key
    then some 1
    else if text_eq key token_key
    then some 2
    else none

abbrev pub unknown_mode : SubscribeHeap → Text → Text → Result (Unit {0})
unknown_mode heap key value =
    reject
      (text_eq key mode_key
        && not (text_eq value (codes "delta") || text_eq value (codes "replace")))
      (invalid heap.diagnostics (codes "unknown subscription mode: " ∷ value ∷ []))

abbrev pub marked : SubscribeHeap → Text → Text → Option (List Bool) → Result (List Bool)
marked heap key value none = err (invalid heap.diagnostics (duplicate_key heap key))
marked heap key value (some seen) = unknown_mode heap key value >> ok seen

abbrev pub mark_key : SubscribeHeap → List Bool → Text → Text → Option ℕ → Result (List Bool)
mark_key heap seen key value none =
    err (invalid heap.diagnostics (codes "unknown SUBSCRIBE field: " ∷ key ∷ []))
mark_key heap seen key value (some index) = marked heap key value (mark_seen seen index)

unfoldable pub check_step : SubscribeHeap → List Bool → Text → Result (List Bool)
check_step heap seen line = do
  field ← parse_control_field heap.diagnostics line
  mark_key heap seen field.0 field.1 (key_index field.0)

-- `seen[2]`
abbrev pub last_seen : List Bool → Bool
last_seen (a ∷ b ∷ c ∷ rest) = c
last_seen _ = false

-- `validate_subscribe_body`
unfoldable pub validate_subscribe_body : SubscribeHeap → Text → Result Bool
validate_subscribe_body heap body = do
  enforce_message_limit subscribe (len body) max_control_message_size
  head ← subscribe_line heap body
  validate_primary_value heap.diagnostics (codes "SUBSCRIBE path") head.0
  seen ← for_each (check_step heap) (false ∷ false ∷ false ∷ []) head.1
  ok (last_seen seen)

-- `usize::checked_add`, and a step that is skipped on overflow
abbrev pub checked_add : ℕ → ℕ → Option ℕ
checked_add a b = if ltb usize_max (a + b) then none else some (a + b)

abbrev pub and_then : Option ℕ → (ℕ → Option ℕ) → Option ℕ
and_then none f = none
and_then (some n) f = f n

abbrev pub add_extra : ℕ → Option ℕ → Option ℕ
add_extra size none = some size
add_extra size (some extra) = checked_add size extra

-- a text that is written unless it is empty
abbrev pub region_field : Text → Option Text
region_field [] = none
region_field (c ∷ s) = some (c ∷ s)

abbrev pub region_extra : Option Text → Option ℕ
region_extra none = none
region_extra (some region) = checked_add (len (codes "Region: \n")) (len region)

-- the mode that is written, unless it is the default
abbrev pub mode_field : SubscribeMode → Option Text
mode_field replace = none
mode_field delta = some (codes "delta")

abbrev pub mode_extra : SubscribeMode → Option ℕ
mode_extra replace = none
mode_extra delta = some (len (codes "Mode: delta\n"))

abbrev pub add_token : Option Text → ℕ → Option ℕ
add_token none size = some size
add_token (some token) size =
    and_then (checked_add size (len (codes "Session: \n"))) λ size. checked_add size (len token)

unfoldable pub requested_size : SubscribeMessage → Option ℕ
requested_size self =
    and_then
      (and_then
        (and_then (checked_add (len (codes "SUBSCRIBE \n")) (len self.path))
          λ size. add_extra size (region_extra (region_field self.region)))
        λ size. add_extra size (mode_extra self.mode))
      (add_token self.session)

-- the text that `serialize` writes
unfoldable pub subscribe_body : SubscribeMessage → Text
subscribe_body self =
    codes "SUBSCRIBE "
    ++ (self.path
        ++ b'\n'
          ∷ (field_line (codes "Region: ") (region_field self.region)
              ++ (field_line (codes "Mode: ") (mode_field self.mode)
                  ++ field_line (codes "Session: ") self.session)))

-- `SubscribeMessage::serialize` and `try_serialize_parts`; the size in the error is cut to 32 bits
unfoldable pub serialize : SubscribeHeap → SubscribeMessage → Result Text
serialize heap self = do
  requested ← or_else (resource_exhausted usize_max) (requested_size self)
  reject (ltb max_control_message_size requested)
      (message_too_large subscribe (requested % 2 ^ 32) max_control_message_size)
  reserve (heap.body requested) requested
  ok (subscribe_body self)
