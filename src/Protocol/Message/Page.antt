-- ===== src/Protocol/Message/Page.antt =====
-- crates/dustnet-core/src/protocol/message.rs: the body of PAGE, decoded and checked. The text of the
-- standard library's error on bytes that are not UTF-8, and the size of a directive in memory, are
-- parameters.
pub mod Checked
use dustnet.Base.{
  ℕ, ◌+◌, ◌*◌, ◌/◌, ◌%◌, Bool, true, false, not, ◌&&◌, ◌||◌, Option, none, some, List, [], ◌∷◌,
  ◌++◌, ltb, leb, ◌==◌, any, length, if◌then◌else◌,
}
use dustnet.Base.Text.{Text, codes, len, text_eq, is_control, contains, split_once, trim, onto_left}
use dustnet.Base.Utf8.{Bytes, from_utf8}
use dustnet.Protocol.Error.{page, invalid_message, Result, ok, err, ◌>>=◌, ◌>>◌, reject, reserve}
use dustnet.Protocol.Message.Fields.{
  enforce_message_limit, try_owned_string, invalid, parse_control_field, for_each,
}
use dustnet.Protocol.Message.Lines.{lines}
use dustnet.Protocol.Path.{usize_max}
use dustnet.Protocol.Uri.{starts_with}
use dustnet.Protocol.Version.{or_else}
use dustnet.Scanner.Escape.{next_is, after_next}
use dustnet.Scanner.Tags.{is_empty}
use dustnet.Session.Directive.{
  SessionDirective, set, clear, max_token_len, valid_scope, set_parts, invalid_token,
}

abbrev pub max_page_message_size : ℕ
max_page_message_size = 1024 * 1024 + 64 * 1024

abbrev pub max_page_path_len : ℕ
max_page_path_len = 1024

-- `PageFlags`
pub record PageFlags : Type 0 where
  pub cacheable : Bool
  pub has_live_regions : Bool
  pub has_path : Bool
  pub has_session : Bool

-- `PageFlags::from_bits`, whose tests are of the four lowest bits
unfoldable pub from_bits : ℕ → PageFlags
from_bits flags = record {
  cacheable = flags % 2 == 1;
  has_live_regions = flags / 2 % 2 == 1;
  has_path = flags / 4 % 2 == 1;
  has_session = flags / 8 % 2 == 1;
}

-- `PageMessage`
pub record PageMessage : Type 0 where
  pub content : Text
  pub flags : PageFlags
  pub path : Option Text
  pub session_directives : List SessionDirective

-- What the allocator grants: the copies of the content and the path, the vector of directives, the copies
-- of the token and the scope of the directive with a given number, and the text of an error.
pub record PageHeap : Type 0 where
  pub content : ℕ → Bool
  pub path : ℕ → Bool
  pub directives : ℕ → Bool
  pub token : ℕ → ℕ → Bool
  pub scope : ℕ → ℕ → Bool
  pub diagnostics : ℕ → Bool
  pub directive_size : ℕ
  pub utf8_error : Bytes → Text

unfoldable pub valid_page_path : Text → Bool
valid_page_path value =
    next_is b'/' value
    && not (starts_with (codes "//") value)
    && not (contains b'#' value)
    && not (any is_control value)

-- the text in front of the first blank line, and the text behind it
unfoldable pub split_blank : Text → Option (Text × Text)
split_blank [] = none
split_blank (c ∷ s) =
    let rest = onto_left c (split_blank s) in
    if c == b'\n' && next_is b'\n' s then some ([], after_next s) else rest

-- `valid_session_scope`, the same test as in session.rs
abbrev pub valid_session_scope : Text → Bool
valid_session_scope scope = valid_scope scope

abbrev pub path_key : Text
path_key = codes "Path"

abbrev pub set_key : Text
set_key = codes "Set-Session"

abbrev pub clear_key : Text
clear_key = codes "Clear-Session"

abbrev pub read_set : PageHeap → ℕ → Text × Text × Option ℕ → Result (Option SessionDirective)
read_set heap index (token, scope, expires) =
    if is_empty token || ltb max_token_len (len token) || not (valid_session_scope scope)
    then ok none
    else (do
      token ← try_owned_string (heap.token index) token
      scope ← try_owned_string (heap.scope index) scope
      ok (some (set token scope expires)))

abbrev pub read_clear : PageHeap → ℕ → Text → Result (Option SessionDirective)
read_clear heap index scope =
    if not (valid_session_scope scope)
    then ok none
    else (try_owned_string (heap.scope index) scope >>= λ scope. ok (some (clear scope)))

-- `try_parse_session_directive`
unfoldable pub try_parse_session_directive :
    PageHeap → ℕ → Text → Text → Result (Option SessionDirective)
try_parse_session_directive heap index key value =
    if text_eq key set_key
    then read_set heap index (set_parts (split_once b' ' value) value)
    else if text_eq key clear_key
    then read_clear heap index (trim value)
    else ok none

-- the variables of the loop over the metadata
pub record PageFields : Type 0 where
  pub path : Option Text
  pub directives : List SessionDirective

abbrev pub has_text : Option Text → Bool
has_text none = false
has_text (some t) = true

abbrev pub has_directive : List SessionDirective → Bool
has_directive [] = false
has_directive (d ∷ ds) = true

-- the refusals of a `Path` field
abbrev pub path_refusals : PageFlags → Bool → Text → Result (Unit {0})
path_refusals flags seen value = do
  reject seen (invalid_message (codes "duplicate PAGE Path field"))
  reject (not flags.has_path) (invalid_message (codes "PAGE Path without the path flag"))
  reject (ltb max_page_path_len (len value)) (invalid_message (codes "PAGE Path too long"))
  reject (not (valid_page_path value))
      (invalid_message (codes "PAGE Path must be an absolute same-origin path"))

abbrev pub unknown_page_field : PageHeap → Text → Result (Unit {0})
unknown_page_field heap key =
    reject (not (text_eq key set_key || text_eq key clear_key))
      (invalid heap.diagnostics (codes "unknown PAGE metadata field: " ∷ key ∷ []))

abbrev pub page_field : PageHeap → PageFlags → PageFields → Text → Text → Result PageFields
page_field heap flags fields key value =
    if text_eq key path_key
    then (do
      path_refusals flags (has_text fields.path) value
      path ← try_owned_string heap.path value
      ok (record fields { path = some path }))
    else (do
      unknown_page_field heap key
      found ← try_parse_session_directive heap (length fields.directives) key value
      directive ←
          or_else (invalid heap.diagnostics (codes "invalid PAGE metadata field: " ∷ key ∷ []))
            found
      ok (record fields { directives = fields.directives ++ directive ∷ [] }))

unfoldable pub page_step : PageHeap → PageFlags → PageFields → Text → Result PageFields
page_step heap flags fields line = do
  field ← parse_control_field heap.diagnostics line
  page_field heap flags fields field.0 field.1

-- what a flag promises and the metadata lack
abbrev pub missing_fields : PageFlags → Bool → Bool → Result (Unit {0})
missing_fields flags path directive = do
  reject (flags.has_path && not path)
      (invalid_message (codes "PAGE path flag without a Path field"))
  reject (flags.has_session && not directive)
      (invalid_message (codes "PAGE session flag without a session directive"))

abbrev pub saturating_mul : ℕ → ℕ → ℕ
saturating_mul a b = if ltb usize_max (a * b) then usize_max else a * b

abbrev pub decode_metadata : PageHeap → PageFlags → Option (Text × Text) → Result PageMessage
decode_metadata heap flags none =
    err (invalid_message (codes "PAGE metadata flag requires metadata separator"))
decode_metadata heap flags (some (metadata, content)) = do
  let count = length (lines metadata)
  reserve (heap.directives count) (saturating_mul count heap.directive_size)
  fields ←
      for_each (page_step heap flags) (record { path = none; directives = [] }) (lines metadata)
  missing_fields flags (has_text fields.path) (has_directive fields.directives)
  content ← try_owned_string heap.content content
  ok (record {
    content = content;
    flags = flags;
    path = fields.path;
    session_directives = fields.directives;
  })

-- `PageMessage::decode_body`, behind the check that the body is UTF-8
unfoldable pub decode_text : PageHeap → PageFlags → Text → Result PageMessage
decode_text heap flags body =
    if not flags.has_session && not flags.has_path
    then (try_owned_string heap.content body >>= λ content.
        ok (record { content = content; flags = flags; path = none; session_directives = [] }))
    else decode_metadata heap flags (split_blank body)

-- `PageMessage::decode_body`
unfoldable pub decode_body : PageHeap → Bytes → ℕ → Result PageMessage
decode_body heap body flags_byte = do
  enforce_message_limit page (length body) max_page_message_size
  text ←
      or_else (invalid heap.diagnostics (codes "invalid UTF-8: " ∷ heap.utf8_error body ∷ []))
        (from_utf8 body)
  decode_text heap (from_bits flags_byte) text

abbrev pub valid_set : Text × Text × Option ℕ → Bool
valid_set (token, scope, expires) =
    not (is_empty token) && leb (len token) max_token_len && valid_session_scope scope

-- whether the field of a directive is valid
abbrev pub valid_directive : Text → Text → Bool
valid_directive key value =
    if text_eq key set_key
    then valid_set (set_parts (split_once b' ' value) value)
    else valid_session_scope (trim value)

abbrev pub check_field : PageHeap → PageFlags → Bool × Bool → Text → Text → Result (Bool × Bool)
check_field heap flags (saw_path, saw_directive) key value =
    if text_eq key path_key
    then (path_refusals flags saw_path value >> ok (true, saw_directive))
    else (do
      unknown_page_field heap key
      reject (not (valid_directive key value))
          (invalid heap.diagnostics (codes "invalid PAGE metadata field: " ∷ key ∷ []))
      ok (saw_path, true))

unfoldable pub check_step : PageHeap → PageFlags → Bool × Bool → Text → Result (Bool × Bool)
check_step heap flags seen line = do
  field ← parse_control_field heap.diagnostics line
  check_field heap flags seen field.0 field.1

abbrev pub check_metadata : PageHeap → PageFlags → Option (Text × Text) → Result (Unit {0})
check_metadata heap flags none =
    err (invalid_message (codes "PAGE metadata flag requires metadata separator"))
check_metadata heap flags (some (metadata, content)) = do
  seen ← for_each (check_step heap flags) (false, false) (lines metadata)
  missing_fields flags seen.0 seen.1

-- `validate_page_body`
unfoldable pub validate_page_body : PageHeap → Text → PageFlags → Result (Unit {0})
validate_page_body heap body flags = do
  enforce_message_limit page (len body) max_page_message_size
  if not flags.has_session && not flags.has_path
      then ok tt
      else check_metadata heap flags (split_blank body)
