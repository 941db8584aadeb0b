-- ===== src/Protocol/Message/Get.antt =====
-- crates/dustnet-core/src/protocol/message.rs: the body of GET, parsed, checked and written.
pub mod Checked
pub mod RoundTrip
use dustnet.Base.{
  ℕ, ◌+◌, Bool, true, false, not, ◌&&◌, ◌||◌, Option, none, some, List, [], ◌∷◌, ◌++◌, ltb,
  if◌then◌else◌,
}
use dustnet.Base.Text.{Text, codes, len, text_eq, strip_prefix}
use dustnet.Protocol.Error.{get, invalid_message, Result, ok, err, ◌>>=◌, ◌>>◌, reject, reserve}
use dustnet.Protocol.Message.Fields.{
  max_control_message_size, checked_add_size, enforce_message_limit, try_owned_string, invalid,
  parse_control_field, validate_primary_value, mark_seen, field_line, first_line, for_each,
}
use dustnet.Protocol.Message.Lines.{lines}
use dustnet.Protocol.Version.{or_else}

-- `GetMessage`
pub record GetMessage : Type 0 where
  pub path : Text
  pub query : Option Text
  pub referrer : Option Text
  pub session : Option Text

-- What the allocator grants: the copies of the path and of the fields, the written body, and the text of
-- an error.
pub record GetHeap : Type 0 where
  pub path : ℕ → Bool
  pub query : ℕ → Bool
  pub referrer : ℕ → Bool
  pub session : ℕ → Bool
  pub body : ℕ → Bool
  pub diagnostics : ℕ → Bool

-- the variables of the loop over the fields
pub record GetFields : Type 0 where
  pub query : Option Text
  pub referrer : Option Text
  pub session : Option Text
  pub seen_query : Bool
  pub seen_referrer : Bool
  pub seen_session : Bool

abbrev pub query_key : Text
query_key = codes "Query"

abbrev pub referrer_key : Text
referrer_key = codes "Referrer"

abbrev pub session_key : Text
session_key = codes "Session"

abbrev pub refused_field : GetHeap → Text → Result GetFields
refused_field heap key =
    if text_eq key query_key || text_eq key referrer_key || text_eq key session_key
    then err (invalid heap.diagnostics (codes "duplicate GET field: " ∷ key ∷ []))
    else err (invalid heap.diagnostics (codes "unknown GET field: " ∷ key ∷ []))

-- the arms of the match on a field's key
unfoldable pub get_field : GetHeap → GetFields → Text → Text → Result GetFields
get_field heap fields key value =
    if text_eq key query_key && not fields.seen_query
    then (try_owned_string heap.query value >>= λ query.
        ok (record fields { query = some query; seen_query = true }))
    else if text_eq key referrer_key && not fields.seen_referrer
    then (try_owned_string heap.referrer value >>= λ referrer.
        ok (record fields { referrer = some referrer; seen_referrer = true }))
    else if text_eq key session_key && not fields.seen_session
    then (try_owned_string heap.session value >>= λ token.
        ok (record fields { session = some token; seen_session = true }))
    else refused_field heap key

unfoldable pub get_step : GetHeap → GetFields → Text → Result GetFields
get_step heap fields line = do
  field ← parse_control_field heap.diagnostics line
  get_field heap fields field.0 field.1

abbrev pub no_fields : GetFields
no_fields = record {
  query = none;
  referrer = none;
  session = none;
  seen_query = false;
  seen_referrer = false;
  seen_session = false;
}

abbrev pub get_line : GetHeap → Text → Result (Text × List Text)
get_line heap body = do
  first ← first_line (codes "empty GET body") (lines body)
  stripped ←
      or_else (invalid heap.diagnostics (codes "expected GET path, got: " ∷ first.0 ∷ []))
        (strip_prefix (codes "GET ") first.0)
  ok (stripped, first.1)

-- `GetMessage::parse`
unfoldable pub parse : GetHeap → Text → Result GetMessage
parse heap body = do
  enforce_message_limit get (len body) max_control_message_size
  head ← get_line heap body
  path ← try_owned_string heap.path head.0
  validate_primary_value heap.diagnostics (codes "GET path") path
  fields ← for_each (get_step heap) no_fields head.1
  ok (record {
    path = path;
    query = fields.query;
    referrer = fields.referrer;
    session = fields.session;
  })

abbrev pub key_index : Text → Option ℕ
key_index key =
    if text_eq key query_key
    then some 0
    else if text_eq key referrer_key
    then some 1
    else if text_eq key session_key
    then some 2
    else none

abbrev pub marked : GetHeap → Text → Option (List Bool) → Result (List Bool)
marked heap key none = err (invalid heap.diagnostics (codes "duplicate GET field: " ∷ key ∷ []))
marked heap key (some seen) = ok seen

abbrev pub mark_key : GetHeap → List Bool → Text → Option ℕ → Result (List Bool)
mark_key heap seen key none =
    err (invalid heap.diagnostics (codes "unknown GET field: " ∷ key ∷ []))
mark_key heap seen key (some index) = marked heap key (mark_seen seen index)

unfoldable pub check_step : GetHeap → List Bool → Text → Result (List Bool)
check_step heap seen line = do
  field ← parse_control_field heap.diagnostics line
  mark_key heap seen field.0 (key_index field.0)

-- `seen[2]`
abbrev pub third : List Bool → Bool
third (a ∷ b ∷ c ∷ rest) = c
third _ = false

-- `validate_get_body`
unfoldable pub validate_get_body : GetHeap → Text → Result Bool
validate_get_body heap body = do
  enforce_message_limit get (len body) max_control_message_size
  head ← get_line heap body
  validate_primary_value heap.diagnostics (codes "GET path") head.0
  seen ← for_each (check_step heap) (false ∷ false ∷ false ∷ []) head.1
  ok (third seen)

-- one round of the loop over the fields that adds up their sizes
abbrev pub add_get_field : Text → ℕ → Option Text → Result ℕ
add_get_field prefix size none = ok size
add_get_field prefix size (some value) = do
  size ← checked_add_size size (len prefix)
  checked_add_size size (len value + 1)

-- the text that `serialize` writes
unfoldable pub get_body : GetMessage → Text
get_body self =
    codes "GET "
    ++ (self.path
        ++ b'\n'
          ∷ (field_line (codes "Query: ") self.query
              ++ (field_line (codes "Referrer: ") self.referrer
                  ++ field_line (codes "Session: ") self.session)))

-- `GetMessage::serialize`
unfoldable pub serialize : GetHeap → GetMessage → Result Text
serialize heap self = do
  requested ← checked_add_size (len (codes "GET \n")) (len self.path)
  requested ← add_get_field (codes "Query: ") requested self.query
  requested ← add_get_field (codes "Referrer: ") requested self.referrer
  requested ← add_get_field (codes "Session: ") requested self.session
  enforce_message_limit get requested max_control_message_size
  reserve (heap.body requested) requested
  ok (get_body self)
