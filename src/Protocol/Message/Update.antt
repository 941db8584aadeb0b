-- ===== src/Protocol/Message/Update.antt =====
-- crates/dustnet-core/src/protocol/message.rs: the body of UPDATE, parsed, checked and written.
pub mod Parts
pub mod RoundTrip
use dustnet.Base.{
  ℕ, ◌+◌, ◌%◌, Bool, true, false, not, ◌&&◌, ◌||◌, Option, none, some, List, [], ◌∷◌, ◌++◌, ltb,
  ◌==◌, if◌then◌else◌,
}
use dustnet.Base.Text.{Text, codes, len, strip_prefix}
use dustnet.Protocol.Error.{update, invalid_message, Result, ok, err, ◌>>=◌, ◌>>◌, reject, reserve}
use dustnet.Protocol.Message.Fields.{
  max_live_update_size, checked_add_size, enforce_message_limit, try_owned_string, invalid,
  validate_primary_value,
}
use dustnet.Protocol.Uri.{starts_with}
use dustnet.Protocol.Version.{or_else}
use dustnet.Scanner.Escape.{next_is, after_next}

-- `UpdateFlags`
pub record UpdateFlags : Type 0 where
  pub delta : Bool

-- `UpdateFlags::from_bits`, whose test is of the lowest bit
unfoldable pub from_bits : ℕ → UpdateFlags
from_bits flags = record { delta = flags % 2 == 1 }

-- `UpdateFlags::to_bits`
unfoldable pub to_bits : UpdateFlags → ℕ
to_bits self = if self.delta then 1 else 0

-- `UpdateMessage`
pub record UpdateMessage : Type 0 where
  pub region : Text
  pub content : Text
  pub flags : UpdateFlags

-- What the allocator grants: the copies of the region and the content, the written body, and the text of
-- an error.
pub record UpdateHeap : Type 0 where
  pub region : ℕ → Bool
  pub content : ℕ → Bool
  pub body : ℕ → Bool
  pub diagnostics : ℕ → Bool

-- a text up to its first line feed, and from there on
unfoldable pub first_and_tail : Text → Text × Text
first_and_tail [] = ([], [])
first_and_tail (c ∷ s) =
    let (first, tail) = first_and_tail s in if c == b'\n' then ([], c ∷ s) else (c ∷ first, tail)

-- what is behind the first blank line: `find("\n\n")`
unfoldable pub after_blank : Text → Option Text
after_blank [] = none
after_blank (c ∷ s) =
    let rest = after_blank s in if c == b'\n' && next_is b'\n' s then some (after_next s) else rest

abbrev pub region_label : Text
region_label = codes "UPDATE region-id"

-- `UpdateMessage::validate_serialized`
unfoldable pub validate_serialized : UpdateHeap → Text → Result (Unit {0})
validate_serialized heap body = do
  region ←
      or_else (invalid_message (codes "UPDATE body has an invalid first line"))
        (strip_prefix (codes "UPDATE ") (first_and_tail body).0)
  validate_primary_value heap.diagnostics region_label region
  reject (not (starts_with (codes "\n\n") (first_and_tail body).1))
      (invalid_message (codes "UPDATE body is missing its content separator"))

abbrev pub owned_content : UpdateHeap → Option Text → Result Text
owned_content heap none = ok []
owned_content heap (some content) = try_owned_string heap.content content

-- `UpdateMessage::parse`
unfoldable pub parse : UpdateHeap → Text → Result UpdateMessage
parse heap body = do
  enforce_message_limit update (len body) max_live_update_size
  validate_serialized heap body
  stripped ←
      or_else
        (invalid heap.diagnostics (codes "expected UPDATE, got: " ∷ (first_and_tail body).0 ∷ []))
        (strip_prefix (codes "UPDATE ") (first_and_tail body).0)
  region ← try_owned_string heap.region stripped
  content ← owned_content heap (after_blank body)
  ok (record { region = region; content = content; flags = record { delta = false } })

-- `UpdateMessage::with_flags`
unfoldable pub with_flags : ℕ → UpdateMessage → UpdateMessage
with_flags flags_byte self = record self { flags = from_bits flags_byte }

-- `UpdateMessage::parts_body_len`
unfoldable pub parts_body_len : Text → ℕ → Result ℕ
parts_body_len region content_len = do
  size ← checked_add_size (len (codes "UPDATE \n\n")) (len region)
  checked_add_size size content_len

-- `UpdateMessage::validate_update_parts`
unfoldable pub validate_update_parts : UpdateHeap → Text → ℕ → Result (Unit {0})
validate_update_parts heap region content_len = do
  validate_primary_value heap.diagnostics region_label region
  requested ← parts_body_len region content_len
  enforce_message_limit update requested max_live_update_size

-- the text that `try_serialize_parts` writes
unfoldable pub update_body : Text → Text → Text
update_body region content = codes "UPDATE " ++ (region ++ b'\n' ∷ b'\n' ∷ content)

-- `UpdateMessage::try_serialize_parts`
unfoldable pub try_serialize_parts : UpdateHeap → Text → Text → Result Text
try_serialize_parts heap region content = do
  validate_primary_value heap.diagnostics region_label region
  size ← checked_add_size (len (codes "UPDATE \n\n")) (len region)
  requested ← checked_add_size size (len content)
  enforce_message_limit update requested max_live_update_size
  reserve (heap.body requested) requested
  ok (update_body region content)

-- `UpdateMessage::serialize`
unfoldable pub serialize : UpdateHeap → UpdateMessage → Result Text
serialize heap self = try_serialize_parts heap self.region self.content
