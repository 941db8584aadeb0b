-- ===== src/Protocol/Message/Page/Checked.antt =====
-- crates/dustnet-core/src/protocol/message.rs: the check of a PAGE body and its decoder agree.
use dustnet.Base.{
  ℕ, Bool, true, false, not, ◌&&◌, ◌||◌, Option, none, some, List, [], ◌∷◌, ◌++◌, ltb, leb, length,
  if◌then◌else◌, ◌≡◌, refl, sym, ap, ◌∙◌, arith, All, Bool-cases, inl, inr,
}
use dustnet.Base.Text.{Text, codes, len, text_eq, split_once, trim}
use dustnet.Base.Utf8.{as_bytes, IsChar, from_utf8-as_bytes, length-as_bytes}
use dustnet.Protocol.Error.{ProtocolError, page, Result, ok, err, ◌>>=◌, ◌>>◌, reject}
use dustnet.Protocol.Message.Fields.{
  enforce_message_limit, try_owned_string, invalid, parse_control_field, for_each, for_each-follows,
  >>=-follows,
}
use dustnet.Protocol.Message.Lines.{lines}
use dustnet.Protocol.Message.Page.{
  max_page_message_size, PageFlags, PageMessage, PageHeap, PageFields, from_bits, split_blank,
  valid_session_scope, path_key, set_key, clear_key, read_set, read_clear,
  try_parse_session_directive, has_text, has_directive, path_refusals, page_field, page_step,
  missing_fields, decode_metadata, decode_text, decode_body, valid_set, valid_directive,
  check_field, check_step, check_metadata, validate_page_body,
}
use dustnet.Protocol.Version.{or_else}
use dustnet.Scanner.Tags.{is_empty}
use dustnet.Session.Directive.{SessionDirective, max_token_len, set_parts}

-- The allocator grants every copy.
pub record Generous (heap : PageHeap) : Type 0 where
  pub content : (n : ℕ) → heap.content n ≡ true
  pub path : (n : ℕ) → heap.path n ≡ true
  pub directives : (n : ℕ) → heap.directives n ≡ true
  pub token : (i n : ℕ) → heap.token i n ≡ true
  pub scope : (i n : ℕ) → heap.scope i n ≡ true

-- what the check knows of the decoder's fields
abbrev seen : PageFields → Bool × Bool
seen fields = (has_text fields.path, has_directive fields.directives)

has_directive-append :
    (ds : List SessionDirective) (d : SessionDirective) → has_directive (ds ++ d ∷ []) ≡ true
has_directive-append [] d = refl
has_directive-append (e ∷ ds) d = refl

-- A field is let through if and only if it is read as a directive.
abbrev ReadIf : Bool → Result (Option SessionDirective) → Type 0
ReadIf false r = r ≡ ok none
ReadIf true r = (d : SessionDirective) × (r ≡ ok (some d))

read_set-ReadIf :
    (heap : PageHeap) (index : ℕ) (parts : Text × Text × Option ℕ)
    → Generous heap
    → ReadIf (valid_set parts) (read_set heap index parts)
read_set-ReadIf heap index (token, scope, expires) g =
    tell (is_empty token) (len token) (valid_session_scope scope)
  where
    tell :
        (e : Bool) (n : ℕ) (v : Bool)
        → ReadIf (not e && leb n max_token_len && v) (
            if e || ltb max_token_len n || not v
            then ok none
            else (try_owned_string (heap.token index) token >>= λ t.
                try_owned_string (heap.scope index) scope >>= λ s.
                ok (some (SessionDirective.set t s expires))))
    tell true n v = refl
    tell false n false = elim (Bool-cases (leb n max_token_len)) [
      | inl k ↦ rw (k, within n k) refl
      | inr k ↦ rw (k, beyond n k) refl
    ]
      where
        within : (n : ℕ) → leb n max_token_len ≡ true → ltb max_token_len n ≡ false
        within n k = ground arith

        beyond : (n : ℕ) → leb n max_token_len ≡ false → ltb max_token_len n ≡ true
        beyond n k = ground arith
    tell false n true = elim (Bool-cases (leb n max_token_len)) [
      | inl k ↦ rw (k, within n k, g.token index (len token), g.scope index (len scope)) (_, refl)
      | inr k ↦ rw (k, beyond n k) refl
    ]
      where
        within : (n : ℕ) → leb n max_token_len ≡ true → ltb max_token_len n ≡ false
        within n k = ground arith

        beyond : (n : ℕ) → leb n max_token_len ≡ false → ltb max_token_len n ≡ true
        beyond n k = ground arith

read_clear-ReadIf :
    (heap : PageHeap) (index : ℕ) (scope : Text)
    → Generous heap
    → ReadIf (valid_session_scope scope) (read_clear heap index scope)
read_clear-ReadIf heap index scope g = elim (Bool-cases (valid_session_scope scope)) [
  | inl k ↦ rw (k, g.scope index (len scope)) (_, refl)
  | inr k ↦ rw k refl
]

directive-ReadIf :
    (heap : PageHeap) (index : ℕ) (key value : Text)
    → Generous heap
    → (text_eq key set_key || text_eq key clear_key) ≡ true
    → ReadIf (valid_directive key value) (try_parse_session_directive heap index key value)
unfolding try_parse_session_directive
directive-ReadIf heap index key value g e = elim (Bool-cases (text_eq key set_key)) [
  | inl k ↦ rw k (read_set-ReadIf heap index (set_parts (split_once b' ' value) value) g)
  | inr k ↦
      rw (k, clears (text_eq key set_key) (text_eq key clear_key) k e)
        (read_clear-ReadIf heap index (trim value) g)
]
  where
    clears : (a b : Bool) → a ≡ false → (a || b) ≡ true → b ≡ true
    clears a b k h = ground arith

-- the two ways on from a field that is a directive
directive-follows :
    (heap : PageHeap) (path : Option Text) (ds : List SessionDirective) (e : ProtocolError)
    (valid : Bool) (r : Result (Option SessionDirective))
    → ReadIf valid r
    → (reject (not valid) e >> ok (has_text path, true)) ≡ (
        (r >>= λ found.
        or_else e found >>= λ d. ok (record { path = path; directives = ds ++ d ∷ [] }))
        >>= λ t. ok (seen t))
directive-follows heap path ds e false r h = rw h refl
directive-follows heap path ds e true r (d, h) =
    rw h (ap (λ b. ok (has_text path, b)) (sym (has_directive-append ds d)))

check_field-page_field :
    (heap : PageHeap) (flags : PageFlags) (fields : PageFields) (key value : Text)
    → Generous heap
    → check_field heap flags (seen fields) key value
      ≡ (page_field heap flags fields key value >>= λ t. ok (seen t))
check_field-page_field heap flags fields key value g = elim (Bool-cases (text_eq key path_key)) [
  | inl e ↦ rw e (
      >>=-follows (path_refusals flags (has_text fields.path) value) _ _ (λ t. ok (seen t))
        λ _. rw (g.path (len value)) refl)
  | inr e ↦ rw e (elim (Bool-cases (text_eq key set_key || text_eq key clear_key)) [
    | inl k ↦ rw k (
        directive-follows heap fields.path fields.directives
          (invalid heap.diagnostics (codes "invalid PAGE metadata field: " ∷ key ∷ []))
          (valid_directive key value)
          (try_parse_session_directive heap (length fields.directives) key value)
          (directive-ReadIf heap (length fields.directives) key value g k))
    | inr k ↦ rw k refl
  ])
]

check_step-page_step :
    (heap : PageHeap) (flags : PageFlags) (fields : PageFields) (line : Text)
    → Generous heap
    → check_step heap flags (seen fields) line
      ≡ (page_step heap flags fields line >>= λ t. ok (seen t))
unfolding check_step page_step
check_step-page_step heap flags fields line g =
    >>=-follows (parse_control_field heap.diagnostics line) _ _ (λ t. ok (seen t))
      λ field. check_field-page_field heap flags fields field.0 field.1 g

check_metadata-decode_metadata :
    (heap : PageHeap) (flags : PageFlags) (o : Option (Text × Text))
    → Generous heap
    → check_metadata heap flags o ≡ (decode_metadata heap flags o >>= λ m. ok tt)
check_metadata-decode_metadata heap flags none g = refl
check_metadata-decode_metadata heap flags (some (metadata, content)) g =
    rw (g.directives (length (lines metadata))) (
      ap (λ r. r >>= λ s. missing_fields flags s.0 s.1)
        (for_each-follows seen (page_step heap flags) (check_step heap flags)
          (record { path = none; directives = [] }) (lines metadata)
          (λ s l. check_step-page_step heap flags s l g))
      ∙ behind (
          for_each (page_step heap flags) (record { path = none; directives = [] })
            (lines metadata)))
  where
    message : Text → PageFields → PageMessage
    message c t = record {
      content = c;
      flags = flags;
      path = t.path;
      session_directives = t.directives;
    }

    granted :
        (r : Result (Unit {0})) (t : PageFields)
        → r ≡ (
            (r >>= λ _. try_owned_string heap.content content >>= λ c. ok (message c t)) >>= λ m.
            ok tt)
    granted (ok tt) t = rw (g.content (len content)) refl
    granted (err e) t = refl

    behind :
        (r : Result PageFields)
        → ((r >>= λ t. ok (seen t)) >>= λ s. missing_fields flags s.0 s.1) ≡ (
            (r >>= λ t. missing_fields flags (has_text t.path) (has_directive t.directives) >>= λ _.
            try_owned_string heap.content content >>= λ c. ok (message c t))
            >>= λ m. ok tt)
    behind (err e) = refl
    behind (ok t) = granted (missing_fields flags (has_text t.path) (has_directive t.directives)) t

-- With an allocator that grants every request, the check of a PAGE body that assembles nothing accepts
-- exactly what the decoder accepts, and refuses the others with the same errors, for all flags.
pub validate_page_body-decode_body :
    (heap : PageHeap) (body : Text) (flags : ℕ)
    → Generous heap
    → All IsChar body
    → validate_page_body heap body (from_bits flags)
      ≡ (decode_body heap (as_bytes body) flags >>= λ m. ok tt)
unfolding validate_page_body decode_body decode_text
validate_page_body-decode_body heap body flags g h =
    rw (length-as_bytes body, from_utf8-as_bytes body h)
      (>>=-follows (enforce_message_limit page (len body) max_page_message_size) _ _ (λ m. ok tt)
        λ _. behind (from_bits flags))
  where
    behind :
        (f : PageFlags)
        → (if not f.has_session && not f.has_path
            then ok tt
            else check_metadata heap f (split_blank body))
          ≡ ((if not f.has_session && not f.has_path
                then (try_owned_string heap.content body >>= λ content.
                    ok (record {
                      content = content;
                      flags = f;
                      path = none;
                      session_directives = [];
                    }))
                else decode_metadata heap f (split_blank body))
              >>= λ m. ok tt)
    behind f = elim (Bool-cases (not f.has_session && not f.has_path)) [
      | inl e ↦ rw (e, g.content (len body)) refl
      | inr e ↦ rw e (check_metadata-decode_metadata heap f (split_blank body) g)
    ]
