-- ===== src/Scanner/Tags.antt =====
-- crates/dustnet-core/src/scanner/mod.rs: attributes, tags, and the loop over tokens.
use dustnet.Base.{
  ℕ, zero, suc, ◌+◌, ◌*◌, Bool, true, false, Option, none, some, List, [], ◌∷◌, ◌++◌, ltb,
  if◌then◌else◌, length,
}
use dustnet.Base.Text.{Text}
use dustnet.Base.Utf8.{Bytes, from_utf8}
use dustnet.Scanner.Escape.{next_is, after_next, sanitize}
use dustnet.Scanner.Token.{
  AttributeValue, string, ident, flag, Attribute, Token, open_tag, close_tag, text, eof,
  input_too_large, invalid_utf8, too_many_tokens, unterminated_tag, invalid_tag_name,
  attribute_value_too_long, max_input_size, max_token_count, max_attribute_value_chars, sanitized,
  chars, tokens, text_site, attributes, Allocator, Scan, ok, err, out_of_fuel, ◌>>=◌, ◌>>◌, reject,
  reserve,
}
use dustnet.Scanner.Lexer.{
  Scanner, moved, skip_whitespace, scan_text, scan_name, scan_quoted_string, scan_unquoted_value,
}

-- `self.skip_whitespace()`
abbrev pub skipped : Scanner → Scanner
skipped s = moved s (skip_whitespace s.left)

-- `self.pos += 1` at a character
abbrev pub stepped : Scanner → Scanner
stepped s = moved s (after_next s.left)

abbrev pub is_empty : Text → Bool
is_empty [] = true
is_empty (c ∷ cs) = false

abbrev pub value_length : AttributeValue → ℕ
value_length (string v) = length v
value_length (ident v) = length v
value_length flag = 0

abbrev pub is_eof : Token → Bool
is_eof eof = true
is_eof (open_tag _ _ _) = false
is_eof (close_tag _) = false
is_eof (text _) = false

abbrev pub with_attribute : List Attribute → Option Attribute → List Attribute
with_attribute attrs none = attrs
with_attribute attrs (some a) = attrs ++ a ∷ []

abbrev pub of_utf8 : Option Text → Scan Text
of_utf8 none = err invalid_utf8
of_utf8 (some s) = ok s

module _ (heap : Allocator) where
  unfoldable pub scan_attribute_value : Scanner → Scan (AttributeValue × Scanner)
  scan_attribute_value s = do
    p ←
        if next_is b'"' s.left
        then (scan_quoted_string heap s >>= λ p. ok (string p.0, p.1))
        else (scan_unquoted_value heap s >>= λ p. ok (ident p.0, p.1))
    reject (ltb max_attribute_value_chars (value_length p.0))
        (attribute_value_too_long max_attribute_value_chars)
    ok p

  unfoldable pub scan_attribute : Scanner → Scan (Option Attribute × Scanner)
  scan_attribute s = do
    p ← scan_name heap s
    if is_empty p.0
        then ok (none, stepped p.1)
        else if next_is b'=' p.1.left
        then (scan_attribute_value (stepped p.1) >>= λ q.
            ok (some (record { name = p.0; value = q.0 }), q.1))
        else ok (some (record { name = p.0; value = flag }), p.1)

  -- The loop of `scan_open_tag`: the attributes, `self_closing`, and the state behind the tag.
  unfoldable pub scan_attributes :
      ℕ → ℕ → List Attribute → Scanner → Scan (List Attribute × Bool × Scanner)
  scan_attributes zero tag_start attrs s = out_of_fuel
  scan_attributes (suc fuel) tag_start attrs s =
      let t = skipped s in
      let attribute = reserve heap attributes ((length attrs + 1) * heap.attribute_size) >>= λ _.
      scan_attribute t >>= λ p. scan_attributes fuel tag_start (with_attribute attrs p.0) p.1 in
      if is_empty t.left
      then err (unterminated_tag tag_start)
      else if next_is b']' t.left
      then ok (attrs, false, stepped t)
      else if next_is b'/' t.left
      then (if next_is b']' (after_next t.left)
          then ok (attrs, true, stepped (stepped t))
          else attribute)
      else attribute

  unfoldable pub scan_open_tag : ℕ → Scanner → Scan (Token × Scanner)
  scan_open_tag tag_start s = do
    p ← scan_name heap (skipped s)
    reject (is_empty p.0) (invalid_tag_name tag_start)
    q ← scan_attributes (suc (length p.1.left)) tag_start [] p.1
    ok (open_tag p.0 q.0 q.1, q.2)

  unfoldable pub scan_close_tag : ℕ → Scanner → Scan (Token × Scanner)
  scan_close_tag tag_start s = do
    p ← scan_name heap (skipped s)
    reject (is_empty p.0) (invalid_tag_name tag_start)
    let t = skipped p.1
    if next_is b']' t.left then ok (close_tag p.0, stepped t) else err (unterminated_tag tag_start)

  unfoldable pub scan_tag_or_escape : Scanner → Scan (Token × Scanner)
  scan_tag_or_escape s =
      let opened = stepped s in
      if next_is b'[' opened.left
      then (reserve heap text_site 1 >> ok (text (b'[' ∷ []), stepped opened))
      else if next_is b'/' opened.left
      then scan_close_tag s.pos (stepped opened)
      else scan_open_tag s.pos opened

  unfoldable pub next_token : Scanner → Scan (Token × Scanner)
  next_token s =
      let counted = record s { token_count = s.token_count + 1 } in
      if is_empty s.left
      then ok (eof, s)
      else if ltb max_token_count counted.token_count
      then err (too_many_tokens max_token_count)
      else if next_is b'[' s.left
      then (if next_is b'[' (after_next s.left)
          then scan_text heap counted
          else scan_tag_or_escape counted)
      else scan_text heap counted

  -- The loop of `scan_all`.
  unfoldable pub scan_loop : ℕ → List Token → Scanner → Scan (List Token × Scanner)
  scan_loop zero out s = out_of_fuel
  scan_loop (suc fuel) out s = do
    reserve heap tokens ((length out + 1) * heap.token_size)
    p ← next_token s
    let out' = out ++ p.0 ∷ []
    let more = scan_loop fuel out' p.1
    if is_eof p.0 then ok (out', p.1) else more

  -- `scan_all`: every token but the last reads a character at least.
  unfoldable pub scan_all : Scanner → Scan (List Token × Scanner)
  scan_all s = scan_loop (suc (length s.left)) [] s

  -- `Scanner::new`
  unfoldable pub new : Bytes → Scan Scanner
  new input = do
    reject (ltb max_input_size (length input)) (input_too_large (length input) max_input_size)
    input_str ← of_utf8 (from_utf8 input)
    reserve heap sanitized (length input)
    let clean = sanitize input_str
    reserve heap chars (length clean * heap.char_size)
    ok (record { left = clean; pos = 0; token_count = 0 })
