-- ===== src/Scanner/Lexer.antt =====
-- crates/dustnet-core/src/scanner/mod.rs: `Scanner` and its methods. The character vector and the
-- cursor are held as the characters that are still unread and the cursor's position; `remaining`
-- is then the first of these, and `current_char` and `peek_ahead` look at its front. An error ends
-- the scan, so the state is not kept with it.
use dustnet.Base.{
  ℕ, suc, ◌+◌, ◌-◌, Bool, not, ◌&&◌, ◌||◌, Option, none, some, [], ◌∷◌, ◌++◌, ◌==◌, ltb,
  if◌then◌else◌, length,
}
use dustnet.Base.Text.{Text, len_utf8, is_whitespace, is_ascii_alphanumeric, to_ascii_lowercase}
use dustnet.Scanner.Escape.{after_next}
use dustnet.Scanner.Token.{
  Token, text, unterminated_string, attribute_value_too_long, text_too_long,
  max_attribute_value_chars, max_text_token_size, text_site, name_site, value_site, Allocator, Scan,
  ok, err, ◌>>=◌, ◌>>◌, reserve,
}

pub record Scanner : Type 0 where
  pub left : Text
  pub pos : ℕ
  pub token_count : ℕ

-- the cursor moved on to where `rest` begins
abbrev pub moved : Scanner → Text → Scanner
moved s rest = record s { left = rest; pos = s.pos + (length s.left - length rest) }

-- the characters of a tag name and of an attribute name
abbrev pub is_name_char : ℕ → Bool
is_name_char c = is_ascii_alphanumeric c || c == b'-' || c == b'_'

unfoldable pub skip_whitespace : Text → Text
skip_whitespace [] = []
skip_whitespace (c ∷ rest) = if is_whitespace c then skip_whitespace rest else c ∷ rest

-- The first loop of `scan_text`: the bytes of the token, or `none` for one that is too long.
unfoldable pub text_size : Text → ℕ → Option ℕ
text_size [] requested = some requested
text_size (c ∷ []) requested =
    let total = requested + len_utf8 c in
    if c == b'[' then some requested else if ltb max_text_token_size total then none else some total
text_size (c ∷ d ∷ rest) requested =
    let total = requested + len_utf8 c in
    let doubled = text_size rest total in
    let single = text_size (d ∷ rest) total in
    if c == b'[' && not (d == b'[')
    then some requested
    else if ltb max_text_token_size total
    then none
    else if (c == b'[' || c == b']') && d == c
    then doubled
    else single

abbrev pub pushed : ℕ → Text × Text → Text × Text
pushed c (out, rest) = (c ∷ out, rest)

-- The second loop of `scan_text`: the text, and what is left.
unfoldable pub copy_text : Text → Text × Text
copy_text [] = ([], [])
copy_text (c ∷ []) = if c == b'[' then ([], c ∷ []) else (c ∷ [], [])
copy_text (c ∷ d ∷ rest) =
    let doubled = pushed c (copy_text rest) in
    let single = pushed c (copy_text (d ∷ rest)) in
    if c == b'['
    then (if d == b'[' then doubled else ([], c ∷ d ∷ rest))
    else if c == b']'
    then (if d == b']' then doubled else single)
    else single

-- `take_while(..).count()` and the loop of `scan_tag_name` and `scan_attribute_name`
unfoldable pub name_size : Text → ℕ
name_size [] = 0
name_size (c ∷ rest) = if is_name_char c then suc (name_size rest) else 0

unfoldable pub copy_name : Text → Text × Text
copy_name [] = ([], [])
copy_name (c ∷ rest) =
    if is_name_char c then pushed (to_ascii_lowercase c) (copy_name rest) else ([], c ∷ rest)

-- The first loop of `scan_quoted_string`: the bytes of the value, behind its opening quote.
abbrev pub is_escapable : ℕ → Bool
is_escapable c = c == b'"' || c == b'\\' || c == b'n' || c == b't'

abbrev pub too_long : ℕ → Bool
too_long count = ltb max_attribute_value_chars count

unfoldable pub quoted_size : ℕ → Text → ℕ → ℕ → Scan ℕ
quoted_size start [] requested count = err (unterminated_string start)
quoted_size start (c ∷ []) requested count =
    if c == b'"'
    then ok requested
    else if c == b'\\'
    then err (unterminated_string start)
    else if too_long (count + 1)
    then err (attribute_value_too_long max_attribute_value_chars)
    else err (unterminated_string start)
quoted_size start (c ∷ d ∷ rest) requested count =
    let bytes = if is_escapable d then 1 else 1 + len_utf8 d in
    let escaped = count + (if bytes == 1 then 1 else 2) in
    let doubled = quoted_size start rest (requested + bytes) escaped in
    let single = quoted_size start (d ∷ rest) (requested + len_utf8 c) (count + 1) in
    if c == b'"'
    then ok requested
    else if c == b'\\'
    then (if too_long escaped
        then err (attribute_value_too_long max_attribute_value_chars)
        else doubled)
    else if too_long (count + 1)
    then err (attribute_value_too_long max_attribute_value_chars)
    else single

-- what an escape stands for
abbrev pub unescaped : ℕ → Text
unescaped c =
    if c == b'"'
    then b'"' ∷ []
    else if c == b'\\'
    then b'\\' ∷ []
    else if c == b'n'
    then b'\n' ∷ []
    else if c == b't'
    then b'\t' ∷ []
    else b'\\' ∷ c ∷ []

abbrev pub prefixed : Text → Scan (Text × Text) → Scan (Text × Text)
prefixed out m = m >>= λ p. ok (out ++ p.0, p.1)

-- The second loop of `scan_quoted_string`: the value, and what stands behind its closing quote.
unfoldable pub copy_quoted : ℕ → Text → Scan (Text × Text)
copy_quoted start [] = err (unterminated_string start)
copy_quoted start (c ∷ []) = if c == b'"' then ok ([], []) else err (unterminated_string start)
copy_quoted start (c ∷ d ∷ rest) =
    let doubled = prefixed (unescaped d) (copy_quoted start rest) in
    let single = prefixed (c ∷ []) (copy_quoted start (d ∷ rest)) in
    if c == b'"' then ok ([], d ∷ rest) else if c == b'\\' then doubled else single

abbrev pub ends_unquoted : ℕ → Bool
ends_unquoted c = is_whitespace c || c == b']' || c == b'/'

-- The first loop of `scan_unquoted_value`.
unfoldable pub unquoted_size : Text → ℕ → ℕ → Scan ℕ
unquoted_size [] requested count = ok requested
unquoted_size (c ∷ rest) requested count =
    let more = unquoted_size rest (requested + len_utf8 c) (count + 1) in
    if ends_unquoted c
    then ok requested
    else if too_long (count + 1)
    then err (attribute_value_too_long max_attribute_value_chars)
    else more

-- The second loop of `scan_unquoted_value`.
unfoldable pub copy_unquoted : Text → Text × Text
copy_unquoted [] = ([], [])
copy_unquoted (c ∷ rest) = if ends_unquoted c then ([], c ∷ rest) else pushed c (copy_unquoted rest)

abbrev pub within_limit : Option ℕ → Scan ℕ
within_limit none = err (text_too_long max_text_token_size)
within_limit (some requested) = ok requested

module _ (heap : Allocator) where
  unfoldable pub scan_text : Scanner → Scan (Token × Scanner)
  scan_text s = do
    requested ← within_limit (text_size s.left 0)
    reserve heap text_site requested
    ok (text (copy_text s.left).0, moved s (copy_text s.left).1)

  -- `scan_tag_name` and `scan_attribute_name`, whose bodies are the same
  unfoldable pub scan_name : Scanner → Scan (Text × Scanner)
  scan_name s = do
    reserve heap name_site (name_size s.left)
    ok ((copy_name s.left).0, moved s (copy_name s.left).1)

  unfoldable pub scan_quoted_string : Scanner → Scan (Text × Scanner)
  scan_quoted_string s = do
    let behind_quote = after_next s.left
    requested ← quoted_size s.pos behind_quote 0 0
    reserve heap value_site requested
    p ← copy_quoted s.pos behind_quote
    ok (p.0, moved s p.1)

  unfoldable pub scan_unquoted_value : Scanner → Scan (Text × Scanner)
  scan_unquoted_value s = do
    requested ← unquoted_size s.left 0 0
    reserve heap value_site requested
    ok ((copy_unquoted s.left).0, moved s (copy_unquoted s.left).1)
