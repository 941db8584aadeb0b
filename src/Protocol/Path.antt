-- ===== src/Protocol/Path.antt =====
-- crates/dustnet-core/src/protocol/uri.rs, `try_normalize_path`: the text that is built, segment by
-- segment. A byte index into it is the text in front of it.
pub mod Normal
pub mod Stack
use dustnet.Base.{
  ℕ, ◌+◌, ◌-◌, ◌^◌, Bool, true, false, not, ◌&&◌, ◌||◌, Option, none, some, List, [], ◌∷◌, ◌++◌,
  ◌==◌, ltb, if◌then◌else◌,
}
use dustnet.Base.Text.{Text, codes, len, text_eq, split, ends_with}
use dustnet.Protocol.Error.{
  invalid_uri, resource_exhausted, Result, ok, ◌>>=◌, ◌>>◌, reject, reserve,
}
use dustnet.Scanner.Tags.{is_empty}

abbrev pub max_uri_len : ℕ
max_uri_len = 2048

abbrev pub usize_max : ℕ
usize_max = 2 ^ 64 - 1

-- `String::pop`, whose character is not used
unfoldable pub pop : Text → Text
pop [] = []
pop (c ∷ []) = []
pop (c ∷ d ∷ s) = c ∷ pop (d ∷ s)

abbrev pub onto_before : ℕ → Bool → Option Text → Option Text
onto_before c found (some p) = some (c ∷ p)
onto_before c true none = some []
onto_before c false none = none

-- `rfind`: what stands before the last `sep`
unfoldable pub before_last : ℕ → Text → Option Text
before_last sep [] = none
before_last sep (c ∷ s) = onto_before c (c == sep) (before_last sep s)

abbrev pub first_char : Text → Text
first_char [] = []
first_char (c ∷ s) = c ∷ []

-- `truncate(rfind('/').map_or(1, |index| index.max(1)))`; the first character is a slash
abbrev pub truncated : Text → Option Text → Text
truncated s none = first_char s
truncated s (some []) = first_char s
truncated s (some (c ∷ p)) = c ∷ p

unfoldable pub leave_segment : Text → Text
leave_segment normalized = truncated (pop normalized) (before_last b'/' (pop normalized))

unfoldable pub enter_segment : Text → Text → Text
enter_segment normalized value =
    (if ltb 1 (len normalized) && not (ends_with b'/' normalized)
      then normalized ++ b'/' ∷ []
      else normalized)
    ++ value

-- the arms of the loop
unfoldable pub normalize_step : Text → Text → Text
normalize_step normalized segment =
    if is_empty segment || text_eq segment (codes ".")
    then normalized
    else if text_eq segment (codes "..")
    then (if ltb 1 (len normalized) then leave_segment normalized else normalized)
    else enter_segment normalized segment

unfoldable pub normalize_from : Text → List Text → Text
normalize_from normalized [] = normalized
normalize_from normalized (s ∷ ss) = normalize_from (normalize_step normalized s) ss

abbrev pub with_trailing : Bool → Text → Text
with_trailing trailing normalized =
    if trailing && not (text_eq normalized (codes "/")) && not (ends_with b'/' normalized)
    then normalized ++ b'/' ∷ []
    else normalized

abbrev pub final_part : Text → Text → Text
final_part first second = if is_empty second then first else second

abbrev pub is_trailing : Text → Bool
is_trailing part = ltb 1 (len part) && ends_with b'/' part

abbrev pub at_least_one : ℕ → ℕ
at_least_one n = if n == 0 then 1 else n

-- the loop and what follows it
unfoldable pub normalized_path : Text → Text → Text
normalized_path first second =
    with_trailing (is_trailing (final_part first second))
      (normalize_from (codes "/") (split b'/' first ++ split b'/' second))

-- `try_normalize_path`
unfoldable pub try_normalize_path : (ℕ → Bool) → Text → Text → Result Text
try_normalize_path grants first second = do
  reject (ltb usize_max (len first + len second)) (resource_exhausted usize_max)
  let requested = at_least_one (len first + len second)
  reject (ltb max_uri_len requested)
      (invalid_uri (codes "resolved URI path exceeds maximum length"))
  reserve (grants requested) requested
  ok (normalized_path first second)
