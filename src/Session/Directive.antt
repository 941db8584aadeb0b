-- ===== src/Session/Directive.antt =====
-- crates/dustnet-core/src/session.rs: session directives and their wire form. Each fallible
-- reservation takes the allocator's answer as an argument.
use dustnet.Base.{
  ℕ, suc, ◌+◌, ◌-◌, ◌^◌, ◌/◌, Bool, not, ◌&&◌, ◌||◌, Option, none, some, [], ◌∷◌, ◌++◌, leb, ltb,
  if◌then◌else◌, any,
}
use dustnet.Base.Text.{Text, codes, len, is_control, text_eq, trim, split, split_once, contains}
use dustnet.Base.Decimal.{decimal, parse_unsigned}
use dustnet.Protocol.Error.{invalid_message, Result, ok, ◌>>◌, reject, reserve}
use dustnet.Scanner.Escape.{next_is}
use dustnet.Scanner.Tags.{is_empty}

abbrev pub max_token_len : ℕ
max_token_len = 4096

abbrev pub max_scope_len : ℕ
max_scope_len = 1024

abbrev pub u64_max : ℕ
u64_max = 2 ^ 64 - 1

-- `SessionDirective`: `set` has a token, its scope and its expiry
pub data SessionDirective : Type 0 where
  set : Text → Text → Option ℕ → SessionDirective
  clear : Text → SessionDirective

abbrev is_dot_segment : Text → Bool
is_dot_segment s = text_eq s (b'.' ∷ []) || text_eq s (b'.' ∷ b'.' ∷ [])

unfoldable pub valid_scope : Text → Bool
valid_scope scope =
    not (is_empty scope)
    && leb (len scope) max_scope_len
    && next_is b'/' scope
    && not (any is_control scope)
    && not (contains b'?' scope || contains b'#' scope)
    && not (any is_dot_segment (split b'/' scope))

-- the digits that `value` prints as
unfoldable pub decimal_len : ℕ → ℕ → ℕ
decimal_len ℕ.zero value = 1
decimal_len (suc fuel) value =
    let more = decimal_len fuel (value / 10) + 1 in if leb 10 value then more else 1

abbrev pub invalid_token : Text → Text → Bool
invalid_token token scope =
    is_empty token || ltb max_token_len (len token) || not (valid_scope scope)

abbrev invalid_directive : Text
invalid_directive = codes "invalid session directive"

abbrev pub expiry_text : Option ℕ → Text
expiry_text none = []
expiry_text (some e) = b' ' ∷ decimal e

abbrev expiry_len : Option ℕ → ℕ
expiry_len none = 0
expiry_len (some e) = 1 + decimal_len e e

-- `SessionDirective::serialize`
unfoldable pub serialize : Bool → SessionDirective → Result Text
serialize granted (set token scope expires) = do
  reject (invalid_token token scope) (invalid_message invalid_directive)
  reserve granted (len (codes "Set-Session:  \n") + len token + len scope + expiry_len expires)
  ok (codes "Set-Session: " ++ (token ++ (b' ' ∷ (scope ++ (expiry_text expires ++ b'\n' ∷ [])))))
serialize granted (clear scope) = do
  reject (not (valid_scope scope)) (invalid_message invalid_directive)
  reserve granted (len (codes "Clear-Session: \n") + len scope)
  ok (codes "Clear-Session: " ++ (scope ++ b'\n' ∷ []))

-- the scope and the expiry behind the token: `splitn(3, ' ')`
abbrev pub scope_expiry : Option (Text × Text) → Text → Text × Option ℕ
scope_expiry none rest = (rest, none)
scope_expiry (some (scope, expiry)) rest = (scope, parse_unsigned u64_max expiry)

abbrev pub set_parts : Option (Text × Text) → Text → Text × Text × Option ℕ
set_parts none value = (value, b'/' ∷ [], none)
set_parts (some (token, rest)) value =
    let (scope, expires) = scope_expiry (split_once b' ' rest) rest in (token, scope, expires)

-- `SessionDirective::parse_set`, with the allocator's answers for the token and the scope
unfoldable pub parse_set : Bool → Bool → Text → Result (Option SessionDirective)
parse_set token_granted scope_granted value =
    let parts = set_parts (split_once b' ' value) value in
    if invalid_token parts.0 parts.1 then ok none else (do
      reserve token_granted (len parts.0)
      reserve scope_granted (len parts.1)
      ok (some (set parts.0 parts.1 parts.2)))

-- `SessionDirective::parse_clear`
unfoldable pub parse_clear : Bool → Text → Result (Option SessionDirective)
parse_clear granted value =
    let scope = trim value in
    if not (valid_scope scope)
    then ok none
    else (reserve granted (len scope) >> ok (some (clear scope)))
