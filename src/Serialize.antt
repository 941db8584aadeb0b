-- ===== src/Serialize.antt =====
-- crates/dustnet-core/src/serialize.rs: a token stream back to AML. A function that appends to
-- `out` returns what it appends.
pub mod Attributes
pub mod Chars
pub mod Plain
pub mod Quoted
pub mod RoundTrip
pub mod Stream
pub mod Tags
mod Tests
pub mod Tokens
pub mod Written
use dustnet.Base.{
  ℕ, Bool, true, false, ◌&&◌, ◌||◌, not, List, [], ◌∷◌, ◌++◌, ◌==◌, if◌then◌else◌, all, ◌≡◌, refl,
}
use dustnet.Base.Text.{Text, is_ascii_lowercase, is_ascii_digit}
use dustnet.Scanner.Tags.{is_empty}
use dustnet.Scanner.Token.{
  AttributeValue, string, ident, flag, Attribute, Token, open_tag, close_tag, text, eof,
}

-- `SerializeError`
pub data SerializeError : Type 0 where
  tag_name : Text → SerializeError
  attribute_name : Text → SerializeError

pub data Serialized {ℓ} (A : Type ℓ) : Type ℓ where
  err : SerializeError → Serialized A
  ok : A → Serialized A

infixl 5 ◌>>=◌
-- `?` on a result
abbrev pub ◌>>=◌ {ℓ κ} :
    {A : Type ℓ} {B : Type κ} (s : Serialized A) (rest : A → Serialized B) → Serialized B
err e >>= rest = err e
ok a >>= rest = rest a

pub >>=-eq-ok :
    {A B : Type 0} (s : Serialized A) (rest : A → Serialized B) {b : B} (h : (s >>= rest) ≡ ok b)
    → (a : A) × (s ≡ ok a) × (rest a ≡ ok b)
>>=-eq-ok (err e) rest h = cc
>>=-eq-ok (ok a) rest h = (a, refl, h)

abbrev pub is_valid_char : ℕ → Bool
is_valid_char c = is_ascii_lowercase c || is_ascii_digit c || c == b'-' || c == b'_'

unfoldable pub is_valid_name : Text → Bool
is_valid_name name = not (is_empty name) && all is_valid_char name

-- `push_text`
unfoldable pub push_text : Text → Text
push_text [] = []
push_text (c ∷ cs) =
    if c == b'['
    then b'[' ∷ b'[' ∷ push_text cs
    else if c == b']'
    then b']' ∷ b']' ∷ push_text cs
    else c ∷ push_text cs

-- `push_attr_value`
unfoldable pub push_attr_value : Text → Text
push_attr_value [] = []
push_attr_value (c ∷ cs) =
    if c == b'\\'
    then b'\\' ∷ b'\\' ∷ push_attr_value cs
    else if c == b'"'
    then b'\\' ∷ b'"' ∷ push_attr_value cs
    else if c == b'\n'
    then b'\\' ∷ b'n' ∷ push_attr_value cs
    else if c == b'\t'
    then b'\\' ∷ b't' ∷ push_attr_value cs
    else c ∷ push_attr_value cs

abbrev pub push_value : AttributeValue → Text
push_value flag = []
push_value (string v) = b'=' ∷ b'"' ∷ (push_attr_value v ++ b'"' ∷ [])
push_value (ident v) = b'=' ∷ b'"' ∷ (push_attr_value v ++ b'"' ∷ [])

-- `push_attribute`
unfoldable pub push_attribute : Attribute → Serialized Text
push_attribute a =
    if not (is_valid_name a.name)
    then err (attribute_name a.name)
    else ok (b' ' ∷ (a.name ++ push_value a.value))

unfoldable pub push_attributes : List Attribute → Serialized Text
push_attributes [] = ok []
push_attributes (a ∷ as_) = do
  first ← push_attribute a
  rest ← push_attributes as_
  ok (first ++ rest)

abbrev pub push_end : Bool → Text
push_end true = b' ' ∷ b'/' ∷ b']' ∷ []
push_end false = b']' ∷ []

unfoldable pub push_token : Token → Serialized Text
push_token (text t) = ok (push_text t)
push_token (open_tag name attributes self_closing) =
    if not (is_valid_name name)
    then err (tag_name name)
    else (push_attributes attributes >>= λ attrs.
        ok (b'[' ∷ (name ++ (attrs ++ push_end self_closing))))
push_token (close_tag name) =
    if not (is_valid_name name) then err (tag_name name) else ok (b'[' ∷ b'/' ∷ (name ++ b']' ∷ []))
push_token eof = ok []

-- `to_aml`
unfoldable pub to_aml : List Token → Serialized Text
to_aml [] = ok []
to_aml (t ∷ ts) = do first ← push_token t; rest ← to_aml ts; ok (first ++ rest)
