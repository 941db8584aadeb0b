-- ===== src/Scanner/Token.antt =====
-- crates/dustnet-core/src/scanner/mod.rs: tokens, errors, limits, and the allocator that the
-- scanner asks before it grows a buffer.
use dustnet.Base.{ℕ, ◌*◌, Bool, true, false, List, if◌then◌else◌}
use dustnet.Base.Text.{Text}

-- `AttributeValue`
pub data AttributeValue : Type 0 where
  string : Text → AttributeValue
  ident : Text → AttributeValue
  flag : AttributeValue

-- `Attribute`
pub record Attribute : Type 0 where
  pub name : Text
  pub value : AttributeValue

-- `Token`; the fields of an open tag are its name, its attributes and `self_closing`
pub data Token : Type 0 where
  open_tag : Text → List Attribute → Bool → Token
  close_tag : Text → Token
  text : Text → Token
  eof : Token

-- `ScanError`
pub data ScanError : Type 0 where
  input_too_large : ℕ → ℕ → ScanError
  invalid_utf8 : ScanError
  too_many_tokens : ℕ → ScanError
  unterminated_tag : ℕ → ScanError
  unterminated_string : ℕ → ScanError
  invalid_tag_name : ℕ → ScanError
  attribute_value_too_long : ℕ → ScanError
  text_too_long : ℕ → ScanError
  resource_exhausted : ℕ → ScanError

abbrev pub max_input_size : ℕ
max_input_size = 1024 * 1024

abbrev pub max_token_count : ℕ
max_token_count = 50000

abbrev pub max_attribute_value_chars : ℕ
max_attribute_value_chars = 4096

abbrev pub max_text_token_size : ℕ
max_text_token_size = 64 * 1024

-- `ScannerAllocationSite`
pub data AllocationSite : Type 0 where
  sanitized chars tokens text_site attributes name_site value_site : AllocationSite

-- Whether the allocator grants a request, and the sizes of the types that the scanner stores.
pub record Allocator : Type 0 where
  pub granted : AllocationSite → ℕ → Bool
  pub char_size : ℕ
  pub token_size : ℕ
  pub attribute_size : ℕ

-- `out_of_fuel` is the model's own.
pub data Scan {ℓ} (A : Type ℓ) : Type ℓ where
  out_of_fuel : Scan A
  err : ScanError → Scan A
  ok : A → Scan A

-- `return Err(e)` under a test
abbrev pub reject : Bool → ScanError → Scan (Unit {0})
reject true e = err e
reject false e = ok tt

infixl 5 ◌>>=◌ ◌>>◌
-- `?` on a result
abbrev pub ◌>>=◌ {ℓ κ} : {A : Type ℓ} {B : Type κ} (q : Scan A) (rest : A → Scan B) → Scan B
out_of_fuel >>= rest = out_of_fuel
err e >>= rest = err e
ok a >>= rest = rest a

-- `try_string` and `try_reserve_vec`, at the number of bytes that they request
abbrev pub reserve : Allocator → AllocationSite → ℕ → Scan (Unit {0})
reserve heap site requested =
    if heap.granted site requested then ok tt else err (resource_exhausted requested)

abbrev pub ◌>>◌ {ℓ} : {B : Type ℓ} (q : Scan (Unit {0})) (rest : Scan B) → Scan B
q >> rest = q >>= λ _. rest
