-- ===== src/Protocol/Version.antt =====
-- crates/dustnet-core/src/protocol/mod.rs: the version of the protocol and its canonical text.
use dustnet.Base.{
  ◌==◌, ◌↔◌, ℕ, ◌≤◌, Bool, true, false, not, Option, none, some, [], ◌∷◌, ◌++◌, ◌≡◌, refl, sym, ◌∙◌,
  ap, arith,
}
use dustnet.Base.Decimal.{decimal, parse_unsigned, parse-decimal, Digits, decimal-Digits}
use dustnet.Base.Text.{Text, codes, is_ascii_digit, split_once, text_eq, text_eq_iff}
use dustnet.Protocol.Diagnostic.{diagnostic}
use dustnet.Protocol.Error.{
  ProtocolError, invalid_message, Result, ok, err, ◌>>=◌, >>=-eq-ok, ◌>>◌, reject,
}

abbrev pub u16_max : ℕ
u16_max = 65535

pub record ProtocolVersion : Type 0 where
  pub major : ℕ
  pub minor : ℕ

-- its `Display`
abbrev pub display_version : ProtocolVersion → Text
display_version v = decimal v.major ++ b'.' ∷ decimal v.minor

abbrev pub or_else {ℓ} : {A : Type ℓ} → ProtocolError → Option A → Result A
or_else e none = err e
or_else e (some a) = ok a

-- `ProtocolVersion::parse`; the text of an error asks the allocator for memory
unfoldable pub parse : (ℕ → Bool) → Text → Result ProtocolVersion
parse grants value = do
  let invalid = diagnostic grants invalid_message (codes "invalid protocol version: " ∷ value ∷ [])
  parts ← or_else invalid (split_once b'.' value)
  major ← or_else invalid (parse_unsigned u16_max parts.0)
  minor ← or_else invalid (parse_unsigned u16_max parts.1)
  let version : ProtocolVersion = record { major = major; minor = minor }
  reject (not (text_eq (display_version version) value))
      (diagnostic grants invalid_message (codes "non-canonical protocol version: " ∷ value ∷ []))
  ok version

reject-eq-ok : (b : Bool) (e : ProtocolError) {u : Unit {0}} → reject b e ≡ ok u → b ≡ false
reject-eq-ok true e h = cc
reject-eq-ok false e h = refl

not-false : (b : Bool) → not b ≡ false → b ≡ true
not-false true h = refl
not-false false h = cc

ok_eq : {a b : ProtocolVersion} → Path (Result ProtocolVersion) (ok a) (ok b) → a ≡ b
ok_eq h = cc

parse-canonical :
    (grants : ℕ → Bool) (value : Text) {v : ProtocolVersion}
    → parse grants value ≡ ok v
    → value ≡ display_version v
unfolding parse
parse-canonical grants value {v} h =
    let invalid =
      diagnostic grants invalid_message (codes "invalid protocol version: " ∷ value ∷ []) in
    let (parts, _, h1) = >>=-eq-ok (or_else invalid (split_once b'.' value)) _ h in
    let (major, _, h2) = >>=-eq-ok (or_else invalid (parse_unsigned u16_max parts.0)) _ h1 in
    let (minor, _, h3) = >>=-eq-ok (or_else invalid (parse_unsigned u16_max parts.1)) _ h2 in
    let version : ProtocolVersion = record { major = major; minor = minor } in
    let (_, t, h4) = >>=-eq-ok (reject (not (text_eq (display_version version) value)) _) _ h3 in
    let same =
      not-false (text_eq (display_version version) value)
        (reject-eq-ok (not (text_eq (display_version version) value)) _ t) in
    sym ((text_eq_iff (display_version version) value).0 same) ∙ ap display_version (ok_eq h4)

split_once-Digits :
    (ds rest : Text) → Digits ds → split_once b'.' (ds ++ b'.' ∷ rest) ≡ some (ds, rest)
unfolding split_once
split_once-Digits [] rest h = refl
split_once-Digits (c ∷ ds) rest h = rw (not_dot c h.0, split_once-Digits ds rest h.1) refl
  where
    not_dot : (c : ℕ) → is_ascii_digit c ≡ true → (c == b'.') ≡ false
    not_dot c h = ground arith

parse-display :
    (grants : ℕ → Bool) (v : ProtocolVersion)
    → v.major ≤ u16_max
    → v.minor ≤ u16_max
    → parse grants (display_version v) ≡ ok v
unfolding parse
parse-display grants v h k =
    rw
      (
        split_once-Digits (decimal v.major) (decimal v.minor) (decimal-Digits v.major),
        parse-decimal u16_max v.major h,
        parse-decimal u16_max v.minor k,
        (text_eq_iff (display_version v) (display_version v)).1 refl,
      )
      refl

-- For a version of 16-bit numbers, the one text that parses to it is the text that it prints as,
-- whatever the allocator grants.
pub parse_iff :
    (grants : ℕ → Bool) (value : Text) (v : ProtocolVersion)
    → v.major ≤ u16_max
    → v.minor ≤ u16_max
    → (parse grants value ≡ ok v) ↔ (value ≡ display_version v)
parse_iff grants value v h k =
    (λ e. parse-canonical grants value e, λ e. rw e (parse-display grants v h k))
