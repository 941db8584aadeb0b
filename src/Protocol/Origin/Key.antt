-- ===== src/Protocol/Origin/Key.antt =====
-- crates/dustnet-core/src/protocol/origin.rs: the storage key of an origin, as a text and as the bytes
-- that are compared without one.
use mathlib.Core.Option.{some_inj}
use dustnet.Base.{
  ℕ, zero, suc, ◌+◌, ◌*◌, ◌/◌, ◌%◌, ◌≤◌, ◌<◌, Bool, true, false, [], ◌∷◌, ◌++◌, ◌==◌, ltb,
  if◌then◌else◌, ◌≡◌, ◌↔◌, inl, inr, refl, sym, ap, ◌∙◌, arith, All, All-append, Bool-cases,
}
use dustnet.Base.Decimal.{
  decimal, digits_onto, parse_unsigned, parse-decimal, Digits, decimal-Digits,
}
use dustnet.Base.Text.{
  Text, codes, len, text_eq, text_eq_iff, contains, split_once, strip_prefix, strip_prefix-append,
  is_ascii_digit,
}
use dustnet.Base.Utf8.{Bytes, as_bytes, encode_utf8, IsChar, as_bytes-append, as_bytes-injective}
use dustnet.Protocol.Diagnostic.{saturating_add}
use dustnet.Protocol.Error.{Result, ok, ◌>>◌, reserve}
use dustnet.Protocol.Origin.{
  TransportSecurity, verified_tls, pinned_tls, insecure_tls, plaintext_loopback, Origin,
}
use dustnet.Protocol.Path.{before_last}
use dustnet.Protocol.Path.Stack.{before_last-append}
use dustnet.Protocol.Uri.Chars.{split_once-found}
use dustnet.Protocol.Version.{u16_max}

abbrev pub security_label : TransportSecurity → Text
security_label verified_tls = codes "verified-tls"
security_label pinned_tls = codes "pinned-tls"
security_label insecure_tls = codes "insecure-tls"
security_label plaintext_loopback = codes "plaintext-loopback"

-- the `Display` of `OriginStorageKey`
unfoldable pub storage_key_display : Origin → Text
storage_key_display o = security_label o.security ++ b'|' ∷ (o.host ++ b':' ∷ decimal o.port)

abbrev pub requested_size : Origin → ℕ
requested_size o =
    saturating_add
      (saturating_add
        (saturating_add (saturating_add (len (security_label o.security)) 1) (len o.host)) 1)
      5

-- `Origin::storage_key`
unfoldable pub storage_key : (ℕ → Bool) → Origin → Result Text
storage_key granted o =
    reserve (granted (requested_size o)) (requested_size o) >> ok (storage_key_display o)

-- `write_decimal_u16`, the part of its buffer of five bytes that it fills
unfoldable pub write_decimal_u16 : ℕ → Bytes
write_decimal_u16 value = digits_onto 5 value []

-- the bytes that `matches_storage_key` and `cmp_storage_key` chain
unfoldable pub key_bytes : Origin → Bytes
key_bytes o =
    as_bytes (security_label o.security)
    ++ b'|' ∷ (as_bytes o.host ++ b':' ∷ write_decimal_u16 o.port)

-- `Origin::matches_storage_key`
unfoldable pub matches_storage_key : Origin → Text → Bool
matches_storage_key o key = text_eq (key_bytes o) (as_bytes key)

-- What the type of an origin says of its fields: the host is a text, and the port has 16 bits.
pub record IsOrigin (o : Origin) : Type 0 where
  pub host_chars : All IsChar o.host
  pub port_fits : o.port ≤ u16_max

-- a power of ten
abbrev ten_to : ℕ → ℕ
ten_to zero = 1
ten_to (suc k) = 10 * ten_to k

digits_onto-fuel :
    (k fuel n : ℕ) (out : Text)
    → n < ten_to (suc k)
    → n < fuel
    → digits_onto (suc k) n out ≡ digits_onto fuel n out
unfolding digits_onto
digits_onto-fuel k zero n out h f = absurd (omega arith)
digits_onto-fuel zero (suc fuel) n out h f =
    let e : (n / 10 == 0) ≡ true = one_digit n h in rw e refl
  where
    one_digit : (n : ℕ) → n < ten_to 1 → (n / 10 == 0) ≡ true
    one_digit n h = ground arith
digits_onto-fuel (suc k) (suc fuel) n out h f = elim (Bool-cases (n / 10 == 0)) [
  | inl e ↦ rw e refl
  | inr e ↦ rw e (
      digits_onto-fuel k fuel (n / 10) ((b'0' + n % 10) ∷ out) (fewer n (ten_to (suc k)) h)
        (less fuel n f e))
]
  where
    fewer : (n p : ℕ) → n < 10 * p → n / 10 < p
    fewer n p h = omega arith

    less : (g n : ℕ) → n < suc g → (n / 10 == 0) ≡ false → n / 10 < g
    less g n f e = ground arith

-- Five bytes hold every port, and what stands in them is its decimal form.
pub write_decimal_u16-decimal : (n : ℕ) → n ≤ u16_max → write_decimal_u16 n ≡ decimal n
unfolding write_decimal_u16 decimal
write_decimal_u16-decimal n h = digits_onto-fuel 4 (suc n) n [] (omega arith) (omega arith)

abbrev OneByte : ℕ → Type 0
OneByte c = c < 0x80

OneByte-as_bytes : (s : Text) → All OneByte s → as_bytes s ≡ s
unfolding as_bytes encode_utf8
OneByte-as_bytes [] h = refl
OneByte-as_bytes (c ∷ s) h = rw (below c h.0, OneByte-as_bytes s h.1) refl
  where
    below : (c : ℕ) → OneByte c → ltb c 0x80 ≡ true
    below c h = ground arith

Digits-OneByte : (s : Text) → Digits s → All OneByte s
Digits-OneByte [] h = tt
Digits-OneByte (c ∷ s) h = (digit c h.0, Digits-OneByte s h.1)
  where
    digit : (c : ℕ) → is_ascii_digit c ≡ true → OneByte c
    digit c h = ground arith

-- The chained bytes are those of the key's text.
pub key_bytes-as_bytes :
    (o : Origin) → o.port ≤ u16_max → key_bytes o ≡ as_bytes (storage_key_display o)
unfolding key_bytes storage_key_display
key_bytes-as_bytes o h = sym (
    as_bytes-append (security_label o.security) (b'|' ∷ (o.host ++ b':' ∷ decimal o.port))
    ∙ ap (λ t. as_bytes (security_label o.security) ++ t)
        (unfold as_bytes encode_utf8 in
          ap (λ t. b'|' ∷ t)
            (as_bytes-append o.host (b':' ∷ decimal o.port)
              ∙ ap (λ t. as_bytes o.host ++ b':' ∷ t)
                  (OneByte-as_bytes (decimal o.port)
                      (Digits-OneByte (decimal o.port) (decimal-Digits o.port))
                    ∙ sym (write_decimal_u16-decimal o.port h)))))

pub OneByte-IsChar : (s : Text) → All OneByte s → All IsChar s
OneByte-IsChar [] h = tt
OneByte-IsChar (c ∷ s) h =
    (record { below = omega arith; no_surrogate = inl (omega arith) }, OneByte-IsChar s h.1)

label-OneByte : (s : TransportSecurity) → All OneByte (security_label s)
label-OneByte verified_tls = omega arith
label-OneByte pinned_tls = omega arith
label-OneByte insecure_tls = omega arith
label-OneByte plaintext_loopback = omega arith

pub display-IsChar : (o : Origin) → All IsChar o.host → All IsChar (storage_key_display o)
unfolding storage_key_display
display-IsChar o h =
    All-append IsChar (security_label o.security) (b'|' ∷ (o.host ++ b':' ∷ decimal o.port))
      (OneByte-IsChar (security_label o.security) (label-OneByte o.security))
      (
        single b'|' (omega arith),
        All-append IsChar o.host (b':' ∷ decimal o.port) h (
          single b':' (omega arith),
          OneByte-IsChar (decimal o.port) (Digits-OneByte (decimal o.port) (decimal-Digits o.port)),
        ),
      )
  where
    single : (c : ℕ) → c < 0x80 → IsChar c
    single c h = record { below = omega arith; no_surrogate = inl (omega arith) }

label-bar : (s : TransportSecurity) → contains b'|' (security_label s) ≡ false
label-bar verified_tls = refl
label-bar pinned_tls = refl
label-bar insecure_tls = refl
label-bar plaintext_loopback = refl

-- the level that a label names
abbrev labelled : Text → TransportSecurity
labelled (a ∷ b ∷ t) =
    if b == b'e'
    then verified_tls
    else if b == b'i'
    then pinned_tls
    else if b == b'n'
    then insecure_tls
    else plaintext_loopback
labelled _ = plaintext_loopback

labelled-label : (s : TransportSecurity) → labelled (security_label s) ≡ s
labelled-label verified_tls = refl
labelled-label pinned_tls = refl
labelled-label insecure_tls = refl
labelled-label plaintext_loopback = refl

Digits-colon : (s : Text) → Digits s → contains b':' s ≡ false
Digits-colon [] h = refl
Digits-colon (c ∷ s) h = let ih = Digits-colon s h.1 in let d = h.0 in ground (arith, ih, d)

decimal-injective : (m n : ℕ) → m ≤ u16_max → n ≤ u16_max → decimal m ≡ decimal n → m ≡ n
decimal-injective m n h k e =
    some_inj.0
      (sym (parse-decimal u16_max m h) ∙ ap (parse_unsigned u16_max) e ∙ parse-decimal u16_max n k)

authority-injective :
    (g h : Text) (m n : ℕ)
    → m ≤ u16_max
    → n ≤ u16_max
    → g ++ b':' ∷ decimal m ≡ h ++ b':' ∷ decimal n
    → (g ≡ h) × (m ≡ n)
authority-injective g h m n a b e =
    let same : g ≡ h = some_inj.0 (
      sym (before_last-append b':' g (decimal m) (Digits-colon (decimal m) (decimal-Digits m)))
      ∙ ap (before_last b':') e
      ∙ before_last-append b':' h (decimal n) (Digits-colon (decimal n) (decimal-Digits n))) in
    let rest : b':' ∷ decimal m ≡ b':' ∷ decimal n = some_inj.0 (
      sym (strip_prefix-append g (b':' ∷ decimal m))
      ∙ ap (strip_prefix g) (e ∙ ap (λ t. t ++ b':' ∷ decimal n) (sym same))
      ∙ strip_prefix-append g (b':' ∷ decimal n)) in
    (same, decimal-injective m n a b (cc))

-- Two origins with the same storage key are equal, whatever their hosts are.
pub storage_key_display-injective :
    (a b : Origin)
    → a.port ≤ u16_max
    → b.port ≤ u16_max
    → storage_key_display a ≡ storage_key_display b
    → a ≡ b
unfolding storage_key_display
storage_key_display-injective a b h k e =
    let q =
      sym (
        split_once-found b'|' (security_label a.security) (a.host ++ b':' ∷ decimal a.port)
          (label-bar a.security))
      ∙ ap (split_once b'|') e
      ∙ split_once-found b'|' (security_label b.security) (b.host ++ b':' ∷ decimal b.port)
          (label-bar b.security) in
    let p = some_inj.0 q in
    let label : a.security ≡ b.security =
      sym (labelled-label a.security) ∙ ap (λ r. labelled r.0) p ∙ labelled-label b.security in
    let (host, port) = authority-injective a.host b.host a.port b.port h k (ap (λ r. r.1) p) in cc

-- The comparison without a copy of the key tells exactly the texts that are the origin's storage key.
pub matches_storage_key_iff :
    (o : Origin) (key : Text)
    → IsOrigin o
    → All IsChar key
    → (matches_storage_key o key ≡ true) ↔ (storage_key_display o ≡ key)
unfolding matches_storage_key
matches_storage_key_iff o key w h = (
  λ e.
      as_bytes-injective (storage_key_display o) key (display-IsChar o w.host_chars) h
        (sym (key_bytes-as_bytes o w.port_fits) ∙ (text_eq_iff (key_bytes o) (as_bytes key)).0 e),
  λ e.
      (text_eq_iff (key_bytes o) (as_bytes key)).1
        (key_bytes-as_bytes o w.port_fits ∙ ap as_bytes e),
)
