-- ===== src/Base/Utf8.antt =====
-- Rust's `str::from_utf8` and the bytes of a `str`.
use dustnet.Base.Text.{Text, len_utf8, len}
use dustnet.Base.Tests.{ltb, within, if◌then◌else◌}
use dustnet.Base.Lists.{length, length-append, All}
use Prim.Native.Nat.{ℕ, suc, ◌+◌, ◌-◌, ◌*◌, ◌/◌, ◌%◌, ◌<◌}
use mathlib.Core.Path.{◌≡◌, refl, ◌∙◌, ap, sym}
use mathlib.Core.Logic.{◌⊎◌}
use mathlib.Core.List.{List, [], ◌∷◌, ◌++◌, append_assoc}
use mathlib.Core.Option
use mathlib.Core.Option.{Option, none, some, some_inj}
use native.Mathlib.Omega.{arith}

abbrev pub Bytes : Type 0
Bytes = List ℕ

-- Where the decoder stands in a character: how many bytes are left, the range that the next one
-- must be in, and the value of the bits so far.
pub data Pending : Type 0 where
  start : Pending
  more : ℕ → ℕ → ℕ → ℕ → Pending

-- the first byte of a character
lead : ℕ → Option (Option ℕ × Pending)
lead b =
    if ltb b 0x80
    then some (some b, start)
    else if ltb b 0xC2
    then none
    else if ltb b 0xE0
    then some (none, more 0 0x80 0xBF (b - 0xC0))
    else if ltb b 0xF0
    then some (
      none,
      more 1 (if ltb b 0xE1 then 0xA0 else 0x80) (if within 0xED 0xED b then 0x9F else 0xBF)
          (b - 0xE0),
    )
    else if ltb b 0xF5
    then some (
      none,
      more 2 (if ltb b 0xF1 then 0x90 else 0x80) (if within 0xF4 0xF4 b then 0x8F else 0xBF)
          (b - 0xF0),
    )
    else none

decode_step : Pending → ℕ → Option (Option ℕ × Pending)
unfolding lead
decode_step start b = lead b
decode_step (more left lo hi bits) b =
    let bits' = bits * 64 + (b - 0x80) in
    if within lo hi b then some (continued left bits') else none
  where
    continued : ℕ → ℕ → Option ℕ × Pending
    continued ℕ.zero v = (some v, start)
    continued (suc n) v = (none, more n 0x80 0xBF v)

abbrev keep : Option ℕ → Text → Text
keep none s = s
keep (some c) s = c ∷ s

decode : Pending → Bytes → Option Text
unfolding decode_step
decode start [] = some []
decode (more _ _ _ _) [] = none
decode p (b ∷ bs) = elim (decode_step p b) [
  | none ↦ none
  | some (o, q) ↦ Option.map (keep o) (decode q bs)
]

-- `str::from_utf8`
unfoldable pub from_utf8 : Bytes → Option Text
unfolding decode
from_utf8 = decode start

-- `char::encode_utf8`
unfoldable pub encode_utf8 : ℕ → Bytes
encode_utf8 c =
    if ltb c 0x80
    then c ∷ []
    else if ltb c 0x800
    then (0xC0 + c / 64) ∷ (0x80 + c % 64) ∷ []
    else if ltb c 0x10000
    then (0xE0 + c / 4096) ∷ (0x80 + c / 64 % 64) ∷ (0x80 + c % 64) ∷ []
    else (0xF0 + c / 262144) ∷ (0x80 + c / 4096 % 64) ∷ (0x80 + c / 64 % 64) ∷ (0x80 + c % 64) ∷ []

-- `str::as_bytes`
unfoldable pub as_bytes : Text → Bytes
as_bytes [] = []
as_bytes (c ∷ cs) = encode_utf8 c ++ as_bytes cs

pub as_bytes-append : (a b : Text) → as_bytes (a ++ b) ≡ as_bytes a ++ as_bytes b
unfolding as_bytes
as_bytes-append [] b = refl
as_bytes-append (c ∷ a) b =
    ap (λ t. encode_utf8 c ++ t) (as_bytes-append a b)
    ∙ sym (append_assoc (encode_utf8 c) (as_bytes a) (as_bytes b))

-- a `char` is a Unicode scalar value
pub record IsChar (c : ℕ) : Type 0 where
  pub below : c < 0x110000
  pub no_surrogate : (c < 0xD800) ⊎ (0xDFFF < c)

decode-encode_utf8 :
    (c : ℕ) (bs : Bytes)
    → IsChar c
    → decode start (encode_utf8 c ++ bs) ≡ Option.map (λ s. c ∷ s) (decode start bs)
unfolding decode encode_utf8
decode-encode_utf8 c bs h = ground arith

-- Decoding gives back the characters of a text.
pub from_utf8-as_bytes : (s : Text) → All IsChar s → from_utf8 (as_bytes s) ≡ some s
unfolding from_utf8 as_bytes
from_utf8-as_bytes [] h = refl
from_utf8-as_bytes (c ∷ s) h =
    decode-encode_utf8 c (as_bytes s) h.0 ∙ ap (Option.map (λ t. c ∷ t)) (from_utf8-as_bytes s h.1)

-- Texts of the same bytes are equal.
pub as_bytes-injective :
    (s t : Text) → All IsChar s → All IsChar t → as_bytes s ≡ as_bytes t → s ≡ t
as_bytes-injective s t h k e =
    some_inj.0 (sym (from_utf8-as_bytes s h) ∙ ap from_utf8 e ∙ from_utf8-as_bytes t k)

length-encode_utf8 : (c : ℕ) → length (encode_utf8 c) ≡ len_utf8 c
unfolding encode_utf8
length-encode_utf8 c = ground arith

-- `len` counts bytes.
pub length-as_bytes : (s : Text) → length (as_bytes s) ≡ len s
unfolding as_bytes
length-as_bytes [] = refl
length-as_bytes (c ∷ s) =
    omega
      (arith, length-append (encode_utf8 c) (as_bytes s), length-encode_utf8 c, length-as_bytes s)
