-- ===== src/Protocol/Frame.antt =====
-- crates/dustnet-core/src/protocol/frame.rs: the frame on the wire, a length of four bytes, the type,
-- the flags and the body. Bytes are numbers below 256.
use dustnet.Base.{
  ℕ, suc, ◌+◌, ◌-◌, ◌*◌, ◌/◌, ◌%◌, ◌^◌, ◌≤◌, Bool, true, false, [], ◌∷◌, ◌==◌, ◌≡◌, ◌↔◌, refl, ltb,
  if◌then◌else◌, arith, length, ap, subst, ◌∙◌,
}
use dustnet.Base.Decimal.{decimal}
use dustnet.Base.Text.{codes}
use dustnet.Base.Utf8.{Bytes}
use dustnet.Protocol.Diagnostic.{diagnostic}
use dustnet.Protocol.Error.{
  MessageType, hello, get, input, subscribe, unsubscribe, ping, bye, welcome, page, update,
  redirect, error, resource, pong, server_bye, frame_too_large, unknown_message_type,
  invalid_message, Result, ok, err, ◌>>=◌, >>=-eq-ok, ◌>>◌, reject, reserve, reject-eq-ok,
}

abbrev pub header_size : ℕ
header_size = 6

abbrev pub max_frame_size : ℕ
max_frame_size = 16 * 1024 * 1024

abbrev pub u32_max : ℕ
u32_max = 2 ^ 32 - 1

abbrev zeros : ℕ → Bytes
zeros ℕ.zero = []
zeros (suc n) = 0 ∷ zeros n

-- `allocate_frame_body`
unfoldable pub allocate_frame_body : Bool → ℕ → Result Bytes
allocate_frame_body granted body_len = reserve granted body_len >> ok (zeros body_len)

-- `msg_type as u8`
abbrev pub code : MessageType → ℕ
code hello = 0x01
code get = 0x02
code input = 0x03
code subscribe = 0x04
code unsubscribe = 0x05
code ping = 0x06
code bye = 0x0F
code welcome = 0x81
code page = 0x82
code update = 0x83
code redirect = 0x84
code error = 0x85
code resource = 0x86
code pong = 0x87
code server_bye = 0x8F

-- `MessageType::from_u8`
unfoldable pub from_u8 : ℕ → Result MessageType
from_u8 c =
    if c == 0x01
    then ok hello
    else if c == 0x02
    then ok get
    else if c == 0x03
    then ok input
    else if c == 0x04
    then ok subscribe
    else if c == 0x05
    then ok unsubscribe
    else if c == 0x06
    then ok ping
    else if c == 0x0F
    then ok bye
    else if c == 0x81
    then ok welcome
    else if c == 0x82
    then ok page
    else if c == 0x83
    then ok update
    else if c == 0x84
    then ok redirect
    else if c == 0x85
    then ok error
    else if c == 0x86
    then ok resource
    else if c == 0x87
    then ok pong
    else if c == 0x8F
    then ok server_bye
    else err (unknown_message_type c)

pub record RawFrame : Type 0 where
  pub msg_type : MessageType
  pub flags : ℕ
  pub body : Bytes

-- `u32::to_be_bytes`, before the bytes that follow
abbrev pub put_be : ℕ → Bytes → Bytes
put_be n rest = n / 0x1000000 % 256 ∷ (n / 0x10000 % 256 ∷ (n / 0x100 % 256 ∷ (n % 256 ∷ rest)))

-- `u32::from_be_bytes`
abbrev pub from_be_bytes : ℕ → ℕ → ℕ → ℕ → ℕ
from_be_bytes a b c d = a * 0x1000000 + b * 0x10000 + c * 0x100 + d

-- `encode_frame`, with the allocator's answer
unfoldable pub encode_frame : Bool → RawFrame → Result Bytes
encode_frame granted frame = do
  reject (ltb u32_max (length frame.body)) (frame_too_large u32_max)
  reject (ltb u32_max (header_size + length frame.body)) (frame_too_large u32_max)
  reject (ltb max_frame_size (header_size + length frame.body))
      (frame_too_large (header_size + length frame.body))
  reserve granted (header_size + length frame.body)
  ok (put_be (header_size + length frame.body) (code frame.msg_type ∷ (frame.flags ∷ frame.body)))

-- `decode_header` of the six bytes of a header; the text of an error asks the allocator for memory
unfoldable pub decode_header : (ℕ → Bool) → ℕ → ℕ → ℕ → ℕ → ℕ → ℕ → Result (ℕ × MessageType × ℕ)
decode_header grants h0 h1 h2 h3 h4 h5 = (do
  reject (ltb max_frame_size (from_be_bytes h0 h1 h2 h3))
      (frame_too_large (from_be_bytes h0 h1 h2 h3))
  reject (ltb (from_be_bytes h0 h1 h2 h3) header_size) (
      diagnostic grants invalid_message (
        codes "frame length "
        ∷ decimal (from_be_bytes h0 h1 h2 h3)
        ∷ codes " is smaller than header size"
        ∷ []))
  msg_type ← from_u8 h4
  ok (from_be_bytes h0 h1 h2 h3 - header_size, msg_type, h5))

from_u8-code : (m : MessageType) → from_u8 (code m) ≡ ok m
unfolding from_u8
from_u8-code m = ground arith

abbrev IsCodeOf : ℕ → Result MessageType → Type 0
IsCodeOf c (ok m) = c ≡ code m
IsCodeOf c (err e) = Unit

from_u8-IsCodeOf : (c : ℕ) → IsCodeOf c (from_u8 c)
unfolding from_u8
from_u8-IsCodeOf c = ground arith

-- the codes are those of the types, and no others
from_u8_iff : (c : ℕ) (m : MessageType) → (from_u8 c ≡ ok m) ↔ (c ≡ code m)
unfolding from_u8
from_u8_iff c m = (λ h. subst (IsCodeOf c) h (from_u8-IsCodeOf c), λ h. rw h (from_u8-code m))

from_be_bytes-put_be :
    (n : ℕ)
    → n ≤ u32_max
    → from_be_bytes (n / 0x1000000 % 256) (n / 0x10000 % 256) (n / 0x100 % 256) (n % 256) ≡ n
from_be_bytes-put_be n h = omega arith

fst-ok :
    {n n' : ℕ} {m m' : MessageType} {f f' : ℕ}
    → Path (Result (ℕ × MessageType × ℕ)) (ok (n, m, f)) (ok (n', m', f'))
    → (n ≡ n') × (m ≡ m') × (f ≡ f')
fst-ok h = (cc, cc, cc)

not_above :
    (v n : ℕ)
    → v ≡ n + header_size
    → n + header_size ≤ max_frame_size
    → ltb max_frame_size v ≡ false
not_above v n e l = ground arith

not_below : (v n : ℕ) → v ≡ n + header_size → ltb v header_size ≡ false
not_below v n e = ground arith

less_header : (n : ℕ) → n + header_size - header_size ≡ n
less_header n = omega arith

bounds_of :
    (v n : ℕ)
    → ltb max_frame_size v ≡ false
    → ltb v header_size ≡ false
    → v - header_size ≡ n
    → (v ≡ n + header_size) × (n + header_size ≤ max_frame_size)
bounds_of v n p q e = ground arith

-- A header is read, and as this length, type and flags, if and only if its length is in bounds and
-- its fifth byte is the code of the type.
pub decode_header_iff :
    (grants : ℕ → Bool) (h0 h1 h2 h3 h4 h5 n : ℕ) (m : MessageType) (f : ℕ)
    → (decode_header grants h0 h1 h2 h3 h4 h5 ≡ ok (n, m, f)) ↔ (
        (from_be_bytes h0 h1 h2 h3 ≡ n + header_size)
        × (n + header_size ≤ max_frame_size)
        × (h4 ≡ code m)
        × (h5 ≡ f))
unfolding decode_header
decode_header_iff grants h0 h1 h2 h3 h4 h5 n m f = (forth, back)
  where
    forth :
        decode_header grants h0 h1 h2 h3 h4 h5 ≡ ok (n, m, f)
        → (from_be_bytes h0 h1 h2 h3 ≡ n + header_size)
          × (n + header_size ≤ max_frame_size)
          × (h4 ≡ code m)
          × (h5 ≡ f)
    forth h =
        let v = from_be_bytes h0 h1 h2 h3 in
        let (_, p, h') = >>=-eq-ok (reject (ltb max_frame_size v) (frame_too_large v)) _ h in
        let (_, q, h'') = >>=-eq-ok (reject (ltb v header_size) _) _ h' in
        let (k, r, e) = >>=-eq-ok (from_u8 h4) _ h'' in
        let p' = reject-eq-ok (ltb max_frame_size v) (frame_too_large v) p in
        let q' = reject-eq-ok (ltb v header_size) _ q in
        let (x, y, z) = fst-ok e in
        let (eq, le) = bounds_of v n p' q' x in (eq, le, (from_u8_iff h4 m).0 (r ∙ ap ok y), z)

    back :
        (from_be_bytes h0 h1 h2 h3 ≡ n + header_size)
          × (n + header_size ≤ max_frame_size)
          × (h4 ≡ code m)
          × (h5 ≡ f)
        → decode_header grants h0 h1 h2 h3 h4 h5 ≡ ok (n, m, f)
    back (e, l, c, r) =
        rw
          (
            not_above (from_be_bytes h0 h1 h2 h3) n e l,
            not_below (from_be_bytes h0 h1 h2 h3) n e,
            (from_u8_iff h4 m).1 c,
            r,
            e,
          )
          (ap (λ k. ok (k, m, f)) (less_header n))

-- A frame of at most 16 MiB, header included, whose bytes the allocator grants is encoded as six bytes
-- and its body, and the six bytes decode to the body's length, the type and the flags.
pub encode_frame-decode_header :
    (grants : ℕ → Bool) (frame : RawFrame)
    → header_size + length frame.body ≤ max_frame_size
    → (h0 h1 h2 h3 h4 h5 : ℕ) × (encode_frame true frame
        ≡ ok (h0 ∷ (h1 ∷ (h2 ∷ (h3 ∷ (h4 ∷ (h5 ∷ frame.body)))))))
      × (decode_header grants h0 h1 h2 h3 h4 h5
          ≡ ok (length frame.body, frame.msg_type, frame.flags))
unfolding encode_frame
encode_frame-decode_header grants frame h =
    let n = header_size + length frame.body in
    (
      n / 0x1000000 % 256,
      n / 0x10000 % 256,
      n / 0x100 % 256,
      n % 256,
      code frame.msg_type,
      frame.flags,
      encoded,
      (decode_header_iff grants (n / 0x1000000 % 256) (n / 0x10000 % 256) (n / 0x100 % 256)
            (n % 256) (code frame.msg_type) frame.flags (length frame.body) frame.msg_type
            frame.flags).1
          (from_be_bytes-put_be n (omega arith) ∙ omega arith, omega arith, refl, refl),
    )
  where
    encoded :
        encode_frame true frame
        ≡ ok (
            put_be
              (header_size + length frame.body)
              (code frame.msg_type ∷ (frame.flags ∷ frame.body)))
    encoded = ground arith
