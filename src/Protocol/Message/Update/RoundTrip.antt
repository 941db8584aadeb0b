-- ===== src/Protocol/Message/Update/RoundTrip.antt =====
-- crates/dustnet-core/src/protocol/message.rs: an UPDATE body that is written is parsed back, and a body
-- that is parsed is the one that is written.
use dustnet.Base.{
  ℕ, ◌+◌, ◌≤◌, Bool, true, false, some, [], ◌∷◌, ◌++◌, ltb, ◌==◌, any, ◌≡◌, ◌≢◌, refl, ◌∙◌, arith,
}
use dustnet.Base.Text.{Text, codes, len, is_control, strip_prefix, strip_prefix-append}
use dustnet.Protocol.Error.{ok, ◌>>=◌}
use dustnet.Protocol.Message.Fields.{max_live_update_size}
use dustnet.Protocol.Message.Lines.{Line, Visible-Line}
use dustnet.Protocol.Message.Sizes.{IsValue, checked_add_size-fits, any-append}
use dustnet.Protocol.Message.Update.{
  UpdateFlags, UpdateMessage, UpdateHeap, from_bits, to_bits, first_and_tail, after_blank,
  validate_serialized, parse, with_flags, update_body, try_serialize_parts, serialize,
}
use dustnet.Protocol.Message.Update.Parts.{Generous, len-update_body}

first_and_tail-Line : (l s : Text) → Line l → first_and_tail (l ++ b'\n' ∷ s) ≡ (l, b'\n' ∷ s)
unfolding first_and_tail
first_and_tail-Line [] s h = refl
first_and_tail-Line (c ∷ l) s h = rw (first_and_tail-Line l s h.1, no_feed c h.0.0) refl
  where
    no_feed : (c : ℕ) → c ≢ b'\n' → (c == b'\n') ≡ false
    no_feed c k = ground arith

after_blank-Line : (l s : Text) → Line l → after_blank (l ++ b'\n' ∷ b'\n' ∷ s) ≡ some s
unfolding after_blank
after_blank-Line [] s h = refl
after_blank-Line (c ∷ l) s h = rw (after_blank-Line l s h.1, no_feed c h.0.0) refl
  where
    no_feed : (c : ℕ) → c ≢ b'\n' → (c == b'\n') ≡ false
    no_feed c k = ground arith

label-Line : (region : Text) → any is_control region ≡ false → Line (codes "UPDATE " ++ region)
label-Line region h =
    Visible-Line (codes "UPDATE " ++ region)
      (any-append is_control (codes "UPDATE ") region ∙ rw h refl)

in_bound : (n : ℕ) → n ≤ max_live_update_size → ltb max_live_update_size n ≡ false
in_bound n h = ground arith

serialize-fits :
    (heap : UpdateHeap) (region content : Text)
    → Generous heap
    → IsValue region
    → len (update_body region content) ≤ max_live_update_size
    → try_serialize_parts heap region content ≡ ok (update_body region content)
unfolding try_serialize_parts
serialize-fits heap region content g v h =
    let n = len (codes "UPDATE \n\n") + len region in
    let total : n + len content ≤ max_live_update_size =
      omega (arith, len-update_body region content) in
    rw
      (
        v.full,
        v.visible,
        checked_add_size-fits (len (codes "UPDATE \n\n")) (len region) (omega arith),
        checked_add_size-fits n (len content) (omega arith),
        in_bound (n + len content) total,
        g.body (n + len content),
      )
      refl

validate-update_body :
    (heap : UpdateHeap) (region content : Text)
    → IsValue region
    → validate_serialized heap (update_body region content) ≡ ok tt
unfolding validate_serialized update_body
validate-update_body heap region content v =
    rw
      (
        first_and_tail-Line (codes "UPDATE " ++ region) (b'\n' ∷ content)
            (label-Line region v.visible),
        strip_prefix-append (codes "UPDATE ") region,
        v.full,
        v.visible,
      )
      (unfold strip_prefix in refl)

parse-update_body :
    (heap : UpdateHeap) (region content : Text)
    → Generous heap
    → IsValue region
    → len (update_body region content) ≤ max_live_update_size
    → parse heap (update_body region content)
      ≡ ok (record { region = region; content = content; flags = record { delta = false } })
unfolding parse
parse-update_body heap region content g v h =
    rw (in_bound (len (update_body region content)) h, validate-update_body heap region content v)
      (unfold update_body in
        rw
          (
            first_and_tail-Line (codes "UPDATE " ++ region) (b'\n' ∷ content)
                (label-Line region v.visible),
            after_blank-Line (codes "UPDATE " ++ region) content (label-Line region v.visible),
            strip_prefix-append (codes "UPDATE ") region,
            g.region (len region),
            g.content (len content),
          )
          refl)

from_bits-to_bits : (f : UpdateFlags) → from_bits (to_bits f) ≡ f
unfolding from_bits to_bits
from_bits-to_bits f = bit f.delta
  where
    bit : (d : Bool) → from_bits (to_bits (record { delta = d })) ≡ record { delta = d }
    bit true = refl
    bit false = refl

-- With an allocator that grants every request, an UPDATE message is sent, as a body and a byte of flags,
-- and parsed back to itself, if its region is not empty and has no control character and the body is
-- within the limit; its content may be any text.
pub parse-serialize_update :
    (heap : UpdateHeap) (m : UpdateMessage)
    → Generous heap
    → IsValue m.region
    → len (update_body m.region m.content) ≤ max_live_update_size
    → (serialize heap m >>= λ body. parse heap body >>= λ u. ok (with_flags (to_bits m.flags) u))
      ≡ ok m
unfolding serialize with_flags
parse-serialize_update heap m g v h =
    rw
      (
        serialize-fits heap m.region m.content g v h,
        parse-update_body heap m.region m.content g v h,
        from_bits-to_bits m.flags,
      )
      refl
