-- ===== src/Protocol/Tests.antt =====
-- crates/dustnet-core/src/protocol: the laws of frames, errors and connections at concrete messages.
use dustnet.Base.{ℕ, ◌+◌, ◌≤◌, Bool, true, List, [], ◌∷◌, ◌≡◌, ◌↔◌, refl, arith}
use dustnet.Base.Text.{Text, codes}
use dustnet.Protocol.Diagnostic.{concat, diagnostic, IsDiagnostic, diagnostic-IsDiagnostic}
use dustnet.Protocol.Error.{
  MessageType, hello, get, page, bye, welcome, update, invalid_message, ok, ◌>>=◌,
}
use dustnet.Protocol.Frame.{
  RawFrame, code, encode_frame, decode_header, from_be_bytes, header_size, max_frame_size,
  encode_frame-decode_header, decode_header_iff,
}
use dustnet.Protocol.State.{
  client, server, Direction, send, receive, handshake, ready, next, apply, run,
}
use dustnet.Protocol.Version.{parse, display_version, parse_iff}
use dustnet.Protocol.State.Requests.{IsSerial, at, exchange, run-IsSerial, lockstep}

abbrev granted : ℕ → Bool
granted _ = true

abbrev visit : List (Direction × MessageType)
visit = (send, hello) ∷ (receive, welcome) ∷ (send, get) ∷ (receive, update) ∷ (receive, page) ∷ []

visited : run granted (at client handshake) visit ≡ ok (at client ready)
unfolding apply next
visited = refl

run-IsSerial_example : IsSerial handshake visit ready
run-IsSerial_example = run-IsSerial granted client handshake visit visited

lockstep_example :
    exchange granted (at client handshake, at server handshake) visit
    ≡ (run granted (at client handshake) visit >>= λ s. ok (s, at server s.phase))
lockstep_example = lockstep granted client handshake visit

abbrev farewell : RawFrame
farewell = record { msg_type = bye; flags = 7; body = codes "x" }

encode_frame-decode_header_example :
    (h0 h1 h2 h3 h4 h5 : ℕ) × (encode_frame true farewell
      ≡ ok (h0 ∷ h1 ∷ h2 ∷ h3 ∷ h4 ∷ h5 ∷ codes "x"))
    × (decode_header granted h0 h1 h2 h3 h4 h5 ≡ ok (1, bye, 7))
encode_frame-decode_header_example = encode_frame-decode_header granted farewell (omega arith)

decode_header_iff_example : (decode_header granted 0 0 0 7 0x0F 7 ≡ ok (1, bye, 7)) ↔ (
    (from_be_bytes 0 0 0 7 ≡ 1 + header_size)
    × (1 + header_size ≤ max_frame_size)
    × (0x0F ≡ code bye)
    × ◌≡◌ {A = ℕ} 7 7)
decode_header_iff_example = decode_header_iff granted 0 0 0 7 0x0F 7 1 bye 7

abbrev pieces : List Text
pieces = codes "invalid " ∷ codes "" ∷ codes " frame" ∷ []

diagnostic-IsDiagnostic_example :
    IsDiagnostic invalid_message (concat pieces) (diagnostic granted invalid_message pieces)
diagnostic-IsDiagnostic_example = diagnostic-IsDiagnostic granted invalid_message pieces

parse_iff_example :
    (parse granted (codes "0.2") ≡ ok (record { major = 0; minor = 2 }))
    ↔ (codes "0.2" ≡ display_version (record { major = 0; minor = 2 }))
parse_iff_example =
    parse_iff granted (codes "0.2") (record { major = 0; minor = 2 }) (omega arith) (omega arith)
