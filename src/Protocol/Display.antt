-- ===== src/Protocol/Display.antt =====
-- crates/dustnet-core/src/protocol/mod.rs: the `Display` of errors. The text of an error of the
-- operating system is an argument.
use dustnet.Base.{ℕ, ◌+◌, ◌-◌, ◌/◌, ◌%◌, [], ◌∷◌, ◌++◌, ltb, if◌then◌else◌}
use dustnet.Base.Decimal.{decimal}
use dustnet.Base.Text.{Text, codes}
use dustnet.Protocol.Error.{
  debug_message, ProtocolError, frame_too_large, message_too_large, wrong_direction,
  unknown_message_type, invalid_message, io, tls, invalid_uri, connection_closed,
  resource_exhausted, timeout,
}

abbrev hex_digit : ℕ → ℕ
hex_digit n = if ltb n 10 then b'0' + n else b'a' + (n - 10)

-- `{code:02x}` of a byte
abbrev hex_byte : ℕ → Text
hex_byte n = hex_digit (n / 16 % 16) ∷ (hex_digit (n % 16) ∷ [])

abbrev pub display_error : Text → ProtocolError → Text
display_error io_text (frame_too_large size) =
    codes "frame too large: " ++ (decimal size ++ codes " bytes")
display_error io_text (message_too_large msg_type size max) =
    debug_message msg_type
    ++ (codes " body too large: "
        ++ (decimal size ++ (codes " bytes (max " ++ (decimal max ++ codes ")"))))
display_error io_text (wrong_direction msg_type) =
    codes "message " ++ (debug_message msg_type ++ codes " is invalid in this protocol direction")
display_error io_text (unknown_message_type c) = codes "unknown message type: 0x" ++ hex_byte c
display_error io_text (invalid_message msg) = codes "invalid message: " ++ msg
display_error io_text io = codes "I/O error: " ++ io_text
display_error io_text (tls msg) = codes "TLS error: " ++ msg
display_error io_text (invalid_uri msg) = codes "invalid URI: " ++ msg
display_error io_text connection_closed = codes "connection closed"
display_error io_text (resource_exhausted requested) =
    codes "unable to reserve " ++ (decimal requested ++ codes " bytes for bounded protocol storage")
display_error io_text timeout = codes "timeout"
