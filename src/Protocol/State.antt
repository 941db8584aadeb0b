-- ===== src/Protocol/State.antt =====
-- crates/dustnet-core/src/protocol/state.rs: the validator of a connection's transitions, and
-- conversations, in which each message is checked by both ends.
pub mod Requests
use dustnet.Base.{
  arith, ℕ, ◌+◌, Bool, true, false, Option, none, some, List, [], ◌∷◌, ◌++◌, ◌≡◌, refl,
}
use dustnet.Base.Text.{Text, codes}
use dustnet.Protocol.Diagnostic.{diagnostic}
use dustnet.Protocol.Error.{
  MessageType, hello, get, input, subscribe, unsubscribe, ping, bye, welcome, page, update,
  redirect, error, resource, pong, server_bye, ProtocolError, invalid_message, debug_message,
  Result, ok, err, ◌>>=◌,
}

pub data Endpoint : Type 0 where
  client server : Endpoint

pub data Direction : Type 0 where
  send receive : Direction

pub data Phase : Type 0 where
  handshake handshake_reply ready response_pending closing closed : Phase

-- `ConnectionStateMachine`
pub record ConnectionStateMachine : Type 0 where
  pub endpoint : Endpoint
  pub phase : Phase

-- `ConnectionStateMachine::new`
abbrev pub new : Endpoint → ConnectionStateMachine
new endpoint = record { endpoint = endpoint; phase = handshake }

-- the table of transitions; `none` is its last arm
unfoldable pub next : Endpoint → Phase → Direction → MessageType → Option Phase
next client handshake send hello = some handshake_reply
next client handshake_reply receive welcome = some ready
next client handshake_reply receive error = some closed
next client handshake_reply receive server_bye = some closed
next client ready send get = some response_pending
next client ready send input = some response_pending
next client ready send subscribe = some ready
next client ready send unsubscribe = some ready
next client ready send ping = some ready
next client response_pending send ping = some response_pending
next client ready receive pong = some ready
next client response_pending receive pong = some response_pending
next client ready receive update = some ready
next client ready send bye = some closing
next client response_pending receive update = some response_pending
next client response_pending receive page = some ready
next client response_pending receive redirect = some ready
next client response_pending receive error = some ready
next client response_pending receive resource = some ready
next client ready receive server_bye = some closed
next client response_pending receive server_bye = some closed
next client closing receive server_bye = some closed
next server handshake receive hello = some handshake_reply
next server handshake_reply send welcome = some ready
next server handshake_reply send error = some closed
next server handshake_reply send server_bye = some closed
next server ready receive get = some response_pending
next server ready receive input = some response_pending
next server ready receive subscribe = some ready
next server ready receive unsubscribe = some ready
next server ready receive ping = some ready
next server response_pending receive ping = some response_pending
next server ready send pong = some ready
next server response_pending send pong = some response_pending
next server ready receive bye = some closing
next server response_pending send update = some response_pending
next server response_pending send page = some ready
next server response_pending send redirect = some ready
next server response_pending send error = some ready
next server response_pending send resource = some ready
next server ready send update = some ready
next server ready send server_bye = some closed
next server response_pending send server_bye = some closed
next server closing send server_bye = some closed
next _ _ _ _ = none

abbrev pub advance :
    ConnectionStateMachine → ProtocolError → Option Phase → Result ConnectionStateMachine
advance s e none = err e
advance s e (some p) = ok (record { endpoint = s.endpoint; phase = p })

abbrev debug_direction : Direction → Text
debug_direction send = codes "Send"
debug_direction receive = codes "Receive"

abbrev debug_endpoint : Endpoint → Text
debug_endpoint client = codes "Client"
debug_endpoint server = codes "Server"

abbrev debug_phase : Phase → Text
debug_phase handshake = codes "Handshake"
debug_phase handshake_reply = codes "HandshakeReply"
debug_phase ready = codes "Ready"
debug_phase response_pending = codes "ResponsePending"
debug_phase closing = codes "Closing"
debug_phase closed = codes "Closed"

-- `ConnectionStateMachine::apply`; the text of its error asks the allocator for memory
unfoldable pub apply :
    (ℕ → Bool) → ConnectionStateMachine → Direction → MessageType → Result ConnectionStateMachine
apply grants s direction message =
    advance s
      (diagnostic grants invalid_message (
        codes "invalid "
        ∷ debug_direction direction
        ∷ codes " transition for "
        ∷ debug_endpoint s.endpoint
        ∷ codes " in "
        ∷ debug_phase s.phase
        ∷ codes ": "
        ∷ debug_message message
        ∷ []))
      (next s.endpoint s.phase direction message)

-- `ConnectionStateMachine::is_closed`
unfoldable pub is_closed : ConnectionStateMachine → Bool
is_closed s = elim s.phase [ closed ↦ true | _ ↦ false ]

abbrev pub opposite : Direction → Direction
opposite send = receive
opposite receive = send

abbrev pub peer : Endpoint → Endpoint
peer client = server
peer server = client

-- the messages of a connection, each with the direction it has at one end, as this end checks them
abbrev pub run :
    (ℕ → Bool)
    → ConnectionStateMachine
    → List (Direction × MessageType)
    → Result ConnectionStateMachine
run grants s [] = ok s
run grants s ((d, m) ∷ rest) = apply grants s d m >>= λ t. run grants t rest

pub next-peer :
    (e : Endpoint) (p : Phase) (d : Direction) (m : MessageType)
    → next (peer e) p (opposite d) m ≡ next e p d m
unfolding next
next-peer e p d m = ground arith

-- A closed connection admits no message, and only it is closed.
pub next-closed : (e : Endpoint) (d : Direction) (m : MessageType) → next e closed d m ≡ none
unfolding next
next-closed e d m = ground arith
