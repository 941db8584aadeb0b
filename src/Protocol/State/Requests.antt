-- ===== src/Protocol/State/Requests.antt =====
-- crates/dustnet-core/src/protocol/state.rs, the serial contract of the validator's comment: one
-- request is outstanding at a time.
use dustnet.Base.{
  ℕ, suc, ◌+◌, Bool, true, false, none, some, List, [], ◌∷◌, ◌≡◌, ◌≢◌, ◌⊎◌, inl, inr, refl, sym,
  ◌∙◌, ap, arith, Option-cases,
}
use dustnet.Protocol.Error.{
  MessageType, get, input, page, redirect, error, resource, Result, ok, err, ◌>>=◌,
}
use dustnet.Protocol.State.{
  Endpoint, Direction, Phase, response_pending, closed, ConnectionStateMachine, next, next-closed,
  next-peer, apply, opposite, peer, run,
}

-- GET and INPUT
abbrev pub is_request : MessageType → Bool
is_request get = true
is_request input = true
is_request _ = false

-- what answers a request
abbrev pub is_response : MessageType → Bool
is_response page = true
is_response redirect = true
is_response error = true
is_response resource = true
is_response _ = false

abbrev pub tally : (MessageType → Bool) → List (Direction × MessageType) → ℕ
tally p [] = 0
tally p ((d, m) ∷ rest) = elim (p m) [ true ↦ suc (tally p rest) | false ↦ tally p rest ]

-- the requests without a response; a closed connection, and one that is not open, has none
abbrev pub outstanding : Phase → ℕ
outstanding response_pending = 1
outstanding _ = 0

abbrev pub count : Bool → ℕ
count true = 1
count false = 0

-- Before the connection closes, a transition changes the outstanding requests by its message.
next-outstanding :
    (e : Endpoint) (p : Phase) (d : Direction) (m : MessageType) {q : Phase}
    → next e p d m ≡ some q
    → (q ≡ closed) ⊎ (outstanding p + count (is_request m) ≡ outstanding q + count (is_response m))
unfolding next
next-outstanding e p d m h = ground arith

-- the two ends of a connection, one message at a time: the sender's validator and the receiver's
abbrev pub exchange :
    (ℕ → Bool)
    → ConnectionStateMachine × ConnectionStateMachine
    → List (Direction × MessageType)
    → Result (ConnectionStateMachine × ConnectionStateMachine)
exchange grants (a, b) [] = ok (a, b)
exchange grants (a, b) ((d, m) ∷ rest) = (do
  a2 ← apply grants a d m
  b2 ← apply grants b (opposite d) m
  exchange grants (a2, b2) rest)

abbrev phase_or : Phase → Result ConnectionStateMachine → Phase
phase_or p (ok s) = s.phase
phase_or p (err e) = p

abbrev pub at : Endpoint → Phase → ConnectionStateMachine
at e p = record { endpoint = e; phase = p }

run-accepted :
    (grants : ℕ → Bool) (e : Endpoint) (p : Phase) (d : Direction) (m : MessageType)
    (ms : List (Direction × MessageType)) {q : Phase}
    → next e p d m ≡ some q
    → run grants (at e p) ((d, m) ∷ ms) ≡ run grants (at e q) ms
unfolding apply
run-accepted grants e p d m ms g = rw g refl

run-refused :
    (grants : ℕ → Bool) (e : Endpoint) (p : Phase) (d : Direction) (m : MessageType)
    (ms : List (Direction × MessageType)) {s : ConnectionStateMachine}
    → next e p d m ≡ none
    → run grants (at e p) ((d, m) ∷ ms) ≢ ok s
unfolding apply
run-refused grants e p d m ms g h = cc

tally-cons :
    (p : MessageType → Bool) (d : Direction) (m : MessageType) (ms : List (Direction × MessageType))
    → tally p ((d, m) ∷ ms) ≡ count (p m) + tally p ms
tally-cons p d m ms = ground arith

run-closed :
    (grants : ℕ → Bool) (e : Endpoint) (ms : List (Direction × MessageType))
    {s : ConnectionStateMachine}
    → run grants (at e closed) ms ≡ ok s
    → s.phase ≡ closed
run-closed grants e [] h = sym (ap (phase_or closed) h)
run-closed grants e ((d, m) ∷ ms) h =
    absurd (run-refused grants e closed d m ms (next-closed e d m) h)

-- From a phase, the requests that were accepted, and the one that was outstanding, are as many as the
-- responses and the one that is, unless the connection closed.
abbrev pub IsSerial : Phase → List (Direction × MessageType) → Phase → Type 0
IsSerial p ms q =
    (q ≡ closed) ⊎ (outstanding p + tally is_request ms ≡ outstanding q + tally is_response ms)

IsSerial-cons :
    (p : Phase) (d : Direction) (m : MessageType) (ms : List (Direction × MessageType))
    (q r : Phase)
    → (q ≡ closed → r ≡ closed)
    → (q ≡ closed) ⊎ (outstanding p + count (is_request m) ≡ outstanding q + count (is_response m))
    → IsSerial q ms r
    → IsSerial p ((d, m) ∷ ms) r
IsSerial-cons p d m ms q r c (inl e) k = inl (c e)
IsSerial-cons p d m ms q r c (inr e) (inl k) = inl k
IsSerial-cons p d m ms q r c (inr e) (inr k) =
    let a = tally-cons is_request d m ms in
    let b = tally-cons is_response d m ms in inr (omega (arith, a, b))

-- Over any messages that a validator accepts, requests and responses are as many, but for a request
-- that was outstanding at the start or is at the end, unless the connection closed.
pub run-IsSerial :
    (grants : ℕ → Bool) (e : Endpoint) (p : Phase) (ms : List (Direction × MessageType))
    {s : ConnectionStateMachine}
    → run grants (at e p) ms ≡ ok s
    → IsSerial p ms s.phase
run-IsSerial grants e p [] {s} h = inr (ap (λ q. outstanding q + 0) (ap (phase_or p) h))
run-IsSerial grants e p ((d, m) ∷ ms) {s} h = elim (Option-cases (next e p d m)) [
  | inl g ↦ absurd (run-refused grants e p d m ms g h)
  | inr (q, g) ↦
      let later : run grants (at e q) ms ≡ ok s = sym (run-accepted grants e p d m ms g) ∙ h in
      IsSerial-cons p d m ms q s.phase
        (λ c. run-closed grants e ms (ap (λ r. run grants (at e r) ms) (sym c) ∙ later))
        (next-outstanding e p d m g) (run-IsSerial grants e q ms later)
]

-- Messages between the two ends, each checked by the one end's validator and then by the other's,
-- pass both as far as they pass the one, with its error, and leave both in one phase.
pub lockstep :
    (grants : ℕ → Bool) (e : Endpoint) (p : Phase) (ms : List (Direction × MessageType))
    → exchange grants (at e p, at (peer e) p) ms
      ≡ (run grants (at e p) ms >>= λ s. ok (s, at (peer e) s.phase))
unfolding apply
lockstep grants e p [] = refl
lockstep grants e p ((d, m) ∷ ms) = elim (Option-cases (next e p d m)) [
  | inl g ↦ rw g refl
  | inr (q, g) ↦ rw (g, next-peer e p d m, g) (lockstep grants e q ms)
]
