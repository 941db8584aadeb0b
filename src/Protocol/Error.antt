-- ===== src/Protocol/Error.antt =====
-- crates/dustnet-core/src/protocol/mod.rs and frame.rs: `ProtocolError`, and the message types that
-- it names.
use dustnet.Base.{ℕ, Bool, true, false, ◌≡◌, refl, if◌then◌else◌}
use dustnet.Base.Text.{Text, codes}

-- `MessageType`
pub data MessageType : Type 0 where
  hello get input subscribe unsubscribe ping bye : MessageType
  welcome page update redirect error resource pong server_bye : MessageType

-- the derived `Debug`
abbrev pub debug_message : MessageType → Text
debug_message hello = codes "Hello"
debug_message get = codes "Get"
debug_message input = codes "Input"
debug_message subscribe = codes "Subscribe"
debug_message unsubscribe = codes "Unsubscribe"
debug_message ping = codes "Ping"
debug_message bye = codes "Bye"
debug_message welcome = codes "Welcome"
debug_message page = codes "Page"
debug_message update = codes "Update"
debug_message redirect = codes "Redirect"
debug_message error = codes "Error"
debug_message resource = codes "Resource"
debug_message pong = codes "Pong"
debug_message server_bye = codes "ServerBye"

-- `ProtocolError`; the error of the operating system that `Io` carries is left out
pub data ProtocolError : Type 0 where
  frame_too_large : ℕ → ProtocolError
  message_too_large : MessageType → ℕ → ℕ → ProtocolError
  wrong_direction : MessageType → ProtocolError
  unknown_message_type : ℕ → ProtocolError
  invalid_message : Text → ProtocolError
  io : ProtocolError
  tls : Text → ProtocolError
  invalid_uri : Text → ProtocolError
  connection_closed : ProtocolError
  resource_exhausted : ℕ → ProtocolError
  timeout : ProtocolError

pub data Result {ℓ} (A : Type ℓ) : Type ℓ where
  err : ProtocolError → Result A
  ok : A → Result A

-- `return Err(e)` under a test
abbrev pub reject : Bool → ProtocolError → Result (Unit {0})
reject true e = err e
reject false e = ok tt

infixl 5 ◌>>=◌ ◌>>◌
-- `?` on a result
abbrev pub ◌>>=◌ {ℓ κ} : {A : Type ℓ} {B : Type κ} (r : Result A) (next : A → Result B) → Result B
err e >>= next = err e
ok a >>= next = next a

-- a fallible reservation of `requested` bytes, which the allocator grants or not
abbrev pub reserve : Bool → ℕ → Result (Unit {0})
reserve granted requested = if granted then ok tt else err (resource_exhausted requested)

abbrev pub ◌>>◌ {ℓ} : {B : Type ℓ} (r : Result (Unit {0})) (next : Result B) → Result B
r >> next = r >>= λ _. next

pub >>=-eq-ok {ℓ κ} :
    {A : Type ℓ} {B : Type κ} (r : Result A) (next : A → Result B) {b : B} (h : (r >>= next) ≡ ok b)
    → (a : A) × (r ≡ ok a) × (next a ≡ ok b)
>>=-eq-ok (err e) next h = cc
>>=-eq-ok (ok a) next h = (a, refl, h)

pub reject-eq-ok : (b : Bool) (e : ProtocolError) {u : Unit {0}} → reject b e ≡ ok u → b ≡ false
reject-eq-ok true e h = cc
reject-eq-ok false e h = refl

pub ok_inj {ℓ} : {A : Type ℓ} {a b : A} → Path (Result A) (ok a) (ok b) → a ≡ b
ok_inj e = cc
