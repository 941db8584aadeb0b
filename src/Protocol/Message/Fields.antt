-- ===== src/Protocol/Message/Fields.antt =====
-- crates/dustnet-core/src/protocol/message.rs: the limits, the copies and the lines of fields that the
-- bodies of messages share.
use mathlib.Core.Option
use dustnet.Base.{
  ℕ, zero, suc, ◌+◌, ◌*◌, ◌/◌, leb, Bool, true, ◌||◌, Option, none, some, List, [], ◌∷◌, ◌++◌, ltb,
  if◌then◌else◌, any, ◌≡◌, refl, ap, ◌∙◌,
}
use dustnet.Base.Text.{Text, codes, len, is_control}
use dustnet.Protocol.Diagnostic.{diagnostic}
use dustnet.Protocol.Error.{
  MessageType, ProtocolError, message_too_large, invalid_message, resource_exhausted, Result, ok,
  err, ◌>>=◌, ◌>>◌, reject, reserve,
}
use dustnet.Protocol.Frame.{u32_max}
use dustnet.Protocol.Holds.{Holds, Holds->>=}
use dustnet.Protocol.Message.Lines.{split_field}
use dustnet.Protocol.Path.{usize_max}
use dustnet.Protocol.Version.{or_else}
use dustnet.Scanner.Tags.{is_empty}

abbrev pub max_control_message_size : ℕ
max_control_message_size = 16 * 1024

abbrev pub max_input_message_size : ℕ
max_input_message_size = 64 * 1024

abbrev pub max_live_update_size : ℕ
max_live_update_size = 1024 * 1024

abbrev pub checked_add_size : ℕ → ℕ → Result ℕ
checked_add_size size extra =
    if ltb usize_max (size + extra) then err (resource_exhausted usize_max) else ok (size + extra)

abbrev pub enforce_message_limit : MessageType → ℕ → ℕ → Result (Unit {0})
enforce_message_limit msg_type requested max =
    reject (ltb max requested)
      (message_too_large msg_type (if ltb u32_max requested then u32_max else requested) max)

-- `try_owned_string`, with what the allocator answers to a request
abbrev pub try_owned_string : (ℕ → Bool) → Text → Result Text
try_owned_string granted value = do reserve (granted (len value)) (len value); ok value

-- an error with a formatted text, for which the allocator is asked
abbrev pub invalid : (ℕ → Bool) → List Text → ProtocolError
invalid diagnostics pieces = diagnostic diagnostics invalid_message pieces

unfoldable pub parse_control_field : (ℕ → Bool) → Text → Result (Text × Text)
parse_control_field diagnostics line = do
  reject (is_empty line || any is_control line)
      (invalid_message (codes "empty or control-containing metadata field"))
  field ← or_else (invalid diagnostics (codes "malformed field: " ∷ line ∷ [])) (split_field line)
  reject (is_empty field.0 || is_empty field.1)
      (invalid diagnostics (codes "malformed field: " ∷ line ∷ []))
  ok field

abbrev pub validate_primary_value : (ℕ → Bool) → Text → Text → Result (Unit {0})
validate_primary_value diagnostics label value =
    reject (is_empty value || any is_control value)
      (invalid diagnostics (label ∷ codes " is empty or contains controls" ∷ []))

-- `mark_seen`, with the changed array where it answers `true`
abbrev pub mark_seen : List Bool → ℕ → Option (List Bool)
mark_seen [] index = none
mark_seen (seen ∷ rest) zero = if seen then none else some (true ∷ rest)
mark_seen (seen ∷ rest) (suc index) = Option.map (λ r. seen ∷ r) (mark_seen rest index)

-- `first` of the lines, or the error of an empty body
abbrev pub first_line : Text → List Text → Result (Text × List Text)
first_line empty [] = err (invalid_message empty)
first_line empty (first ∷ rest) = ok (first, rest)

-- the size of a field that may be absent, `label` with its line feed
abbrev pub add_field : Text → ℕ → Option Text → Result ℕ
add_field label size none = ok size
add_field label size (some value) = do
  size ← checked_add_size size (len label)
  checked_add_size size (len value)

-- the line of a field that may be absent
abbrev pub field_line : Text → Option Text → Text
field_line label none = []
field_line label (some value) = label ++ (value ++ b'\n' ∷ [])

-- `decimal_len`'s loop; each round divides the value by ten
unfoldable pub count_digits : ℕ → ℕ → ℕ
count_digits zero value = 1
count_digits (suc fuel) value =
    let more = count_digits fuel (value / 10) + 1 in if leb 10 value then more else 1

abbrev pub decimal_size : ℕ → ℕ
decimal_size value = count_digits value value

-- `for line in lines`, with `?` in the body
unfoldable pub for_each {ℓ} : {S : Type ℓ} → (S → Text → Result S) → S → List Text → Result S
for_each step s [] = ok s
for_each step s (line ∷ rest) = step s line >>= λ t. for_each step t rest

-- What every step keeps, the loop keeps.
pub for_each-Holds {ℓ κ} :
    {S : Type ℓ} (P : S → Type κ) (step : S → Text → Result S) (s : S) (ls : List Text)
    → ((s : S) (l : Text) → P s → Holds P (step s l))
    → P s
    → Holds P (for_each step s ls)
unfolding for_each
for_each-Holds P step s [] h p = p
for_each-Holds P step s (l ∷ ls) h p =
    Holds->>= P P (step s l) (λ t. for_each step t ls) (h s l p)
      (λ t q. for_each-Holds P step t ls h q)

-- A loop whose steps follow those of another, on a part of its state, follows the other.
pub for_each-follows {ℓ κ} :
    {S : Type ℓ} {T : Type κ} (f : S → T) (step : S → Text → Result S) (step' : T → Text → Result T)
    (s : S) (ls : List Text)
    → ((s : S) (l : Text) → step' (f s) l ≡ (step s l >>= λ t. ok (f t)))
    → for_each step' (f s) ls ≡ (for_each step s ls >>= λ t. ok (f t))
unfolding for_each
for_each-follows f step step' s [] h = refl
for_each-follows {S = S} {T = T} f step step' s (l ∷ ls) h =
    ap (λ r. r >>= λ t. for_each step' t ls) (h s l)
    ∙ behind (step s l) (λ t. for_each-follows f step step' t ls h)
  where
    behind :
        (r : Result S)
        → ((t : S) → for_each step' (f t) ls ≡ (for_each step t ls >>= λ t. ok (f t)))
        → ((r >>= λ t. ok (f t)) >>= λ t. for_each step' t ls)
          ≡ ((r >>= λ t. for_each step t ls) >>= λ t. ok (f t))
    behind (ok t) k = k t
    behind (err e) k = refl

-- Two chains with the same first step agree if what is behind it does.
pub >>=-follows {ℓ κ μ} :
    {A : Type ℓ} {B : Type κ} {C : Type μ} (r : Result A) (f : A → Result C) (g : A → Result B)
    (k : B → Result C)
    → ((a : A) → f a ≡ (g a >>= k))
    → (r >>= f) ≡ ((r >>= g) >>= k)
>>=-follows (ok a) f g k h = h a
>>=-follows (err e) f g k h = refl
