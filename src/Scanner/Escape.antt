-- ===== src/Scanner/Escape.antt =====
-- crates/dustnet-core/src/scanner/escape.rs: the filter that takes terminal controls and deceptive
-- formatting out of remote text. A byte index into `input` is the text that is still unread.
pub mod Loop
pub mod Output
pub mod Sequences
use dustnet.Base.{
  ℕ, zero, suc, Bool, true, false, ◌&&◌, ◌||◌, Option, none, some, List, [], ◌∷◌, ◌++◌, ◌==◌,
  within, if◌then◌else◌, length,
}
use dustnet.Base.Text.{Text}

-- `is_deceptive_format`: invisible characters, and those that reorder the text around them
unfoldable pub is_deceptive_format : ℕ → Bool
is_deceptive_format c =
    c == 0x061C
    || c == 0x200E
    || c == 0x200F
    || within 0x202A 0x202E c
    || within 0x2066 0x2069 c
    || c == 0x200B
    || within 0x2060 0x2064 c
    || within 0xFFF9 0xFFFB c
    || c == 0xFEFF

-- `next_char(input, index).is_some_and(|(next_ch, _)| next_ch == c)`
abbrev pub next_is : ℕ → Text → Bool
next_is c [] = false
next_is c (d ∷ rest) = d == c

-- what stands behind the next character, or the end of the text
abbrev pub after_next : Text → Text
after_next [] = []
after_next (c ∷ rest) = rest

-- the loop of both CSI arms: up to and with the final byte 0x40..=0x7E
pub skip_csi : Text → Text
skip_csi [] = []
skip_csi (c ∷ rest) = if within 0x40 0x7E c then rest else skip_csi rest

-- `skip_until_st_or_bel`
pub skip_until_st_or_bel : Text → Text
skip_until_st_or_bel [] = []
skip_until_st_or_bel (c ∷ rest) =
    if c == 0x07
    then rest
    else if c == 0x9C
    then rest
    else if c == 0x1B && next_is b'\\' rest
    then after_next rest
    else skip_until_st_or_bel rest

-- `skip_escape_sequence`, behind an ESC
pub skip_escape_sequence : Text → Text
skip_escape_sequence [] = []
skip_escape_sequence (c ∷ rest) =
    if c == b'['
    then skip_csi rest
    else if c == b']'
    then skip_until_st_or_bel rest
    else if c == b'P'
    then skip_until_st_or_bel rest
    else if c == b'^'
    then skip_until_st_or_bel rest
    else if c == b'_'
    then skip_until_st_or_bel rest
    else rest

-- `skip_c1_sequence`, behind its introducer
pub skip_c1_sequence : Text → ℕ → Text
skip_c1_sequence rest c =
    if c == 0x9B
    then skip_csi rest
    else if c == 0x90 || c == 0x9D || c == 0x9E || c == 0x9F
    then skip_until_st_or_bel rest
    else rest

abbrev starts_c1_sequence : ℕ → Bool
starts_c1_sequence c = c == 0x90 || c == 0x9B || c == 0x9D || c == 0x9E || c == 0x9F

abbrev is_other_c0 : ℕ → Bool
is_other_c0 c = within 0x00 0x08 c || within 0x0B 0x0C c || within 0x0E 0x1A c || within 0x1C 0x1F c

-- One round of the loop of `sanitize_into` at the character `c`: the character written, if any,
-- and where the next round begins.
unfoldable pub sanitize_step : ℕ → Text → Option ℕ × Text
unfolding is_deceptive_format
sanitize_step c rest =
    if c == b'\t' || c == b'\n'
    then (some c, rest)
    else if c == b'\r'
    then (if next_is b'\n' rest then (none, rest) else (some b'\n', rest))
    else if c == 0x1B
    then (none, skip_escape_sequence rest)
    else if within 0x80 0x9F c
    then (none, if starts_c1_sequence c then skip_c1_sequence rest c else rest)
    else if c == 0x7F
    then (none, rest)
    else if is_other_c0 c
    then (none, rest)
    else if is_deceptive_format c
    then (none, rest)
    else (some c, rest)

-- What `sanitize_into` comes to: all of the input was read, or the destination refused a
-- character. `out_of_fuel` is the model's own.
pub data Outcome {ℓ} (W : Type ℓ) : Type ℓ where
  finished : W → Outcome W
  refused : Outcome W
  out_of_fuel : Outcome W

-- A destination is a state with a `write_char` that may refuse.
module _ {ℓ} {W : Type ℓ} (write_char : ℕ → W → Option W) where
  abbrev pub write : Option ℕ → W → Option W
  write none w = some w
  write (some c) w = write_char c w

  abbrev pub write_then : (W → Outcome W) → Option W → Outcome W
  write_then k none = refused
  write_then k (some w) = k w

  unfoldable pub sanitize_loop : ℕ → Text → W → Outcome W
  sanitize_loop fuel [] w = finished w
  sanitize_loop zero (c ∷ rest) w = out_of_fuel
  sanitize_loop (suc fuel) (c ∷ rest) w =
      let (written, next) = sanitize_step c rest in
      write_then (sanitize_loop fuel next) (write written w)

  -- `sanitize_into`; every round reads a character at least
  unfoldable pub sanitize_into : Text → W → Outcome W
  unfolding sanitize_loop
  sanitize_into input = sanitize_loop (length input) input

-- a `String` takes every character
abbrev pub push : ℕ → Text → Option Text
push c out = some (out ++ c ∷ [])

abbrev pub written_or_empty : Outcome Text → Text
written_or_empty (finished out) = out
written_or_empty refused = []
written_or_empty out_of_fuel = []

-- `sanitize`
unfoldable pub sanitize : Text → Text
unfolding sanitize_into
sanitize input = written_or_empty (sanitize_into push input [])
