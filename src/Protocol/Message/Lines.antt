-- ===== src/Protocol/Message/Lines.antt =====
-- Rust's `str::lines` and `split_once` with a text as the separator, which message.rs reads bodies by.
use dustnet.Base.{
  ℕ, Bool, false, ◌&&◌, ◌||◌, Option, none, some, List, [], ◌∷◌, ◌++◌, ◌==◌, if◌then◌else◌, any,
  ◌≡◌, ◌≢◌, refl, arith, All,
}
use dustnet.Base.Text.{Text, onto_left, is_control}
use dustnet.Scanner.Escape.{next_is, after_next}

-- the character `c` in front of the first of `lines`; a carriage return in front of a line feed goes
abbrev pub onto_line : ℕ → Bool → List Text → List Text
onto_line c at_end [] = (c ∷ []) ∷ []
onto_line c at_end (l ∷ ls) = (if at_end && c == b'\r' then l else c ∷ l) ∷ ls

-- `str::lines`
unfoldable pub lines : Text → List Text
lines [] = []
lines (c ∷ s) =
    let rest = lines s in if c == b'\n' then [] ∷ rest else onto_line c (next_is b'\n' s) rest

-- `split_once(": ")`
unfoldable pub split_field : Text → Option (Text × Text)
split_field [] = none
split_field (c ∷ s) =
    let rest = onto_left c (split_field s) in
    if c == b':' && next_is b' ' s then some ([], after_next s) else rest

-- A line that is written: no line feed, and no carriage return.
abbrev pub Line : Text → Type 0
Line = All (λ c. (c ≢ b'\n') × (c ≢ b'\r'))

-- A line with a line feed behind it is read back.
pub lines-Line : (l s : Text) → Line l → lines (l ++ b'\n' ∷ s) ≡ l ∷ lines s
unfolding lines
lines-Line [] s h = refl
lines-Line (c ∷ l) s h =
    rw (lines-Line l s h.1, no_feed c h.0.0, no_return c (next_is b'\n' (l ++ b'\n' ∷ s)) h.0.1)
      refl
  where
    no_feed : (c : ℕ) → c ≢ b'\n' → (c == b'\n') ≡ false
    no_feed c k = ground arith

    no_return : (c : ℕ) (b : Bool) → c ≢ b'\r' → (b && c == b'\r') ≡ false
    no_return c b k = ground arith

pub Visible-Line : (l : Text) → any is_control l ≡ false → Line l
Visible-Line [] h = tt
Visible-Line (c ∷ l) h =
    (first c (any is_control l) h, Visible-Line l (rest c (any is_control l) h))
  where
    first : (c : ℕ) (b : Bool) → (is_control c || b) ≡ false → (c ≢ b'\n') × (c ≢ b'\r')
    first c b k = ground arith

    rest : (c : ℕ) (b : Bool) → (is_control c || b) ≡ false → b ≡ false
    rest c b k = ground arith
