-- ===== src/Base/Text.antt =====
-- Rust's `char` and `str` as the source uses them: a `char` is its code point, a `str` the list of
-- its code points, and `len` counts the bytes of UTF-8.
use Prim.Native.Nat.{ℕ, ◌+◌, ◌≤◌}
use Prim.Native.Char.{code}
use Prim.Native.String.{String}
use mathlib.Core.Path.{◌≡◌, refl, sym, ◌∙◌}
use mathlib.Core.Logic.{◌↔◌, inl, inr}
use mathlib.Core.Bool.{Bool, true, false, ◌&&◌, ◌||◌}
use mathlib.Core.List.{List, [], ◌∷◌, ◌++◌}
use mathlib.Core.Option.{Option, none, some}
use native.Mathlib.Omega.{arith}
use dustnet.Base.Tests.{==_iff, Bool-cases, ltb, ◌==◌, within, if◌then◌else◌}

abbrev pub Text : Type 0
Text = List ℕ

abbrev pub codes : String → Text
codes String.[] = []
codes (String.◌∷◌ c s) = code c ∷ codes s

-- `char::len_utf8`
abbrev pub len_utf8 : ℕ → ℕ
len_utf8 c = if ltb c 0x80 then 1 else if ltb c 0x800 then 2 else if ltb c 0x10000 then 3 else 4

-- `str::len`
abbrev pub len : Text → ℕ
len [] = 0
len (c ∷ cs) = len_utf8 c + len cs

-- `str`'s `==`
unfoldable pub text_eq : Text → Text → Bool
text_eq [] [] = true
text_eq (x ∷ xs) (y ∷ ys) = x == y && text_eq xs ys
text_eq _ _ = false

pub text_eq_iff : (a b : Text) → (text_eq a b ≡ true) ↔ (a ≡ b)
unfolding text_eq
text_eq_iff (x ∷ a) (y ∷ b) = ground (arith, text_eq_iff a b)
text_eq_iff _ _ = ground arith

-- `char::is_control`, the category Cc
abbrev pub is_control : ℕ → Bool
is_control c = ltb c 0x20 || within 0x7F 0x9F c

-- `char::is_whitespace`, the property White_Space
abbrev pub is_whitespace : ℕ → Bool
is_whitespace c =
    within 0x09 0x0D c
    || c == 0x20
    || c == 0x85
    || c == 0xA0
    || c == 0x1680
    || within 0x2000 0x200A c
    || within 0x2028 0x2029 c
    || c == 0x202F
    || c == 0x205F
    || c == 0x3000

abbrev pub is_ascii_lowercase : ℕ → Bool
is_ascii_lowercase = within b'a' b'z'

abbrev pub is_ascii_uppercase : ℕ → Bool
is_ascii_uppercase = within b'A' b'Z'

abbrev pub is_ascii_alphabetic : ℕ → Bool
is_ascii_alphabetic c = is_ascii_lowercase c || is_ascii_uppercase c

abbrev pub is_ascii_digit : ℕ → Bool
is_ascii_digit = within b'0' b'9'

abbrev pub is_ascii_alphanumeric : ℕ → Bool
is_ascii_alphanumeric c = is_ascii_alphabetic c || is_ascii_digit c

abbrev pub to_ascii_lowercase : ℕ → ℕ
to_ascii_lowercase c = if is_ascii_uppercase c then c + 32 else c

pub len_utf8-pos : (c : ℕ) → 1 ≤ len_utf8 c
len_utf8-pos c = ground arith

pub len-append : (a b : Text) → len (a ++ b) ≡ len a + len b
len-append [] b = omega arith
len-append (c ∷ a) b = omega (arith, len-append a b)

-- `str::trim_start` and `str::trim_end`
unfoldable pub trim_start : Text → Text
trim_start [] = []
trim_start (c ∷ cs) = if is_whitespace c then trim_start cs else c ∷ cs

unfoldable pub trim_end : Text → Text
trim_end [] = []
trim_end (c ∷ cs) = keep_end c (trim_end cs)
  where
    keep_end : ℕ → Text → Text
    keep_end d [] = if is_whitespace d then [] else d ∷ []
    keep_end d (e ∷ es) = d ∷ e ∷ es

-- `str::trim`
unfoldable pub trim : Text → Text
unfolding trim_start trim_end
trim s = trim_end (trim_start s)

abbrev pub onto_first : ℕ → List Text → List Text
onto_first c [] = (c ∷ []) ∷ []
onto_first c (s ∷ ss) = (c ∷ s) ∷ ss

-- `str::split`
unfoldable pub split : ℕ → Text → List Text
split sep [] = [] ∷ []
split sep (c ∷ cs) = if c == sep then [] ∷ split sep cs else onto_first c (split sep cs)

abbrev pub onto_left : ℕ → Option (Text × Text) → Option (Text × Text)
onto_left c none = none
onto_left c (some (a, b)) = some (c ∷ a, b)

-- `str::split_once`
unfoldable pub split_once : ℕ → Text → Option (Text × Text)
split_once sep [] = none
split_once sep (c ∷ cs) = if c == sep then some ([], cs) else onto_left c (split_once sep cs)

-- `str::contains`, of a character
abbrev pub contains : ℕ → Text → Bool
contains c [] = false
contains c (d ∷ s) = d == c || contains c s

-- `str::strip_prefix`
unfoldable pub strip_prefix : Text → Text → Option Text
strip_prefix [] s = some s
strip_prefix (c ∷ p) [] = none
strip_prefix (c ∷ p) (d ∷ s) = if c == d then strip_prefix p s else none

-- `str::ends_with`, of a character
abbrev pub ends_with : ℕ → Text → Bool
ends_with c [] = false
ends_with c (d ∷ []) = d == c
ends_with c (d ∷ e ∷ s) = ends_with c (e ∷ s)

pub strip_prefix-append : (p rest : Text) → strip_prefix p (p ++ rest) ≡ some rest
unfolding strip_prefix
strip_prefix-append [] rest = refl
strip_prefix-append (c ∷ p) rest = rw ((==_iff c c).1 refl) (strip_prefix-append p rest)

pub strip_prefix-eq_some : (p s : Text) {rest : Text} → strip_prefix p s ≡ some rest → s ≡ p ++ rest
unfolding strip_prefix
strip_prefix-eq_some [] s h = cc
strip_prefix-eq_some (c ∷ p) [] h = cc
strip_prefix-eq_some (c ∷ p) (d ∷ s) {rest} h = elim (Bool-cases (c == d)) [
  | inl e ↦
      let ih = strip_prefix-eq_some p s {rest = rest} (sym (rw e refl) ∙ h) in
      rw (sym ((==_iff c d).0 e), ih) refl
  | inr e ↦ absurd (none≢some (sym (rw e refl) ∙ h))
]
  where
    none≢some : none ≡ some rest → ⊥
    none≢some k = cc
