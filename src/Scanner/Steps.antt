-- ===== src/Scanner/Steps.antt =====
-- scanner/mod.rs, each method: it ends, moves the cursor forward, and leaves what it returns
-- within the limits and free of forbidden characters.
use dustnet.Base.{
  ℕ, ◌+◌, ◌≤◌, true, false, [], ◌∷◌, ◌≡◌, ◌≢◌, inl, inr, refl, ◌∙◌, arith, length, All, ◌==◌,
  Bool-cases, if◌then◌else◌,
}
use dustnet.Base.Text.{Text, len_utf8, len}
use dustnet.Scanner.Escape.{after_next}
use dustnet.Scanner.Escape.Output.{IsAdmitted}
use dustnet.Scanner.Token.{
  AttributeValue, string, ident, flag, Attribute, Token, open_tag, close_tag, text, eof, Allocator,
  Scan, ◌>>=◌, reserve, max_attribute_value_chars, max_text_token_size, AllocationSite,
}
use dustnet.Scanner.Lexer.{
  Scanner, quoted_size, unquoted_size, is_escapable, too_long, ends_unquoted, scan_name,
  scan_quoted_string, scan_unquoted_value,
}
use dustnet.Scanner.Tags.{skipped, stepped, is_empty}
use dustnet.Scanner.Ensures.{Ensures, Ensures-if, Ensures->>=}
use dustnet.Scanner.Values.{
  Takes, skip_whitespace-Takes, copy_name-is_valid, copy_name-rest, length-copy_name,
  copy_unquoted-Takes, copy_quoted-Takes, IsAdmitted-Escapes,
}
use dustnet.Serialize.{is_valid_name}

-- `t` is a later state of the scan than `s`.
pub record Later (s t : Scanner) : Type 0 where
  pub admitted : All IsAdmitted t.left
  pub shorter : length t.left ≤ length s.left
  pub same_count : t.token_count ≡ s.token_count

abbrev pub IsClean : Scanner → Type 0
IsClean s = All IsAdmitted s.left

-- A value is within the limit and free of forbidden characters.
abbrev pub ValueFits : AttributeValue → Type 0
ValueFits (string v) = All IsAdmitted v × (length v ≤ max_attribute_value_chars)
ValueFits (ident v) = All IsAdmitted v × (length v ≤ max_attribute_value_chars)
ValueFits flag = Unit

abbrev pub AttributeFits : Attribute → Type 0
AttributeFits a = (is_valid_name a.name ≡ true) × ValueFits a.value

-- So is a token that was read from the input; `Eof` is none.
abbrev pub TokenFits : Token → Type 0
TokenFits (open_tag name attributes self_closing) =
    (is_valid_name name ≡ true) × All AttributeFits attributes
TokenFits (close_tag name) = (is_valid_name name ≡ true) × Unit {0}
TokenFits (text t) = All IsAdmitted t × (len t ≤ max_text_token_size) × (t ≢ [])
TokenFits eof = ⊥ × Unit {0}

pub Ensures-reserve :
    {B : Type 0} (heap : Allocator) (site : AllocationSite) (n : ℕ) (P : B → Type 0) (k : Scan B)
    → Ensures P k
    → Ensures P (reserve heap site n >>= λ _. k)
Ensures-reserve heap site n P k h = elim (Bool-cases (heap.granted site n)) [
  | inl e ↦ rw e h
  | inr e ↦ rw e tt
]

pub Later-trans : {s t u : Scanner} → Later s t → Later t u → Later s u
Later-trans a b = record {
  admitted = b.admitted;
  shorter = omega (arith, a.shorter, b.shorter);
  same_count = b.same_count ∙ a.same_count;
}

pub Later-skipped : (s : Scanner) → IsClean s → Later s (skipped s)
Later-skipped s h =
    let t = skip_whitespace-Takes IsAdmitted s.left h in
    record { admitted = t.rest; shorter = t.shorter; same_count = refl }

after_next-All : (s : Text) → All IsAdmitted s → All IsAdmitted (after_next s)
after_next-All [] h = tt
after_next-All (c ∷ s) h = h.1

length-after_next : (s : Text) → length (after_next s) ≤ length s
length-after_next [] = omega arith
length-after_next (c ∷ s) = omega arith

pub Later-stepped : (s : Scanner) → IsClean s → Later s (stepped s)
Later-stepped s h = record {
  admitted = after_next-All s.left h;
  shorter = length-after_next s.left;
  same_count = refl;
}

module _ (heap : Allocator) where
  abbrev pub NameTaken : Scanner → Text × Scanner → Type 0
  NameTaken s p =
      (is_empty p.0 ≡ false → is_valid_name p.0 ≡ true)
      × Later s p.1
      × (length p.0 + length p.1.left ≡ length s.left)

  pub scan_name-NameTaken : (s : Scanner) → IsClean s → Ensures (NameTaken s) (scan_name heap s)
  unfolding scan_name is_valid_name
  scan_name-NameTaken s h = Ensures-reserve heap _ _ (NameTaken s) _ (
    (λ e. rw (e, copy_name-is_valid s.left)),
    record {
      admitted = copy_name-rest IsAdmitted s.left h;
      shorter = omega (arith, length-copy_name s.left);
      same_count = refl;
    },
    length-copy_name s.left,
  )

  abbrev pub TextTaken : Scanner → Text × Scanner → Type 0
  TextTaken s p = All IsAdmitted p.0 × Later s p.1

  Ensures-quoted_size : (o : ℕ) (s : Text) (m n : ℕ) → Ensures (λ _. Unit {0}) (quoted_size o s m n)
  unfolding quoted_size
  Ensures-quoted_size o [] m n = tt
  Ensures-quoted_size o (c ∷ []) m n =
      Ensures-if _ (c == b'"') _ _ tt
        (Ensures-if _ (c == b'\\') _ _ tt (Ensures-if _ (too_long (n + 1)) _ _ tt tt))
  Ensures-quoted_size o (c ∷ d ∷ s) m n =
      let bytes = if is_escapable d then 1 else 1 + len_utf8 d in
      let escaped = n + (if bytes == 1 then 1 else 2) in
      Ensures-if _ (c == b'"') _ _ tt (
        Ensures-if _ (c == b'\\') _ _
          (Ensures-if _ (too_long escaped) _ _ tt (Ensures-quoted_size o s (m + bytes) escaped))
          (Ensures-if _ (too_long (n + 1)) _ _ tt
            (Ensures-quoted_size o (d ∷ s) (m + len_utf8 c) (n + 1))))

  Ensures-unquoted_size : (s : Text) (m n : ℕ) → Ensures (λ _. Unit {0}) (unquoted_size s m n)
  unfolding unquoted_size
  Ensures-unquoted_size [] m n = tt
  Ensures-unquoted_size (c ∷ s) m n =
      Ensures-if _ (ends_unquoted c) _ _ tt
        (Ensures-if _ (too_long (n + 1)) _ _ tt (Ensures-unquoted_size s (m + len_utf8 c) (n + 1)))

  pub scan_unquoted-TextTaken :
      (s : Scanner) → IsClean s → Ensures (TextTaken s) (scan_unquoted_value heap s)
  unfolding scan_unquoted_value
  scan_unquoted-TextTaken s h =
      let t = copy_unquoted-Takes IsAdmitted s.left h in
      Ensures->>= (λ _. Unit {0}) (TextTaken s) (unquoted_size s.left 0 0) _
        (Ensures-unquoted_size s.left 0 0)
        (λ n _.
          Ensures-reserve heap _ _ (TextTaken s) _
            (t.piece, record { admitted = t.rest; shorter = t.shorter; same_count = refl }))

  pub scan_quoted-TextTaken :
      (s : Scanner) → IsClean s → Ensures (TextTaken s) (scan_quoted_string heap s)
  unfolding scan_quoted_string
  scan_quoted-TextTaken s h =
      let inner = after_next s.left in
      Ensures->>= (λ _. Unit {0}) (TextTaken s) (quoted_size s.pos inner 0 0) _
        (Ensures-quoted_size s.pos inner 0 0)
        (λ n _. Ensures-reserve heap _ _ (TextTaken s) _ (
          Ensures->>= (Takes IsAdmitted inner) (TextTaken s) _ _
            (copy_quoted-Takes IsAdmitted s.pos inner IsAdmitted-Escapes (after_next-All s.left h))
            (λ p t. (
              t.piece,
              record {
                admitted = t.rest;
                shorter = omega (arith, t.shorter, length-after_next s.left);
                same_count = refl;
              },
            ))))
