-- ===== src/Serialize/Quoted.antt =====
-- serialize.rs against scanner/mod.rs: quoted values.
use dustnet.Base.{
  ℕ, ◌+◌, ◌≤◌, Bool, true, false, ◌||◌, [], ◌∷◌, ◌++◌, ◌≡◌, ◌≢◌, inl, inr, refl, ◌∙◌, ap, arith,
  length, ◌==◌, Bool-cases, if◌then◌else◌,
}
use dustnet.Base.Text.{Text, len_utf8, len}
use dustnet.Scanner.Token.{ok, max_attribute_value_chars}
use dustnet.Scanner.Lexer.{quoted_size, copy_quoted, prefixed, unescaped}
use dustnet.Serialize.{push_attr_value}

abbrev is_special : ℕ → Bool
is_special c = c == b'\\' || c == b'"' || c == b'\n' || c == b'\t'

abbrev escape_of : ℕ → ℕ
escape_of c = if c == b'\n' then b'n' else if c == b'\t' then b't' else c

push-special :
    (c : ℕ) (v : Text)
    → is_special c ≡ true
    → push_attr_value (c ∷ v) ≡ b'\\' ∷ escape_of c ∷ push_attr_value v
unfolding push_attr_value
push-special c v h = ground arith

push-plain :
    (c : ℕ) (v : Text) → is_special c ≡ false → push_attr_value (c ∷ v) ≡ c ∷ push_attr_value v
unfolding push_attr_value
push-plain c v h = ground arith

unescaped-escape_of : (c : ℕ) → is_special c ≡ true → unescaped (escape_of c) ≡ c ∷ []
unescaped-escape_of c h = ground arith

copy_quoted-special :
    (o c : ℕ) (s : Text)
    → is_special c ≡ true
    → copy_quoted o (b'\\' ∷ escape_of c ∷ s) ≡ prefixed (c ∷ []) (copy_quoted o s)
unfolding copy_quoted
copy_quoted-special o c s h = ap (λ t. prefixed t (copy_quoted o s)) (unescaped-escape_of c h)

copy_quoted-plain :
    (o c : ℕ) (s : Text)
    → is_special c ≡ false
    → s ≢ []
    → copy_quoted o (c ∷ s) ≡ prefixed (c ∷ []) (copy_quoted o s)
unfolding copy_quoted
copy_quoted-plain o c [] h ne = absurd (ne refl)
copy_quoted-plain o c (d ∷ s) h ne = rw (not_quote c h, not_backslash c h)
  where
    not_quote : (k : ℕ) → is_special k ≡ false → (k == b'"') ≡ false
    not_quote k e = ground arith

    not_backslash : (k : ℕ) → is_special k ≡ false → (k == b'\\') ≡ false
    not_backslash k e = ground arith

push-ne-nil : (v tail : Text) → push_attr_value v ++ b'"' ∷ tail ≢ []
push-ne-nil v tail e = go (push_attr_value v) e
  where
    go : (s : Text) → s ++ b'"' ∷ tail ≢ []
    go [] q = cc
    go (c ∷ s) q = cc

-- The scanner reads back a value that the serializer wrote, up to its closing quote.
pub copy_quoted-push :
    (o : ℕ) (v tail : Text) → copy_quoted o (push_attr_value v ++ b'"' ∷ tail) ≡ ok (v, tail)
copy_quoted-push o [] [] = unfold copy_quoted push_attr_value in refl
copy_quoted-push o [] (d ∷ tail) = unfold copy_quoted push_attr_value in refl
copy_quoted-push o (c ∷ v) tail = elim (Bool-cases (is_special c)) [
  | inl b ↦ rw (push-special c v b) (
      copy_quoted-special o c (push_attr_value v ++ b'"' ∷ tail) b
      ∙ ap (prefixed (c ∷ [])) (copy_quoted-push o v tail))
  | inr b ↦ rw (push-plain c v b) (
      copy_quoted-plain o c (push_attr_value v ++ b'"' ∷ tail) b (push-ne-nil v tail)
      ∙ ap (prefixed (c ∷ [])) (copy_quoted-push o v tail))
]

quoted_size-special :
    (o c : ℕ) (s : Text) (m n : ℕ)
    → is_special c ≡ true
    → n + 1 ≤ max_attribute_value_chars
    → quoted_size o (b'\\' ∷ escape_of c ∷ s) m n ≡ quoted_size o s (m + len_utf8 c) (n + 1)
unfolding quoted_size
quoted_size-special o c s m n h k = ground arith

quoted_size-plain :
    (o c : ℕ) (s : Text) (m n : ℕ)
    → is_special c ≡ false
    → s ≢ []
    → n + 1 ≤ max_attribute_value_chars
    → quoted_size o (c ∷ s) m n ≡ quoted_size o s (m + len_utf8 c) (n + 1)
unfolding quoted_size
quoted_size-plain o c [] m n h ne k = absurd (ne refl)
quoted_size-plain o c (d ∷ s) m n h ne k = ground arith

quoted_size-nil :
    (o : ℕ) (tail : Text) (m n : ℕ) → quoted_size o (push_attr_value [] ++ b'"' ∷ tail) m n ≡ ok m
unfolding quoted_size push_attr_value
quoted_size-nil o [] m n = refl
quoted_size-nil o (d ∷ tail) m n = refl

-- What the scanner reserves for it is its size.
pub quoted_size-push :
    (o : ℕ) (v tail : Text) (m n : ℕ)
    → n + length v ≤ max_attribute_value_chars
    → quoted_size o (push_attr_value v ++ b'"' ∷ tail) m n ≡ ok (m + len v)
quoted_size-push o [] tail m n h = quoted_size-nil o tail m n ∙ ap ok (omega arith)
quoted_size-push o (c ∷ v) tail m n h = elim (Bool-cases (is_special c)) [
  | inl b ↦ rw (push-special c v b) (
      quoted_size-special o c (push_attr_value v ++ b'"' ∷ tail) m n b (omega arith)
      ∙ quoted_size-push o v tail (m + len_utf8 c) (n + 1) (omega arith)
      ∙ ap ok (omega arith))
  | inr b ↦ rw (push-plain c v b) (
      quoted_size-plain o c (push_attr_value v ++ b'"' ∷ tail) m n b (push-ne-nil v tail)
        (omega arith)
      ∙ quoted_size-push o v tail (m + len_utf8 c) (n + 1) (omega arith)
      ∙ ap ok (omega arith))
]
