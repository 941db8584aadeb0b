-- ===== src/Serialize/Tags.antt =====
-- serialize.rs against scanner/mod.rs: names, attributes and tags, with an allocator that grants
-- every request.
use mathlib.Core.Bool.{false≢true}
use dustnet.Base.{
  ℕ, ◌+◌, ◌≤◌, true, false, ◌||◌, [], ◌∷◌, ◌++◌, ◌≡◌, refl, ◌∙◌, ap, arith, length, ◌==◌, ltb, all,
}
use dustnet.Base.Text.{Text, len}
use dustnet.Scanner.Escape.{next_is, after_next}
use dustnet.Scanner.Token.{
  AttributeValue, string, ident, flag, Attribute, Allocator, AllocationSite, Scan, ok, err,
  out_of_fuel, ◌>>=◌, reserve, max_attribute_value_chars,
}
use dustnet.Scanner.Lexer.{Scanner, copy_name, scan_name, scan_quoted_string}
use dustnet.Scanner.Tags.{is_empty, value_length, scan_attribute_value}
use dustnet.Serialize.{is_valid_char, is_valid_name, push_attr_value}
use dustnet.Serialize.Chars.{EndsName, copy_name-valid}
use dustnet.Serialize.Quoted.{copy_quoted-push, quoted_size-push}

-- The scan succeeds, and its result satisfies `P`.
abbrev pub Yields {ℓ κ} : {A : Type ℓ} → (A → Type κ) → Scan A → Type κ
Yields P (ok a) = P a
Yields P (err e) = ⊥ × Unit
Yields P out_of_fuel = ⊥ × Unit

pub Yields->>= {ℓ κ μ ν} :
    {A : Type ℓ} {B : Type κ} (P : A → Type μ) (Q : B → Type ν) (m : Scan A) (f : A → Scan B)
    → Yields P m
    → ((a : A) → P a → Yields Q (f a))
    → Yields Q (m >>= f)
Yields->>= P Q (ok a) f h k = k a h
Yields->>= P Q (err e) f h k = absurd h.0
Yields->>= P Q out_of_fuel f h k = absurd h.0

pub Yields-weaken {ℓ κ μ} :
    {A : Type ℓ} (P : A → Type κ) (Q : A → Type μ) (m : Scan A)
    → ((a : A) → P a → Q a)
    → Yields P m
    → Yields Q m
Yields-weaken P Q (ok a) f h = f a h
Yields-weaken P Q (err e) f h = absurd h.0
Yields-weaken P Q out_of_fuel f h = absurd h.0

-- The allocator grants every request.
abbrev pub Generous : Allocator → Type 0
Generous heap = (site : AllocationSite) (n : ℕ) → heap.granted site n ≡ true

-- `t` is a state of the scan of `s` at which `left` is still unread.
abbrev pub At : Scanner → Text → Scanner → Type 0
At s left t = (t.left ≡ left) × (t.token_count ≡ s.token_count)

pub valid_name-chars :
    (name : Text)
    → is_valid_name name ≡ true
    → (is_empty name ≡ false) × (all is_valid_char name ≡ true)
unfolding is_valid_name
valid_name-chars [] h = absurd (false≢true h)
valid_name-chars (c ∷ name) h = (refl, h)

-- How an attribute is read back: the serializer quotes every value.
abbrev pub as_string : AttributeValue → AttributeValue
as_string (string v) = string v
as_string (ident v) = string v
as_string flag = flag

abbrev pub quoted : Attribute → Attribute
quoted a = record a { value = as_string a.value }

-- What may stand behind an attribute.
abbrev pub EndsAttribute : Text → Type 0
EndsAttribute [] = ⊥ × Unit {0}
EndsAttribute (c ∷ s) = (c == b' ' || c == b']') ≡ true

pub EndsAttribute-name : (s : Text) → EndsAttribute s → EndsName s
EndsAttribute-name [] h = tt
EndsAttribute-name (c ∷ s) h = ground arith

pub EndsAttribute-eq : (s : Text) → EndsAttribute s → next_is b'=' s ≡ false
EndsAttribute-eq [] h = absurd h.0
EndsAttribute-eq (c ∷ s) h = ground arith

module _ (heap : Allocator) (generous : Generous heap) where
  pub Yields-reserve :
      {B : Type 0} (site : AllocationSite) (n : ℕ) (P : B → Type 0) (k : Scan B)
      → Yields P k
      → Yields P (reserve heap site n >>= λ _. k)
  Yields-reserve site n P k h = rw (generous site n) h

  pub scan_name-valid :
      (s : Scanner) (name tail : Text)
      → s.left ≡ name ++ tail
      → all is_valid_char name ≡ true
      → EndsName tail
      → Yields (λ p. (p.0 ≡ name) × At s tail p.1) (scan_name heap s)
  unfolding scan_name
  scan_name-valid s name tail e h k =
      let q = ap copy_name e ∙ copy_name-valid name tail h k in
      Yields-reserve _ _ (λ p. (p.0 ≡ name) × At s tail p.1) _
        (ap (λ (p : Text × Text). p.0) q, (ap (λ (p : Text × Text). p.1) q, refl))

  scan_quoted-push :
      (s : Scanner) (v tail : Text)
      → s.left ≡ b'"' ∷ (push_attr_value v ++ b'"' ∷ tail)
      → length v ≤ max_attribute_value_chars
      → Yields (λ p. (p.0 ≡ v) × At s tail p.1) (scan_quoted_string heap s)
  unfolding scan_quoted_string
  scan_quoted-push s v tail e h =
      let inner = ap after_next e in
      rw (inner, quoted_size-push s.pos v tail 0 0 (omega arith))
        (Yields-reserve _ (0 + len v) (λ p. (p.0 ≡ v) × At s tail p.1) _
          (rw (copy_quoted-push s.pos v tail) (refl, (refl, refl))))

  pub scan_value-push :
      (s : Scanner) (v tail : Text)
      → s.left ≡ b'"' ∷ (push_attr_value v ++ b'"' ∷ tail)
      → length v ≤ max_attribute_value_chars
      → Yields (λ p. (p.0 ≡ string v) × At s tail p.1) (scan_attribute_value heap s)
  unfolding scan_attribute_value
  scan_value-push s v tail e h = rw (ap (next_is b'"') e) (
      Yields->>= (λ p. (p.0 ≡ string v) × At s tail p.1) (λ p. (p.0 ≡ string v) × At s tail p.1) _ _
        (Yields->>= (λ p. (p.0 ≡ v) × At s tail p.1) (λ p. (p.0 ≡ string v) × At s tail p.1)
          (scan_quoted_string heap s) _ (scan_quoted-push s v tail e h)
          (λ p k. (ap string k.0, k.1)))
        (λ p k. rw (ap value_length k.0, short (length v) h) k))
    where
      short : (n : ℕ) → n ≤ max_attribute_value_chars → ltb max_attribute_value_chars n ≡ false
      short n k = ground arith
