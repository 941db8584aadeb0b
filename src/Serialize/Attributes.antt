-- ===== src/Serialize/Attributes.antt =====
-- serialize.rs against scanner/mod.rs: the attributes of a tag.
use mathlib.Core.Bool.{true≢false}
use dustnet.Base.{
  ℕ, zero, suc, ◌+◌, ◌*◌, ◌≤◌, ◌<◌, Bool, true, false, List, [], ◌∷◌, ◌++◌, map, Option, some,
  if◌then◌else◌, append_assoc, append-nil, ◌≡◌, refl, ◌∙◌, ap, arith, length, All, ◌==◌, all,
}
use dustnet.Base.Text.{Text, is_whitespace}
use dustnet.Scanner.Escape.{next_is, after_next}
use dustnet.Scanner.Token.{
  AttributeValue, string, ident, flag, Attribute, Allocator, ok, ◌>>=◌, max_attribute_value_chars,
}
use dustnet.Scanner.Lexer.{Scanner, skip_whitespace, scan_name}
use dustnet.Scanner.Tags.{
  skipped, stepped, is_empty, value_length, scan_attribute_value, scan_attribute, scan_attributes,
}
use dustnet.Serialize.{is_valid_char, is_valid_name, push_attr_value, push_value, push_end}
use dustnet.Serialize.Chars.{EndsName}
use dustnet.Serialize.Tags.{
  Yields, Yields-weaken, Yields->>=, Generous, At, valid_name-chars, as_string, quoted,
  EndsAttribute, EndsAttribute-name, EndsAttribute-eq, Yields-reserve, scan_name-valid,
  scan_value-push,
}

-- the attributes as `push_attribute` writes them
abbrev pub written : List Attribute → Text
written [] = []
written (a ∷ as_) = b' ' ∷ (a.name ++ (push_value a.value ++ written as_))

-- An attribute that the scanner can read back.
abbrev pub IsWritable : Attribute → Type 0
IsWritable a = (is_valid_name a.name ≡ true) × (value_length a.value ≤ max_attribute_value_chars)

quoted_tail :
    (v tail : Text) → (push_attr_value v ++ b'"' ∷ []) ++ tail ≡ push_attr_value v ++ b'"' ∷ tail
quoted_tail v tail = append_assoc (push_attr_value v) (b'"' ∷ []) tail

EndsName-push_value :
    (v : AttributeValue) (tail : Text) → EndsAttribute tail → EndsName (push_value v ++ tail)
EndsName-push_value flag tail h = EndsAttribute-name tail h
EndsName-push_value (string v) tail h = ground arith
EndsName-push_value (ident v) tail h = ground arith

-- What a scan of an attribute gives: the attribute, its value as a string, and the rest unread.
abbrev pub AttributeRead :
    Text → AttributeValue → Scanner → Text → Option Attribute × Scanner → Type 0
AttributeRead name v s tail p =
    (p.0 ≡ some (record { name = name; value = as_string v })) × At s tail p.1

pub valid_first :
    (d : ℕ) (ds : Text)
    → all is_valid_char (d ∷ ds) ≡ true
    → (is_whitespace d ≡ false)
      × ((d == b']') ≡ false)
      × ((d == b'/') ≡ false)
      × ((d == b'[') ≡ false)
valid_first d ds k = (ground arith, ground arith, ground arith, ground arith)

module _ (heap : Allocator) (generous : Generous heap) where
  valued :
      (s t : Scanner) (name v tail : Text)
      → At s (b'=' ∷ b'"' ∷ ((push_attr_value v ++ b'"' ∷ []) ++ tail)) t
      → length v ≤ max_attribute_value_chars
      → Yields (AttributeRead name (string v) s tail) (
          scan_attribute_value heap (stepped t) >>= λ q.
          ok (some (record { name = name; value = q.0 }), q.1))
  valued s t name v tail k h =
      Yields->>= (λ q. (q.0 ≡ string v) × At (stepped t) tail q.1)
        (AttributeRead name (string v) s tail) (scan_attribute_value heap (stepped t)) _
        (scan_value-push heap generous (stepped t) v tail
          (ap after_next k.0 ∙ ap (λ r. b'"' ∷ r) (quoted_tail v tail)) h)
        (λ q g. (ap (λ w. some (record { name = name; value = w })) g.0, (g.1.0, g.1.1 ∙ k.1)))

  pub scan_attribute-push :
      (s : Scanner) (name : Text) (v : AttributeValue) (tail : Text)
      → s.left ≡ name ++ (push_value v ++ tail)
      → is_valid_name name ≡ true
      → value_length v ≤ max_attribute_value_chars
      → EndsAttribute tail
      → Yields (AttributeRead name v s tail) (scan_attribute heap s)
  unfolding scan_attribute
  scan_attribute-push s name v tail e h short end =
      let (nonempty, chars) = valid_name-chars name h in
      Yields->>= (λ p. (p.0 ≡ name) × At s (push_value v ++ tail) p.1) (AttributeRead name v s tail)
        (scan_name heap s) _
        (scan_name-valid heap generous s name (push_value v ++ tail) e chars
          (EndsName-push_value v tail end))
        (λ p k. rw (k.0, nonempty) (value v p.1 short k.1))
    where
      value :
          (w : AttributeValue) (t : Scanner)
          → value_length w ≤ max_attribute_value_chars
          → At s (push_value w ++ tail) t
          → Yields (AttributeRead name w s tail) (
              if next_is b'=' t.left
              then (scan_attribute_value heap (stepped t) >>= λ q.
                  ok (some (record { name = name; value = q.0 }), q.1))
              else ok (some (record { name = name; value = flag }), t))
      value flag t b k = rw (ap (next_is b'=') k.0, EndsAttribute-eq tail end) (refl, k)
      value (string u) t b k = rw (ap (next_is b'=') k.0) (valued s t name u tail k b)
      value (ident u) t b k = rw (ap (next_is b'=') k.0) (valued s t name u tail k b)

  -- The attribute's name does not begin with white space, nor with the end of a tag.
  starts_name :
      (name rest : Text)
      → is_valid_name name ≡ true
      → (skip_whitespace (b' ' ∷ (name ++ rest)) ≡ name ++ rest)
        × (is_empty (name ++ rest) ≡ false)
        × (next_is b']' (name ++ rest) ≡ false)
        × (next_is b'/' (name ++ rest) ≡ false)
  unfolding skip_whitespace
  starts_name [] rest h = absurd (true≢false (valid_name-chars [] h).0)
  starts_name (c ∷ name) rest h =
      let first = valid_first c name (valid_name-chars (c ∷ name) h).1 in
      (rw first.0, refl, first.1, first.2)

  abbrev pub AttributesRead :
      List Attribute → Bool → Scanner → Text → List Attribute × Bool × Scanner → Type 0
  AttributesRead as_ closing s tail q = (q.0 ≡ as_) × (q.1 ≡ closing) × At s tail q.2

  pub ends-written :
      (as_ : List Attribute) (closing : Bool) (tail : Text)
      → EndsAttribute (written as_ ++ (push_end closing ++ tail))
  ends-written [] true tail = refl
  ends-written [] false tail = refl
  ends-written (a ∷ as_) closing tail = refl

  scan_end :
      (fuel start : ℕ) (out : List Attribute) (s : Scanner) (closing : Bool) (tail : Text)
      → s.left ≡ push_end closing ++ tail
      → Yields (AttributesRead out closing s tail) (scan_attributes heap (suc fuel) start out s)
  unfolding scan_attributes skip_whitespace
  scan_end fuel start out s true tail e = rw (ap skip_whitespace e) (refl, refl, (refl, refl))
  scan_end fuel start out s false tail e = rw (ap skip_whitespace e) (refl, refl, (refl, refl))

  pub scan_attributes-written :
      (fuel start : ℕ) (out as_ : List Attribute) (s : Scanner) (closing : Bool) (tail : Text)
      → s.left ≡ written as_ ++ (push_end closing ++ tail)
      → All IsWritable as_
      → length as_ < fuel
      → Yields
          (AttributesRead (out ++ map quoted as_) closing s tail)
          (scan_attributes heap fuel start out s)
  unfolding scan_attributes
  scan_attributes-written zero start out as_ s closing tail e w f = absurd (omega arith)
  scan_attributes-written (suc fuel) start out [] s closing tail e w f =
      rw (append-nil out) (scan_end fuel start out s closing tail e)
  scan_attributes-written (suc fuel) start out (a ∷ as_) s closing tail e w f =
      let rest = written as_ ++ (push_end closing ++ tail) in
      let begins = starts_name a.name (push_value a.value ++ rest) w.0.0 in
      let flat =
        ap (λ r. b' ' ∷ r)
          (append_assoc a.name (push_value a.value ++ written as_) (push_end closing ++ tail)
            ∙ ap (λ r. a.name ++ r)
                (append_assoc (push_value a.value) (written as_) (push_end closing ++ tail))) in
      let here = ap skip_whitespace (e ∙ flat) ∙ begins.0 in
      rw
        (
          ap is_empty here ∙ begins.1,
          ap (next_is b']') here ∙ begins.2,
          ap (next_is b'/') here ∙ begins.3,
        )
        (Yields-reserve heap generous _ ((length out + 1) * heap.attribute_size)
          (AttributesRead (out ++ map quoted (a ∷ as_)) closing s tail) _
          (Yields->>= (AttributeRead a.name a.value (skipped s) rest)
            (AttributesRead (out ++ map quoted (a ∷ as_)) closing s tail)
            (scan_attribute heap (skipped s)) _
            (scan_attribute-push (skipped s) a.name a.value rest here w.0.0 w.0.1
              (ends-written as_ closing tail))
            (λ p k. rw k.0 (
              Yields-weaken
                (AttributesRead ((out ++ quoted a ∷ []) ++ map quoted as_) closing p.1 tail)
                (AttributesRead (out ++ map quoted (a ∷ as_)) closing s tail) _
                (λ q g. (
                  g.0 ∙ append_assoc out (quoted a ∷ []) (map quoted as_),
                  g.1,
                  (g.2.0, g.2.1 ∙ k.1.1),
                ))
                (scan_attributes-written fuel start (out ++ quoted a ∷ []) as_ p.1 closing tail
                  k.1.0 w.1 (omega arith))))))
