-- ===== src/Scanner/Progress.antt =====
-- scanner/mod.rs, attributes, tags and tokens: each method ends and reads what it must.
use mathlib.Core.Bool.{true≢false, false≢true}
use dustnet.Base.{
  ℕ, zero, suc, ◌+◌, ◌*◌, ◌<◌, Bool, true, false, Option, none, some, List, [], ◌∷◌, ◌≡◌, ◌≢◌, inl,
  inr, refl, arith, length, All, All-append, ltb, Bool-cases, Option-cases, if◌then◌else◌,
}
use dustnet.Base.Text.{Text}
use dustnet.Scanner.Escape.{next_is, after_next}
use dustnet.Scanner.Escape.Output.{IsAdmitted}
use dustnet.Scanner.Token.{
  AttributeValue, string, ident, flag, Attribute, Token, Allocator, ok, ◌>>=◌, reject,
  max_attribute_value_chars, attribute_value_too_long,
}
use dustnet.Scanner.Lexer.{
  Scanner, text_size, copy_text, scan_text, scan_name, scan_quoted_string, scan_unquoted_value,
}
use dustnet.Scanner.Tags.{
  skipped, stepped, is_empty, value_length, scan_attribute_value, scan_attribute, with_attribute,
  scan_attributes, scan_open_tag, scan_close_tag, scan_tag_or_escape,
}
use dustnet.Scanner.Ensures.{
  Ensures, Ensures-if, Ensures-weaken, Ensures->>=, copy_text-All, length-copy_text,
  text_size-copy_text, text_size-le, StartsTag, copy_text_progress,
}
use dustnet.Scanner.Steps.{
  Later, IsClean, ValueFits, AttributeFits, TokenFits, Ensures-reserve, Later-trans, Later-skipped,
  Later-stepped, NameTaken, TextTaken, scan_name-NameTaken, scan_quoted-TextTaken,
  scan_unquoted-TextTaken,
}

-- A token within the limits, and a state that has read a character at least.
abbrev pub TokenTaken : Scanner → Token × Scanner → Type 0
TokenTaken s p = TokenFits p.0 × Later s p.1 × (length p.1.left < length s.left)

abbrev pub ValueTaken : Scanner → AttributeValue × Scanner → Type 0
ValueTaken s p = ValueFits p.0 × Later s p.1

abbrev pub MayFit : Option Attribute → Type 0
MayFit none = Unit
MayFit (some a) = AttributeFits a

abbrev pub AttributeTaken : Scanner → Option Attribute × Scanner → Type 0
AttributeTaken s p = MayFit p.0 × Later s p.1 × (length p.1.left < length s.left)

abbrev ValueClean : AttributeValue → Type 0
ValueClean (string v) = All IsAdmitted v × Unit {0}
ValueClean (ident v) = All IsAdmitted v × Unit {0}
ValueClean flag = Unit

value_fits :
    (v : AttributeValue)
    → ValueClean v
    → ltb max_attribute_value_chars (value_length v) ≡ false
    → ValueFits v
value_fits (string v) h e = (h.0, ground arith)
value_fits (ident v) h e = (h.0, ground arith)
value_fits flag h e = tt

value_bounded :
    (s : Scanner) (p : AttributeValue × Scanner)
    → ValueClean p.0 × Later s p.1
    → Ensures (ValueTaken s) (
        reject
          (ltb max_attribute_value_chars (value_length p.0))
          (attribute_value_too_long max_attribute_value_chars)
        >>= λ _. ok p)
value_bounded s p h = elim (Bool-cases (ltb max_attribute_value_chars (value_length p.0))) [
  | inl e ↦ rw e tt
  | inr e ↦ rw e (value_fits p.0 h.0 e, h.1)
]

length-is_empty : (t : Text) → is_empty t ≡ true → length t ≡ 0
length-is_empty [] e = refl
length-is_empty (c ∷ t) e = absurd (false≢true e)

pub length-not-is_empty : (t : Text) → is_empty t ≡ false → 0 < length t
length-not-is_empty [] e = absurd (true≢false e)
length-not-is_empty (c ∷ t) e = omega arith

module _ (heap : Allocator) where
  pub scan_text-TokenTaken :
      (s : Scanner)
      → IsClean s
      → ¬ StartsTag s.left
      → s.left ≢ []
      → Ensures (TokenTaken s) (scan_text heap s)
  unfolding scan_text
  scan_text-TokenTaken s h nt ne = elim (Option-cases (text_size s.left 0)) [
    | inl e ↦ rw e tt
    | inr (n, e) ↦
        let chars = copy_text-All IsAdmitted s.left h in
        let bound = text_size-le s.left 0 (omega arith) e in
        let size = text_size-copy_text s.left 0 e in
        let moves = progress s.left nt ne in
        rw e (
          Ensures-reserve heap _ n (TokenTaken s) _ (
            (chars.0, omega arith, moves.1),
            record { admitted = chars.1; shorter = length-copy_text s.left; same_count = refl },
            moves.0,
          ))
  ]
    where
      progress :
          (l : Text)
          → ¬ StartsTag l
          → l ≢ []
          → (length (copy_text l).1 < length l) × ((copy_text l).0 ≢ [])
      progress [] nt ne = absurd (ne refl)
      progress (c ∷ l) nt ne = copy_text_progress c l nt

  scan_value-ValueTaken :
      (s : Scanner) → IsClean s → Ensures (ValueTaken s) (scan_attribute_value heap s)
  unfolding scan_attribute_value
  scan_value-ValueTaken s h =
      Ensures->>= (λ p. ValueClean p.0 × Later s p.1) (ValueTaken s) _ _
        (Ensures-if _ (next_is b'"' s.left) _ _
          (Ensures->>= (TextTaken heap s) _ (scan_quoted_string heap s) _
            (scan_quoted-TextTaken heap s h) (λ p t. ((t.0, tt), t.1)))
          (Ensures->>= (TextTaken heap s) _ (scan_unquoted_value heap s) _
            (scan_unquoted-TextTaken heap s h) (λ p t. ((t.0, tt), t.1))))
        (value_bounded s)

  shorter_by_name :
      (s t : Scanner) (name : Text)
      → is_empty name ≡ false
      → length name + length t.left ≡ length s.left
      → length t.left < length s.left
  shorter_by_name s t [] e l = absurd (true≢false e)
  shorter_by_name s t (c ∷ name) e l = omega arith

  length-stepped : (s : Scanner) → 0 < length s.left → length (stepped s).left < length s.left
  length-stepped s pos = go s.left pos
    where
      go : (l : Text) → 0 < length l → length (after_next l) < length l
      go [] h = absurd (omega arith)
      go (c ∷ l) h = omega arith

  -- Where the name is empty the method skips a character, so that the loop moves on.
  pub scan_attribute-AttributeTaken :
      (s : Scanner)
      → IsClean s
      → 0 < length s.left
      → Ensures (AttributeTaken s) (scan_attribute heap s)
  unfolding scan_attribute
  scan_attribute-AttributeTaken s h ne =
      Ensures->>= (NameTaken heap s) (AttributeTaken s) (scan_name heap s) _
        (scan_name-NameTaken heap s h) (λ p n. named p n)
    where
      with_name :
          (p : Text × Scanner)
          → NameTaken heap s p
          → is_empty p.0 ≡ false
          → Ensures (AttributeTaken s) (
              if next_is b'=' p.1.left
              then (scan_attribute_value heap (stepped p.1) >>= λ q.
                  ok (some (record { name = p.0; value = q.0 }), q.1))
              else ok (some (record { name = p.0; value = flag }), p.1))
      with_name p n e =
          let short = shorter_by_name s p.1 p.0 e n.2 in
          let after = Later-stepped p.1 n.1.admitted in
          Ensures-if _ (next_is b'=' p.1.left) _ _
            (Ensures->>= (ValueTaken (stepped p.1)) (AttributeTaken s) _ _
              (scan_value-ValueTaken (stepped p.1) after.admitted)
              (λ q v. (
                (n.0 e, v.0),
                Later-trans n.1 (Later-trans after v.1),
                omega (arith, short, after.shorter, v.1.shorter),
              )))
            ((n.0 e, tt), n.1, short)

      named :
          (p : Text × Scanner)
          → NameTaken heap s p
          → Ensures (AttributeTaken s) (
              if is_empty p.0
              then ok (none, stepped p.1)
              else (if next_is b'=' p.1.left
                  then (scan_attribute_value heap (stepped p.1) >>= λ q.
                      ok (some (record { name = p.0; value = q.0 }), q.1))
                  else ok (some (record { name = p.0; value = flag }), p.1)))
      named p n = elim (Bool-cases (is_empty p.0)) [
        | inl e ↦
            let same = length-is_empty p.0 e in
            let short = length-stepped p.1 (omega (arith, n.2)) in
            rw e (tt, Later-trans n.1 (Later-stepped p.1 n.1.admitted), omega (arith, n.2))
        | inr e ↦ rw e (with_name p n e)
      ]

  All-with_attribute :
      (as_ : List Attribute) (o : Option Attribute)
      → All AttributeFits as_
      → MayFit o
      → All AttributeFits (with_attribute as_ o)
  All-with_attribute as_ none h k = h
  All-with_attribute as_ (some a) h k = All-append AttributeFits as_ (a ∷ []) h (k, tt)

  abbrev pub AttributesTaken : Scanner → List Attribute × Bool × Scanner → Type 0
  AttributesTaken s q = All AttributeFits q.0 × Later s q.2

  -- With more fuel than characters the loop over the attributes ends.
  pub scan_attributes-AttributesTaken :
      (fuel start : ℕ) (as_ : List Attribute) (s : Scanner)
      → length s.left < fuel
      → All AttributeFits as_
      → IsClean s
      → Ensures (AttributesTaken s) (scan_attributes heap fuel start as_ s)
  unfolding scan_attributes
  scan_attributes-AttributesTaken zero start as_ s f a h = absurd (omega arith)
  scan_attributes-AttributesTaken (suc fuel) start as_ s f a h =
      let skip = Later-skipped s h in
      let t = skipped s in
      let step1 = Later-stepped t skip.admitted in
      let step2 = Later-stepped (stepped t) step1.admitted in
      elim (Bool-cases (is_empty t.left)) [
        | inl e ↦ rw e tt
        | inr e ↦
            let more =
              Ensures-reserve heap _ ((length as_ + 1) * heap.attribute_size) (AttributesTaken s) _
                (Ensures->>= (AttributeTaken t) (AttributesTaken s) (scan_attribute heap t) _
                  (scan_attribute-AttributeTaken t skip.admitted (length-not-is_empty t.left e))
                  (λ p k.
                    Ensures-weaken (AttributesTaken p.1) (AttributesTaken s) _
                      (λ q g. (g.0, Later-trans skip (Later-trans k.1 g.1)))
                      (scan_attributes-AttributesTaken fuel start (with_attribute as_ p.0) p.1
                        (omega (arith, k.2, skip.shorter)) (All-with_attribute as_ p.0 a k.0)
                        k.1.admitted))) in
            rw e (
              Ensures-if _ (next_is b']' t.left) _ _ (a, Later-trans skip step1)
                (Ensures-if _ (next_is b'/' t.left) _ _
                  (Ensures-if _ (next_is b']' (after_next t.left)) _ _
                    (a, Later-trans skip (Later-trans step1 step2)) more)
                  more))
      ]

  scan_open-TokenTaken :
      (start : ℕ) (s : Scanner)
      → IsClean s
      → Ensures (λ p. TokenFits p.0 × Later s p.1) (scan_open_tag heap start s)
  unfolding scan_open_tag
  scan_open-TokenTaken start s h =
      let skip = Later-skipped s h in
      Ensures->>= (NameTaken heap (skipped s)) (λ p. TokenFits p.0 × Later s p.1) _ _
        (scan_name-NameTaken heap (skipped s) skip.admitted)
        (λ p n. elim (Bool-cases (is_empty p.0)) [
          | inl e ↦ rw e tt
          | inr e ↦ rw e (
              Ensures->>= (AttributesTaken p.1) (λ p. TokenFits p.0 × Later s p.1) _ _
                (scan_attributes-AttributesTaken (suc (length p.1.left)) start [] p.1 (omega arith)
                  tt n.1.admitted)
                (λ q g. ((n.0 e, g.0), Later-trans skip (Later-trans n.1 g.1))))
        ])

  scan_close-TokenTaken :
      (start : ℕ) (s : Scanner)
      → IsClean s
      → Ensures (λ p. TokenFits p.0 × Later s p.1) (scan_close_tag heap start s)
  unfolding scan_close_tag
  scan_close-TokenTaken start s h =
      let skip = Later-skipped s h in
      Ensures->>= (NameTaken heap (skipped s)) (λ p. TokenFits p.0 × Later s p.1) _ _
        (scan_name-NameTaken heap (skipped s) skip.admitted)
        (λ p n.
          let skip2 = Later-skipped p.1 n.1.admitted in
          let close = Later-stepped (skipped p.1) skip2.admitted in
          elim (Bool-cases (is_empty p.0)) [
            | inl e ↦ rw e tt
            | inr e ↦ rw e (
                Ensures-if _ (next_is b']' (skipped p.1).left) _ _
                  ((n.0 e, tt), Later-trans skip (Later-trans n.1 (Later-trans skip2 close))) tt)
          ])

  pub scan_tag-TokenTaken :
      (s : Scanner)
      → IsClean s
      → StartsTag s.left
      → Ensures (TokenTaken s) (scan_tag_or_escape heap s)
  unfolding scan_tag_or_escape
  scan_tag-TokenTaken s h st =
      let opened = Later-stepped s h in
      let slash = Later-stepped (stepped s) opened.admitted in
      let short = length-stepped s (pos_of_tag s.left st) in
      rw st.1 (
        Ensures-if (TokenTaken s) (next_is b'/' (stepped s).left) _ _
          (Ensures-weaken (λ p. TokenFits p.0 × Later (stepped (stepped s)) p.1) (TokenTaken s) _
            (λ p k. (
              k.0,
              Later-trans opened (Later-trans slash k.1),
              omega (arith, short, slash.shorter, k.1.shorter),
            ))
            (scan_close-TokenTaken s.pos (stepped (stepped s)) slash.admitted))
          (Ensures-weaken (λ p. TokenFits p.0 × Later (stepped s) p.1) (TokenTaken s) _
            (λ p k. (k.0, Later-trans opened k.1, omega (arith, short, k.1.shorter)))
            (scan_open-TokenTaken s.pos (stepped s) opened.admitted)))
    where
      pos_of_tag : (l : Text) → StartsTag l → 0 < length l
      pos_of_tag [] k = absurd (false≢true k.0)
      pos_of_tag (c ∷ l) k = omega arith
