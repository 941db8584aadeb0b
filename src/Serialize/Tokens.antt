-- ===== src/Serialize/Tokens.antt =====
-- serialize.rs against scanner/mod.rs: one token at a time.
use mathlib.Core.Bool.{true≢false}
use dustnet.Base.{
  ℕ, suc, ◌+◌, ◌≤◌, ◌<◌, Bool, true, false, List, [], ◌∷◌, ◌++◌, map, if◌then◌else◌, append_assoc,
  ◌≡◌, ◌≢◌, refl, ◌∙◌, ap, inl, inr, arith, length, length-append, All, ltb, Bool-cases,
}
use dustnet.Base.Text.{Text, len}
use dustnet.Scanner.Escape.{next_is, after_next}
use dustnet.Scanner.Token.{
  Attribute, Token, open_tag, close_tag, text, eof, Allocator, Scan, max_text_token_size,
  max_token_count,
}
use dustnet.Scanner.Lexer.{Scanner, skip_whitespace, text_size, copy_text, scan_text, scan_name}
use dustnet.Scanner.Tags.{
  skipped, stepped, is_empty, scan_open_tag, scan_close_tag, scan_tag_or_escape, next_token,
}
use dustnet.Scanner.Ensures.{StartsTag}
use dustnet.Serialize.{is_valid_name, push_text, push_end, push_value}
use dustnet.Serialize.Chars.{
  EndsText, copy_text-push_text, text_size-push_text, push_text-starts, push_text-nonempty,
}
use dustnet.Serialize.Tags.{
  Yields, Yields->>=, Generous, At, valid_name-chars, quoted, EndsAttribute-name, Yields-reserve,
  scan_name-valid,
}
use dustnet.Serialize.Attributes.{
  written, IsWritable, AttributesRead, scan_attributes-written, ends-written, valid_first,
}

-- a token as `to_aml` writes it
abbrev pub token_text : Token → Text
token_text (text t) = push_text t
token_text (open_tag name as_ closing) = b'[' ∷ (name ++ (written as_ ++ push_end closing))
token_text (close_tag name) = b'[' ∷ b'/' ∷ (name ++ b']' ∷ [])
token_text eof = []

-- A token that the scanner can read back.
abbrev pub TokenWritable : Token → Type 0
TokenWritable (text t) = (t ≢ []) × (len t ≤ max_text_token_size)
TokenWritable (open_tag name as_ closing) = (is_valid_name name ≡ true) × All IsWritable as_
TokenWritable (close_tag name) = (is_valid_name name ≡ true) × Unit {0}
TokenWritable eof = ⊥ × Unit {0}

abbrev pub read_back : Token → Token
read_back (text t) = text t
read_back (open_tag name as_ closing) = open_tag name (map quoted as_) closing
read_back (close_tag name) = close_tag name
read_back eof = eof

-- What may stand behind a token.
abbrev pub MayFollow : Token → Text → Type 0
MayFollow (text t) tail = EndsText tail
MayFollow (open_tag _ _ _) tail = Unit
MayFollow (close_tag _) tail = Unit
MayFollow eof tail = Unit

abbrev pub TokenRead : Token → Scanner → Text → Token × Scanner → Type 0
TokenRead t s tail p = (p.0 ≡ t) × (p.1.left ≡ tail) × (p.1.token_count ≡ s.token_count)

-- The front of a text that begins with a name.
pub begins_name :
    (name rest : Text)
    → is_valid_name name ≡ true
    → (skip_whitespace (name ++ rest) ≡ name ++ rest)
      × (next_is b'[' (name ++ rest) ≡ false)
      × (next_is b'/' (name ++ rest) ≡ false)
unfolding skip_whitespace
begins_name [] rest h = absurd (true≢false (valid_name-chars [] h).0)
begins_name (c ∷ name) rest h =
    let first = valid_first c name (valid_name-chars (c ∷ name) h).1 in
    (rw first.0, first.3, first.2)

length-written : (as_ : List Attribute) → length as_ ≤ length (written as_)
length-written [] = omega arith
length-written (a ∷ as_) = omega (
  arith,
  length-append a.name (push_value a.value ++ written as_),
  length-append (push_value a.value) (written as_),
  length-written as_,
)

module _ (heap : Allocator) (generous : Generous heap) where
  scan_text-token :
      (s : Scanner) (t tail : Text)
      → s.left ≡ push_text t ++ tail
      → len t ≤ max_text_token_size
      → EndsText tail
      → Yields (TokenRead (text t) s tail) (scan_text heap s)
  unfolding scan_text
  scan_text-token s t tail e l h =
      let copied = ap copy_text e ∙ copy_text-push_text t tail h in
      let size = ap (λ r. text_size r 0) e ∙ text_size-push_text t tail 0 h (omega arith) in
      rw size (
        Yields-reserve heap generous _ (0 + len t) (TokenRead (text t) s tail) _
          (ap (λ (p : Text × Text). text p.0) copied, ap (λ (p : Text × Text). p.1) copied, refl))

  scan_open-token :
      (start : ℕ) (s : Scanner) (name : Text) (as_ : List Attribute) (closing : Bool) (tail : Text)
      → s.left ≡ name ++ (written as_ ++ (push_end closing ++ tail))
      → is_valid_name name ≡ true
      → All IsWritable as_
      → Yields
          (TokenRead (open_tag name (map quoted as_) closing) s tail)
          (scan_open_tag heap start s)
  unfolding scan_open_tag
  scan_open-token start s name as_ closing tail e h w =
      let rest = written as_ ++ (push_end closing ++ tail) in
      let result = TokenRead (open_tag name (map quoted as_) closing) s tail in
      let (nonempty, chars) = valid_name-chars name h in
      let here = ap skip_whitespace e ∙ (begins_name name rest h).0 in
      Yields->>= (λ p. (p.0 ≡ name) × At (skipped s) rest p.1) result (scan_name heap (skipped s)) _
        (scan_name-valid heap generous (skipped s) name rest here chars
          (EndsAttribute-name rest (ends-written heap generous as_ closing tail)))
        (λ p k. rw (ap is_empty k.0 ∙ nonempty) (
          Yields->>= (AttributesRead heap generous (map quoted as_) closing p.1 tail) result _ _
            (scan_attributes-written heap generous (suc (length p.1.left)) start [] as_ p.1 closing
              tail k.1.0 w (fuel_enough as_ _ p.1.left k.1.0))
            (λ q g. (
              open_eq p.0 name q.0 (map quoted as_) q.1 closing k.0 g.0 g.1,
              g.2.0,
              g.2.1 ∙ k.1.1,
            ))))
    where
      open_eq :
          (m n : Text) (as1 as2 : List Attribute) (b1 b2 : Bool)
          → m ≡ n
          → as1 ≡ as2
          → b1 ≡ b2
          → open_tag m as1 b1 ≡ open_tag n as2 b2
      open_eq m n as1 as2 b1 b2 p q r = cc

      fuel_enough :
          (as1 : List Attribute) (more left : Text)
          → left ≡ written as1 ++ more
          → length as1 < suc (length left)
      fuel_enough as1 more left q =
          omega (arith, ap length q, length-written as1, length-append (written as1) more)

  scan_close-token :
      (start : ℕ) (s : Scanner) (name tail : Text)
      → s.left ≡ name ++ (b']' ∷ tail)
      → is_valid_name name ≡ true
      → Yields (TokenRead (close_tag name) s tail) (scan_close_tag heap start s)
  unfolding scan_close_tag skip_whitespace
  scan_close-token start s name tail e h =
      let (nonempty, chars) = valid_name-chars name h in
      let here = ap skip_whitespace e ∙ (begins_name name (b']' ∷ tail) h).0 in
      Yields->>= (λ p. (p.0 ≡ name) × At (skipped s) (b']' ∷ tail) p.1)
        (TokenRead (close_tag name) s tail) (scan_name heap (skipped s)) _
        (scan_name-valid heap generous (skipped s) name (b']' ∷ tail) here chars refl)
        (λ p k.
          rw (ap is_empty k.0 ∙ nonempty, ap (λ r. next_is b']' (skip_whitespace r)) k.1.0)
            (ap close_tag k.0, ap (λ r. after_next (skip_whitespace r)) k.1.0, k.1.1))

  scan_tag-open :
      (s : Scanner) (name : Text) (as_ : List Attribute) (closing : Bool) (tail : Text)
      → s.left ≡ b'[' ∷ (name ++ (written as_ ++ (push_end closing ++ tail)))
      → is_valid_name name ≡ true
      → All IsWritable as_
      → Yields
          (TokenRead (open_tag name (map quoted as_) closing) s tail)
          (scan_tag_or_escape heap s)
  unfolding scan_tag_or_escape
  scan_tag-open s name as_ closing tail e h w =
      let rest = written as_ ++ (push_end closing ++ tail) in
      let begins = begins_name name rest h in
      let inner = ap after_next e in
      rw (ap (next_is b'[') inner ∙ begins.1, ap (next_is b'/') inner ∙ begins.2)
        (scan_open-token s.pos (stepped s) name as_ closing tail inner h w)

  scan_tag-close :
      (s : Scanner) (name tail : Text)
      → s.left ≡ b'[' ∷ b'/' ∷ (name ++ (b']' ∷ tail))
      → is_valid_name name ≡ true
      → Yields (TokenRead (close_tag name) s tail) (scan_tag_or_escape heap s)
  unfolding scan_tag_or_escape
  scan_tag-close s name tail e h =
      let inner = ap after_next e in
      rw (ap (next_is b'[') inner, ap (next_is b'/') inner)
        (scan_close-token s.pos (stepped (stepped s)) name tail (ap after_next inner) h)

  -- The token behind the first two tests of `next_token`.
  abbrev branch : Scanner → Scan (Token × Scanner)
  branch t =
      if next_is b'[' t.left
      then (if next_is b'[' (after_next t.left)
          then scan_text heap t
          else scan_tag_or_escape heap t)
      else scan_text heap t

  branch-token :
      (t : Token) (s : Scanner) (tail : Text)
      → s.left ≡ token_text t ++ tail
      → TokenWritable t
      → MayFollow t tail
      → Yields (TokenRead (read_back t) s tail) (branch s)
  branch-token (text t) s tail e w f =
      let read = scan_text-token s t tail e w.1 f in
      elim (Bool-cases (next_is b'[' s.left)) [
        | inl a ↦ rw a (elim (Bool-cases (next_is b'[' (after_next s.left))) [
          | inl b ↦ rw b read
          | inr b ↦ absurd (no_start s.left e (a, b))
        ])
        | inr a ↦ rw a read
      ]
    where
      no_start : (l : Text) → l ≡ push_text t ++ tail → ¬ StartsTag l
      no_start l q st = push_text-starts t tail w.0 (rw q at st)
  branch-token (open_tag name as_ closing) s tail e w f =
      let flat =
        e
        ∙ ap (λ r. b'[' ∷ r)
            (append_assoc name (written as_ ++ push_end closing) tail
              ∙ ap (λ r. name ++ r) (append_assoc (written as_) (push_end closing) tail)) in
      let begins = begins_name name (written as_ ++ (push_end closing ++ tail)) w.0 in
      rw (ap (next_is b'[') flat, ap (λ r. next_is b'[' (after_next r)) flat ∙ begins.1)
        (scan_tag-open s name as_ closing tail flat w.0 w.1)
  branch-token (close_tag name) s tail e w f =
      let flat = e ∙ ap (λ r. b'[' ∷ b'/' ∷ r) (append_assoc name (b']' ∷ []) tail) in
      rw (ap (next_is b'[') flat, ap (λ r. next_is b'[' (after_next r)) flat)
        (scan_tag-close s name tail flat w.0)
  branch-token eof s tail e w f = absurd w.0

  pub token_text-nonempty :
      (t : Token) (tail : Text) → TokenWritable t → is_empty (token_text t ++ tail) ≡ false
  token_text-nonempty (text t) tail w = push_text-nonempty t tail w.0
  token_text-nonempty (open_tag name as_ closing) tail w = refl
  token_text-nonempty (close_tag name) tail w = refl
  token_text-nonempty eof tail w = absurd w.0

  -- The scanner reads back a token that the serializer wrote.
  pub next_token-token_text :
      (t : Token) (s : Scanner) (tail : Text)
      → s.left ≡ token_text t ++ tail
      → TokenWritable t
      → MayFollow t tail
      → s.token_count + 1 ≤ max_token_count
      → Yields
          (λ p. (p.0 ≡ read_back t) × (p.1.left ≡ tail) × (p.1.token_count ≡ s.token_count + 1))
          (next_token heap s)
  unfolding next_token
  next_token-token_text t s tail e w f c =
      rw (ap is_empty e ∙ token_text-nonempty t tail w, below (s.token_count + 1) c)
        (branch-token t (record s { token_count = s.token_count + 1 }) tail e w f)
    where
      below : (n : ℕ) → n ≤ max_token_count → ltb max_token_count n ≡ false
      below n k = ground arith
