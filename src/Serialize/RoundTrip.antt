-- ===== src/Serialize/RoundTrip.antt =====
-- serialize.rs: `scan(to_aml(tokens)) == tokens`, up to the normalisations that it names.
use dustnet.Base.{
  ℕ, ◌≤◌, true, false, List, [], ◌∷◌, ◌++◌, map, ◌≡◌, ◌≢◌, sym, subst, ◌∙◌, ap, ◌*◌, arith, length,
  All, ltb,
}
use dustnet.Base.Text.{Text, len}
use dustnet.Base.Utf8.{Bytes, as_bytes, from_utf8-as_bytes, length-as_bytes}
use dustnet.Scanner.Escape.Output.{sanitize-eq_self_iff}
use dustnet.Scanner.Token.{
  Attribute, Token, open_tag, close_tag, text, eof, Allocator, Scan, ok, err, out_of_fuel, ◌>>=◌,
  max_input_size, max_text_token_size, max_token_count, max_attribute_value_chars,
}
use dustnet.Scanner.Lexer.{Scanner}
use dustnet.Scanner.Tags.{value_length, new, scan_all}
use dustnet.Serialize as S
use dustnet.Serialize.{
  is_valid_name, is_valid_char, push_text, push_attr_value, push_value, push_end, to_aml,
}
use dustnet.Serialize.Tags.{Yields, Yields->>=, Generous}
use dustnet.Serialize.Attributes.{IsWritable}
use dustnet.Serialize.Tokens.{TokenWritable, read_back}
use dustnet.Serialize.Stream.{Separate, IsStream, scan_all-stream}
use dustnet.Serialize.Plain.{
  IsPlain, TokenPlain, stream_text-IsPlain, IsPlain-IsAdmitted, IsPlain-IsChar,
}
use dustnet.Serialize.Written.{
  NamesValid, to_aml-stream_text, merge, normalize, stream_text-normalize,
}

-- Within the scanner's limits.
abbrev pub TokenLimits : Token → Type 0
TokenLimits (text t) = (len t ≤ max_text_token_size) × Unit {0}
TokenLimits (open_tag name as_ closing) =
    All (λ a. (value_length a.value ≤ max_attribute_value_chars) × Unit {0}) as_
TokenLimits (close_tag name) = Unit
TokenLimits eof = Unit

-- The tokens of a normalized stream, apart from their sizes.
abbrev Shaped : Token → Type 0
Shaped (text t) = (t ≢ []) × Unit {0}
Shaped (open_tag name as_ closing) =
    (is_valid_name name ≡ true) × All (λ a. is_valid_name a.name ≡ true) as_
Shaped (close_tag name) = (is_valid_name name ≡ true) × Unit {0}
Shaped eof = ⊥ × Unit {0}

abbrev IsShaped : List Token → Type 0
IsShaped [] = Unit
IsShaped (t ∷ ts) = Shaped t × Separate t ts × IsShaped ts

merge-IsShaped : (t : Token) (ts : List Token) → NamesValid t → IsShaped ts → IsShaped (merge t ts)
merge-IsShaped (text []) ts h k = k
merge-IsShaped (text (c ∷ t)) [] h k = (((λ q. cc), tt), tt, tt)
merge-IsShaped (text (c ∷ t)) (text u ∷ []) h k = (((λ q. cc), tt), tt, tt)
merge-IsShaped (text (c ∷ t)) (text u ∷ text v ∷ ts) h k = absurd k.1.0
merge-IsShaped (text (c ∷ t)) (text u ∷ open_tag a b d ∷ ts) h k = (((λ q. cc), tt), tt, k.2)
merge-IsShaped (text (c ∷ t)) (text u ∷ close_tag a ∷ ts) h k = (((λ q. cc), tt), tt, k.2)
merge-IsShaped (text (c ∷ t)) (text u ∷ eof ∷ ts) h k = absurd k.2.0.0
merge-IsShaped (text (c ∷ t)) (open_tag a b d ∷ ts) h k = (((λ q. cc), tt), tt, k)
merge-IsShaped (text (c ∷ t)) (close_tag a ∷ ts) h k = (((λ q. cc), tt), tt, k)
merge-IsShaped (text (c ∷ t)) (eof ∷ ts) h k = absurd k.0.0
merge-IsShaped (open_tag a b d) ts h k = (h, tt, k)
merge-IsShaped (close_tag a) ts h k = (h, tt, k)
merge-IsShaped eof ts h k = k

normalize-IsShaped : (ts : List Token) → All NamesValid ts → IsShaped (normalize ts)
normalize-IsShaped [] h = tt
normalize-IsShaped (t ∷ ts) h = merge-IsShaped t (normalize ts) h.0 (normalize-IsShaped ts h.1)

IsWritable-attributes :
    (as_ : List Attribute)
    → All (λ a. is_valid_name a.name ≡ true) as_
    → All (λ a. (value_length a.value ≤ max_attribute_value_chars) × Unit {0}) as_
    → All IsWritable as_
IsWritable-attributes [] h k = tt
IsWritable-attributes (a ∷ as_) h k = ((h.0, k.0.0), IsWritable-attributes as_ h.1 k.1)

writable : (t : Token) → Shaped t → TokenLimits t → TokenWritable t
writable (text t) h k = (h.0, k.0)
writable (open_tag name as_ closing) h k = (h.0, IsWritable-attributes as_ h.1 k)
writable (close_tag name) h k = h
writable eof h k = h

IsShaped-IsStream : (ts : List Token) → IsShaped ts → All TokenLimits ts → IsStream ts
IsShaped-IsStream [] h k = tt
IsShaped-IsStream (t ∷ ts) h k = (writable t h.0 k.0, h.1, IsShaped-IsStream ts h.2 k.1)

-- Reading an AML document: `Scanner::new`, then `scan_all`.
abbrev pub read_aml : Allocator → Bytes → Scan (List Token)
read_aml heap input = do s ← new heap input; q ← scan_all heap s; ok q.0

Yields-ok : {A : Type 0} {a : A} (m : Scan A) → Yields (λ b. b ≡ a) m → m ≡ ok a
Yields-ok (ok b) h = ap ok h
Yields-ok (err e) h = absurd h.0
Yields-ok out_of_fuel h = absurd h.0

-- With an allocator that grants every request, where `to_aml` succeeds, on texts and values of characters that the filter lets through, and the
-- result is within the limits of the scanner, the scanner reads the tokens back from its bytes: the
-- same names, attributes, values and flags in the same order, with values as quoted strings,
-- adjacent texts merged, empty ones dropped, and one `Eof` at the end.
pub scan-to_aml :
    (heap : Allocator) (ts : List Token) {aml : Text}
    → Generous heap
    → to_aml ts ≡ S.ok aml
    → All TokenPlain ts
    → All TokenLimits (normalize ts)
    → length (normalize ts) ≤ max_token_count
    → len aml ≤ max_input_size
    → read_aml heap (as_bytes aml) ≡ ok (map read_back (normalize ts) ++ eof ∷ [])
unfolding new
scan-to_aml heap ts {aml} generous e plain limits count size =
    let (valid, text_eq) = to_aml-stream_text ts e in
    let clean = subst (All IsPlain) (sym text_eq) (stream_text-IsPlain ts valid plain) in
    let decoded = from_utf8-as_bytes aml (IsPlain-IsChar aml clean) in
    let kept = (sanitize-eq_self_iff aml).0 (IsPlain-IsAdmitted aml clean) in
    let result = map read_back (normalize ts) ++ eof ∷ [] in
    let small = below (len aml) size in
    let s0 : Scanner = record { left = aml; pos = 0; token_count = 0 } in
    Yields-ok _ (
      rw
        (
          length-as_bytes aml,
          small,
          decoded,
          generous _ (len aml),
          kept,
          generous _ (length aml * heap.char_size),
        )
        (Yields->>= (λ q. q.0 ≡ result) (λ b. b ≡ result) (scan_all heap s0) _
          (scan_all-stream heap generous (normalize ts) s0
            (text_eq ∙ sym (stream_text-normalize ts))
            (IsShaped-IsStream (normalize ts) (normalize-IsShaped ts valid) limits) (omega arith))
          (λ q k. k)))
  where
    below : (n : ℕ) → n ≤ max_input_size → ltb max_input_size n ≡ false
    below n k = ground arith
