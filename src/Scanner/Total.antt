-- ===== src/Scanner/Total.antt =====
-- scanner/mod.rs, `next_token`, `scan_all` and `Scanner::new`: the scanner as a whole.
use mathlib.Core.Bool.{true≢false}
use dustnet.Base.{
  ℕ, zero, suc, ◌+◌, ◌*◌, ◌≤◌, ◌<◌, Bool, true, false, Option, none, some, List, [], ◌∷◌, ◌++◌, ◌≡◌,
  ◌≢◌, inl, inr, refl, ap, sym, ◌∙◌, ◌⊎◌, if◌then◌else◌, arith, length, length-append, All,
  All-append, ltb, Bool-cases,
}
use dustnet.Base.Text.{Text}
use dustnet.Base.Utf8.{Bytes, from_utf8}
use dustnet.Scanner.Escape.{next_is, after_next, sanitize}
use dustnet.Scanner.Escape.Output.{sanitize-IsAdmitted}
use dustnet.Scanner.Token.{
  Token, open_tag, close_tag, text, eof, Allocator, ok, ◌>>=◌, reject, max_token_count, tokens,
  sanitized, chars, ScanError,
}
use dustnet.Scanner.Lexer.{Scanner, scan_text}
use dustnet.Scanner.Tags.{
  is_empty, is_eof, scan_tag_or_escape, next_token, scan_loop, scan_all, new, of_utf8,
}
use dustnet.Scanner.Ensures.{Ensures, Ensures-weaken, Ensures->>=, StartsTag}
use dustnet.Scanner.Steps.{IsClean, TokenFits, Ensures-reserve}
use dustnet.Scanner.Progress.{TokenTaken, scan_text-TokenTaken, scan_tag-TokenTaken}

-- What `next_token` gives: the end of the input, or a token that fits, one more on the count, and
-- less to read.
abbrev pub NextTaken : Scanner → Token × Scanner → Type 0
NextTaken s p =
    ((p.0 ≡ eof) × (p.1 ≡ s))
    ⊎ (TokenFits p.0
        × IsClean p.1
        × (length p.1.left < length s.left)
        × (p.1.token_count ≡ s.token_count + 1)
        × (p.1.token_count ≤ max_token_count))

StartsTag-of : (l : Text) → next_is b'[' (after_next l) ≡ true → ¬ StartsTag l
StartsTag-of l e st = true≢false (sym e ∙ st.1)

no_tag : (l : Text) → next_is b'[' l ≡ false → ¬ StartsTag l
no_tag l e st = true≢false (sym st.0 ∙ e)

ne-nil-of_is_empty : (l : Text) → is_empty l ≡ false → l ≢ []
ne-nil-of_is_empty [] e = absurd (true≢false e)
ne-nil-of_is_empty (c ∷ l) e = λ q. cc

TokenTaken-NextTaken :
    (s : Scanner) (p : Token × Scanner)
    → ltb max_token_count (s.token_count + 1) ≡ false
    → TokenTaken (record s { token_count = s.token_count + 1 }) p
    → NextTaken s p
TokenTaken-NextTaken s p b k =
    inr (k.0, k.1.admitted, k.2, k.1.same_count, rw k.1.same_count (ground arith))

module _ (heap : Allocator) where
  pub next_token-NextTaken : (s : Scanner) → IsClean s → Ensures (NextTaken s) (next_token heap s)
  unfolding next_token
  next_token-NextTaken s h =
      let counted = record s { token_count = s.token_count + 1 } in
      elim (Bool-cases (is_empty s.left)) [
        | inl e ↦ rw e (inl (refl, refl))
        | inr e ↦ rw e (elim (Bool-cases (ltb max_token_count (s.token_count + 1))) [
          | inl b ↦ rw b tt
          | inr b ↦ rw b (
              Ensures-weaken (TokenTaken counted) (NextTaken s) _ (λ p. TokenTaken-NextTaken s p b)
                (branch counted h e))
        ])
      ]
    where
      branch :
          (t : Scanner)
          → IsClean t
          → is_empty t.left ≡ false
          → Ensures (TokenTaken t) (
              if next_is b'[' t.left
              then (if next_is b'[' (after_next t.left)
                  then scan_text heap t
                  else scan_tag_or_escape heap t)
              else scan_text heap t)
      branch t h e = elim (Bool-cases (next_is b'[' t.left)) [
        | inl a ↦ rw a (elim (Bool-cases (next_is b'[' (after_next t.left))) [
          | inl b ↦
              rw b (
                scan_text-TokenTaken heap t h (StartsTag-of t.left b) (ne-nil-of_is_empty t.left e))
          | inr b ↦ rw b (scan_tag-TokenTaken heap t h (a, b))
        ])
        | inr a ↦
            rw a (scan_text-TokenTaken heap t h (no_tag t.left a) (ne-nil-of_is_empty t.left e))
      ]

abbrev Fresh : Scanner → Type 0
Fresh s = IsClean s × (s.token_count ≡ 0)

-- A complete scan: tokens that fit, within the limit, and then the one `Eof`.
pub record IsScan (ts : List Token) : Type 0 where
  pub body : List Token
  pub ends : ts ≡ body ++ eof ∷ []
  pub fits : All TokenFits body
  pub bounded : length body ≤ max_token_count

TokenFits-not_eof : (t : Token) → TokenFits t → is_eof t ≡ false
TokenFits-not_eof eof h = absurd h.0
TokenFits-not_eof (text _) h = refl
TokenFits-not_eof (close_tag _) h = refl
TokenFits-not_eof (open_tag _ _ _) h = refl

module _ (heap : Allocator) where
  scan_loop-IsScan :
      (fuel : ℕ) (out : List Token) (s : Scanner)
      → length s.left < fuel
      → IsClean s
      → All TokenFits out
      → length out ≡ s.token_count
      → s.token_count ≤ max_token_count
      → Ensures (λ q. IsScan q.0) (scan_loop heap fuel out s)
  unfolding scan_loop
  scan_loop-IsScan zero out s f h k c m = absurd (omega arith)
  scan_loop-IsScan (suc fuel) out s f h k c m =
      Ensures-reserve heap tokens ((length out + 1) * heap.token_size) (λ q. IsScan q.0) _
        (Ensures->>= (NextTaken s) (λ q. IsScan q.0) (next_token heap s) _
          (next_token-NextTaken heap s h)
          (λ p n. elim n [
            | inl (e, _) ↦
                rw e (record { body = out; ends = refl; fits = k; bounded = omega arith })
            | inr (t, clean, short, count, le) ↦ rw (TokenFits-not_eof p.0 t) (
                scan_loop-IsScan fuel (out ++ p.0 ∷ []) p.1 (omega arith) clean
                  (All-append TokenFits out (p.0 ∷ []) k (t, tt))
                  (omega (arith, length-append out (p.0 ∷ []))) le)
          ]))

  Ensures-reject : (b : Bool) (e : ScanError) → Ensures (λ _. Unit {0}) (reject b e)
  Ensures-reject true e = tt
  Ensures-reject false e = tt

  Ensures-of_utf8 : (o : Option Text) → Ensures (λ _. Unit {0}) (of_utf8 o)
  Ensures-of_utf8 none = tt
  Ensures-of_utf8 (some s) = tt

  new-IsClean : (input : Bytes) → Ensures Fresh (new heap input)
  unfolding new
  new-IsClean input =
      Ensures->>= (λ _. Unit {0}) Fresh _ _ (Ensures-reject _ _)
        (λ _ _.
          Ensures->>= (λ _. Unit {0}) Fresh (of_utf8 (from_utf8 input)) _
            (Ensures-of_utf8 (from_utf8 input))
            (λ str _.
              let s : Scanner = record { left = sanitize str; pos = 0; token_count = 0 } in
              Ensures-reserve heap sanitized (length input) Fresh _ (
                Ensures-reserve heap chars (length (sanitize str) * heap.char_size) Fresh (ok s)
                  (sanitize-IsAdmitted str, refl))))

  -- Whatever the bytes and whatever the allocator grants, the scan of an input ends, by an error or
  -- by tokens of which only the last is `Eof`, at most 50 000 others: their names are valid names
  -- of the serializer, their texts are not empty and have at most 64 KiB, their values have at most
  -- 4096 characters, and no character of a text or a value is one that the specification forbids.
  pub scan_all-IsScan :
      (input : Bytes) → Ensures (λ q. IsScan q.0) (new heap input >>= scan_all heap)
  unfolding scan_all
  scan_all-IsScan input =
      Ensures->>= Fresh (λ q. IsScan q.0) (new heap input) _ (new-IsClean input)
        (λ s k.
          scan_loop-IsScan (suc (length s.left)) [] s (omega arith) k.0 tt (sym k.1)
            (omega (arith, k.1)))

pub next_token_end :
    (heap : Allocator) (s : Scanner) → s.left ≡ [] → next_token heap s ≡ ok (eof, s)
unfolding next_token
next_token_end heap s e = rw (ap is_empty e)
