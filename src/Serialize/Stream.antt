-- ===== src/Serialize/Stream.antt =====
-- serialize.rs against scanner/mod.rs: a stream of tokens.
use mathlib.Core.Bool.{true≢false}
use dustnet.Base.{
  ℕ, zero, suc, ◌+◌, ◌*◌, ◌≤◌, ◌<◌, false, List, [], ◌∷◌, ◌++◌, map, append_assoc, append-nil, ◌≡◌,
  refl, ap, inl, inr, arith, length, length-append,
}
use dustnet.Base.Text.{Text}
use dustnet.Scanner.Token.{Token, open_tag, close_tag, text, eof, Allocator, max_token_count}
use dustnet.Scanner.Lexer.{Scanner}
use dustnet.Scanner.Tags.{is_empty, is_eof, next_token, scan_loop, scan_all}
use dustnet.Scanner.Total.{next_token_end}
use dustnet.Serialize.Tags.{Yields, Yields->>=, Generous, Yields-reserve}
use dustnet.Serialize.Tokens.{
  token_text, TokenWritable, read_back, MayFollow, begins_name, token_text-nonempty,
  next_token-token_text,
}

abbrev pub stream_text : List Token → Text
stream_text [] = []
stream_text (t ∷ ts) = token_text t ++ stream_text ts

-- Two texts that stand next to one another would be read as one.
abbrev pub Separate : Token → List Token → Type 0
Separate (text _) (text _ ∷ _) = ⊥ × Unit {0}
Separate _ _ = Unit

abbrev pub IsStream : List Token → Type 0
IsStream [] = Unit
IsStream (t ∷ ts) = TokenWritable t × Separate t ts × IsStream ts

starts_tag :
    (t : Text) (ts : List Token)
    → Separate (text t) ts
    → IsStream ts
    → MayFollow (text t) (stream_text ts)
starts_tag t [] p h = inl refl
starts_tag t (text u ∷ ts) p h = absurd p.0
starts_tag t (open_tag name as_ closing ∷ ts) p h =
    inr (refl, rw (append_assoc name _ (stream_text ts)) (begins_name name _ h.0.0).1)
starts_tag t (close_tag name ∷ ts) p h = inr (refl, refl)
starts_tag t (eof ∷ ts) p h = absurd h.0.0

may_follow :
    (t : Token) (ts : List Token) → Separate t ts → IsStream ts → MayFollow t (stream_text ts)
may_follow (text t) ts p h = starts_tag t ts p h
may_follow (open_tag _ _ _) ts p h = tt
may_follow (close_tag _) ts p h = tt
may_follow eof ts p h = tt

read_back-not_eof : (t : Token) → TokenWritable t → is_eof (read_back t) ≡ false
read_back-not_eof (text _) h = refl
read_back-not_eof (open_tag _ _ _) h = refl
read_back-not_eof (close_tag _) h = refl
read_back-not_eof eof h = absurd h.0

length-of_nonempty : (s : Text) → is_empty s ≡ false → 1 ≤ length s
length-of_nonempty [] h = absurd (true≢false h)
length-of_nonempty (c ∷ s) h = omega arith

module _ (heap : Allocator) (generous : Generous heap) where
  length-stream_text : (ts : List Token) → IsStream ts → length ts ≤ length (stream_text ts)
  length-stream_text [] h = omega arith
  length-stream_text (t ∷ ts) h =
      let first = rw (append-nil (token_text t)) at (token_text-nonempty heap generous t [] h.0) in
      omega (
        arith,
        length-of_nonempty (token_text t) first,
        length-stream_text ts h.2,
        length-append (token_text t) (stream_text ts),
      )

  scan_loop-stream :
      (fuel : ℕ) (out ts : List Token) (s : Scanner)
      → s.left ≡ stream_text ts
      → IsStream ts
      → length ts < fuel
      → s.token_count + length ts ≤ max_token_count
      → Yields (λ q. q.0 ≡ out ++ (map read_back ts ++ eof ∷ [])) (scan_loop heap fuel out s)
  unfolding scan_loop
  scan_loop-stream zero out ts s e h f c = absurd (omega arith)
  scan_loop-stream (suc fuel) out [] s e h f c =
      Yields-reserve heap generous _ ((length out + 1) * heap.token_size)
        (λ q. q.0 ≡ out ++ (map read_back [] ++ eof ∷ [])) _ (rw (next_token_end heap s e) refl)
  scan_loop-stream (suc fuel) out (t ∷ ts) s e h f c =
      let result = out ++ (map read_back (t ∷ ts) ++ eof ∷ []) in
      Yields-reserve heap generous _ ((length out + 1) * heap.token_size) (λ q. q.0 ≡ result) _
        (Yields->>=
          (λ p.
            (p.0 ≡ read_back t)
            × (p.1.left ≡ stream_text ts)
            × (p.1.token_count ≡ s.token_count + 1))
          (λ q. q.0 ≡ result) (next_token heap s) _
          (next_token-token_text heap generous t s (stream_text ts) e h.0 (may_follow t ts h.1 h.2)
            (omega arith))
          (λ p k.
            rw (k.0, read_back-not_eof t h.0)
              (rw (← append_assoc out (read_back t ∷ []) (map read_back ts ++ eof ∷ [])) (
                scan_loop-stream fuel (out ++ read_back t ∷ []) ts p.1 k.1 h.2 (omega arith)
                  (omega (arith, k.2))))))

  pub scan_all-stream :
      (ts : List Token) (s : Scanner)
      → s.left ≡ stream_text ts
      → IsStream ts
      → s.token_count + length ts ≤ max_token_count
      → Yields (λ q. q.0 ≡ map read_back ts ++ eof ∷ []) (scan_all heap s)
  unfolding scan_all
  scan_all-stream ts s e h c =
      scan_loop-stream (suc (length s.left)) [] ts s e h
        (omega (arith, ap length e, length-stream_text ts h)) c
