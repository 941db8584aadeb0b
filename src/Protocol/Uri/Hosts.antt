-- ===== src/Protocol/Uri/Hosts.antt =====
-- crates/dustnet-core/src/protocol/uri.rs: the authority of an address that is parsed: what its host and its port
-- are.
use mathlib.Core.Bool.{true≢false}
use dustnet.Base.{
  ℕ, ◌≤◌, ◌<◌, Bool, true, false, not, ◌||◌, [], ◌∷◌, ◌++◌, map, ◌==◌, ltb, any, ◌≡◌, ◌≢◌, ◌⊎◌, inl,
  inr, refl, subst, ◌∙◌, arith, All, Option-cases,
}
use dustnet.Base.Decimal.{parse_unsigned, parse_unsigned-le}
use dustnet.Base.Text.{Text, is_control, is_whitespace, to_ascii_lowercase, contains, split_once}
use dustnet.Protocol.Holds.{Holds, Holds->>=, Holds-reject, Holds-or_else, Holds-if}
use dustnet.Protocol.Path.{before_last}
use dustnet.Protocol.Uri.{
  UriHeap, parse_port, suffix_port, plain_host, behind_last, bracketed_host, host_and_port,
}
use dustnet.Protocol.Uri.Chars.{
  UriChar, HostChar, All-map, All-and, All-split, any-false, contains-false, split_once-eq_some,
  before_last-eq_none, before_last-prefix,
}
use dustnet.Protocol.Version.{u16_max}
use dustnet.Scanner.Escape.{next_is}
use dustnet.Scanner.Tags.{is_empty}
use dustnet.Protocol.Uri.Parts.{or_parts}

-- What is used of the standard library's parser: an IPv6 address has a colon, and its letters may be
-- of either case.
pub record Ipv6Laws (is_ipv6 : Text → Bool) : Type 0 where
  pub has_colon : (t : Text) → is_ipv6 t ≡ true → contains b':' t ≡ true
  pub lowered : (t : Text) → is_ipv6 t ≡ true → is_ipv6 (map to_ascii_lowercase t) ≡ true

-- a name or an IPv4 address, or an IPv6 address
abbrev pub HostShape : (Text → Bool) → Text → Type 0
HostShape is_ipv6 h =
    ((contains b':' h ≡ false) × (next_is b'[' h ≡ false))
    ⊎ ((is_ipv6 h ≡ true) × (contains b':' h ≡ true) × (contains b']' h ≡ false))

-- a character of the authority
pub record RawHostChar (c : ℕ) : Type 0 where
  pub visible : (is_control c || is_whitespace c) ≡ false
  pub no_delimiter : (c ≢ b'@') × (c ≢ b'#') × (c ≢ b'?') × (c ≢ b'/')

lowercase-HostChar : (c : ℕ) → RawHostChar c → ltb c 0x80 ≡ true → HostChar (to_ascii_lowercase c)
lowercase-HostChar c h k = ground arith

pub map-HostChar :
    (s : Text)
    → All RawHostChar s
    → All (λ c. ltb c 0x80 ≡ true) s
    → All HostChar (map to_ascii_lowercase s)
map-HostChar [] h k = tt
map-HostChar (c ∷ s) h k = (lowercase-HostChar c h.0 k.0, map-HostChar s h.1 k.1)

pub contains-lowercase :
    (k : ℕ) (s : Text)
    → (k < b'A') ⊎ ((b'Z' < k) × (k < b'a'))
    → contains k (map to_ascii_lowercase s) ≡ contains k s
contains-lowercase k [] h = refl
contains-lowercase k (c ∷ s) h = let ih = contains-lowercase k s h in ground (arith, ih)

next_is-lowercase : (s : Text) → next_is b'[' (map to_ascii_lowercase s) ≡ next_is b'[' s
next_is-lowercase [] = refl
next_is-lowercase (c ∷ s) = ground arith

pub is_empty-lowercase : (s : Text) → is_empty (map to_ascii_lowercase s) ≡ is_empty s
is_empty-lowercase [] = refl
is_empty-lowercase (c ∷ s) = refl

parse_port-le : (heap : UriHeap) (s : Text) → Holds (λ n. n ≤ u16_max) (parse_port heap s)
unfolding parse_port
parse_port-le heap s =
    Holds-reject (λ n. n ≤ u16_max) (is_empty s) _ _
      λ _.
        Holds-or_else (λ n. n ≤ u16_max) _ (parse_unsigned u16_max s)
          (λ n e. parse_unsigned-le u16_max s {n = n} e)

suffix_port-le : (heap : UriHeap) (s : Text) → Holds (λ n. n ≤ u16_max) (suffix_port heap s)
suffix_port-le heap [] = omega arith
suffix_port-le heap (c ∷ s) =
    Holds-if (λ n. n ≤ u16_max) (c == b':') (parse_port heap s) _ (λ _. parse_port-le heap s)
      (λ _. tt)

pub raw_host :
    (h : Text)
    → All UriChar h
    → All (λ c. (c ≢ b'/') × (c ≢ b'?')) h
    → any (λ c. is_control c || is_whitespace c) h ≡ false
    → (contains b'@' h || contains b'#' h || contains b'?' h) ≡ false
    → All RawHostChar h
raw_host h u d v w =
    let (both, _) = or_parts (contains b'@' h || contains b'#' h) (contains b'?' h) w in
    let (at, _) = or_parts (contains b'@' h) (contains b'#' h) both in
    All-map
      (λ c.
        (UriChar c × ((c ≢ b'/') × (c ≢ b'?')))
        × (((is_control c || is_whitespace c) ≡ false) × (c ≢ b'@')))
      RawHostChar h
      (λ c q. record {
        visible = q.1.0;
        no_delimiter = (q.1.1, q.0.0.no_fragment, q.0.1.1, q.0.1.0);
      })
      (All-and (λ c. UriChar c × ((c ≢ b'/') × (c ≢ b'?'))) _ h
        (All-and UriChar (λ c. (c ≢ b'/') × (c ≢ b'?')) h u d)
        (All-and (λ c. (is_control c || is_whitespace c) ≡ false) (λ c. c ≢ b'@') h
          (any-false (λ c. is_control c || is_whitespace c) h v) (contains-false b'@' h at)))

module _ (is_ipv6 : Text → Bool) (laws : Ipv6Laws is_ipv6) where
  -- the host and the port of an authority
  abbrev pub AuthorityFits : Text × ℕ → Type 0
  AuthorityFits r = All RawHostChar r.0 × HostShape is_ipv6 r.0 × (r.1 ≤ u16_max)

  plain_host-Fits :
      (heap : UriHeap) (c : ℕ) (s : Text)
      → All RawHostChar (c ∷ s)
      → (c == b'[') ≡ false
      → Holds AuthorityFits (plain_host heap (c ∷ s) (before_last b':' (c ∷ s)))
  plain_host-Fits heap c s h k = elim (Option-cases (before_last b':' (c ∷ s))) [
    | inl e ↦ rw e (h, inl (before_last-eq_none b':' (c ∷ s) e, k), omega arith)
    | inr (p, e) ↦
        let (r, q) = before_last-prefix b':' (c ∷ s) {p = p} e in
        let chars = All-split RawHostChar p (b':' ∷ r) (subst (All RawHostChar) q h) in
        rw e (
          Holds-reject AuthorityFits (contains b':' p) _ _ λ lacks.
            Holds->>= (λ n. n ≤ u16_max) AuthorityFits (parse_port heap (behind_last b':' (c ∷ s)))
              _ (parse_port-le heap (behind_last b':' (c ∷ s)))
              (λ n le. (chars.0, inl (lacks, first p r q), le)))
  ]
    where
      first : (p r : Text) → c ∷ s ≡ p ++ b':' ∷ r → next_is b'[' p ≡ false
      first [] r q = refl
      first (d ∷ p) r q = let e : c ≡ d = cc in rw (← e) k

  bracketed_host-Fits :
      (heap : UriHeap) (s : Text)
      → All RawHostChar s
      → Holds AuthorityFits (bracketed_host is_ipv6 heap (split_once b']' s))
  bracketed_host-Fits heap s h = elim (Option-cases (split_once b']' s)) [
    | inl e ↦ rw e tt
    | inr ((p, r), e) ↦
        let (q, lacks) = split_once-eq_some b']' s {a = p} {b = r} e in
        let chars = All-split RawHostChar p (b']' ∷ r) (subst (All RawHostChar) q h) in
        rw e (
          Holds-reject AuthorityFits (not (is_ipv6 p)) _ _ λ good.
            Holds->>= (λ n. n ≤ u16_max) AuthorityFits (suffix_port heap r) _
              (suffix_port-le heap r)
              (λ n le. (
                chars.0,
                inr (
                  not_false (is_ipv6 p) good,
                  laws.has_colon p (not_false (is_ipv6 p) good),
                  lacks,
                ),
                le,
              )))
  ]
    where
      not_false : (b : Bool) → not b ≡ false → b ≡ true
      not_false b k = ground arith

  pub host_and_port-Fits :
      (heap : UriHeap) (s : Text)
      → is_empty s ≡ false
      → All RawHostChar s
      → Holds AuthorityFits (host_and_port is_ipv6 heap s)
  unfolding host_and_port
  host_and_port-Fits heap [] n h = absurd (true≢false n)
  host_and_port-Fits heap (c ∷ s) n h =
      Holds-if AuthorityFits (c == b'[') (bracketed_host is_ipv6 heap (split_once b']' s))
        (plain_host heap (c ∷ s) (before_last b':' (c ∷ s))) (λ _. bracketed_host-Fits heap s h.1)
        (plain_host-Fits heap c s h)

  pub lowered-HostShape :
      (h : Text) → HostShape is_ipv6 h → HostShape is_ipv6 (map to_ascii_lowercase h)
  lowered-HostShape h (inl (a, b)) =
      inl (contains-lowercase b':' h (inl (omega arith)) ∙ a, next_is-lowercase h ∙ b)
  lowered-HostShape h (inr (a, b, c)) = inr (
    laws.lowered h a,
    contains-lowercase b':' h (inl (omega arith)) ∙ b,
    contains-lowercase b']' h (inr (omega arith)) ∙ c,
  )
