-- ===== src/Protocol/Origin/Canonical/Fixed.antt =====
-- crates/dustnet-core/src/protocol/origin.rs, `try_canonical_host` on the hosts of addresses.
use dustnet.Base.{
  ℕ, ◌≤◌, Bool, true, false, not, ◌&&◌, ◌||◌, Option, none, some, [], ◌∷◌, ◌==◌, ltb, all, ◌≡◌,
  refl, ap, arith, All, Bool-cases, Option-cases, inl, inr, ◌⊎◌,
}
use dustnet.Base.Text.{Text, len, text_eq, contains, strip_prefix, ends_with}
use dustnet.Protocol.Error.{ok}
use dustnet.Protocol.Holds.{Holds, Holds-reject, Holds-reserve, Holds-ok}
use dustnet.Protocol.Origin.Canonical.{
  HostLibrary, unbracketed, trim_end_dots, try_canonical_host, try_canonical_ip, validated,
}
use dustnet.Protocol.Origin.Canonical.Hosts.{
  IpLaws, unbracketed-plain, trim-HostChar, trim-len, trim-contains, trim-plain, trim_idem,
}
use dustnet.Protocol.Path.{max_uri_len}
use dustnet.Protocol.Uri.Authority.{HostChar-ascii, lowered-fixed}
use dustnet.Protocol.Uri.Chars.{HostChar}
use dustnet.Protocol.Uri.Hosts.{HostShape}
use dustnet.Protocol.Uri.Parts.{or_parts}
use dustnet.Scanner.Escape.{next_is}
use dustnet.Scanner.Tags.{is_empty}

-- A name of visible lower-case ASCII that is within the bound and has no colon, bracket or last dot.
record IsName (c : Text) : Type 0 where
  chars : All HostChar c
  plain : next_is b'[' c ≡ false
  bounded : ltb max_uri_len (len c) ≡ false
  no_colon : contains b':' c ≡ false
  trimmed : trim_end_dots c ≡ c

ends-contains : (k : ℕ) (s : Text) → contains k s ≡ false → ends_with k s ≡ false
ends-contains k [] h = refl
ends-contains k (c ∷ []) h = ground arith
ends-contains k (c ∷ d ∷ s) h = ground (arith, ends-contains k (d ∷ s))

unbracketed-lacks : (h : Text) → contains b']' h ≡ false → unbracketed h ≡ h
unfolding unbracketed strip_prefix
unbracketed-lacks [] k = refl
unbracketed-lacks (c ∷ h) k = elim (Bool-cases (b'[' == c)) [
  | inl e ↦ rw (e, ends-contains b']' h (rest c (contains b']' h) k)) refl
  | inr e ↦ rw e refl
]
  where
    rest : (c : ℕ) (b : Bool) → (c == b']' || b) ≡ false → b ≡ false
    rest c b k = ground arith

trim_end_dots-IsName :
    (h : Text)
    → All HostChar h
    → ltb max_uri_len (len h) ≡ false
    → contains b':' h ≡ false
    → next_is b'[' h ≡ false
    → IsName (trim_end_dots h)
trim_end_dots-IsName h chars l k p = record {
  chars = trim-HostChar h chars;
  plain = trim-plain h p;
  bounded = shorter (len (trim_end_dots h)) (len h) (trim-len h) l;
  no_colon = trim-contains b':' h k;
  trimmed = trim_idem h;
}
  where
    shorter : (m n : ℕ) → m ≤ n → ltb max_uri_len n ≡ false → ltb max_uri_len m ≡ false
    shorter m n k l = ground arith

pub HostShape-unbracketed :
    (is_ipv6 : Text → Bool) (h : Text) → HostShape is_ipv6 h → unbracketed h ≡ h
HostShape-unbracketed is_ipv6 h (inl s) = unbracketed-plain h s.1
HostShape-unbracketed is_ipv6 h (inr s) = unbracketed-lacks h s.2

module _ (library : HostLibrary) (is_ipv6 : Text → Bool) (laws : IpLaws library is_ipv6) where
  module _ (granted : ℕ → Bool) (g : (n : ℕ) → granted n ≡ true) where
    abbrev Fixed : Text → Type 0
    Fixed c = try_canonical_host library granted c ≡ ok c

    ip-Fixed : (a : library.IpAddr) → Fixed (library.show_ip a)
    unfolding try_canonical_host
    ip-Fixed a =
        rw
          (
            unbracketed-plain (library.show_ip a) (laws.shown_plain a),
            laws.shown_ascii a,
            in_bound (len (library.show_ip a)) (laws.shown_short a),
            laws.shown a,
            g 64,
          )
          refl
      where
        in_bound : (n : ℕ) → n ≤ 64 → ltb max_uri_len n ≡ false
        in_bound n h = ground arith

    name-Fixed :
        (c : Text)
        → IsName c
        → is_empty c ≡ false
        → validated c (library.domain_to_ascii_cow c) ≡ ok c
        → Fixed c
    unfolding try_canonical_host
    name-Fixed c w n v = elim (Option-cases (library.parse_ip c)) [
      | inl e ↦
          rw
            (
              unbracketed-plain c w.plain,
              HostChar-ascii c w.chars,
              w.bounded,
              e,
              w.trimmed,
              n,
              g (len c),
              lowered-fixed c w.chars,
            )
            v
      | inr (a, e) ↦
          rw (unbracketed-plain c w.plain, HostChar-ascii c w.chars, w.bounded, e, g 64)
            (ap ok (laws.exact c a e w.no_colon))
    ]

    validated-Fixed :
        (c : Text) (o : Option (Bool × Text))
        → IsName c
        → is_empty c ≡ false
        → library.domain_to_ascii_cow c ≡ o
        → Holds Fixed (validated c o)
    validated-Fixed c none w n e = tt
    validated-Fixed c (some (b, t)) w n e = elim (Bool-cases (b && text_eq t c)) [
      | inl k ↦ rw k (name-Fixed c w n (rw (e, k) refl))
      | inr k ↦ rw k tt
    ]

    canonical-Fixed :
        (h : Text)
        → All HostChar h
        → HostShape is_ipv6 h
        → Holds Fixed (try_canonical_host library granted h)
    unfolding try_canonical_host
    canonical-Fixed h chars shape = rw (HostShape-unbracketed is_ipv6 h shape) (
        Holds-reject Fixed (not (all (λ c. ltb c 0x80) h) || ltb max_uri_len (len h)) _ _ λ e.
          found (or_parts (not (all (λ c. ltb c 0x80) h)) (ltb max_uri_len (len h)) e).1
            (Option-cases (library.parse_ip h)))
      where
        found :
            ltb max_uri_len (len h) ≡ false
            → (library.parse_ip h ≡ none) ⊎ ((a : library.IpAddr) × (library.parse_ip h ≡ some a))
            → Holds Fixed (try_canonical_ip library granted h (library.parse_ip h))
        found l (inr (a, e)) = rw e (Holds-reserve Fixed (granted 64) 64 _ (ip-Fixed a))
        found l (inl e) = elim shape [
          | inr s ↦ let (a, q) = laws.has_ipv6 h s.0 in absurd cc
          | inl s ↦
              let c = trim_end_dots h in
              let w = trim_end_dots-IsName h chars l s.0 s.1 in
              rw (e, lowered-fixed c w.chars)
                (Holds-reject Fixed (is_empty c) _ _ λ n.
                  Holds-reserve Fixed (granted (len c)) (len c) _
                    (validated-Fixed c (library.domain_to_ascii_cow c) w n refl))
        ]

    -- With an allocator that grants every request, the canonical form of a parsed address's host is its
    -- own canonical form: canonicalization is idempotent.
    pub try_canonical_host_idem :
        (h : Text) {c : Text}
        → All HostChar h
        → HostShape is_ipv6 h
        → try_canonical_host library granted h ≡ ok c
        → try_canonical_host library granted c ≡ ok c
    try_canonical_host_idem h {c} chars shape e =
        Holds-ok Fixed (try_canonical_host library granted h) (canonical-Fixed h chars shape) e
