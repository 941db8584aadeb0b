-- ===== src/Protocol/Origin/Canonical/Derived.antt =====
-- crates/dustnet-core/src/protocol/origin.rs: which origin an address has.
use mathlib.Core.Bool.{true≢false}
use dustnet.Base.{
  ℕ, ◌≤◌, Bool, true, false, Option, none, some, [], ◌∷◌, ◌++◌, map, ltb, ◌≡◌, ◌≢◌, ◌↔◌, ◌⊎◌, inl,
  inr, refl, sym, ap, ◌∙◌, arith, All, Bool-cases, Option-cases,
}
use dustnet.Base.Text.{Text, codes, len, text_eq, text_eq_iff, to_ascii_lowercase, ends_with}
use dustnet.Protocol.Error.{ok, ◌>>=◌, ◌>>◌, reject, invalid_uri, >>=-eq-ok, ok_inj}
use dustnet.Protocol.Origin.{
  TransportSecurity, verified_tls, pinned_tls, insecure_tls, plaintext_loopback, Origin,
  security_eq,
}
use dustnet.Protocol.Origin.Canonical.{
  HostLibrary, trim_end_dots, validated, try_canonical_host, is_loopback_host, from_canonical_host,
  from_uri,
}
use dustnet.Protocol.Origin.Canonical.Dots.{dots, trim_end_dots-dots, trim-append_dots}
use dustnet.Protocol.Origin.Canonical.Fixed.{HostShape-unbracketed}
use dustnet.Protocol.Origin.Canonical.Hosts.{trim-HostChar}
use dustnet.Protocol.Path.{max_uri_len}
use dustnet.Protocol.Uri.{AtpUri}
use dustnet.Protocol.Uri.Authority.{HostChar-ascii, lowered-fixed}
use dustnet.Protocol.Uri.Chars.{HostChar}
use dustnet.Protocol.Uri.Hosts.{HostShape}
use dustnet.Protocol.Uri.Parsed.{IsUri}
use dustnet.Scanner.Tags.{is_empty}

-- the name that a host writes with any number of dots behind it
abbrev pub NameOf : Text → Text → Type 0
NameOf host name = (name ≢ []) × (ends_with b'.' name ≡ false) × (k : ℕ) × (host ≡ name ++ dots k)

-- the text of the IP address that the host is, or the name, which `idna` has to leave as it is
abbrev pub CanonicalHost : HostLibrary → Text → Text → Type 0
CanonicalHost library host c =
    ((a : library.IpAddr) × (library.parse_ip host ≡ some a) × (c ≡ library.show_ip a))
    ⊎ ((library.parse_ip host ≡ none)
        × NameOf host c
        × (library.domain_to_ascii_cow c ≡ some (true, c)))

-- `localhost` in letters of either case, or an IP address of the loopback
abbrev pub IsLoopback : HostLibrary → Text → Type 0
IsLoopback library host =
    (map to_ascii_lowercase host ≡ codes "localhost")
    ⊎ ((a : library.IpAddr) × (library.parse_ip host ≡ some a) × (library.is_loopback a ≡ true))

abbrev pub OriginOf : HostLibrary → AtpUri → TransportSecurity → Origin → Type 0
OriginOf library uri security o =
    CanonicalHost library uri.host o.host
    × (o.port ≡ uri.port)
    × (o.security ≡ security)
    × (security ≡ plaintext_loopback → IsLoopback library o.host)

validated-ok :
    (t : Text) (o : Option (Bool × Text)) {c : Text}
    → validated t o ≡ ok c
    → (o ≡ some (true, t)) × (c ≡ t)
validated-ok t none e = absurd cc
validated-ok t (some (false, name)) e = absurd cc
validated-ok t (some (true, name)) {c} e = elim (Bool-cases (text_eq name t)) [
  | inl k ↦
      (ap (λ n. some (true, n)) ((text_eq_iff name t).0 k), sym (ok_inj (sym (rw k refl) ∙ e)))
  | inr k ↦ (let q = rw k at e in absurd cc)
]

is_loopback_host_iff :
    (library : HostLibrary) (host : Text)
    → (is_loopback_host library host ≡ true) ↔ IsLoopback library host
unfolding is_loopback_host
is_loopback_host_iff library host = (there, back)
  where
    local : Text
    local = map to_ascii_lowercase host

    there : is_loopback_host library host ≡ true → IsLoopback library host
    there e = elim (Bool-cases (text_eq local (codes "localhost"))) [
      | inl k ↦ inl ((text_eq_iff local (codes "localhost")).0 k)
      | inr k ↦ elim (Option-cases (library.parse_ip host)) [
        | inl n ↦ (let q = rw (k, n) at e in absurd cc)
        | inr (a, n) ↦ inr (a, n, rw (k, n) at e)
      ]
    ]

    back : IsLoopback library host → is_loopback_host library host ≡ true
    back (inl q) = rw ((text_eq_iff local (codes "localhost")).1 q) refl
    back (inr (a, n, l)) = rw (n, l) (ground arith)

nonempty : (t : Text) → is_empty t ≡ false → t ≢ []
nonempty [] h = absurd cc
nonempty (c ∷ t) h = λ e. cc

is_empty-nonempty : (t : Text) → t ≢ [] → is_empty t ≡ false
is_empty-nonempty [] h = absurd (h refl)
is_empty-nonempty (c ∷ t) h = refl

-- the guard on plaintext, and the origin that it lets through
from_canonical_host_iff :
    (library : HostLibrary) (uri : AtpUri) (security : TransportSecurity) (host : Text) (o : Origin)
    → (from_canonical_host library uri security host ≡ ok o) ↔ (
        (o ≡ record { host = host; port = uri.port; security = security })
        × (security ≡ plaintext_loopback → is_loopback_host library host ≡ true))
unfolding from_canonical_host security_eq
from_canonical_host_iff library uri verified_tls host o =
    (λ e. (sym (ok_inj e), λ q. absurd cc), λ q. ap ok (sym q.0))
from_canonical_host_iff library uri pinned_tls host o =
    (λ e. (sym (ok_inj e), λ q. absurd cc), λ q. ap ok (sym q.0))
from_canonical_host_iff library uri insecure_tls host o =
    (λ e. (sym (ok_inj e), λ q. absurd cc), λ q. ap ok (sym q.0))
from_canonical_host_iff library uri plaintext_loopback host o =
    elim (Bool-cases (is_loopback_host library host)) [
      | inl k ↦ rw k (λ e. (sym (ok_inj e), λ q. refl), λ q. ap ok (sym q.0))
      | inr k ↦ rw k (λ e. absurd cc, λ q. absurd (true≢false (sym (q.1 refl))))
    ]

module _ (library : HostLibrary) (granted : ℕ → Bool) (g : (n : ℕ) → granted n ≡ true) where
  module _ (is_ipv6 : Text → Bool) (host : Text) (chars : All HostChar host)
      (shape : HostShape is_ipv6 host) (short : len host ≤ max_uri_len) where
    ip-host :
        (a : library.IpAddr)
        → library.parse_ip host ≡ some a
        → try_canonical_host library granted host ≡ ok (library.show_ip a)
    unfolding try_canonical_host
    ip-host a e =
        rw
          (
            HostShape-unbracketed is_ipv6 host shape,
            HostChar-ascii host chars,
            in_bound (len host) short,
            e,
            g 64,
          )
          refl
      where
        in_bound : (n : ℕ) → n ≤ max_uri_len → ltb max_uri_len n ≡ false
        in_bound n h = ground arith

    name-host :
        library.parse_ip host ≡ none
        → try_canonical_host library granted host ≡ (
            reject (is_empty (trim_end_dots host)) (invalid_uri (codes "missing DNS name"))
            >> validated (trim_end_dots host) (library.domain_to_ascii_cow (trim_end_dots host)))
    unfolding try_canonical_host
    name-host e =
        rw
          (
            HostShape-unbracketed is_ipv6 host shape,
            HostChar-ascii host chars,
            in_bound (len host) short,
            e,
            g (len (trim_end_dots host)),
            lowered-fixed (trim_end_dots host) (trim-HostChar host chars),
          )
          refl
      where
        in_bound : (n : ℕ) → n ≤ max_uri_len → ltb max_uri_len n ≡ false
        in_bound n h = ground arith

    -- the canonical form of a host is the one that it stands for
    canonical_iff :
        (c : Text) → (try_canonical_host library granted host ≡ ok c) ↔ CanonicalHost library host c
    canonical_iff c = (there, back)
      where
        there : try_canonical_host library granted host ≡ ok c → CanonicalHost library host c
        there e = elim (Option-cases (library.parse_ip host)) [
          | inr (a, p) ↦ inl (a, p, sym (ok_inj (sym (ip-host a p) ∙ e)))
          | inl p ↦
              let (n, d) = named (trim_end_dots-dots host) (sym (name-host p) ∙ e) in inr (p, n, d)
        ]
          where
            t : Text
            t = trim_end_dots host

            named :
                ((ends_with b'.' t ≡ false) × (k : ℕ) × (host ≡ t ++ dots k))
                → (reject (is_empty t) (invalid_uri (codes "missing DNS name"))
                    >> validated t (library.domain_to_ascii_cow t))
                  ≡ ok c
                → NameOf host c × (library.domain_to_ascii_cow c ≡ some (true, c))
            named (l, k, q) v = elim (Bool-cases (is_empty t)) [
              | inl n ↦ (let w = rw n at v in absurd cc)
              | inr n ↦
                  let (d, same) =
                    validated-ok t (library.domain_to_ascii_cow t) (sym (rw n refl) ∙ v) in
                  rw same ((nonempty t n, l, k, q), d)
            ]

        back : CanonicalHost library host c → try_canonical_host library granted host ≡ ok c
        back (inl (a, p, q)) = rw q (ip-host a p)
        back (inr (p, (n, l, k, q), d)) =
            name-host p
            ∙ rw
                (
                  ap trim_end_dots q ∙ trim-append_dots c k l,
                  is_empty-nonempty c n,
                  d,
                  (text_eq_iff c c).1 refl,
                )
                refl

  -- With an allocator that grants every request, a well-formed address whose host is within the bound of
  -- addresses has an origin exactly if its host has a canonical form and, for the plaintext security,
  -- that form is `localhost`, in letters of either case, or an IP address of the loopback. The origin has
  -- the address's port and the given security, and its host is that form: the printed IP address that
  -- the host denotes, or else the host without the dots at its end, if something is left and `idna`
  -- leaves it as it is.
  pub from_uri_iff :
      (is_ipv6 : Text → Bool) (uri : AtpUri) (security : TransportSecurity) (o : Origin)
      → IsUri is_ipv6 uri
      → len uri.host ≤ max_uri_len
      → (from_uri library granted uri security ≡ ok o) ↔ OriginOf library uri security o
  unfolding from_uri
  from_uri_iff is_ipv6 uri security o w short =
      rw (HostChar-ascii uri.host w.host_chars) (there, back)
    where
      canonical :
          (c : Text)
          → (try_canonical_host library granted uri.host ≡ ok c) ↔ CanonicalHost library uri.host c
      canonical = canonical_iff is_ipv6 uri.host w.host_chars w.host_shape short

      there :
          (try_canonical_host library granted uri.host >>= from_canonical_host library uri security)
            ≡ ok o
          → OriginOf library uri security o
      there e =
          let (c, found, made) =
            >>=-eq-ok (try_canonical_host library granted uri.host)
              (from_canonical_host library uri security) e in
          let (q, guarded) = (from_canonical_host_iff library uri security c o).0 made in
          rw q
            ((canonical c).0 found, refl, refl, λ k. (is_loopback_host_iff library c).0 (guarded k))

      back :
          OriginOf library uri security o
          → (try_canonical_host library granted uri.host
              >>= from_canonical_host library uri security)
            ≡ ok o
      back (c, port, sec, local) = rw ((canonical o.host).1 c) (
          (from_canonical_host_iff library uri security o.host o).1
            (made port sec, λ k. (is_loopback_host_iff library o.host).1 (local k)))
        where
          made :
              o.port ≡ uri.port
              → o.security ≡ security
              → o ≡ record { host = o.host; port = uri.port; security = security }
          made p q = λ i. record { host = o.host; port = p i; security = q i }
