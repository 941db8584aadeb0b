-- ===== src/Protocol/Origin/Canonical/Hosts.antt =====
-- crates/dustnet-core/src/protocol/origin.rs: a canonical host is its own canonical host.
use dustnet.Base.{
  ℕ, ◌≤◌, Bool, true, false, some, [], ◌∷◌, ◌==◌, ltb, all, ◌≡◌, refl, arith, All, Bool-cases, inl,
  inr,
}
use dustnet.Base.Text.{Text, len, contains, strip_prefix}
use dustnet.Protocol.Origin.Canonical.{HostLibrary, unbracketed, trim_end_dots, keep_label}
use dustnet.Protocol.Uri.Chars.{HostChar}
use dustnet.Scanner.Escape.{next_is}

-- What is used of the standard library's IP addresses: an address that is printed parses to itself, its
-- text is short, of ASCII and without a bracket, the text of an IPv4 address is the only one that parses
-- to it, and the IPv6 addresses are among the IP addresses.
pub record IpLaws (library : HostLibrary) (is_ipv6 : Text → Bool) : Type 0 where
  pub shown : (a : library.IpAddr) → library.parse_ip (library.show_ip a) ≡ some a
  pub shown_ascii : (a : library.IpAddr) → all (λ c. ltb c 0x80) (library.show_ip a) ≡ true
  pub shown_short : (a : library.IpAddr) → len (library.show_ip a) ≤ 64
  pub shown_plain : (a : library.IpAddr) → next_is b'[' (library.show_ip a) ≡ false
  pub exact :
      (t : Text) (a : library.IpAddr)
      → library.parse_ip t ≡ some a
      → contains b':' t ≡ false
      → library.show_ip a ≡ t
  pub has_ipv6 :
      (t : Text) → is_ipv6 t ≡ true → (a : library.IpAddr) × (library.parse_ip t ≡ some a)

pub unbracketed-plain : (h : Text) → next_is b'[' h ≡ false → unbracketed h ≡ h
unfolding unbracketed strip_prefix
unbracketed-plain [] k = refl
unbracketed-plain (c ∷ h) k = rw (flip c k) refl
  where
    flip : (c : ℕ) → (c == b'[') ≡ false → (b'[' == c) ≡ false
    flip c k = ground arith

keep_label-HostChar :
    (c : ℕ) (s : Text) → HostChar c → All HostChar s → All HostChar (keep_label c s)
keep_label-HostChar c [] h k = elim (Bool-cases (c == b'.')) [
  | inl e ↦ rw e tt
  | inr e ↦ rw e (h, tt)
]
keep_label-HostChar c (d ∷ s) h k = (h, k)

pub trim-HostChar : (s : Text) → All HostChar s → All HostChar (trim_end_dots s)
unfolding trim_end_dots
trim-HostChar [] h = tt
trim-HostChar (c ∷ s) h = keep_label-HostChar c (trim_end_dots s) h.0 (trim-HostChar s h.1)

keep_label-len : (c : ℕ) (s t : Text) → len s ≤ len t → len (keep_label c s) ≤ len (c ∷ t)
keep_label-len c [] t h = elim (Bool-cases (c == b'.')) [
  | inl e ↦ rw e (omega arith)
  | inr e ↦ rw e (omega arith)
]
keep_label-len c (d ∷ s) t h = omega arith

pub trim-len : (s : Text) → len (trim_end_dots s) ≤ len s
unfolding trim_end_dots
trim-len [] = omega arith
trim-len (c ∷ s) = keep_label-len c (trim_end_dots s) s (trim-len s)

keep_label-contains :
    (k c : ℕ) (s t : Text)
    → (contains k t ≡ false → contains k s ≡ false)
    → contains k (c ∷ t) ≡ false
    → contains k (keep_label c s) ≡ false
keep_label-contains k c [] t f h = ground arith
keep_label-contains k c (d ∷ s) t f h = ground (arith, f)

pub trim-contains : (k : ℕ) (s : Text) → contains k s ≡ false → contains k (trim_end_dots s) ≡ false
unfolding trim_end_dots
trim-contains k [] h = refl
trim-contains k (c ∷ s) h = keep_label-contains k c (trim_end_dots s) s (trim-contains k s) h

pub trim-plain : (s : Text) → next_is b'[' s ≡ false → next_is b'[' (trim_end_dots s) ≡ false
unfolding trim_end_dots
trim-plain [] h = refl
trim-plain (c ∷ s) h = first c (trim_end_dots s) h
  where
    first : (c : ℕ) (t : Text) → (c == b'[') ≡ false → next_is b'[' (keep_label c t) ≡ false
    first c [] h = ground arith
    first c (d ∷ t) h = h

keep_label_idem :
    (c : ℕ) (s : Text) → trim_end_dots s ≡ s → trim_end_dots (keep_label c s) ≡ keep_label c s
unfolding trim_end_dots
keep_label_idem c [] h = elim (Bool-cases (c == b'.')) [
  | inl e ↦ rw e refl
  | inr e ↦ rw e (rw e refl)
]
keep_label_idem c (d ∷ s) h = rw h refl

pub trim_idem : (s : Text) → trim_end_dots (trim_end_dots s) ≡ trim_end_dots s
unfolding trim_end_dots
trim_idem [] = refl
trim_idem (c ∷ s) = keep_label_idem c (trim_end_dots s) (trim_idem s)
