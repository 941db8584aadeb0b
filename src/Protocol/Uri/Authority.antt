-- ===== src/Protocol/Uri/Authority.antt =====
-- crates/dustnet-core/src/protocol/uri.rs: the authority of an address that is printed, read back.
use mathlib.Core.Bool.{true≢false}
use dustnet.Base.{
  ℕ, ◌≤◌, Bool, true, false, ◌||◌, none, some, [], ◌∷◌, ◌++◌, map, ◌==◌, ==_iff, ltb, any, all, ◌≡◌,
  ◌≢◌, inl, inr, refl, sym, ap, arith, All, All-append, Bool-cases, append_assoc, append-nil,
}
use dustnet.Base.Decimal.{decimal, parse-decimal, Digits, decimal-Digits, decimal-ne-nil}
use dustnet.Base.Text.{
  Text, is_control, is_whitespace, is_ascii_digit, to_ascii_lowercase, contains,
}
use dustnet.Protocol.Error.{ok}
use dustnet.Protocol.Path.{before_last}
use dustnet.Protocol.Uri.{
  UriHeap, authority, parse_port, behind_last, host_and_port, has_forbidden, default_port,
  display_host, display_port,
}
use dustnet.Protocol.Path.Stack.{before_last-append, before_last-none}
use dustnet.Protocol.Uri.Chars.{
  UriChar, HostChar, All-map, false-any, true-all, lacks-contains, split_once-found,
}
use dustnet.Protocol.Uri.Hosts.{HostShape}
use dustnet.Protocol.Version.{u16_max}
use dustnet.Scanner.Escape.{next_is}
use dustnet.Scanner.Tags.{is_empty}

pub UriChar-Forbidden : (s : Text) → All UriChar s → has_forbidden s ≡ false
UriChar-Forbidden s h =
    rw
      (
        false-any is_control s
            (All-map UriChar (λ c. is_control c ≡ false) s (λ c u. visible c u) h),
        lacks-contains b'#' s (All-map UriChar (λ c. c ≢ b'#') s (λ c u. u.no_fragment) h),
      )
      refl
  where
    visible : (c : ℕ) → UriChar c → is_control c ≡ false
    visible c u = ground arith

-- the authority ends where a path begins
pub authority-found :
    (h t : Text) → All (λ c. (c ≢ b'/') × (c ≢ b'?')) h → authority (h ++ b'/' ∷ t) ≡ (h, b'/' ∷ t)
unfolding authority
authority-found [] t k = refl
authority-found (c ∷ h) t k = rw (authority-found h t k.1) (ground arith)

Digits-All : (s : Text) → Digits s → All (λ c. is_ascii_digit c ≡ true) s
Digits-All [] h = tt
Digits-All (c ∷ s) h = (h.0, Digits-All s h.1)

before_last-found :
    (k : ℕ) (a x : Text) → contains k x ≡ false → before_last k (a ++ k ∷ x) ≡ some a
before_last-found k a x h = before_last-append k a x h

behind_last-found : (k : ℕ) (a x : Text) → contains k x ≡ false → behind_last k (a ++ k ∷ x) ≡ x
behind_last-found k [] x h = rw h (rw ((==_iff k k).1 refl) refl)
behind_last-found k (c ∷ a) x h = rw (found a) (behind_last-found k a x h)
  where
    found : (a : Text) → contains k (a ++ k ∷ x) ≡ true
    found [] = ground arith
    found (d ∷ a) = let ih = found a in ground arith

Digits-no_colon : (s : Text) → Digits s → contains b':' s ≡ false
Digits-no_colon [] h = refl
Digits-no_colon (c ∷ s) h = let ih = Digits-no_colon s h.1 in ground arith

parse_port-decimal : (heap : UriHeap) (n : ℕ) → n ≤ u16_max → parse_port heap (decimal n) ≡ ok n
unfolding parse_port
parse_port-decimal heap n h =
    rw (nonempty_decimal (decimal n) (decimal-ne-nil n), parse-decimal u16_max n h) refl
  where
    nonempty_decimal : (s : Text) → s ≢ [] → is_empty s ≡ false
    nonempty_decimal [] k = absurd (k refl)
    nonempty_decimal (c ∷ s) k = refl

pub lowered-fixed : (h : Text) → All HostChar h → map to_ascii_lowercase h ≡ h
lowered-fixed [] k = refl
lowered-fixed (c ∷ h) k = rw (lower c k.0) (ap (λ t. c ∷ t) (lowered-fixed h k.1))
  where
    lower : (c : ℕ) → HostChar c → to_ascii_lowercase c ≡ c
    lower c k = ground arith

Digits-HostChar : (s : Text) → Digits s → All HostChar s
Digits-HostChar [] h = tt
Digits-HostChar (c ∷ s) h = (digit c h.0, Digits-HostChar s h.1)
  where
    digit : (c : ℕ) → is_ascii_digit c ≡ true → HostChar c
    digit c k = ground arith

pub display_host-HostChar : (h : Text) → All HostChar h → All HostChar (display_host h)
display_host-HostChar h k = elim (Bool-cases (contains b':' h)) [
  | inl e ↦ rw e (omega arith, All-append HostChar h (b']' ∷ []) k (omega arith, tt))
  | inr e ↦ rw e k
]

pub display_port-HostChar : (n : ℕ) → All HostChar (display_port n)
display_port-HostChar n = elim (Bool-cases (n == default_port)) [
  | inl e ↦ rw e tt
  | inr e ↦ rw e (omega arith, Digits-HostChar (decimal n) (decimal-Digits n))
]

-- the tests of the authority
pub host_port-Fits :
    (s : Text)
    → All HostChar s
    → (any (λ c. is_control c || is_whitespace c) s
        || (contains b'@' s || contains b'#' s || contains b'?' s))
      ≡ false
host_port-Fits s h =
    rw
      (
        false-any (λ c. is_control c || is_whitespace c) s
            (All-map HostChar (λ c. (is_control c || is_whitespace c) ≡ false) s (λ c k. shown c k)
              h),
        lacks-contains b'@' s (All-map HostChar (λ c. c ≢ b'@') s (λ c k. k.no_delimiter.0) h),
        lacks-contains b'#' s (All-map HostChar (λ c. c ≢ b'#') s (λ c k. k.no_delimiter.1) h),
        lacks-contains b'?' s (All-map HostChar (λ c. c ≢ b'?') s (λ c k. k.no_delimiter.2) h),
      )
      refl
  where
    shown : (c : ℕ) → HostChar c → (is_control c || is_whitespace c) ≡ false
    shown c k = ground arith

pub display_host-nonempty :
    (h t : Text) → is_empty h ≡ false → is_empty (display_host h ++ t) ≡ false
display_host-nonempty [] t k = absurd (true≢false k)
display_host-nonempty (c ∷ h) t k = elim (Bool-cases (contains b':' (c ∷ h))) [
  | inl e ↦ rw e refl
  | inr e ↦ rw e refl
]

module _ (is_ipv6 : Text → Bool) (heap : UriHeap) where
  plain_port :
      (h : Text) (n : ℕ)
      → n ≤ u16_max
      → is_empty h ≡ false
      → contains b':' h ≡ false
      → next_is b'[' h ≡ false
      → host_and_port is_ipv6 heap (h ++ display_port n) ≡ ok (h, n)
  unfolding host_and_port
  plain_port [] n le e k b = absurd (true≢false e)
  plain_port (c ∷ h) n le e k b = elim (Bool-cases (n == default_port)) [
    | inl d ↦
        rw (d, append-nil (c ∷ h), b, before_last-lacks b':' (c ∷ h) k)
          (ap (λ m. ok (c ∷ h, m)) (sym ((==_iff n default_port).0 d)))
    | inr d ↦
        rw
          (
            d,
            b,
            before_last-found b':' (c ∷ h) (decimal n)
                (Digits-no_colon (decimal n) (decimal-Digits n)),
            k,
            behind_last-found b':' (c ∷ h) (decimal n)
                (Digits-no_colon (decimal n) (decimal-Digits n)),
            parse_port-decimal heap n le,
          )
          refl
  ]
    where
      before_last-lacks : (k : ℕ) (s : Text) → contains k s ≡ false → before_last k s ≡ none
      before_last-lacks k s h = before_last-none k s h

  bracketed_port :
      (h : Text) (n : ℕ)
      → n ≤ u16_max
      → is_ipv6 h ≡ true
      → contains b']' h ≡ false
      → host_and_port is_ipv6 heap ((b'[' ∷ (h ++ b']' ∷ [])) ++ display_port n) ≡ ok (h, n)
  unfolding host_and_port
  bracketed_port h n le good lacks = elim (Bool-cases (n == default_port)) [
    | inl d ↦
        rw (d, append-nil (h ++ b']' ∷ []), split_once-found b']' h [] lacks, good)
          (ap (λ m. ok (h, m)) (sym ((==_iff n default_port).0 d)))
    | inr d ↦
        rw
          (
            d,
            append_assoc h (b']' ∷ []) (b':' ∷ decimal n),
            split_once-found b']' h (b':' ∷ decimal n) lacks,
            good,
            parse_port-decimal heap n le,
          )
          refl
  ]

  pub display-host_and_port :
      (h : Text) (n : ℕ)
      → n ≤ u16_max
      → is_empty h ≡ false
      → HostShape is_ipv6 h
      → host_and_port is_ipv6 heap (display_host h ++ display_port n) ≡ ok (h, n)
  display-host_and_port h n le e (inl (k, b)) = rw k (plain_port h n le e k b)
  display-host_and_port h n le e (inr (good, k, lacks)) = rw k (bracketed_port h n le good lacks)

pub HostChar-ascii : (h : Text) → All HostChar h → all (λ c. ltb c 0x80) h ≡ true
HostChar-ascii h k =
    true-all (λ c. ltb c 0x80) h (All-map HostChar (λ c. ltb c 0x80 ≡ true) h (λ c m. below c m) k)
  where
    below : (c : ℕ) → HostChar c → ltb c 0x80 ≡ true
    below c m = ground arith
