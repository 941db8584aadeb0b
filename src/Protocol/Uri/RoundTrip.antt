-- ===== src/Protocol/Uri/RoundTrip.antt =====
-- crates/dustnet-core/src/protocol/uri.rs: an address that is printed parses to itself.
use mathlib.Core.Bool.{true≢false}
use dustnet.Base.{
  ℕ, ◌+◌, ◌≤◌, Bool, true, false, Option, none, some, [], ◌∷◌, ◌++◌, ltb, ◌≡◌, ◌≢◌, refl, ap, arith,
  All, All-append, append-nil,
}
use dustnet.Base.Text.{
  Text, codes, len, len-append, contains, split_once, strip_prefix, strip_prefix-append,
}
use dustnet.Protocol.Error.{ok}
use dustnet.Protocol.Path.{try_normalize_path, max_uri_len, usize_max, at_least_one}
use dustnet.Protocol.Path.Normal.{IsNormal, normalized_path-fixed, IsNormal-starts}
use dustnet.Protocol.Uri.{
  UriHeap, AtpUri, authority, nonempty, path_parts, root_if_empty, parse_authority, parse, display,
  display_host, display_port, display_query,
}
use dustnet.Protocol.Uri.Chars.{
  UriChar, PathChar, HostChar, All-map, lacks-contains, split_once-found, split_once-lacks,
}
use dustnet.Protocol.Uri.Parsed.{IsUri}
use dustnet.Protocol.Uri.Parts.{QueryFits}
use dustnet.Scanner.Escape.{next_is}
use dustnet.Scanner.Tags.{is_empty}
use dustnet.Protocol.Uri.Authority.{
  UriChar-Forbidden, authority-found, lowered-fixed, display_host-HostChar, display_port-HostChar,
  host_port-Fits, HostChar-ascii, display_host-nonempty, display-host_and_port,
}

-- The allocator grants every copy.
pub record Generous (heap : UriHeap) : Type 0 where
  pub host : (n : ℕ) → heap.host n ≡ true
  pub path : (n : ℕ) → heap.path n ≡ true
  pub query : (n : ℕ) → heap.query n ≡ true

PathChar-UriChar : (p : Text) → All PathChar p → All UriChar p
PathChar-UriChar p h = All-map PathChar UriChar p (λ c k. k.in_uri) h

HostChar-UriChar : (h : Text) → All HostChar h → All UriChar h
HostChar-UriChar h k = All-map HostChar UriChar h (λ c m. char c m) k
  where
    char : (c : ℕ) → HostChar c → UriChar c
    char c m = ground arith

display_query-UriChar : (q : Option Text) → QueryFits q → All UriChar (display_query q)
display_query-UriChar none h = tt
display_query-UriChar (some q) h = (omega arith, h.1)

-- the path and the query of a printed address
display_query-parts :
    (heap : UriHeap) (p : Text) (q : Option Text)
    → Generous heap
    → All PathChar p
    → QueryFits q
    → path_parts heap (p ++ display_query q) (split_once b'?' (p ++ display_query q)) ≡ ok (p, q)
display_query-parts heap p none g h k =
    rw (append-nil p, split_once-lacks b'?' p (no_query p h)) refl
  where
    no_query : (p : Text) → All PathChar p → contains b'?' p ≡ false
    no_query p h = lacks-contains b'?' p (All-map PathChar (λ c. c ≢ b'?') p (λ c m. m.no_query) h)
display_query-parts heap p (some q) g h k =
    rw (split_once-found b'?' p q (no_query p h), g.query (len q))
      (ap (λ r. ok (p, r)) (kept q k.0))
  where
    no_query : (p : Text) → All PathChar p → contains b'?' p ≡ false
    no_query p h = lacks-contains b'?' p (All-map PathChar (λ c. c ≢ b'?') p (λ c m. m.no_query) h)

    kept : (q : Text) → is_empty q ≡ false → nonempty q ≡ some q
    kept q e = rw e refl

path-fixed :
    (heap : UriHeap) (p : Text)
    → Generous heap
    → IsNormal p
    → len p ≤ max_uri_len
    → try_normalize_path heap.path p [] ≡ ok p
unfolding try_normalize_path
path-fixed heap p g n l =
    rw
      (
        in_usize (len p + 0) (omega arith),
        in_bound (at_least_one (len p + 0)) (one (len p + 0) (omega arith)),
        g.path (at_least_one (len p + 0)),
      )
      (ap ok (normalized_path-fixed p n))
  where
    in_usize : (m : ℕ) → m ≤ max_uri_len → ltb usize_max m ≡ false
    in_usize m h = ground arith

    one : (m : ℕ) → m ≤ max_uri_len → at_least_one m ≤ max_uri_len
    one m h = ground arith

    in_bound : (m : ℕ) → m ≤ max_uri_len → ltb max_uri_len m ≡ false
    in_bound m h = ground arith

authority-path :
    (hp p t q : Text) → p ≡ b'/' ∷ t → All HostChar hp → authority (hp ++ (p ++ q)) ≡ (hp, p ++ q)
authority-path hp p t q e h = rw e (
    authority-found hp (t ++ q) (
      All-map HostChar (λ c. (c ≢ b'/') × (c ≢ b'?')) hp
        (λ c k. (k.no_delimiter.3, k.no_delimiter.2)) h))

rooted-path :
    (p t q : Text)
    → p ≡ b'/' ∷ t
    → (root_if_empty (p ++ q) ≡ p ++ q) × (next_is b'?' (p ++ q) ≡ false)
rooted-path p t q e = (rw e refl, rw e refl)

is_empty-append : (a b : Text) → is_empty a ≡ false → is_empty (a ++ b) ≡ false
is_empty-append [] b h = absurd (true≢false h)
is_empty-append (c ∷ a) b h = refl

behind_scheme :
    (u : AtpUri)
    → strip_prefix (codes "atp://") (display u)
      ≡ some ((display_host u.host ++ display_port u.port) ++ (u.path ++ display_query u.query))
unfolding display
behind_scheme u = strip_prefix-append (codes "atp://") _

module _ (is_ipv6 : Text → Bool) (heap : UriHeap) (g : Generous heap) where
  parse_authority-display :
      (h : Text) (n : ℕ) (p : Text) (q : Option Text)
      → IsUri is_ipv6 (record { host = h; port = n; path = p; query = q })
      → len p ≤ max_uri_len
      → parse_authority is_ipv6 heap ((display_host h ++ display_port n) ++ (p ++ display_query q))
        ≡ ok (record { host = h; port = n; path = p; query = q })
  unfolding parse_authority
  parse_authority-display h n p q w l =
      let (t, e) = IsNormal-starts p w.path_normal in
      let hp = display_host h ++ display_port n in
      let full = display_host-nonempty h (display_port n) w.host_nonempty in
      let chars : All HostChar hp =
        All-append HostChar (display_host h) (display_port n) (display_host-HostChar h w.host_chars)
          (display_port-HostChar n) in
      let (rooted, unasked) = rooted-path p t (display_query q) e in
      rw
        (
          is_empty-append hp (p ++ display_query q) full,
          authority-path hp p t (display_query q) e chars,
          rooted,
          unasked,
          display_query-parts heap p q g w.path_chars w.query_fits,
          full,
          host_port-Fits hp chars,
          display-host_and_port is_ipv6 heap h n w.port_fits w.host_nonempty w.host_shape,
          w.host_nonempty,
          HostChar-ascii h w.host_chars,
          g.host (len h),
          path-fixed heap p g w.path_normal l,
          lowered-fixed h w.host_chars,
        )
        refl

  display-UriChar : (u : AtpUri) → IsUri is_ipv6 u → All UriChar (display u)
  unfolding display
  display-UriChar u w =
      let hp = display_host u.host ++ display_port u.port in
      All-append UriChar (codes "atp://") (hp ++ (u.path ++ display_query u.query)) scheme (
        All-append UriChar hp (u.path ++ display_query u.query)
          (HostChar-UriChar hp (
            All-append HostChar (display_host u.host) (display_port u.port)
              (display_host-HostChar u.host w.host_chars) (display_port-HostChar u.port)))
          (All-append UriChar u.path (display_query u.query) (PathChar-UriChar u.path w.path_chars)
            (display_query-UriChar u.query w.query_fits)))
    where
      scheme : All UriChar (codes "atp://")
      scheme = omega arith

  path-display : (u : AtpUri) → len (display u) ≤ max_uri_len → len u.path ≤ max_uri_len
  unfolding display
  path-display u l =
      let hp = display_host u.host ++ display_port u.port in
      let rest = u.path ++ display_query u.query in
      let e = len-append (codes "atp://") (hp ++ rest) in
      let f = len-append hp rest in let k = len-append u.path (display_query u.query) in grind arith

  -- With an allocator that grants every copy, a well-formed address whose printed form fits the bound on
  -- addresses parses from that form to itself.
  pub parse-display :
      (u : AtpUri)
      → IsUri is_ipv6 u
      → len (display u) ≤ max_uri_len
      → parse is_ipv6 heap (display u) ≡ ok u
  unfolding parse
  parse-display u w l =
      rw
        (
          in_bound (len (display u)) l,
          UriChar-Forbidden (display u) (display-UriChar u w),
          behind_scheme u,
        )
        (parse_authority-display u.host u.port u.path u.query w (path-display u l))
    where
      in_bound : (m : ℕ) → m ≤ max_uri_len → ltb max_uri_len m ≡ false
      in_bound m h = ground arith
