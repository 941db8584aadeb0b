-- ===== src/Protocol/Uri/Parsed.antt =====
-- crates/dustnet-core/src/protocol/uri.rs: what every address is that `parse` returns.
use dustnet.Base.{
  ◌≤◌, Bool, true, false, not, ◌||◌, some, [], ◌∷◌, ltb, any, all, if◌then◌else◌, ◌≡◌, subst, ◌∙◌,
  arith, All,
}
use dustnet.Base.Text.{
  strip_prefix-eq_some, Text, codes, len, is_control, is_whitespace, contains, split_once,
  strip_prefix,
}
use dustnet.Protocol.Error.{ok}
use dustnet.Protocol.Holds.{
  Holds, Holds->>=, Holds-reject, Holds-reserve, Holds-or_else, Holds-if, Holds-ok,
}
use dustnet.Protocol.Path.{try_normalize_path, max_uri_len}
use dustnet.Protocol.Path.Normal.{IsNormal}
use dustnet.Protocol.Uri.{
  UriHeap, AtpUri, authority, path_parts, root_if_empty, host_and_port, parse_authority,
  has_forbidden, parse,
}
use dustnet.Protocol.Uri.Chars.{UriChar, PathChar, HostChar, All-split, all-true}
use dustnet.Protocol.Version.{u16_max, or_else}
use dustnet.Scanner.Escape.{next_is, after_next}
use dustnet.Scanner.Tags.{is_empty}
use dustnet.Protocol.Uri.Parts.{
  QueryFits, or_parts, has_forbidden-UriChar, authority-parts, PartsFit, path_parts-PartsFit,
  split_parts-PartsFit, slash, try_normalize_path-IsNormal,
}
use dustnet.Protocol.Uri.Hosts.{
  Ipv6Laws, HostShape, map-HostChar, is_empty-lowercase, raw_host, AuthorityFits,
  host_and_port-Fits, lowered-HostShape,
}

pub record IsUri (is_ipv6 : Text → Bool) (u : AtpUri) : Type 0 where
  pub host_nonempty : is_empty u.host ≡ false
  pub host_chars : All HostChar u.host
  pub host_shape : HostShape is_ipv6 u.host
  pub port_fits : u.port ≤ u16_max
  pub path_normal : IsNormal u.path
  pub path_chars : All PathChar u.path
  pub query_fits : QueryFits u.query

module _ (is_ipv6 : Text → Bool) (laws : Ipv6Laws is_ipv6) where
  rooted-UriChar : (s : Text) → All UriChar s → All UriChar (root_if_empty s)
  rooted-UriChar [] h = (slash.in_uri, tt)
  rooted-UriChar (c ∷ s) h = h

  queried-PartsFit :
      (heap : UriHeap) (s : Text)
      → All UriChar s
      → Holds PartsFit (path_parts heap s (some (b'/' ∷ [], after_next s)))
  queried-PartsFit heap [] h = path_parts-PartsFit heap [] (b'/' ∷ []) [] (slash, tt) tt
  queried-PartsFit heap (c ∷ s) h = path_parts-PartsFit heap (c ∷ s) (b'/' ∷ []) s (slash, tt) h.1

  parse_authority-IsUri :
      (heap : UriHeap) (s : Text)
      → All UriChar s
      → Holds (IsUri is_ipv6) (parse_authority is_ipv6 heap s)
  unfolding parse_authority
  parse_authority-IsUri heap s u =
      let I = IsUri is_ipv6 in
      let h = (authority s).0 in
      let rest = root_if_empty (authority s).1 in
      let (same, plain) = authority-parts s in
      let (hu, ru) = All-split UriChar h (authority s).1 (subst (All UriChar) same u) in
      let ru' = rooted-UriChar (authority s).1 ru in
      Holds-reject I (is_empty s) _ _ λ _.
        Holds->>= PartsFit I
          (if next_is b'?' rest
            then path_parts heap rest (some (b'/' ∷ [], after_next rest))
            else path_parts heap rest (split_once b'?' rest))
          _
          (Holds-if PartsFit (next_is b'?' rest)
            (path_parts heap rest (some (b'/' ∷ [], after_next rest)))
            (path_parts heap rest (split_once b'?' rest)) (λ _. queried-PartsFit heap rest ru')
            (λ _. split_parts-PartsFit heap rest ru'))
          (λ parts fit. Holds-reject I (is_empty h) _ _ λ n.
            Holds-reject I
              (any (λ c. is_control c || is_whitespace c) h
                || (contains b'@' h || contains b'#' h || contains b'?' h))
              _ _
              λ v.
                let (v0, v1) = or_parts (any (λ c. is_control c || is_whitespace c) h) _ v in
                Holds->>= (AuthorityFits is_ipv6 laws) I (host_and_port is_ipv6 heap h) _
                  (host_and_port-Fits is_ipv6 laws heap h n (raw_host h hu plain v0 v1))
                  (λ found (chars, shape, port). Holds-reject I (is_empty found.0) _ _ λ full.
                    Holds-reject I (not (all (λ c. ltb c 0x80) found.0)) _ _ λ ascii.
                      Holds-reserve I (heap.host (len found.0)) (len found.0) _ (
                        Holds->>= (λ p. IsNormal p × All PathChar p) I
                          (try_normalize_path heap.path parts.0 []) _
                          (try_normalize_path-IsNormal heap.path parts.0 [] fit.0 tt)
                          (λ p (normal, pc). record {
                            host_nonempty = is_empty-lowercase found.0 ∙ full;
                            host_chars = map-HostChar found.0 chars (
                                all-true (λ c. ltb c 0x80) found.0
                                  (not_not (all (λ c. ltb c 0x80) found.0) ascii));
                            host_shape = lowered-HostShape is_ipv6 laws found.0 shape;
                            port_fits = port;
                            path_normal = normal;
                            path_chars = pc;
                            query_fits = fit.1;
                          }))))
    where
      not_not : (b : Bool) → not b ≡ false → b ≡ true
      not_not b k = ground arith

  pub parse-Holds : (heap : UriHeap) (s : Text) → Holds (IsUri is_ipv6) (parse is_ipv6 heap s)
  unfolding parse
  parse-Holds heap s =
      let I = IsUri is_ipv6 in
      Holds-reject I (ltb max_uri_len (len s)) _ _ λ _.
        Holds-reject I (has_forbidden s) _ _ λ clean.
          Holds->>= (All UriChar) I (or_else _ (strip_prefix (codes "atp://") s)) _
            (Holds-or_else (All UriChar) _ (strip_prefix (codes "atp://") s) (λ t e.
              (All-split UriChar (codes "atp://") t (
                subst (All UriChar) (strip_prefix-eq_some (codes "atp://") s {rest = t} e)
                  (has_forbidden-UriChar s clean))).1))
            (λ t h. parse_authority-IsUri heap t h)

  -- Whatever the allocator grants, an address that `parse` returns is well formed: its host is of
  -- visible lower-case ASCII without a delimiter and has a colon only if it is an IPv6 address, its port
  -- has 16 bits, its path is normal, its query is not empty, and no part has a control character.
  pub parse-IsUri :
      (heap : UriHeap) (s : Text) {u : AtpUri} → parse is_ipv6 heap s ≡ ok u → IsUri is_ipv6 u
  parse-IsUri heap s e = Holds-ok (IsUri is_ipv6) (parse is_ipv6 heap s) (parse-Holds heap s) e
