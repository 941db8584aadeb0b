-- ===== src/Protocol/Uri.antt =====
-- crates/dustnet-core/src/protocol/uri.rs: addresses. The standard library's parser of IPv6 addresses is
-- a parameter, and so is what the allocator answers, at each site and for the text of an error.
pub mod Authority
pub mod Chars
pub mod Hosts
pub mod Parsed
pub mod Parts
pub mod Resolved
pub mod RoundTrip
mod Tests
use dustnet.Base.{
  ℕ, ◌+◌, Bool, true, false, not, ◌&&◌, ◌||◌, Option, none, some, List, [], ◌∷◌, ◌++◌, map, ◌==◌,
  ltb, if◌then◌else◌, any, all,
}
use dustnet.Base.Decimal.{decimal, parse_unsigned}
use dustnet.Base.Text.{
  Text, codes, len, is_control, is_whitespace, is_ascii_alphabetic, is_ascii_alphanumeric,
  to_ascii_lowercase, contains, split_once, strip_prefix,
}
use dustnet.Protocol.Diagnostic.{diagnostic}
use dustnet.Protocol.Error.{
  ProtocolError, invalid_uri, Result, ok, err, ◌>>=◌, ◌>>◌, reject, reserve,
}
use dustnet.Protocol.Path.{max_uri_len, before_last, try_normalize_path}
use dustnet.Protocol.Version.{u16_max, or_else}
use dustnet.Scanner.Escape.{next_is, after_next}
use dustnet.Scanner.Tags.{is_empty}

abbrev pub default_port : ℕ
default_port = 1985

-- What the allocator grants: the copies of the host, the path and the query, and the text of an error.
pub record UriHeap : Type 0 where
  pub host : ℕ → Bool
  pub path : ℕ → Bool
  pub query : ℕ → Bool
  pub diagnostics : ℕ → Bool

-- `AtpUri`
pub record AtpUri : Type 0 where
  pub host : Text
  pub port : ℕ
  pub path : Text
  pub query : Option Text

-- `foreign_scheme`'s test of the text in front of the colon
abbrev pub is_scheme : Text → Bool
is_scheme [] = false
is_scheme (c ∷ cs) =
    is_ascii_alphabetic c
    && all (λ d. is_ascii_alphanumeric d || d == b'+' || d == b'-' || d == b'.') cs

abbrev pub scheme_of : Option (Text × Text) → Option Text
scheme_of none = none
scheme_of (some (scheme, rest)) =
    if contains b'/' scheme then none else if is_scheme scheme then some scheme else none

-- `foreign_scheme`
unfoldable pub foreign_scheme : Text → Option Text
foreign_scheme reference = scheme_of (split_once b':' reference)

-- `find(['/', '?'])`, with what stands in front and from there on
unfoldable pub authority : Text → Text × Text
authority [] = ([], [])
authority (c ∷ cs) =
    let (host_port, rest) = authority cs in
    if c == b'/' || c == b'?' then ([], c ∷ cs) else (c ∷ host_port, rest)

abbrev pub nonempty : Text → Option Text
nonempty q = if is_empty q then none else some q

-- a path and a query, copied and dropped if empty
abbrev pub path_parts : UriHeap → Text → Option (Text × Text) → Result (Text × Option Text)
path_parts heap whole none = ok (whole, none)
path_parts heap whole (some (path, query)) = do
  reserve (heap.query (len query)) (len query)
  ok (path, nonempty query)

abbrev pub root_if_empty : Text → Text
root_if_empty [] = b'/' ∷ []
root_if_empty (c ∷ s) = c ∷ s

unfoldable pub parse_port : UriHeap → Text → Result ℕ
parse_port heap value = do
  reject (is_empty value) (invalid_uri (codes "empty port"))
  or_else (diagnostic heap.diagnostics invalid_uri (codes "invalid port: " ∷ value ∷ []))
      (parse_unsigned u16_max value)

abbrev pub suffix_port : UriHeap → Text → Result ℕ
suffix_port heap [] = ok default_port
suffix_port heap (c ∷ value) =
    if c == b':' then parse_port heap value else err (invalid_uri (codes "invalid IPv6 authority"))

-- `rsplit_once`
abbrev pub behind_last : ℕ → Text → Text
behind_last sep [] = []
behind_last sep (c ∷ s) = if contains sep s then behind_last sep s else if c == sep then s else []

abbrev pub plain_host : UriHeap → Text → Option Text → Result (Text × ℕ)
plain_host heap host_port none = ok (host_port, default_port)
plain_host heap host_port (some host) = do
  reject (contains b':' host) (invalid_uri (codes "IPv6 addresses must be enclosed in brackets"))
  port ← parse_port heap (behind_last b':' host_port)
  ok (host, port)

abbrev pub too_long : UriHeap → Text → Result (Unit {0})
too_long heap s = reject (ltb max_uri_len (len s)) (
    diagnostic heap.diagnostics invalid_uri
      (codes "URI exceeds maximum length of " ∷ decimal max_uri_len ∷ []))

abbrev pub has_forbidden : Text → Bool
has_forbidden s = any is_control s || contains b'#' s

abbrev pub forbidden : Text → Result (Unit {0})
forbidden s =
    reject (has_forbidden s)
      (invalid_uri (codes "control characters and fragments are not allowed"))

abbrev pub starts_with : Text → Text → Bool
starts_with prefix s = elim (strip_prefix prefix s) [ none ↦ false | some rest ↦ true ]

-- `split_once("://")`: what stands in front, or the whole text
abbrev named_scheme : Text → Text
named_scheme [] = []
named_scheme (c ∷ s) = if starts_with (codes "://") (c ∷ s) then [] else c ∷ named_scheme s

-- `rfind('/')`, with the slash
abbrev pub base_dir : Option Text → Text
base_dir none = b'/' ∷ []
base_dir (some p) = p ++ b'/' ∷ []

-- `AtpUri::resolve` for a reference without a scheme, its query split off
unfoldable pub resolve_path : UriHeap → AtpUri → Text → Result Text
resolve_path heap self rel_path = do
  reserve (heap.host (len self.host)) (len self.host)
  if next_is b'/' rel_path
      then try_normalize_path heap.path rel_path []
      else if is_empty rel_path
      then (reserve (heap.path (len self.path)) (len self.path) >> ok self.path)
      else try_normalize_path heap.path (base_dir (before_last b'/' self.path)) rel_path

unfoldable pub resolve_reference : UriHeap → AtpUri → Text → Result AtpUri
resolve_reference heap self relative = do
  parts ← path_parts heap relative (split_once b'?' relative)
  path ← resolve_path heap self parts.0
  ok (record { host = self.host; port = self.port; path = path; query = parts.1 })

abbrev pub resolve_foreign : UriHeap → AtpUri → Text → Option Text → Result AtpUri
resolve_foreign heap self relative none = resolve_reference heap self relative
resolve_foreign heap self relative (some scheme) =
    err (diagnostic heap.diagnostics invalid_uri (codes "unsupported protocol: " ∷ scheme ∷ []))

abbrev pub display_host : Text → Text
display_host host = if contains b':' host then b'[' ∷ (host ++ b']' ∷ []) else host

abbrev pub display_port : ℕ → Text
display_port port = if port == default_port then [] else b':' ∷ decimal port

abbrev pub display_query : Option Text → Text
display_query none = []
display_query (some q) = b'?' ∷ q

-- the `Display` of `AtpUri`
unfoldable pub display : AtpUri → Text
display u =
    codes "atp://"
    ++ ((display_host u.host ++ display_port u.port) ++ (u.path ++ display_query u.query))

module _ (is_ipv6 : Text → Bool) where
  abbrev pub bracketed_host : UriHeap → Option (Text × Text) → Result (Text × ℕ)
  bracketed_host heap none = err (invalid_uri (codes "unterminated IPv6 address"))
  bracketed_host heap (some (host, suffix)) = do
    reject (not (is_ipv6 host)) (invalid_uri (codes "invalid IPv6 address"))
    port ← suffix_port heap suffix
    ok (host, port)

  -- the split of the authority into host and port
  unfoldable pub host_and_port : UriHeap → Text → Result (Text × ℕ)
  host_and_port heap [] = plain_host heap [] none
  host_and_port heap (c ∷ rest) =
      if c == b'['
      then bracketed_host heap (split_once b']' rest)
      else plain_host heap (c ∷ rest) (before_last b':' (c ∷ rest))

  -- `AtpUri::parse`, behind the scheme
  unfoldable pub parse_authority : UriHeap → Text → Result AtpUri
  parse_authority heap after_scheme = do
    reject (is_empty after_scheme) (invalid_uri (codes "missing host"))
    let host_port = (authority after_scheme).0
    let path_and_query = root_if_empty (authority after_scheme).1
    parts ←
        if next_is b'?' path_and_query
        then path_parts heap path_and_query (some (b'/' ∷ [], after_next path_and_query))
        else path_parts heap path_and_query (split_once b'?' path_and_query)
    reject (is_empty host_port) (invalid_uri (codes "missing host"))
    reject
        (any (λ c. is_control c || is_whitespace c) host_port
          || (contains b'@' host_port || contains b'#' host_port || contains b'?' host_port))
        (invalid_uri (codes "invalid host"))
    found ← host_and_port heap host_port
    reject (is_empty found.0) (invalid_uri (codes "missing host"))
    reject (not (all (λ c. ltb c 0x80) found.0))
        (invalid_uri (codes "host must be an ASCII DNS name or IP literal"))
    reserve (heap.host (len found.0)) (len found.0)
    path ← try_normalize_path heap.path parts.0 []
    ok (record {
      host = map to_ascii_lowercase found.0;
      port = found.1;
      path = path;
      query = parts.1;
    })

  -- `AtpUri::parse`
  unfoldable pub parse : UriHeap → Text → Result AtpUri
  parse heap s = do
    too_long heap s
    forbidden s
    after_scheme ←
        or_else
          (diagnostic heap.diagnostics invalid_uri
            (codes "expected atp:// scheme, got: " ∷ named_scheme s ∷ []))
          (strip_prefix (codes "atp://") s)
    parse_authority heap after_scheme

  -- `AtpUri::resolve`
  unfoldable pub resolve : UriHeap → AtpUri → Text → Result AtpUri
  resolve heap self relative = do
    too_long heap relative
    forbidden relative
    if starts_with (codes "atp://") relative
        then parse heap relative
        else resolve_foreign heap self relative (foreign_scheme relative)
