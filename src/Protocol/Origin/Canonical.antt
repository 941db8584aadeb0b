-- ===== src/Protocol/Origin/Canonical.antt =====
-- crates/dustnet-core/src/protocol/origin.rs: the origin of an address. The standard library's IP
-- addresses and the functions of the crate `idna` are parameters.
pub mod Fixed
pub mod Hosts
pub mod Derived
pub mod Dots
use dustnet.Base.{
  ℕ, Bool, true, false, not, ◌&&◌, ◌||◌, Option, none, some, List, [], ◌∷◌, map, ◌==◌, ltb,
  if◌then◌else◌, all,
}
use dustnet.Base.Text.{Text, codes, len, text_eq, to_ascii_lowercase, strip_prefix, ends_with}
use dustnet.Protocol.Error.{Result, ok, err, ◌>>=◌, ◌>>◌, reject, reserve, invalid_uri}
use dustnet.Protocol.Origin.{TransportSecurity, plaintext_loopback, Origin, security_eq}
use dustnet.Protocol.Path.{max_uri_len, pop}
use dustnet.Protocol.Uri.{AtpUri}
use dustnet.Scanner.Tags.{is_empty}

-- What the code takes of IP addresses and of `idna`: parsing and printing an address, whether it is of
-- the loopback, `domain_to_ascii_cow` with whether it answers with what it was given, and
-- `domain_to_ascii`.
pub record HostLibrary : Type 1 where
  pub IpAddr : Type 0
  pub parse_ip : Text → Option IpAddr
  pub show_ip : IpAddr → Text
  pub is_loopback : IpAddr → Bool
  pub domain_to_ascii_cow : Text → Option (Bool × Text)
  pub domain_to_ascii : Text → Option Text

abbrev pub or_whole : Text → Option Text → Text
or_whole host none = host
or_whole host (some rest) = if ends_with b']' rest then pop rest else host

-- `strip_prefix('[')` and `strip_suffix(']')`, or the whole host
unfoldable pub unbracketed : Text → Text
unbracketed host = or_whole host (strip_prefix (b'[' ∷ []) host)

abbrev pub keep_label : ℕ → Text → Text
keep_label c [] = if c == b'.' then [] else c ∷ []
keep_label c (d ∷ s) = c ∷ d ∷ s

-- `trim_end_matches('.')`
unfoldable pub trim_end_dots : Text → Text
trim_end_dots [] = []
trim_end_dots (c ∷ s) = keep_label c (trim_end_dots s)

abbrev pub missing_name : Result Text
missing_name = err (invalid_uri (codes "missing DNS name"))

abbrev pub invalid_name : Result Text
invalid_name = err (invalid_uri (codes "invalid IDNA DNS name"))

abbrev pub validated : Text → Option (Bool × Text) → Result Text
validated canonical none = invalid_name
validated canonical (some (borrowed, name)) =
    if borrowed && text_eq name canonical then ok canonical else invalid_name

abbrev pub lowered_name : Option Text → Result Text
lowered_name none = invalid_name
lowered_name (some name) = ok (map to_ascii_lowercase name)

-- `str::eq_ignore_ascii_case`
abbrev pub eq_ignore_ascii_case : Text → Text → Bool
eq_ignore_ascii_case a b = text_eq (map to_ascii_lowercase a) (map to_ascii_lowercase b)

module _ (library : HostLibrary) where
  abbrev pub try_canonical_name : (ℕ → Bool) → Text → Result Text
  try_canonical_name granted dns = do
    reject (is_empty dns) (invalid_uri (codes "missing DNS name"))
    reserve (granted (len dns)) (len dns)
    validated (map to_ascii_lowercase dns)
        (library.domain_to_ascii_cow (map to_ascii_lowercase dns))

  abbrev pub try_canonical_ip : (ℕ → Bool) → Text → Option library.IpAddr → Result Text
  try_canonical_ip granted host none = try_canonical_name granted (trim_end_dots host)
  try_canonical_ip granted host (some address) =
      reserve (granted 64) 64 >> ok (library.show_ip address)

  -- `try_canonical_host`
  unfoldable pub try_canonical_host : (ℕ → Bool) → Text → Result Text
  try_canonical_host granted host = do
    reject
        (not (all (λ c. ltb c 0x80) (unbracketed host)) || ltb max_uri_len (len (unbracketed host)))
        (invalid_uri (codes "origin host must be a bounded ASCII name or IP literal"))
    try_canonical_ip granted (unbracketed host) (library.parse_ip (unbracketed host))

  abbrev pub canonical_ip : Text → Option library.IpAddr → Result Text
  canonical_ip host (some address) = ok (library.show_ip address)
  canonical_ip host none =
      if is_empty (trim_end_dots host)
      then missing_name
      else lowered_name (library.domain_to_ascii (trim_end_dots host))

  -- `canonical_host`
  unfoldable pub canonical_host : Text → Result Text
  canonical_host host = canonical_ip (unbracketed host) (library.parse_ip (unbracketed host))

  abbrev pub loopback_ip : Option library.IpAddr → Bool
  loopback_ip none = false
  loopback_ip (some address) = library.is_loopback address

  -- `is_loopback_host`
  unfoldable pub is_loopback_host : Text → Bool
  is_loopback_host host =
      eq_ignore_ascii_case host (codes "localhost") || loopback_ip (library.parse_ip host)

  -- `Origin::from_canonical_host`
  unfoldable pub from_canonical_host : AtpUri → TransportSecurity → Text → Result Origin
  from_canonical_host uri security host = do
    reject (security_eq security plaintext_loopback && not (is_loopback_host host))
        (invalid_uri (codes "plaintext ATP is restricted to loopback hosts"))
    ok (record { host = host; port = uri.port; security = security })

  -- `Origin::from_uri`
  unfoldable pub from_uri : (ℕ → Bool) → AtpUri → TransportSecurity → Result Origin
  from_uri granted uri security = do
    host ←
        if all (λ c. ltb c 0x80) uri.host
        then try_canonical_host granted uri.host
        else canonical_host uri.host
    from_canonical_host uri security host

  -- `Origin::try_from_uri`
  unfoldable pub try_from_uri : (ℕ → Bool) → AtpUri → TransportSecurity → Result Origin
  try_from_uri granted uri security = do
    host ← try_canonical_host granted uri.host
    from_canonical_host uri security host
