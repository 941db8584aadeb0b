-- ===== src/Protocol/Origin/Tests.antt =====
-- crates/dustnet-core/src/protocol/origin.rs: the laws of origins and their keys at concrete ones.
use dustnet.Base.{
  ℕ, Bool, true, false, Option, none, some, [], if◌then◌else◌, ◌≡◌, ◌↔◌, refl, sym, arith, inl, inr,
  Bool-cases, All,
}
use dustnet.Base.Text.{Text, codes, text_eq, text_eq_iff, strip_prefix}
use dustnet.Base.Utf8.{IsChar}
use dustnet.Protocol.Error.{ok}
use dustnet.Protocol.Origin.{Origin, verified_tls, pinned_tls, plaintext_loopback}
use dustnet.Protocol.Origin.Canonical.{
  HostLibrary, unbracketed, trim_end_dots, try_canonical_host, from_uri,
}
use dustnet.Protocol.Origin.Canonical.Fixed.{try_canonical_host_idem}
use dustnet.Protocol.Origin.Canonical.Hosts.{IpLaws}
use dustnet.Protocol.Origin.Canonical.Derived.{OriginOf, from_uri_iff}
use dustnet.Protocol.Origin.Key.{
  IsOrigin, OneByte-IsChar, storage_key_display, matches_storage_key, storage_key_display-injective,
  matches_storage_key_iff,
}
use dustnet.Protocol.Origin.Order.{less, equal, reverse, cmp_storage_key, cmp_storage_key-total}
use dustnet.Protocol.Uri.{AtpUri}
use dustnet.Protocol.Uri.Chars.{HostChar}
use dustnet.Protocol.Uri.Parsed.{IsUri}
use dustnet.Protocol.Uri.Parts.{slash}

abbrev home : Origin
home = record { host = codes "home"; port = 1985; security = verified_tls }

abbrev pinned : Origin
pinned = record { host = codes "home"; port = 1985; security = pinned_tls }

home-chars : All IsChar (codes "home")
home-chars = OneByte-IsChar (codes "home") (omega arith)

home-IsOrigin : IsOrigin home
home-IsOrigin = record { host_chars = home-chars; port_fits = omega arith }

pinned-IsOrigin : IsOrigin pinned
pinned-IsOrigin = record { host_chars = home-chars; port_fits = omega arith }

storage_key_display-injective_example : home ≡ home
storage_key_display-injective_example =
    storage_key_display-injective home home (omega arith) (omega arith) refl

matches_storage_key_iff_example :
    (matches_storage_key home (codes "home") ≡ true) ↔ (storage_key_display home ≡ codes "home")
matches_storage_key_iff_example =
    matches_storage_key_iff home (codes "home") home-IsOrigin home-chars

cmp_storage_key-total_example :
    ((cmp_storage_key home pinned ≡ equal) ↔ (home ≡ pinned))
    × (cmp_storage_key pinned home ≡ reverse (cmp_storage_key home pinned))
    × ((cmp_storage_key home pinned ≡ less)
        → (cmp_storage_key pinned home ≡ less)
        → cmp_storage_key home home ≡ less)
cmp_storage_key-total_example = cmp_storage_key-total home pinned home home-IsOrigin pinned-IsOrigin

-- one IP address, `::1`
abbrev loopback : Text
loopback = codes "::1"

abbrev parse_loopback : Text → Option (Unit {0})
parse_loopback t = if text_eq t loopback then some tt else none

abbrev library : HostLibrary
library = record {
  IpAddr = Unit;
  parse_ip = parse_loopback;
  show_ip = λ a. loopback;
  is_loopback = λ a. true;
  domain_to_ascii_cow = λ t. some (true, t);
  domain_to_ascii = λ t. some t;
}

abbrev is_ipv6 : Text → Bool
is_ipv6 t = text_eq t loopback

library-IpLaws : IpLaws library is_ipv6
unfolding text_eq
library-IpLaws = record {
  shown = λ a. refl;
  shown_ascii = λ a. refl;
  shown_short = λ a. omega arith;
  shown_plain = λ a. refl;
  exact = λ t a e k. elim (Bool-cases (is_ipv6 t)) [
    | inl q ↦ sym ((text_eq_iff t loopback).0 q)
    | inr q ↦ (let k = rw q at e in absurd cc)
  ];
  has_ipv6 = λ t e. (tt, rw e refl);
}

abbrev local : AtpUri
local = record { host = codes "::1"; port = 1985; path = codes "/"; query = none }

abbrev local_origin : Origin
local_origin = record { host = codes "::1"; port = 1985; security = plaintext_loopback }

abbrev granted : ℕ → Bool
granted n = true

local-IsUri : IsUri is_ipv6 local
unfolding text_eq
local-IsUri = record {
  host_nonempty = refl;
  host_chars = (colon, (colon, (one, tt)));
  host_shape = inr (refl, refl, refl);
  port_fits = omega arith;
  path_normal = record { stack = []; trailing = false; segments = tt; shape = refl };
  path_chars = (slash, tt);
  query_fits = tt;
}
  where
    colon : HostChar b':'
    colon = record { visible = omega arith; lower = inl (omega arith); no_delimiter = omega arith }

    one : HostChar b'1'
    one = record { visible = omega arith; lower = inl (omega arith); no_delimiter = omega arith }

from_uri_iff_example :
    (from_uri library granted local plaintext_loopback ≡ ok local_origin)
    ↔ OriginOf library local plaintext_loopback local_origin
from_uri_iff_example =
    from_uri_iff library granted (λ n. refl) is_ipv6 local plaintext_loopback local_origin
      local-IsUri (omega arith)

abbrev dotted : Text
dotted = codes "a.b.."

dotted-HostChar : All HostChar dotted
dotted-HostChar = (letter, (dot, (letter_b, (dot, (dot, tt)))))
  where
    letter : HostChar b'a'
    letter = record { visible = omega arith; lower = inr (omega arith); no_delimiter = omega arith }

    letter_b : HostChar b'b'
    letter_b = record {
      visible = omega arith;
      lower = inr (omega arith);
      no_delimiter = omega arith;
    }

    dot : HostChar b'.'
    dot = record { visible = omega arith; lower = inl (omega arith); no_delimiter = omega arith }

dotted-canonical : try_canonical_host library granted dotted ≡ ok (codes "a.b")
unfolding try_canonical_host unbracketed trim_end_dots strip_prefix text_eq
dotted-canonical = refl

try_canonical_host_idem_example :
    try_canonical_host library granted (codes "a.b") ≡ ok (codes "a.b")
try_canonical_host_idem_example =
    try_canonical_host_idem library is_ipv6 library-IpLaws granted (λ n. refl) dotted
      dotted-HostChar (inl (refl, refl)) dotted-canonical
