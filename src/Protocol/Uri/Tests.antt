-- ===== src/Protocol/Uri/Tests.antt =====
-- crates/dustnet-core/src/protocol/uri.rs: the laws of addresses at concrete ones.
use dustnet.Base.{◌≤◌, ◌++◌, Bool, true, none, some, [], ◌≡◌, refl, ◌∙◌, arith, inl}
use dustnet.Base.Decimal.{decimal, digits_onto, parse_digits, parse_unsigned}
use dustnet.Base.Text.{Text, codes, len, contains, split, split_once, strip_prefix, text_eq}
use dustnet.Protocol.Error.{ok}
use dustnet.Protocol.Path.{
  pop, before_last, leave_segment, enter_segment, normalize_step, normalize_from, normalized_path,
  try_normalize_path, max_uri_len,
}
use dustnet.Protocol.Path.Normal.{closed, normalized_path-visit}
use dustnet.Protocol.Path.Stack.{visit_all}
use dustnet.Protocol.Uri.{
  UriHeap, AtpUri, authority, host_and_port, parse_port, parse_authority, parse, foreign_scheme,
  resolve_path, resolve_reference, resolve, display,
}
use dustnet.Protocol.Uri.Hosts.{Ipv6Laws, contains-lowercase}
use dustnet.Protocol.Uri.Parsed.{IsUri, parse-IsUri}
use dustnet.Protocol.Uri.Resolved.{Resolved, resolve-Resolved}
use dustnet.Protocol.Uri.RoundTrip.{Generous, parse-display}

-- addresses with a colon
abbrev with_colon : Text → Bool
with_colon t = contains b':' t

with_colon-Ipv6Laws : Ipv6Laws with_colon
with_colon-Ipv6Laws = record {
  has_colon = λ t e. e;
  lowered = λ t e. contains-lowercase b':' t (inl (omega arith)) ∙ e;
}

abbrev heap : UriHeap
heap = record { host = λ n. true; path = λ n. true; query = λ n. true; diagnostics = λ n. true }

heap-Generous : Generous heap
heap-Generous = record { host = λ n. refl; path = λ n. refl; query = λ n. refl }

abbrev page : AtpUri
page = record { host = codes "home"; port = 80; path = codes "/a/b"; query = some (codes "q=1") }

abbrev next_page : AtpUri
next_page = record { host = codes "home"; port = 80; path = codes "/a/c"; query = none }

page_parsed : parse with_colon heap (codes "atp://HOME:80/x/../a/./b?q=1") ≡ ok page
unfolding parse parse_authority host_and_port authority split_once strip_prefix before_last
    parse_port parse_unsigned parse_digits try_normalize_path normalized_path normalize_from
    normalize_step leave_segment enter_segment pop split text_eq
page_parsed = refl

page-IsUri : IsUri with_colon page
page-IsUri = parse-IsUri with_colon with_colon-Ipv6Laws heap _ page_parsed

parse-IsUri_example : IsUri with_colon page
parse-IsUri_example =
    parse-IsUri with_colon with_colon-Ipv6Laws heap (codes "atp://HOME:80/x/../a/./b?q=1")
      page_parsed

next_page_resolved : resolve with_colon heap page (codes "../a/c") ≡ ok next_page
unfolding resolve resolve_reference resolve_path foreign_scheme split_once strip_prefix before_last
    try_normalize_path normalized_path normalize_from normalize_step leave_segment enter_segment pop
    split text_eq
next_page_resolved = refl

resolve-Resolved_example : Resolved with_colon with_colon-Ipv6Laws page (codes "../a/c") next_page
resolve-Resolved_example =
    resolve-Resolved with_colon with_colon-Ipv6Laws heap page (codes "../a/c") page-IsUri
      next_page_resolved

page-short : len (display page) ≤ max_uri_len
unfolding display decimal digits_onto
page-short = omega arith

parse-display_example : parse with_colon heap (display page) ≡ ok page
parse-display_example = parse-display with_colon heap heap-Generous page page-IsUri page-short

normalized_path-visit_example :
    normalized_path (codes "/a/../b/./") []
    ≡ closed true (visit_all [] (split b'/' (codes "/a/../b/./") ++ split b'/' []))
normalized_path-visit_example = normalized_path-visit (codes "/a/../b/./") []
