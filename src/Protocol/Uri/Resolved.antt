-- ===== src/Protocol/Uri/Resolved.antt =====
-- crates/dustnet-core/src/protocol/uri.rs: what every address is that `resolve` returns.
use dustnet.Base.{
  Bool, true, none, [], ◌∷◌, ltb, ◌≡◌, ◌⊎◌, inl, inr, refl, subst, All, All-append, Option-cases,
}
use dustnet.Base.Text.{Text, codes, len, split_once}
use dustnet.Protocol.Error.{ok}
use dustnet.Protocol.Holds.{
  Holds, Holds-weaken, Holds->>=, Holds-reject, Holds-reserve, Holds-if, Holds-ok,
}
use dustnet.Protocol.Path.{try_normalize_path, before_last, max_uri_len}
use dustnet.Protocol.Path.Normal.{IsNormal}
use dustnet.Protocol.Uri.{
  UriHeap, AtpUri, path_parts, has_forbidden, parse, base_dir, resolve_path, resolve_reference,
  resolve_foreign, resolve, starts_with, foreign_scheme,
}
use dustnet.Protocol.Uri.Chars.{UriChar, PathChar, All-split, before_last-prefix}
use dustnet.Scanner.Escape.{next_is}
use dustnet.Scanner.Tags.{is_empty}
use dustnet.Protocol.Uri.Parts.{
  has_forbidden-UriChar, PartsFit, split_parts-PartsFit, slash, try_normalize_path-IsNormal,
}
use dustnet.Protocol.Uri.Hosts.{Ipv6Laws}
use dustnet.Protocol.Uri.Parsed.{IsUri, parse-Holds}

module _ (is_ipv6 : Text → Bool) (laws : Ipv6Laws is_ipv6) where
  base_dir-PathChar : (p : Text) → All PathChar p → All PathChar (base_dir (before_last b'/' p))
  base_dir-PathChar p h = elim (Option-cases (before_last b'/' p)) [
    | inl e ↦ rw e (slash, tt)
    | inr (q, e) ↦
        let (r, same) = before_last-prefix b'/' p {p = q} e in
        rw e (
          All-append PathChar q (b'/' ∷ [])
            (All-split PathChar q (b'/' ∷ r) (subst (All PathChar) same h)).0 (slash, tt))
  ]

  resolve_path-IsNormal :
      (heap : UriHeap) (u : AtpUri) (p : Text)
      → IsUri is_ipv6 u
      → All PathChar p
      → Holds (λ q. IsNormal q × All PathChar q) (resolve_path heap u p)
  unfolding resolve_path
  resolve_path-IsNormal heap u p w h =
      let P = λ (q : Text). IsNormal q × All PathChar q in
      Holds-reserve P (heap.host (len u.host)) (len u.host) _ (
        Holds-if P (next_is b'/' p) (try_normalize_path heap.path p []) _
          (λ _. try_normalize_path-IsNormal heap.path p [] h tt)
          (λ _.
            Holds-if P (is_empty p) _
              (try_normalize_path heap.path (base_dir (before_last b'/' u.path)) p)
              (λ _.
                Holds-reserve P (heap.path (len u.path)) (len u.path) (λ _. ok u.path)
                  (w.path_normal, w.path_chars))
              (λ _.
                try_normalize_path-IsNormal heap.path (base_dir (before_last b'/' u.path)) p
                  (base_dir-PathChar u.path w.path_chars) h)))

  -- the result of a relative reference: well formed, and at the same host and port
  abbrev pub AtHost : AtpUri → AtpUri → Type 0
  AtHost u v = IsUri is_ipv6 v × (v.host ≡ u.host) × (v.port ≡ u.port)

  resolve_reference-AtHost :
      (heap : UriHeap) (u : AtpUri) (s : Text)
      → IsUri is_ipv6 u
      → All UriChar s
      → Holds (AtHost u) (resolve_reference heap u s)
  unfolding resolve_reference
  resolve_reference-AtHost heap u s w h =
      Holds->>= PartsFit (AtHost u) (path_parts heap s (split_once b'?' s)) _
        (split_parts-PartsFit heap s h)
        (λ parts fit.
          Holds->>= (λ q. IsNormal q × All PathChar q) (AtHost u) (resolve_path heap u parts.0) _
            (resolve_path-IsNormal heap u parts.0 w fit.0)
            (λ q (normal, pc). (
              record {
                host_nonempty = w.host_nonempty;
                host_chars = w.host_chars;
                host_shape = w.host_shape;
                port_fits = w.port_fits;
                path_normal = normal;
                path_chars = pc;
                query_fits = fit.1;
              },
              refl,
              refl,
            )))

  -- What `resolve` may return: an address of the reference's own, if it begins with `atp://`, or else
  -- one at the host and the port of the base, and then the reference names no other scheme.
  abbrev pub Resolved : AtpUri → Text → AtpUri → Type 0
  Resolved u s v =
      IsUri is_ipv6 v
      × ((starts_with (codes "atp://") s ≡ true)
          ⊎ ((v.host ≡ u.host) × (v.port ≡ u.port) × (foreign_scheme s ≡ none)))

  resolve_foreign-Resolved :
      (heap : UriHeap) (u : AtpUri) (s : Text)
      → IsUri is_ipv6 u
      → All UriChar s
      → Holds (Resolved u s) (resolve_foreign heap u s (foreign_scheme s))
  resolve_foreign-Resolved heap u s w h = elim (Option-cases (foreign_scheme s)) [
    | inl e ↦ rw e (
        Holds-weaken (AtHost u) (Resolved u s) (resolve_reference heap u s)
          (resolve_reference-AtHost heap u s w h)
          (λ v (good, host, port). (good, inr (host, port, e))))
    | inr (scheme, e) ↦ rw e tt
  ]

  resolve-Holds :
      (heap : UriHeap) (u : AtpUri) (s : Text)
      → IsUri is_ipv6 u
      → Holds (Resolved u s) (resolve is_ipv6 heap u s)
  unfolding resolve
  resolve-Holds heap u s w =
      let R = Resolved u s in
      Holds-reject R (ltb max_uri_len (len s)) _ _ λ _.
        Holds-reject R (has_forbidden s) _ _ λ clean.
          Holds-if R (starts_with (codes "atp://") s) (parse is_ipv6 heap s)
            (resolve_foreign heap u s (foreign_scheme s))
            (λ same.
              Holds-weaken (IsUri is_ipv6) R (parse is_ipv6 heap s)
                (parse-Holds is_ipv6 laws heap s) (λ v good. (good, inl same)))
            (λ _. resolve_foreign-Resolved heap u s w (has_forbidden-UriChar s clean))

  -- Whatever the allocator grants, from a well-formed base `resolve` returns well-formed addresses
  -- alone. One that the reference does not write out with `atp://` is at the host and the port of the
  -- base, and then the reference names no other protocol.
  pub resolve-Resolved :
      (heap : UriHeap) (u : AtpUri) (s : Text) {v : AtpUri}
      → IsUri is_ipv6 u
      → resolve is_ipv6 heap u s ≡ ok v
      → Resolved u s v
  resolve-Resolved heap u s w e =
      Holds-ok (Resolved u s) (resolve is_ipv6 heap u s) (resolve-Holds heap u s w) e
