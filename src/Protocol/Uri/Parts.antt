-- ===== src/Protocol/Uri/Parts.antt =====
-- crates/dustnet-core/src/protocol/uri.rs: the path and the query of an address, by their characters.
use dustnet.Base.{
  ℕ, Bool, false, ◌||◌, Option, none, some, [], ◌∷◌, ◌++◌, ◌==◌, ltb, any, ◌≡◌, ◌≢◌, inl, inr, refl,
  subst, ap, arith, All, Bool-cases, Option-cases, ◌+◌,
}
use dustnet.Base.Text.{Text, len, is_control, contains, split_once}
use dustnet.Protocol.Error.{ok}
use dustnet.Protocol.Holds.{Holds, Holds-reject, Holds-reserve}
use dustnet.Protocol.Path.{try_normalize_path, max_uri_len, usize_max, at_least_one}
use dustnet.Protocol.Path.Normal.{IsNormal, normalized_path-IsNormal, normalized_path-All}
use dustnet.Protocol.Uri.{UriHeap, authority, nonempty, path_parts, has_forbidden}
use dustnet.Protocol.Uri.Chars.{
  UriChar, PathChar, All-map, All-and, All-split, any-false, contains-false, split_once-eq_some,
  split_once-eq_none,
}
use dustnet.Scanner.Tags.{is_empty}

abbrev pub QueryFits : Option Text → Type 0
QueryFits none = Unit
QueryFits (some q) = (is_empty q ≡ false) × All UriChar q

pub or_parts : (a b : Bool) → (a || b) ≡ false → (a ≡ false) × (b ≡ false)
or_parts a b h = ground arith

pub has_forbidden-UriChar : (s : Text) → has_forbidden s ≡ false → All UriChar s
has_forbidden-UriChar s h =
    let (a, b) = or_parts (any is_control s) (contains b'#' s) h in
    All-map (λ c. (is_control c ≡ false) × (c ≢ b'#')) UriChar s (λ c q. char c q.0 q.1)
      (All-and (λ c. is_control c ≡ false) (λ c. c ≢ b'#') s (any-false is_control s a)
        (contains-false b'#' s b))
  where
    char : (c : ℕ) → is_control c ≡ false → c ≢ b'#' → UriChar c
    char c h k = record { printed = ground arith; no_fragment = k }

-- the rest is empty or begins with a delimiter
pub authority-parts :
    (s : Text)
    → (s ≡ (authority s).0 ++ (authority s).1) × All (λ c. (c ≢ b'/') × (c ≢ b'?')) (authority s).0
unfolding authority
authority-parts [] = (refl, tt)
authority-parts (c ∷ s) = elim (Bool-cases (c == b'/' || c == b'?')) [
  | inl e ↦ rw e (refl, tt)
  | inr e ↦
      let (a, b) = authority-parts s in rw e (ap (λ t. c ∷ t) a, ((ground arith, ground arith), b))
]

-- a path and a query of such characters
abbrev pub PartsFit : Text × Option Text → Type 0
PartsFit p = All PathChar p.0 × QueryFits p.1

nonempty-QueryFits : (q : Text) → All UriChar q → QueryFits (nonempty q)
nonempty-QueryFits [] h = tt
nonempty-QueryFits (c ∷ q) h = (refl, h)

pub path_chars : (s : Text) → All UriChar s → contains b'?' s ≡ false → All PathChar s
path_chars s h k =
    All-map (λ c. UriChar c × (c ≢ b'?')) PathChar s
      (λ c q. record { in_uri = q.0; no_query = q.1 })
      (All-and UriChar (λ c. c ≢ b'?') s h (contains-false b'?' s k))

pub path_parts-PartsFit :
    (heap : UriHeap) (whole p q : Text)
    → All PathChar p
    → All UriChar q
    → Holds PartsFit (path_parts heap whole (some (p, q)))
path_parts-PartsFit heap whole p q h k =
    Holds-reserve PartsFit (heap.query (len q)) (len q) (λ _. ok (p, nonempty q))
      (h, nonempty-QueryFits q k)

pub split_parts-PartsFit :
    (heap : UriHeap) (whole : Text)
    → All UriChar whole
    → Holds PartsFit (path_parts heap whole (split_once b'?' whole))
split_parts-PartsFit heap whole h = elim (Option-cases (split_once b'?' whole)) [
  | inl e ↦ rw e (path_chars whole h (split_once-eq_none b'?' whole e), tt)
  | inr ((p, q), e) ↦
      let (same, k) = split_once-eq_some b'?' whole {a = p} {b = q} e in
      let (hp, hq) = All-split UriChar p (b'?' ∷ q) (subst (All UriChar) same h) in
      rw e (path_parts-PartsFit heap whole p q (path_chars p hp k) hq.1)
]

pub slash : PathChar b'/'
slash = record {
  in_uri = record { printed = omega arith; no_fragment = omega arith };
  no_query = omega arith;
}

-- a path of the parts' characters
pub try_normalize_path-IsNormal :
    (grants : ℕ → Bool) (first second : Text)
    → All PathChar first
    → All PathChar second
    → Holds (λ p. IsNormal p × All PathChar p) (try_normalize_path grants first second)
unfolding try_normalize_path
try_normalize_path-IsNormal grants first second h k =
    let P = λ (p : Text). IsNormal p × All PathChar p in
    Holds-reject P (ltb usize_max (len first + len second)) _ _ λ _.
      Holds-reject P (ltb max_uri_len (at_least_one (len first + len second))) _ _ λ _.
        Holds-reserve P (grants (at_least_one (len first + len second)))
          (at_least_one (len first + len second)) _
          (
            normalized_path-IsNormal first second,
            normalized_path-All PathChar slash first second h k,
          )
