-- ===== src/Protocol/Path/Normal.antt =====
-- crates/dustnet-core/src/protocol/uri.rs, `try_normalize_path`: the paths that it returns, and that
-- it returns such a path as it is.
use mathlib.Core.Bool.{true≢false}
use dustnet.Base.{
  ℕ, Bool, true, false, ◌||◌, List, [], ◌∷◌, ◌++◌, ◌==◌, ◌≡◌, refl, sym, subst, ap, ◌∙◌, arith, All,
  All-append, Bool-cases, inl, inr, ltb,
}
use dustnet.Base.Text.{
  Text, codes, len, text_eq, text_eq_iff, len-append, contains, split, onto_first,
}
use dustnet.Protocol.Path.{normalized_path, with_trailing, is_trailing, final_part}
use dustnet.Protocol.Path.Stack.{
  IsSegment, NoSlash, body, rendered, visit, visit_all, visit_all-IsSegment,
  normalize_from-rendered, no_trailing, leave, long-body, ends_with-append,
}
use dustnet.Scanner.Tags.{is_empty}

-- a stack of segments with a slash behind it, unless it is empty
abbrev pub closed : Bool → List Text → Text
closed false st = rendered st
closed true [] = rendered []
closed true (s ∷ st) = body (s ∷ st) ++ b'/' ∷ []

-- The normal paths: segments with a slash in front of each, and one at the end or not.
pub record IsNormal (p : Text) : Type 0 where
  pub stack : List Text
  pub trailing : Bool
  pub segments : All IsSegment stack
  pub shape : p ≡ closed trailing stack

onto_first-append :
    (c : ℕ) (d : Text) (a b : List Text) → onto_first c ((d ∷ a) ++ b) ≡ onto_first c (d ∷ a) ++ b
onto_first-append c d a b = refl

split-cons : (k : ℕ) (s : Text) → (t : Text) × (ts : List Text) × (split k s ≡ t ∷ ts)
unfolding split
split-cons k [] = ([], [], refl)
split-cons k (c ∷ s) = elim (Bool-cases (c == k)) [
  | inl e ↦ ([], split k s, rw e refl)
  | inr e ↦ let (t, ts, q) = split-cons k s in (c ∷ t, ts, rw (e, q) refl)
]

pub split-append : (k : ℕ) (a b : Text) → split k (a ++ k ∷ b) ≡ split k a ++ split k b
unfolding split
split-append k [] b = ground arith
split-append k (c ∷ a) b = elim (Bool-cases (c == k)) [
  | inl e ↦ rw e (ap (λ r. [] ∷ r) (split-append k a b))
  | inr e ↦ let (t, ts, q) = split-cons k a in rw (e, split-append k a b, q) refl
]

pub split-lacks : (k : ℕ) (s : Text) → All (λ t. contains k t ≡ false) (split k s)
unfolding split
split-lacks k [] = (refl, tt)
split-lacks k (c ∷ s) = elim (Bool-cases (c == k)) [
  | inl e ↦ rw e (refl, split-lacks k s)
  | inr e ↦
      let (t, ts, q) = split-cons k s in
      let h = rw q at (split-lacks k s) in rw (e, q) (rw e h.0, h.1)
]

split-plain : (k : ℕ) (s : Text) → contains k s ≡ false → split k s ≡ s ∷ []
unfolding split
split-plain k [] h = refl
split-plain k (c ∷ s) h = ground (arith, split-plain k s)

pub split-All {κ} : (P : ℕ → Type κ) (k : ℕ) (s : Text) → All P s → All (All P) (split k s)
unfolding split
split-All P k [] h = (tt, tt)
split-All P k (c ∷ s) h = elim (Bool-cases (c == k)) [
  | inl e ↦ rw e (tt, split-All P k s h.1)
  | inr e ↦
      let (t, ts, q) = split-cons k s in
      let r = rw q at (split-All P k s h.1) in rw (e, q) ((h.0, r.0), r.1)
]

visit_all-append :
    (st as_ bs : List Text) → visit_all st (as_ ++ bs) ≡ visit_all (visit_all st as_) bs
visit_all-append st [] bs = refl
visit_all-append st (a ∷ as_) bs = visit_all-append (visit st a) as_ bs

visit-segment : (st : List Text) (s : Text) → IsSegment s → visit st s ≡ s ∷ st
visit-segment st s p = rw (p.nonempty, p.no_dot, p.no_dots) refl

visit_all-body : (st : List Text) → All IsSegment st → visit_all [] (split b'/' (body st)) ≡ st
visit_all-body [] h = unfold split in refl
visit_all-body (s ∷ st) h =
    rw
      (
        split-append b'/' (body st) s,
        visit_all-append [] (split b'/' (body st)) (split b'/' s),
        visit_all-body st h.1,
        split-plain b'/' s h.0.no_slash,
      )
      (visit-segment st s h.0)

visit_all-closed :
    (trailing : Bool) (st : List Text)
    → All IsSegment st
    → visit_all [] (split b'/' (closed trailing st)) ≡ st
visit_all-closed false [] h = unfold split in refl
visit_all-closed false (s ∷ st) h = visit_all-body (s ∷ st) h
visit_all-closed true [] h = unfold split in refl
visit_all-closed true (s ∷ st) h =
    rw
      (
        split-append b'/' (body (s ∷ st)) [],
        visit_all-append [] (split b'/' (body (s ∷ st))) (split b'/' []),
        visit_all-body (s ∷ st) h,
      )
      (unfold split in refl)

-- What the loop and the trailing slash come to.
with_trailing-closed :
    (trailing : Bool) (st : List Text)
    → All IsSegment st
    → with_trailing trailing (rendered st) ≡ closed trailing st
with_trailing-closed false st h = refl
with_trailing-closed true [] h = unfold text_eq in refl
with_trailing-closed true (s ∷ st) h = rw (no_trailing s st h.0, not_root s st h.0) refl
  where
    not_root :
        (s : Text) (st : List Text) → IsSegment s → text_eq (body (s ∷ st)) (codes "/") ≡ false
    not_root s st p = elim (Bool-cases (text_eq (body (s ∷ st)) (codes "/"))) [
      | inl e ↦ absurd (
          true≢false (
            sym (long-body s st p)
            ∙ ap (λ t. ltb 1 (len t)) ((text_eq_iff (body (s ∷ st)) (codes "/")).0 e)))
      | inr e ↦ e
    ]

pub normalized_path-closed :
    (first second : Text)
    → (st : List Text) × All IsSegment st
      × (st ≡ visit_all [] (split b'/' first ++ split b'/' second))
      × (normalized_path first second ≡ closed (is_trailing (final_part first second)) st)
unfolding normalized_path
normalized_path-closed first second =
    let parts = split b'/' first ++ split b'/' second in
    let plain =
      All-append NoSlash (split b'/' first) (split b'/' second) (split-lacks b'/' first)
        (split-lacks b'/' second) in
    let good = visit_all-IsSegment parts [] tt plain in
    (
      visit_all [] parts,
      good,
      refl,
      ap (with_trailing (is_trailing (final_part first second)))
            (normalize_from-rendered parts [] tt plain)
          ∙ with_trailing-closed (is_trailing (final_part first second)) (visit_all [] parts) good,
    )

-- Normalization goes over the segments of both texts with a stack: an empty segment and `.` do nothing,
-- `..` drops the last kept segment if there is one, and any other is kept. The result is the kept
-- segments with a slash in front of each, or a slash alone if there are none. It has one more slash at
-- the end where a segment is kept and the last text that is not empty is longer than a slash and ends
-- with one.
pub normalized_path-visit :
    (first second : Text)
    → normalized_path first second
      ≡ closed
          (is_trailing (final_part first second))
          (visit_all [] (split b'/' first ++ split b'/' second))
normalized_path-visit first second =
    let (st, good, same, e) = normalized_path-closed first second in
    e ∙ ap (closed (is_trailing (final_part first second))) same

pub normalized_path-IsNormal : (first second : Text) → IsNormal (normalized_path first second)
normalized_path-IsNormal first second =
    let (st, good, _, e) = normalized_path-closed first second in
    record {
      stack = st;
      trailing = is_trailing (final_part first second);
      segments = good;
      shape = e;
    }

is_trailing-closed :
    (trailing : Bool) (st : List Text)
    → All IsSegment st
    → closed (is_trailing (closed trailing st)) st ≡ closed trailing st
is_trailing-closed false [] h = refl
is_trailing-closed true [] h = refl
is_trailing-closed false (s ∷ st) h = rw (long-body s st h.0, no_trailing s st h.0) refl
is_trailing-closed true (s ∷ st) h =
    rw
      (
        longer_body (body (s ∷ st)) (long-body s st h.0),
        ends_with-append b'/' (body (s ∷ st)) b'/' [],
      )
      refl
  where
    longer_body : (t : Text) → ltb 1 (len t) ≡ true → ltb 1 (len (t ++ b'/' ∷ [])) ≡ true
    longer_body t k = ground (arith, len-append t (b'/' ∷ []))

-- A normal path is normalized to itself.
pub normalized_path-fixed : (p : Text) → IsNormal p → normalized_path p [] ≡ p
normalized_path-fixed p n =
    let (st, good, same, e) = normalized_path-closed p [] in
    let back : st ≡ n.stack =
      same
      ∙ visit_all-append [] (split b'/' p) (split b'/' [])
      ∙ ap (λ t. visit_all (visit_all [] (split b'/' t)) (split b'/' [])) n.shape
      ∙ rw (visit_all-closed n.trailing n.stack n.segments) (unfold split in refl) in
    e
    ∙ ap (λ t. closed (is_trailing p) t) back
    ∙ ap (λ t. closed (is_trailing t) n.stack) n.shape
    ∙ is_trailing-closed n.trailing n.stack n.segments
    ∙ sym n.shape

module _ {κ} (P : ℕ → Type κ) (slash : P b'/') where
  visit-All : (st : List Text) (s : Text) → All (All P) st → All P s → All (All P) (visit st s)
  visit-All st s h k = elim (Bool-cases (is_empty s || text_eq s (codes "."))) [
    | inl e ↦ rw e h
    | inr e ↦ rw e (elim (Bool-cases (text_eq s (codes ".."))) [
      | inl d ↦ rw d (leave-All st h)
      | inr d ↦ rw d (k, h)
    ])
  ]
    where
      leave-All : (st : List Text) → All (All P) st → All (All P) (leave st)
      leave-All [] h = tt
      leave-All (s ∷ st) h = h.1

  visit_all-All :
      (ss st : List Text) → All (All P) st → All (All P) ss → All (All P) (visit_all st ss)
  visit_all-All [] st h k = h
  visit_all-All (s ∷ ss) st h k = visit_all-All ss (visit st s) (visit-All st s h k.0) k.1

  body-All : (st : List Text) → All (All P) st → All P (body st)
  body-All [] h = tt
  body-All (s ∷ st) h = All-append P (body st) (b'/' ∷ s) (body-All st h.1) (slash, h.0)

  closed-All : (trailing : Bool) (st : List Text) → All (All P) st → All P (closed trailing st)
  closed-All false [] h = (slash, tt)
  closed-All false (s ∷ st) h = body-All (s ∷ st) h
  closed-All true [] h = (slash, tt)
  closed-All true (s ∷ st) h =
      All-append P (body (s ∷ st)) (b'/' ∷ []) (body-All (s ∷ st) h) (slash, tt)

  -- A normalized path has the characters of its parts, and slashes.
  pub normalized_path-All :
      (first second : Text) → All P first → All P second → All P (normalized_path first second)
  normalized_path-All first second h k =
      let (st, _, same, e) = normalized_path-closed first second in
      let parts =
        All-append (All P) (split b'/' first) (split b'/' second) (split-All P b'/' first h)
          (split-All P b'/' second k) in
      subst (All P) (sym e) (
        closed-All (is_trailing (final_part first second)) st (
          subst (All (All P)) (sym same)
            (visit_all-All (split b'/' first ++ split b'/' second) [] tt parts)))

-- Normalizing a path again changes nothing.
pub normalized_path_idem :
    (first second : Text)
    → normalized_path (normalized_path first second) [] ≡ normalized_path first second
normalized_path_idem first second =
    normalized_path-fixed (normalized_path first second) (normalized_path-IsNormal first second)

pub IsNormal-starts : (p : Text) → IsNormal p → (t : Text) × (p ≡ b'/' ∷ t)
IsNormal-starts p n = let (t, e) = closed-starts n.trailing n.stack in (t, n.shape ∙ e)
  where
    body-starts : (s : Text) (st : List Text) → (t : Text) × (body (s ∷ st) ≡ b'/' ∷ t)
    body-starts s [] = (s, refl)
    body-starts s (r ∷ st) =
        let (t, e) = body-starts r st in (t ++ b'/' ∷ s, ap (λ u. u ++ b'/' ∷ s) e)

    closed-starts : (b : Bool) (st : List Text) → (t : Text) × (closed b st ≡ b'/' ∷ t)
    closed-starts false [] = ([], refl)
    closed-starts true [] = ([], refl)
    closed-starts false (s ∷ st) = body-starts s st
    closed-starts true (s ∷ st) =
        let (t, e) = body-starts s st in (t ++ b'/' ∷ [], ap (λ u. u ++ b'/' ∷ []) e)
