-- ===== src/Protocol/Path/Stack.antt =====
-- crates/dustnet-core/src/protocol/uri.rs, `try_normalize_path` as a stack of segments: the text that
-- the loop builds is the rendering of the stack.
use mathlib.Core.Bool.{true≢false}
use dustnet.Base.{
  ℕ, Bool, true, false, ◌||◌, none, some, List, [], ◌∷◌, ◌++◌, ==_iff, ltb, if◌then◌else◌, ◌≡◌,
  refl, ap, ◌∙◌, arith, All, Bool-cases, inl, inr, append_assoc,
}
use dustnet.Base.Text.{Text, codes, len, len-append, len_utf8-pos, text_eq, contains, ends_with}
use dustnet.Protocol.Path.{
  pop, before_last, truncated, leave_segment, enter_segment, normalize_step, normalize_from,
}
use dustnet.Scanner.Tags.{is_empty}

-- a segment that stays: not empty, without a slash, and not a dot segment
pub record IsSegment (s : Text) : Type 0 where
  pub nonempty : is_empty s ≡ false
  pub no_slash : contains b'/' s ≡ false
  pub no_dot : text_eq s (codes ".") ≡ false
  pub no_dots : text_eq s (codes "..") ≡ false

-- A stack of segments has the last one first.
abbrev pub body : List Text → Text
body [] = []
body (s ∷ st) = body st ++ b'/' ∷ s

abbrev pub rendered : List Text → Text
rendered [] = b'/' ∷ []
rendered (s ∷ st) = body (s ∷ st)

abbrev pub leave : List Text → List Text
leave [] = []
leave (s ∷ st) = st

-- what a segment does to the stack
abbrev pub visit : List Text → Text → List Text
visit st s =
    if is_empty s || text_eq s (codes ".")
    then st
    else if text_eq s (codes "..")
    then leave st
    else s ∷ st

abbrev pub visit_all : List Text → List Text → List Text
visit_all st [] = st
visit_all st (s ∷ ss) = visit_all (visit st s) ss

pub ends_with-append :
    (k : ℕ) (a : Text) (c : ℕ) (x : Text) → ends_with k (a ++ c ∷ x) ≡ ends_with k (c ∷ x)
ends_with-append k [] c x = refl
ends_with-append k (d ∷ []) c x = refl
ends_with-append k (d ∷ e ∷ a) c x = ends_with-append k (e ∷ a) c x

ends_with-contains : (k : ℕ) (s : Text) → contains k s ≡ false → ends_with k s ≡ false
ends_with-contains k [] h = refl
ends_with-contains k (c ∷ []) h = ground arith
ends_with-contains k (c ∷ d ∷ s) h = ends_with-contains k (d ∷ s) (ground arith)

pop-append : (a : Text) (c : ℕ) (x : Text) → pop (a ++ c ∷ x) ≡ a ++ pop (c ∷ x)
unfolding pop
pop-append [] c x = refl
pop-append (d ∷ []) c x = refl
pop-append (d ∷ e ∷ a) c x = ap (λ t. d ∷ t) (pop-append (e ∷ a) c x)

contains-pop : (k : ℕ) (s : Text) → contains k s ≡ false → contains k (pop s) ≡ false
unfolding pop
contains-pop k [] h = refl
contains-pop k (c ∷ []) h = refl
contains-pop k (c ∷ d ∷ s) h = ground (arith, contains-pop k (d ∷ s))

pub before_last-none : (k : ℕ) (s : Text) → contains k s ≡ false → before_last k s ≡ none
unfolding before_last
before_last-none k [] h = refl
before_last-none k (c ∷ s) h = ground (arith, before_last-none k s)

pub before_last-append :
    (k : ℕ) (a x : Text) → contains k x ≡ false → before_last k (a ++ k ∷ x) ≡ some a
unfolding before_last
before_last-append k [] x h = rw (before_last-none k x h, (==_iff k k).1 refl) refl
before_last-append k (c ∷ a) x h = rw (before_last-append k a x h) refl

pub long-body : (s : Text) (st : List Text) → IsSegment s → ltb 1 (len (body (s ∷ st))) ≡ true
long-body [] st p = absurd (true≢false p.nonempty)
long-body (c ∷ s) st p = ground (arith, len-append (body st) (b'/' ∷ c ∷ s), len_utf8-pos c)

pub no_trailing : (s : Text) (st : List Text) → IsSegment s → ends_with b'/' (body (s ∷ st)) ≡ false
no_trailing [] st p = absurd (true≢false p.nonempty)
no_trailing (c ∷ s) st p =
    ends_with-append b'/' (body st) b'/' (c ∷ s) ∙ ends_with-contains b'/' (c ∷ s) p.no_slash

enter_segment-rendered :
    (s : Text) (st : List Text)
    → All IsSegment st
    → enter_segment (rendered st) s ≡ rendered (s ∷ st)
unfolding enter_segment
enter_segment-rendered s [] h = refl
enter_segment-rendered s (t ∷ st) h =
    rw (long-body t st h.0, no_trailing t st h.0) (append_assoc (body (t ∷ st)) (b'/' ∷ []) s)

truncated-some : (s a : Text) (c : ℕ) (x : Text) → truncated s (some (a ++ c ∷ x)) ≡ a ++ c ∷ x
truncated-some s [] c x = refl
truncated-some s (d ∷ a) c x = refl

truncated-body :
    (x : Text) (st : List Text) → truncated (body st ++ b'/' ∷ x) (some (body st)) ≡ rendered st
truncated-body x [] = refl
truncated-body x (s ∷ st) = truncated-some ((body st ++ b'/' ∷ s) ++ b'/' ∷ x) (body st) b'/' s

pop-body :
    (c : ℕ) (s : Text) (st : List Text) → pop (body ((c ∷ s) ∷ st)) ≡ body st ++ b'/' ∷ pop (c ∷ s)
pop-body c s st = pop-append (body st) b'/' (c ∷ s) ∙ ap (λ t. body st ++ t) (unfold pop in refl)

leave_segment-rendered :
    (s : Text) (st : List Text) → IsSegment s → leave_segment (rendered (s ∷ st)) ≡ rendered st
unfolding leave_segment
leave_segment-rendered [] st p = absurd (true≢false p.nonempty)
leave_segment-rendered (c ∷ s) st p =
    rw
      (
        pop-body c s st,
        before_last-append b'/' (body st) (pop (c ∷ s)) (contains-pop b'/' (c ∷ s) p.no_slash),
      )
      (truncated-body (pop (c ∷ s)) st)

leave-rendered :
    (st : List Text)
    → All IsSegment st
    → (if ltb 1 (len (rendered st)) then leave_segment (rendered st) else rendered st)
      ≡ rendered (leave st)
leave-rendered [] h = refl
leave-rendered (s ∷ st) h = rw (long-body s st h.0) (leave_segment-rendered s st h.0)

normalize_step-rendered :
    (st : List Text) (s : Text)
    → All IsSegment st
    → normalize_step (rendered st) s ≡ rendered (visit st s)
unfolding normalize_step
normalize_step-rendered st s h = elim (Bool-cases (is_empty s || text_eq s (codes "."))) [
  | inl e ↦ rw e refl
  | inr e ↦ rw e (elim (Bool-cases (text_eq s (codes ".."))) [
    | inl k ↦ rw k (leave-rendered st h)
    | inr k ↦ rw k (enter_segment-rendered s st h)
  ])
]

leave-All : (st : List Text) → All IsSegment st → All IsSegment (leave st)
leave-All [] h = tt
leave-All (s ∷ st) h = h.1

or_false : (a b : Bool) → (a || b) ≡ false → (a ≡ false) × (b ≡ false)
or_false a b h = ground arith

pub visit-IsSegment :
    (st : List Text) (s : Text)
    → All IsSegment st
    → contains b'/' s ≡ false
    → All IsSegment (visit st s)
visit-IsSegment st s h k = elim (Bool-cases (is_empty s || text_eq s (codes "."))) [
  | inl e ↦ rw e h
  | inr e ↦ rw e (elim (Bool-cases (text_eq s (codes ".."))) [
    | inl d ↦ rw d (leave-All st h)
    | inr d ↦
        let (n, m) = or_false (is_empty s) (text_eq s (codes ".")) e in
        rw d (record { nonempty = n; no_slash = k; no_dot = m; no_dots = d }, h)
  ])
]

-- Segments without a slash, as `split` gives them.
abbrev pub NoSlash : Text → Type 0
NoSlash s = contains b'/' s ≡ false

pub visit_all-IsSegment :
    (ss st : List Text) → All IsSegment st → All NoSlash ss → All IsSegment (visit_all st ss)
visit_all-IsSegment [] st h k = h
visit_all-IsSegment (s ∷ ss) st h k =
    visit_all-IsSegment ss (visit st s) (visit-IsSegment st s h k.0) k.1

pub normalize_from-rendered :
    (ss st : List Text)
    → All IsSegment st
    → All NoSlash ss
    → normalize_from (rendered st) ss ≡ rendered (visit_all st ss)
unfolding normalize_from
normalize_from-rendered [] st h k = refl
normalize_from-rendered (s ∷ ss) st h k =
    rw (normalize_step-rendered st s h)
      (normalize_from-rendered ss (visit st s) (visit-IsSegment st s h k.0) k.1)
