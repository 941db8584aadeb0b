-- ===== src/Protocol/Uri/Chars.antt =====
-- crates/dustnet-core/src/protocol/uri.rs: the characters of the parts of an address.
use mathlib.Core.Option.{some_inj}
use dustnet.Base.{
  ℕ, ◌<◌, Bool, true, false, ◌&&◌, ◌||◌, Option, none, some, List, [], ◌∷◌, ◌++◌, ◌==◌, any, all,
  ◌≡◌, ◌≢◌, ◌⊎◌, refl, sym, ap, ◌∙◌, arith, All, ==_iff, Option-cases, Bool-cases, inl, inr,
}
use dustnet.Base.Text.{Text, contains, split_once, onto_left}
use dustnet.Protocol.Path.{before_last}

-- No control character, and no mark of a fragment.
pub record UriChar (c : ℕ) : Type 0 where
  pub printed : (0x1F < c) × ((c < 0x7F) ⊎ (0x9F < c))
  pub no_fragment : c ≢ b'#'

pub record PathChar (c : ℕ) : Type 0 where
  pub in_uri : UriChar c
  pub no_query : c ≢ b'?'

-- A visible ASCII character, not in upper case and not a delimiter of an address.
pub record HostChar (c : ℕ) : Type 0 where
  pub visible : (0x20 < c) × (c < 0x7F)
  pub lower : (c < b'A') ⊎ (b'Z' < c)
  pub no_delimiter : (c ≢ b'@') × (c ≢ b'#') × (c ≢ b'?') × (c ≢ b'/')

pub All-map {ℓ κ μ} :
    {A : Type ℓ} (P : A → Type κ) (Q : A → Type μ) (s : List A)
    → ((c : A) → P c → Q c)
    → All P s
    → All Q s
All-map P Q [] f h = tt
All-map P Q (c ∷ s) f h = (f c h.0, All-map P Q s f h.1)

pub All-and {ℓ κ μ} :
    {A : Type ℓ} (P : A → Type κ) (Q : A → Type μ) (s : List A)
    → All P s
    → All Q s
    → All (λ c. P c × Q c) s
All-and P Q [] h k = tt
All-and P Q (c ∷ s) h k = ((h.0, k.0), All-and P Q s h.1 k.1)

pub All-split {ℓ κ} :
    {A : Type ℓ} (P : A → Type κ) (a b : List A) → All P (a ++ b) → All P a × All P b
All-split P [] b h = (tt, h)
All-split P (c ∷ a) b h = let (x, y) = All-split P a b h.1 in ((h.0, x), y)

pub any-false : (p : ℕ → Bool) (s : Text) → any p s ≡ false → All (λ c. p c ≡ false) s
any-false p [] h = tt
any-false p (c ∷ s) h = let (a, b) = parts (p c) (any p s) h in (a, any-false p s b)
  where
    parts : (x y : Bool) → (x || y) ≡ false → (x ≡ false) × (y ≡ false)
    parts x y h = ground arith

pub false-any : (p : ℕ → Bool) (s : Text) → All (λ c. p c ≡ false) s → any p s ≡ false
false-any p [] h = refl
false-any p (c ∷ s) h = rw h.0 (false-any p s h.1)

pub all-true : (p : ℕ → Bool) (s : Text) → all p s ≡ true → All (λ c. p c ≡ true) s
all-true p [] h = tt
all-true p (c ∷ s) h = let (a, b) = parts (p c) (all p s) h in (a, all-true p s b)
  where
    parts : (x y : Bool) → (x && y) ≡ true → (x ≡ true) × (y ≡ true)
    parts x y h = ground arith

pub true-all : (p : ℕ → Bool) (s : Text) → All (λ c. p c ≡ true) s → all p s ≡ true
true-all p [] h = refl
true-all p (c ∷ s) h = rw h.0 (true-all p s h.1)

pub contains-false : (k : ℕ) (s : Text) → contains k s ≡ false → All (λ c. c ≢ k) s
contains-false k [] h = tt
contains-false k (c ∷ s) h = (ground arith, contains-false k s (ground arith))

pub lacks-contains : (k : ℕ) (s : Text) → All (λ c. c ≢ k) s → contains k s ≡ false
lacks-contains k [] h = refl
lacks-contains k (c ∷ s) (h, hs) = let ih = lacks-contains k s hs in ground arith

onto_left-eq_some :
    (c : ℕ) (o : Option (Text × Text)) {a b : Text}
    → onto_left c o ≡ some (a, b)
    → (a' : Text) × (o ≡ some (a', b)) × (a ≡ c ∷ a')
onto_left-eq_some c none h = cc
onto_left-eq_some c (some (x, y)) h = (x, cc, cc)

pub split_once-eq_some :
    (k : ℕ) (s : Text) {a b : Text}
    → split_once k s ≡ some (a, b)
    → (s ≡ a ++ k ∷ b) × (contains k a ≡ false)
unfolding split_once
split_once-eq_some k [] h = cc
split_once-eq_some k (c ∷ s) {a} {b} h = elim (Bool-cases (c == k)) [
  | inl e ↦ first e (sym (rw e refl) ∙ h)
  | inr e ↦
      let (a', o, q) = onto_left-eq_some c (split_once k s) {a = a} {b = b} (sym (rw e refl) ∙ h) in
      let (x, y) = split_once-eq_some k s {a = a'} {b = b} o in
      (rw q (ap (λ t. c ∷ t) x), rw q (rw e y))
]
  where
    first :
        (c == k) ≡ true
        → Path (Option (Text × Text)) (some ([], s)) (some (a, b))
        → (c ∷ s ≡ a ++ k ∷ b) × (contains k a ≡ false)
    first e q =
        let qa : [] ≡ a = cc in
        let qb : s ≡ b = cc in (rw (← qa, ← qb, (==_iff c k).0 e) refl, rw (← qa) refl)

pub split_once-eq_none : (k : ℕ) (s : Text) → split_once k s ≡ none → contains k s ≡ false
unfolding split_once
split_once-eq_none k [] h = refl
split_once-eq_none k (c ∷ s) h = ground (arith, split_once-eq_none k s)

pub split_once-found :
    (k : ℕ) (a b : Text) → contains k a ≡ false → split_once k (a ++ k ∷ b) ≡ some (a, b)
unfolding split_once
split_once-found k [] b h = ground arith
split_once-found k (c ∷ a) b h = ground (arith, split_once-found k a b)

pub split_once-lacks : (k : ℕ) (s : Text) → contains k s ≡ false → split_once k s ≡ none
unfolding split_once
split_once-lacks k [] h = refl
split_once-lacks k (c ∷ s) h = ground (arith, split_once-lacks k s)

pub before_last-eq_none : (k : ℕ) (s : Text) → before_last k s ≡ none → contains k s ≡ false
unfolding before_last
before_last-eq_none k [] h = refl
before_last-eq_none k (c ∷ s) h = ground (arith, before_last-eq_none k s)

pub before_last-prefix :
    (k : ℕ) (s : Text) {p : Text} → before_last k s ≡ some p → (r : Text) × (s ≡ p ++ k ∷ r)
unfolding before_last
before_last-prefix k [] h = cc
before_last-prefix k (c ∷ s) {p} h = elim (Option-cases (before_last k s)) [
  | inr (p', e) ↦
      let same : some (c ∷ p') ≡ some p = sym (rw e refl) ∙ h in
      let (r, q) = before_last-prefix k s {p = p'} e in
      (r, rw (← some_inj.0 same) (ap (λ t. c ∷ t) q))
  | inl e ↦ elim (Bool-cases (c == k)) [
    | inl f ↦
        let same : some [] ≡ some p = sym (rw (e, f) refl) ∙ h in
        (s, rw (← some_inj.0 same) (rw ((==_iff c k).0 f) refl))
    | inr f ↦
        let none_some : none ≡ some p = sym (rw (e, f) refl) ∙ h in absurd (none≢some none_some)
  ]
]
  where
    none≢some : none ≡ some p → ⊥
    none≢some q = cc
