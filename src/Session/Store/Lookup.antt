-- ===== src/Session/Store/Lookup.antt =====
-- crates/dustnet-core/src/session.rs, `find_token`: which token of a site a request carries.
use mathlib.Core.Bool.{true≢false}
use dustnet.Base.{
  ℕ, ◌≤◌, Bool, true, false, Option, none, some, List, [], ◌∷◌, ◌++◌, ◌≡◌, ◌⊎◌, inl, inr, refl, sym,
  ◌∙◌, arith, All, All-append, Bool-cases, leb, if◌then◌else◌, append_assoc, append-nil,
}
use dustnet.Base.Text.{Text, len}
use dustnet.Session.Store.{SessionToken, SiteSessionStore, applies, longer, find_from, find_in_site}

abbrev pub Among : SessionToken → List SessionToken → Type 0
Among b [] = ⊥
Among b (t ∷ ts) = (b ≡ t) ⊎ Among b ts

-- The choice among the tokens: none if none applies, or one that applies and that has the longest
-- scope of those that do.
abbrev pub IsChoice : ℕ → Text → List SessionToken → Option SessionToken → Type 0
IsChoice now path ts none = All (λ t. applies now path t ≡ false) ts
IsChoice now path ts (some b) =
    Among b ts
    × (applies now path b ≡ true)
    × All (λ t. applies now path t ≡ true → len t.scope ≤ len b.scope) ts

Among-append :
    (b : SessionToken) (ts us : List SessionToken) → Among b ts ⊎ Among b us → Among b (ts ++ us)
Among-append b [] us (inl h) = absurd h
Among-append b [] us (inr h) = h
Among-append b (t ∷ ts) us (inl (inl h)) = inl h
Among-append b (t ∷ ts) us (inl (inr h)) = inr (Among-append b ts us (inl h))
Among-append b (t ∷ ts) us (inr h) = inr (Among-append b ts us (inr h))

All-weaken :
    (P Q : SessionToken → Type 0) (ts : List SessionToken)
    → ((t : SessionToken) → P t → Q t)
    → All P ts
    → All Q ts
All-weaken P Q [] f h = tt
All-weaken P Q (t ∷ ts) f (h, hs) = (f t h, All-weaken P Q ts f hs)

at_least : (a b c : ℕ) → a ≤ b → leb b c ≡ true → a ≤ c
at_least a b c h k = ground arith

at_most : (b c : ℕ) → leb b c ≡ false → c ≤ b
at_most b c k = ground arith

vacuous : {P : Type 0} {b : Bool} → b ≡ false → b ≡ true → P
vacuous h k = absurd (true≢false (sym k ∙ h))

longer-IsChoice :
    (now : ℕ) (path : Text) (done : List SessionToken) (best : Option SessionToken)
    (t : SessionToken)
    → IsChoice now path done best
    → IsChoice now path (done ++ t ∷ []) (if applies now path t then longer best t else best)
longer-IsChoice now path done none t h = elim (Bool-cases (applies now path t)) [
  | inl e ↦ rw e (
    Among-append t done (t ∷ []) (inr (inl refl)),
    e,
    All-append (λ u. applies now path u ≡ true → len u.scope ≤ len t.scope) done (t ∷ [])
        (All-weaken (λ u. applies now path u ≡ false)
          (λ u. applies now path u ≡ true → len u.scope ≤ len t.scope) done (λ u k. vacuous k) h)
        (λ _. omega arith, tt),
  )
  | inr e ↦ rw e (All-append (λ u. applies now path u ≡ false) done (t ∷ []) h (e, tt))
]
longer-IsChoice now path done (some b) t (m, a, l) = elim (Bool-cases (applies now path t)) [
  | inl e ↦ rw e (elim (Bool-cases (leb (len b.scope) (len t.scope))) [
    | inl k ↦ rw k (
      Among-append t done (t ∷ []) (inr (inl refl)),
      e,
      All-append (λ u. applies now path u ≡ true → len u.scope ≤ len t.scope) done (t ∷ [])
          (All-weaken (λ u. applies now path u ≡ true → len u.scope ≤ len b.scope)
            (λ u. applies now path u ≡ true → len u.scope ≤ len t.scope) done
            (λ u f g. at_least (len u.scope) (len b.scope) (len t.scope) (f g) k) l)
          (λ _. omega arith, tt),
    )
    | inr k ↦ rw k (
      Among-append b done (t ∷ []) (inl m),
      a,
      All-append (λ u. applies now path u ≡ true → len u.scope ≤ len b.scope) done (t ∷ []) l
          (λ _. at_most (len b.scope) (len t.scope) k, tt),
    )
  ])
  | inr e ↦ rw e (
    Among-append b done (t ∷ []) (inl m),
    a,
    All-append (λ u. applies now path u ≡ true → len u.scope ≤ len b.scope) done (t ∷ []) l
        (vacuous e, tt),
  )
]

find_from-IsChoice :
    (now : ℕ) (path : Text) (ts done : List SessionToken) (best : Option SessionToken)
    → IsChoice now path done best
    → IsChoice now path (done ++ ts) (find_from now path best ts)
unfolding find_from
find_from-IsChoice now path [] done best h = rw (append-nil done) h
find_from-IsChoice now path (t ∷ ts) done best h = rw (← append_assoc done (t ∷ []) ts) (
    find_from-IsChoice now path ts (done ++ t ∷ [])
      (if applies now path t then longer best t else best) (longer-IsChoice now path done best t h))

-- At every time and path, a site's lookup finds no token if none matches the path unexpired;
-- otherwise it finds a token of the site that does, with a scope as long as any that does.
pub find_in_site-IsChoice :
    (now : ℕ) (site : SiteSessionStore) (path : Text)
    → IsChoice now path site.tokens (find_in_site now site path)
unfolding find_in_site
find_in_site-IsChoice now site path = find_from-IsChoice now path site.tokens [] none tt
