-- ===== src/Session/Store/Sites.antt =====
-- crates/dustnet-core/src/session.rs, the sites of a store: lookup, update, growth and removal, for the invariant of the store.
use mathlib.Core.Bool.{true≢false}
use mathlib.Core.Option.{some_inj}
use dustnet.Base.{
  ◌+◌, ◌≤◌, false, not, ◌||◌, none, some, List, [], ◌∷◌, ◌++◌, ◌≡◌, ◌≢◌, inl, inr, refl, sym, ◌∙◌,
  ap, subst, arith, length, Bool-cases,
}
use dustnet.Base.Text.{Text, text_eq}
use dustnet.Protocol.Origin.{Origin, origin_eq, origin_eq_iff}
use dustnet.Session.Store.{
  SessionToken, SiteSessionStore, has_scope, retain_tokens, clear_scope, Sites, find_site,
  write_site, total, retain_sites, is_nil,
}
use dustnet.Session.Store.Scopes.{SiteFits, DistinctScopes}

-- Every site fits, and no two are of one origin.
abbrev pub SitesFit : Sites → Type 0
SitesFit [] = Unit
SitesFit ((o, site) ∷ rest) = SiteFits site × (find_site o rest ≡ none) × SitesFit rest

some≢none : {s : SiteSessionStore} → some s ≢ none
some≢none h = cc

pub find_site-SiteFits :
    (o : Origin) (sites : Sites) {site : SiteSessionStore}
    → SitesFit sites
    → find_site o sites ≡ some site
    → SiteFits site
unfolding find_site
find_site-SiteFits o [] f h = absurd cc
find_site-SiteFits o ((p, s) ∷ rest) {site} (f, n, fs) h = elim (Bool-cases (origin_eq p o)) [
  | inl e ↦ subst SiteFits (some_inj.0 (sym (rw e refl) ∙ h)) f
  | inr e ↦ find_site-SiteFits o rest fs (sym (rw e refl) ∙ h)
]

find_site-write_site :
    (p o : Origin) (new : SiteSessionStore) (sites : Sites)
    → find_site p sites ≡ none
    → find_site p (write_site o new sites) ≡ none
unfolding find_site write_site
find_site-write_site p o new [] h = refl
find_site-write_site p o new ((q, s) ∷ rest) h = ground (arith, find_site-write_site p o new rest)

pub write_site-SitesFit :
    (o : Origin) (new : SiteSessionStore) (sites : Sites)
    → SiteFits new
    → SitesFit sites
    → SitesFit (write_site o new sites)
unfolding write_site
write_site-SitesFit o new [] g f = tt
write_site-SitesFit o new ((q, s) ∷ rest) g (f, n, fs) = elim (Bool-cases (origin_eq q o)) [
  | inl e ↦ rw e (g, n, fs)
  | inr e ↦ rw e (f, find_site-write_site q o new rest n, write_site-SitesFit o new rest g fs)
]

pub total-write_site :
    (o : Origin) (new : SiteSessionStore) (sites : Sites) {old : SiteSessionStore}
    → find_site o sites ≡ some old
    → total (write_site o new sites) + length old.tokens ≡ total sites + length new.tokens
unfolding find_site write_site total
total-write_site o new [] h = absurd cc
total-write_site o new ((q, s) ∷ rest) {old} h = elim (Bool-cases (origin_eq q o)) [
  | inl e ↦
      let same : s ≡ old = some_inj.0 (sym (rw e refl) ∙ h) in
      let k : length s.tokens ≡ length old.tokens = ap (λ t. length t.tokens) same in
      rw e (omega (arith, k))
  | inr e ↦
      let k = total-write_site o new rest {old = old} (sym (rw e refl) ∙ h) in
      rw e (omega (arith, k))
]

pub total-append :
    (sites : Sites) (o : Origin) (site : SiteSessionStore)
    → total (sites ++ (o, site) ∷ []) ≡ total sites + length site.tokens
unfolding total
total-append [] o site = omega arith
total-append ((q, s) ∷ rest) o site = ground (arith, total-append rest o site)

find_site-append :
    (p o : Origin) (site : SiteSessionStore) (sites : Sites)
    → find_site p sites ≡ none
    → origin_eq o p ≡ false
    → find_site p (sites ++ (o, site) ∷ []) ≡ none
unfolding find_site
find_site-append p o site [] h k = rw k refl
find_site-append p o site ((q, s) ∷ rest) h k = ground (arith, find_site-append p o site rest)

origin_eq_comm : (a b : Origin) → origin_eq a b ≡ false → origin_eq b a ≡ false
origin_eq_comm a b h = elim (Bool-cases (origin_eq b a)) [
  | inl e ↦ absurd (true≢false (sym ((origin_eq_iff a b).1 (sym ((origin_eq_iff b a).0 e))) ∙ h))
  | inr e ↦ e
]

pub append-SitesFit :
    (o : Origin) (site : SiteSessionStore) (sites : Sites)
    → SitesFit sites
    → find_site o sites ≡ none
    → SiteFits site
    → SitesFit (sites ++ (o, site) ∷ [])
unfolding find_site
append-SitesFit o site [] f h g = (g, refl, tt)
append-SitesFit o site ((q, s) ∷ rest) (f, n, fs) h g = elim (Bool-cases (origin_eq q o)) [
  | inl e ↦ absurd (some≢none {s = s} (sym (rw e refl) ∙ h))
  | inr e ↦ (
    f,
    find_site-append q o site rest n (origin_eq_comm q o e),
    append-SitesFit o site rest fs (sym (rw e refl) ∙ h) g,
  )
]

retain_sites-find_none :
    (p o : Origin) (sites : Sites)
    → find_site p sites ≡ none
    → find_site p (retain_sites o sites) ≡ none
unfolding find_site retain_sites
retain_sites-find_none p o [] h = refl
retain_sites-find_none p o ((q, s) ∷ rest) h = ground (arith, retain_sites-find_none p o rest)

pub retain_sites-SitesFit :
    (o : Origin) (sites : Sites) → SitesFit sites → SitesFit (retain_sites o sites)
unfolding retain_sites
retain_sites-SitesFit o [] f = tt
retain_sites-SitesFit o ((q, s) ∷ rest) (f, n, fs) =
    elim (Bool-cases (not (origin_eq q o) || not (is_nil s.tokens))) [
      | inl e ↦ rw e (f, retain_sites-find_none q o rest n, retain_sites-SitesFit o rest fs)
      | inr e ↦ rw e (retain_sites-SitesFit o rest fs)
    ]

pub total-retain_sites : (o : Origin) (sites : Sites) → total (retain_sites o sites) ≤ total sites
unfolding total retain_sites
total-retain_sites o [] = omega arith
total-retain_sites o ((q, s) ∷ rest) = ground (arith, total-retain_sites o rest)

length-retain_tokens : (s : Text) (ts : List SessionToken) → length (retain_tokens s ts) ≤ length ts
unfolding retain_tokens
length-retain_tokens s [] = omega arith
length-retain_tokens s (t ∷ ts) = ground (arith, length-retain_tokens s ts)

has_scope-retain_tokens :
    (r s : Text) (ts : List SessionToken)
    → has_scope r ts ≡ false
    → has_scope r (retain_tokens s ts) ≡ false
unfolding retain_tokens
has_scope-retain_tokens r s [] h = refl
has_scope-retain_tokens r s (t ∷ ts) h = ground (arith, has_scope-retain_tokens r s ts)

retain_tokens-DistinctScopes :
    (s : Text) (ts : List SessionToken) → DistinctScopes ts → DistinctScopes (retain_tokens s ts)
unfolding retain_tokens
retain_tokens-DistinctScopes s [] d = tt
retain_tokens-DistinctScopes s (t ∷ ts) (h, d) = elim (Bool-cases (text_eq t.scope s)) [
  | inl e ↦ rw e (retain_tokens-DistinctScopes s ts d)
  | inr e ↦ rw e (has_scope-retain_tokens t.scope s ts h, retain_tokens-DistinctScopes s ts d)
]

pub clear_scope-SiteFits :
    (s : Text) (site : SiteSessionStore) → SiteFits site → SiteFits (clear_scope s site)
unfolding clear_scope
clear_scope-SiteFits s site f =
    let l = length-retain_tokens s site.tokens in
    let k = f.few in
    record {
      few = omega (arith, l, k);
      distinct = retain_tokens-DistinctScopes s site.tokens f.distinct;
    }

pub length-clear_scope :
    (s : Text) (site : SiteSessionStore) → length (clear_scope s site).tokens ≤ length site.tokens
unfolding clear_scope
length-clear_scope s site = length-retain_tokens s site.tokens
