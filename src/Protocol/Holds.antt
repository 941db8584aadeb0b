-- ===== src/Protocol/Holds.antt =====
-- What holds of a protocol operation's result where it succeeds, with a rule for each step.
use dustnet.Base.{ℕ, Bool, true, false, Option, none, some, ◌≡◌, refl, subst, if◌then◌else◌}
use dustnet.Protocol.Error.{ProtocolError, Result, ok, err, ◌>>=◌, reject, reserve}
use dustnet.Protocol.Version.{or_else}

abbrev pub Holds {ℓ κ} : {A : Type ℓ} → (A → Type κ) → Result A → Type κ
Holds P (ok a) = P a
Holds P (err e) = Unit

pub Holds->>= {ℓ κ μ ν} :
    {A : Type ℓ} {B : Type κ} (P : A → Type μ) (Q : B → Type ν) (m : Result A) (f : A → Result B)
    → Holds P m
    → ((a : A) → P a → Holds Q (f a))
    → Holds Q (m >>= f)
Holds->>= P Q (ok a) f h k = k a h
Holds->>= P Q (err e) f h k = tt

-- behind a test
pub Holds-reject {κ ν} :
    {B : Type κ} (Q : B → Type ν) (b : Bool) (e : ProtocolError) (f : Unit {0} → Result B)
    → (b ≡ false → Holds Q (f tt))
    → Holds Q (reject b e >>= f)
Holds-reject Q true e f h = tt
Holds-reject Q false e f h = h refl

-- behind a reservation
pub Holds-reserve {κ ν} :
    {B : Type κ} (Q : B → Type ν) (granted : Bool) (n : ℕ) (f : Unit {0} → Result B)
    → Holds Q (f tt)
    → Holds Q (reserve granted n >>= f)
Holds-reserve Q true n f h = h
Holds-reserve Q false n f h = tt

pub Holds-or_else {ℓ κ} :
    {A : Type ℓ} (P : A → Type κ) (e : ProtocolError) (o : Option A)
    → ((a : A) → o ≡ some a → P a)
    → Holds P (or_else e o)
Holds-or_else P e none h = tt
Holds-or_else P e (some a) h = h a refl

pub Holds-if {ℓ κ} :
    {A : Type ℓ} (P : A → Type κ) (b : Bool) (x y : Result A)
    → (b ≡ true → Holds P x)
    → (b ≡ false → Holds P y)
    → Holds P (if b then x else y)
Holds-if P true x y h k = h refl
Holds-if P false x y h k = k refl

pub Holds-ok {ℓ κ} :
    {A : Type ℓ} (P : A → Type κ) (m : Result A) {a : A} → Holds P m → m ≡ ok a → P a
Holds-ok P m h e = subst (Holds P) e h

pub Holds-weaken {ℓ κ ν} :
    {A : Type ℓ} (P : A → Type κ) (Q : A → Type ν) (m : Result A)
    → Holds P m
    → ((a : A) → P a → Q a)
    → Holds Q m
Holds-weaken P Q (ok a) h f = f a h
Holds-weaken P Q (err e) h f = tt

-- Nothing is said of the value.
pub Holds-any {ℓ} : {A : Type ℓ} (m : Result A) → Holds (λ a. Unit {0}) m
Holds-any (ok a) = tt
Holds-any (err e) = tt
