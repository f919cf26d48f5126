-- ===== src/Prelude/Run.antt =====
-- Code with undefined behaviour: `fault` stands for a read or write out of bounds, through a null
-- pointer or through a freed one.
use mathlib.Core.Path.{◌≡◌, refl, subst}

pub data Run {ℓ} (A : Type ℓ) : Type ℓ where
  ok : A → Run A
  fault : Run A

infixl 5 ◌>>=◌ ◌>>◌
abbrev pub ◌>>=◌ {ℓ κ} : {A : Type ℓ} {B : Type κ} → Run A → (A → Run B) → Run B
ok a >>= f = f a
fault >>= f = fault

abbrev pub ◌>>◌ {ℓ} : {B : Type ℓ} → Run (Unit {0}) → Run B → Run B
m >> k = m >>= λ _. k

pub bind-eq-ok {ℓ κ} :
    {A : Type ℓ} {B : Type κ} (m : Run A) (f : A → Run B) {b : B}
    → (m >>= f) ≡ ok b
    → (a : A) × (m ≡ ok a) × (f a ≡ ok b)
bind-eq-ok (ok a) f h = (a, refl, h)
bind-eq-ok fault f h = cc

pub ok-inj {ℓ} : {A : Type ℓ} {a b : A} → ok a ≡ ok b → a ≡ b
ok-inj h = cc

-- The code ends, and what it gives satisfies `P`.
abbrev pub Gives {ℓ κ} : {A : Type ℓ} → Run A → (A → Type κ) → Type (ℓ ⊔ κ)
Gives {A} m P = (a : A) × (m ≡ ok a) × P a

pub Gives-bind {ℓ κ μ ν} :
    {A : Type ℓ} {B : Type κ} {P : A → Type μ} {Q : B → Type ν} {m : Run A} {f : A → Run B}
    → Gives m P
    → ((a : A) → P a → Gives (f a) Q)
    → Gives (m >>= f) Q
Gives-bind (a, run, p) k = let (b, run', q) = k a p in (b, rw run run', q)

-- Where the code ends, what it gives satisfies `P`.
abbrev pub Always {ℓ κ} : {A : Type ℓ} → Run A → (A → Type κ) → Type (ℓ ⊔ κ)
Always {A} m P = (a : A) → m ≡ ok a → P a

pub Always-ok {ℓ κ} : {A : Type ℓ} (P : A → Type κ) {a : A} → P a → Always (ok a) P
Always-ok P p b e = subst P (ok-inj e) p

pub Always-bind {ℓ κ μ ν} :
    {A : Type ℓ} {B : Type κ} {P : A → Type μ} {Q : B → Type ν} {m : Run A} {f : A → Run B}
    → Always m P
    → ((a : A) → P a → Always (f a) Q)
    → Always (m >>= f) Q
Always-bind {m = m} {f = f} always k b run =
    let (a, first, second) = bind-eq-ok m f run in k a (always a first) b second

pub Gives-Always {ℓ κ μ} :
    {A : Type ℓ} {P : A → Type κ} {Q : A → Type μ} {m : Run A}
    → Gives m P
    → Always m Q
    → Gives m (λ a. P a × Q a)
Gives-Always (a, run, p) always = (a, run, (p, always a run))
