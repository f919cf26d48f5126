-- ===== src/Prelude/Lists.antt =====
-- Lists measured and indexed by native numbers, under the library's names, and C strings.
use Prim.Native.Nat.{ℕ, zero, suc, ◌+◌}
use mathlib.Core.Path.{◌≡◌, refl, ap}
use mathlib.Core.Bool.{Bool, true, false, ◌&&◌}
use mathlib.Core.List.{List, [], ◌∷◌, ◌++◌, map}
use mathlib.Core.Option.{Option, none, some}
use native.Mathlib.Omega.{arith}
use akiso.Prelude.Tests.{◌==◌, if◌then◌else◌}

abbrev pub Bytes : Type 0
Bytes = List ℕ

module _ {ℓ} {A : Type ℓ} where
  abbrev pub length : List A → ℕ
  length [] = 0
  length (x ∷ xs) = suc (length xs)

  abbrev pub get_elem? : List A → ℕ → Option A
  get_elem? [] i = none
  get_elem? (x ∷ xs) zero = some x
  get_elem? (x ∷ xs) (suc i) = get_elem? xs i

  -- A write out of bounds changes nothing.
  abbrev pub set : List A → ℕ → A → List A
  set [] i v = []
  set (x ∷ xs) zero v = v ∷ xs
  set (x ∷ xs) (suc i) v = x ∷ set xs i v

  abbrev pub take : ℕ → List A → List A
  take zero xs = []
  take (suc n) [] = []
  take (suc n) (x ∷ xs) = x ∷ take n xs

  abbrev pub drop : ℕ → List A → List A
  drop zero xs = xs
  drop (suc n) [] = []
  drop (suc n) (x ∷ xs) = drop n xs

  abbrev pub replicate : ℕ → A → List A
  replicate zero a = []
  replicate (suc n) a = a ∷ replicate n a

  pub take-nil : (n : ℕ) → take n [] ≡ []
  take-nil zero = refl
  take-nil (suc n) = refl

  pub length-append : (xs ys : List A) → length (xs ++ ys) ≡ length xs + length ys
  length-append [] ys = omega arith
  length-append (x ∷ xs) ys = omega (arith, length-append xs ys)

  pub drop-append : (xs ys : List A) → drop (length xs) (xs ++ ys) ≡ ys
  drop-append [] ys = refl
  drop-append (x ∷ xs) ys = drop-append xs ys

module _ {ℓ} {A : Type ℓ} where
  pub length-map {κ} : {B : Type κ} (xs : List A) (f : A → B) → length (map f xs) ≡ length xs
  length-map [] f = refl
  length-map (x ∷ xs) f = ap suc (length-map xs f)

-- `P` of every element; computes to a tuple.
abbrev pub All {ℓ κ} : {A : Type ℓ} → (A → Type κ) → List A → Type κ
All P [] = Unit
All P (x ∷ xs) = P x × All P xs

pub All-append {ℓ κ} :
    {A : Type ℓ} (P : A → Type κ) (xs ys : List A) → All P xs → All P ys → All P (xs ++ ys)
All-append P [] ys hx hy = hy
All-append P (x ∷ xs) ys hx hy = (hx.0, All-append P xs ys hx.1 hy)

-- The C string at the start of a piece of memory: what stands before the first `'\0'`.
abbrev pub c_str : Bytes → Bytes
c_str [] = []
c_str (c ∷ m) = if c == 0 then [] else c ∷ c_str m

-- `strlen`, which reads up to the terminator: `none` where the memory holds none.
abbrev pub strlen : Bytes → Option ℕ
strlen [] = none
strlen (c ∷ m) = if c == 0 then some 0 else elim (strlen m) [ none ↦ none | some n ↦ some (suc n) ]

-- The content of a C string: it holds no terminator.
abbrev pub IsText : Bytes → Type 0
IsText [] = Unit
IsText (c ∷ s) = ((c == 0) ≡ false) × IsText s

-- `strcmp(a, b) == 0` on the contents.
abbrev pub strcmp_eq : Bytes → Bytes → Bool
strcmp_eq [] [] = true
strcmp_eq (a ∷ s) (b ∷ t) = a == b && strcmp_eq s t
strcmp_eq _ _ = false

pub c_str-terminated : (s m : Bytes) → IsText s → c_str (s ++ 0 ∷ m) ≡ s
c_str-terminated [] m h = refl
c_str-terminated (c ∷ s) m h = rw (h.0) (ap (◌∷◌ c) (c_str-terminated s m h.1))

pub strlen-terminated : (s m : Bytes) → IsText s → strlen (s ++ 0 ∷ m) ≡ some (length s)
strlen-terminated [] m h = refl
strlen-terminated (c ∷ s) m h = rw (h.0, strlen-terminated s m h.1)

pub IsText-append : (s t : Bytes) → IsText s → IsText t → IsText (s ++ t)
IsText-append [] t hs ht = ht
IsText-append (c ∷ s) t hs ht = (hs.0, IsText-append s t hs.1 ht)
