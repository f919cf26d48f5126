-- ===== src/Numbers.antt =====
-- The loops of two small programs on numbers: asm/primes/primes.c and asm/gcd/gcd.c. An `int` is at most
-- 2 ^ 31 - 1: the counter of gcd.c can pass it, which is a fault; the one of primes.c stays below its
-- number. A negative number, on which both end at once as on 0, is left out.
pub mod Tests
use akiso.Prelude.{
  ℕ, zero, suc, ◌+◌, ◌-◌, ◌%◌, ◌^◌, ◌⊎◌, ◌≤◌, ◌<◌, ◌≡◌, refl, ap, sym, ◌∙◌, ◌↔◌, Bool, true, false,
  ◌&&◌, Option, none, some, arith, ◌==◌, leb, ltb, if◌then◌else◌, Bool-cases, inl, inr, ==_iff,
}
use akiso.Prelude.Run.{Run, ok, fault}
use native.Mathlib.Nat.{mod-one, mod-eq_of_lt}

-- The loop of `is_prime` over the `n` numbers from `i` on.
unfoldable pub no_divisor : ℕ → ℕ → ℕ → Bool
no_divisor zero i a = true
no_divisor (suc n) i a = let rest = no_divisor n (i + 1) a in if a % i == 0 then false else rest

unfoldable pub is_prime : ℕ → Bool
unfolding no_divisor
is_prime a = if ltb a 2 then false else no_divisor (a - 2) 2 a

no_divisor-none :
    (n i a : ℕ) → no_divisor n i a ≡ true → (d : ℕ) → i ≤ d → d < i + n → (a % d == 0) ≡ false
unfolding no_divisor
no_divisor-none zero i a h d low high = absurd (omega arith)
no_divisor-none (suc n) i a h d low high = elim (Bool-cases (a % i == 0)) [
  | inl divides ↦ let h' = rw divides at h in absurd cc
  | inr leaves ↦ elim (Bool-cases (d == i)) [
    | inl same ↦ let e : d ≡ i = (==_iff d i).0 same in ap (λ k. a % k == 0) e ∙ leaves
    | inr other ↦
        let above : i + 1 ≤ d = ground arith in
        no_divisor-none n (i + 1) a (rw leaves at h) d above (omega arith)
  ]
]

no_divisor-all :
    (n i a : ℕ) → ((d : ℕ) → i ≤ d → d < i + n → (a % d == 0) ≡ false) → no_divisor n i a ≡ true
unfolding no_divisor
no_divisor-all zero i a h = refl
no_divisor-all (suc n) i a h =
    rw (h i (omega arith) (omega arith))
      (no_divisor-all n (i + 1) a (λ d low high. h d (omega arith) (omega arith)))

-- `is_prime` answers true for the numbers from 2 on that no number from 2 on divides but themselves,
-- and for no others.
pub is_prime_iff :
    (a : ℕ) → (is_prime a ≡ true) ↔ ((2 ≤ a) × ((d : ℕ) → 2 ≤ d → d < a → (a % d == 0) ≡ false))
unfolding is_prime
is_prime_iff a = (
  (λ h. elim (Bool-cases (ltb a 2)) [
    | inl small ↦ let h' = rw small at h in absurd cc
    | inr big ↦
        let above : 2 ≤ a = ground arith in
        (above, λ d low high. no_divisor-none (a - 2) 2 a (rw big at h) d low (omega arith))
  ]),
  (λ (above, h).
      let big : ltb a 2 ≡ false = ground arith in
      rw big (no_divisor-all (a - 2) 2 a (λ d low high. h d low (omega arith)))),
)

-- The test in the loop of asm/gcd/gcd.c.
abbrev pub divides_both : ℕ → ℕ → ℕ → Bool
divides_both i n1 n2 = n1 % i == 0 && n2 % i == 0

abbrev pub int_max : ℕ
int_max = 2 ^ 31 - 1

-- The loop, for at most `n` turns; `none` is a `gcd` that has no value yet. `++i` is undefined for the
-- greatest `int`.
unfoldable pub gcd_loop : ℕ → ℕ → ℕ → ℕ → Option ℕ → Run (Option ℕ)
gcd_loop zero i n1 n2 gcd = ok gcd
gcd_loop (suc n) i n1 n2 gcd =
    let rest = gcd_loop n (i + 1) n1 n2 (if divides_both i n1 n2 then some i else gcd) in
    if leb i n1 && leb i n2 then (if ltb i int_max then rest else fault) else ok gcd

-- The first condition of the loop fails after `n1` turns.
unfoldable pub gcd : ℕ → ℕ → Run (Option ℕ)
unfolding gcd_loop
gcd n1 n2 = gcd_loop n1 1 n1 n2 none

module _ (n1 n2 : ℕ) where
  -- The number divides both, and no common divisor below the bound is greater.
  abbrev IsBest : ℕ → ℕ → Type 0
  IsBest bound g =
      (divides_both g n1 n2 ≡ true)
      × ((d : ℕ) → 0 < d → d < bound → divides_both d n1 n2 ≡ true → d ≤ g)

  -- The number is the greatest common divisor.
  abbrev pub IsGreatest : ℕ → Type 0
  IsGreatest g =
      (divides_both g n1 n2 ≡ true) × ((d : ℕ) → 0 < d → divides_both d n1 n2 ≡ true → d ≤ g)

  too_great : (d n : ℕ) → 0 < n → n < d → (n % d == 0) ≡ false
  too_great d n some_n above = let e = mod-eq_of_lt above in ground arith

  divisor-small : (d : ℕ) → 0 < n1 → 0 < n2 → divides_both d n1 n2 ≡ true → (d ≤ n1) × (d ≤ n2)
  divisor-small d some1 some2 h = (
    (elim (Bool-cases (leb d n1)) [
      | inl small ↦ ground arith
      | inr above ↦
          let no_divisor1 = too_great d n1 some1 (ground arith) in
          let h' = rw no_divisor1 at h in absurd cc
    ]),
    (elim (Bool-cases (leb d n2)) [
      | inl small ↦ ground arith
      | inr above ↦
          let no_divisor2 = too_great d n2 some2 (ground arith) in
          let h' = rw no_divisor2 at h in
          elim (Bool-cases (n1 % d == 0)) [
            | inl divides ↦ let h'' = rw divides at h' in absurd cc
            | inr leaves ↦ let h'' = rw leaves at h' in absurd cc
          ]
    ]),
  )

  counter-small :
      (i : ℕ)
      → (n1 < int_max) ⊎ (n2 < int_max)
      → leb i n1 ≡ true
      → leb i n2 ≡ true
      → ltb i int_max ≡ true
  counter-small i (inl small) below1 below2 = ground arith
  counter-small i (inr small) below1 below2 = ground arith

  gcd_loop-IsGreatest :
      (n i g : ℕ)
      → 0 < n1
      → 0 < n2
      → (n1 < int_max) ⊎ (n2 < int_max)
      → n + i ≡ n1 + 1
      → IsBest i g
      → (r : ℕ) × (gcd_loop n i n1 n2 (some g) ≡ ok (some r)) × IsGreatest r
  unfolding gcd_loop
  gcd_loop-IsGreatest zero i g some1 some2 small e (divides, best) = (
    g,
    refl,
    (
      divides,
      λ d pos_d h. best d pos_d (let (low, _) = divisor-small d some1 some2 h in omega arith) h,
    ),
  )
  gcd_loop-IsGreatest (suc n) i g some1 some2 small e (divides, best) =
      let below1 : leb i n1 ≡ true = ground arith in
      elim (Bool-cases (leb i n2)) [
        | inr past ↦
            rw (below1, past)
              (
                g,
                refl,
                (
                  divides,
                  λ d pos_d h.
                      best d pos_d (let (_, low) = divisor-small d some1 some2 h in ground arith) h,
                ),
              )
        | inl below2 ↦
            let no_overflow = counter-small i small below1 below2 in
            elim (Bool-cases (divides_both i n1 n2)) [
              | inl both ↦
                  rw (below1, below2, no_overflow, both)
                    (gcd_loop-IsGreatest n (i + 1) i some1 some2 small (omega arith)
                      (both, λ d pos_d below h. omega arith))
              | inr not_both ↦
                  rw (below1, below2, no_overflow, not_both)
                    (gcd_loop-IsGreatest n (i + 1) g some1 some2 small (omega arith) (
                      divides,
                      λ d pos_d below h. elim (Bool-cases (d == i)) [
                        | inr other ↦ best d pos_d (ground arith) h
                        | inl same ↦
                            let e : d ≡ i = (==_iff d i).0 same in
                            let h' = ap (λ k. divides_both k n1 n2) (sym e) ∙ h in absurd cc
                      ],
                    ))
            ]
      ]

  gcd_loop-overflow :
      (n i : ℕ) (found : Option ℕ)
      → int_max ≤ n1
      → int_max ≤ n2
      → 0 < n
      → n + i ≡ int_max + 1
      → gcd_loop n i n1 n2 found ≡ fault
  unfolding gcd_loop
  gcd_loop-overflow zero i found great1 great2 some_n e = absurd (omega arith)
  gcd_loop-overflow (suc n) i found great1 great2 some_n e =
      let below1 : leb i n1 ≡ true = ground arith in
      let below2 : leb i n2 ≡ true = ground arith in
      elim (Bool-cases (ltb i int_max)) [
        | inr last ↦ rw (below1, below2, last)
        | inl more ↦
            let next : 0 < n = ground arith in
            rw (below1, below2, more)
              (gcd_loop-overflow n (i + 1) _ great1 great2 next (omega arith))
      ]

gcd_small :
    (n1 n2 : ℕ)
    → 0 < n1
    → 0 < n2
    → (n1 < int_max) ⊎ (n2 < int_max)
    → (g : ℕ) × (gcd n1 n2 ≡ ok (some g)) × IsGreatest n1 n2 g
unfolding gcd gcd_loop
gcd_small zero n2 some1 some2 small = absurd (omega arith)
gcd_small (suc m) n2 some1 some2 small =
    let below2 : leb 1 n2 ≡ true = ground arith in
    let below1 : leb 1 (suc m) ≡ true = ground arith in
    let both : divides_both 1 (suc m) n2 ≡ true = rw (mod-one (suc m), mod-one n2) refl in
    rw (below1, below2, both)
      (gcd_loop-IsGreatest (suc m) n2 m 2 1 some1 some2 small (omega arith)
        (both, λ d pos_d below h. omega arith))

gcd_great : (n1 n2 : ℕ) → n1 ≡ int_max → n2 ≡ int_max → gcd n1 n2 ≡ fault
unfolding gcd
gcd_great n1 n2 great1 great2 =
    gcd_loop-overflow n1 n2 n1 1 none (omega arith) (omega arith) (omega arith) (omega arith)

-- For two positive numbers that are `int`s, not both the greatest one, the loop ends with a value in
-- `gcd`, and it is their greatest common divisor. For twice the greatest `int` the counter overflows.
pub gcd-IsGreatest :
    (n1 n2 : ℕ)
    → 0 < n1
    → 0 < n2
    → n1 ≤ int_max
    → n2 ≤ int_max
    → (((n1 < int_max) ⊎ (n2 < int_max)) × (g : ℕ) × (gcd n1 n2 ≡ ok (some g)) × IsGreatest n1 n2 g)
      ⊎ ((n1 ≡ int_max) × (n2 ≡ int_max) × (gcd n1 n2 ≡ fault))
gcd-IsGreatest n1 n2 some1 some2 int1 int2 = elim (Bool-cases (ltb n1 int_max)) [
  | inl small ↦
      let below : n1 < int_max = ground arith in
      let (g, run, best) = gcd_small n1 n2 some1 some2 (inl below) in inl (inl below, g, run, best)
  | inr great1 ↦ elim (Bool-cases (ltb n2 int_max)) [
    | inl small ↦
        let below : n2 < int_max = ground arith in
        let (g, run, best) = gcd_small n1 n2 some1 some2 (inr below) in
        inl (inr below, g, run, best)
    | inr great2 ↦ inr (ground arith, ground arith, gcd_great n1 n2 (ground arith) (ground arith))
  ]
]
