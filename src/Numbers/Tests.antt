-- ===== src/Numbers/Tests.antt =====
-- The theorems on the small programs at concrete numbers.
use akiso.Prelude.{ℕ, ◌≤◌, ◌<◌, ◌%◌, ◌≡◌, ◌↔◌, ◌⊎◌, true, false, some, arith, ◌==◌}
use akiso.Prelude.Run.{ok, fault}
use akiso.Numbers.{is_prime, is_prime_iff, int_max, gcd, IsGreatest, gcd-IsGreatest}

is_prime_iff_example :
    (is_prime 7 ≡ true) ↔ ((2 ≤ 7) × ((d : ℕ) → 2 ≤ d → d < 7 → (7 % d == 0) ≡ false))
is_prime_iff_example = is_prime_iff 7

gcd-IsGreatest_example :
    (((12 < int_max) ⊎ (18 < int_max)) × (g : ℕ) × (gcd 12 18 ≡ ok (some g)) × IsGreatest 12 18 g)
    ⊎ ((12 ≡ int_max) × (18 ≡ int_max) × (gcd 12 18 ≡ fault))
gcd-IsGreatest_example =
    gcd-IsGreatest 12 18 (omega arith) (omega arith) (omega arith) (omega arith)
