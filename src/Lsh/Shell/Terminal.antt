-- ===== src/Lsh/Shell/Terminal.antt =====
-- The descriptor that `copy_to_high_fd` of lsh/main.c chooses for the terminal.
use akiso.Prelude.{
  ℕ, zero, suc, ◌-◌, ◌<◌, ◌≤◌, ◌≡◌, ap, ◌∙◌, ◌==◌, ==_iff, leb, leb→le, Bool, true, false,
  Bool-cases, arith, ltb, inl, inr, ◌⊎◌,
}
use akiso.Lsh.Shell.{free_fd, copy_to_high_fd}

-- The highest descriptor from 11 to `n` that is not open, or 10 if all of them are.
abbrev pub IsHighest : (ℕ → Bool) → ℕ → ℕ → Type 0
IsHighest is_open n r =
    (10 ≤ r)
    × (r ≤ n)
    × ((r ≡ 10) ⊎ (is_open r ≡ false))
    × ((d : ℕ) → (d ≤ r) ⊎ ((n < d) ⊎ (is_open d ≡ true)))

free_fd-IsHighest : (is_open : ℕ → Bool) (n : ℕ) → 10 ≤ n → IsHighest is_open n (free_fd is_open n)
unfolding free_fd
free_fd-IsHighest is_open zero h = omega arith
free_fd-IsHighest is_open (suc n) h = elim (Bool-cases (ltb 10 (suc n))) [
  | inr last ↦
      let ten : suc n ≡ 10 = ground arith in
      rw last (omega arith, omega arith, inl ten, λ d. within d (suc n))
  | inl above ↦ elim (Bool-cases (is_open (suc n))) [
    | inr free ↦ rw (above, free) (h, omega arith, inr free, λ d. within d (suc n))
    | inl taken ↦
        let (low, high, chosen, others) = free_fd-IsHighest is_open n (ground arith) in
        rw (above, taken)
          (
            low,
            omega arith,
            chosen,
            λ d. elim (others d) [
              | inl below ↦ inl below
              | inr rest ↦ elim rest [
                | inr open_one ↦ inr (inr open_one)
                | inl beyond ↦ elim (Bool-cases (d == suc n)) [
                  | inl same ↦ inr (inr (ap is_open ((==_iff d (suc n)).0 same) ∙ taken))
                  | inr apart ↦ inr (inl (ground arith))
                ]
              ]
            ],
          )
  ]
]
  where
    within : (d n : ℕ) → (d ≤ n) ⊎ ((n < d) ⊎ (is_open d ≡ true))
    within d n = elim (Bool-cases (leb d n)) [
      | inl below ↦ inl (leb→le d n below)
      | inr above ↦ inr (inl (ground arith))
    ]

-- If `dup2` succeeds, the terminal's descriptor is below `maxfd`: it is the highest one from 11 on that
-- was not open, or 10 if all of those are open, which is then taken from whoever had it.
pub copy_to_high_fd-IsHighest :
    (is_open : ℕ → Bool) (fd maxfd : ℕ)
    → 10 < maxfd
    → IsHighest is_open (maxfd - 1) (copy_to_high_fd is_open true fd maxfd)
unfolding copy_to_high_fd
copy_to_high_fd-IsHighest is_open fd maxfd h = free_fd-IsHighest is_open (maxfd - 1) (omega arith)
