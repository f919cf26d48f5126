-- ===== src/Lsh/Tests/Kernel.antt =====
-- A kernel like the one that the shell runs on, and a pipeline.
use Prim.Native.String.{String}
use akiso.Prelude.{
  ℕ, zero, suc, ◌+◌, ◌≤◌, ◌≡◌, sym, ap, ◌∙◌, Bool, true, false, Bool-cases, Option, none, some,
  Option-cases, inl, inr, [], ◌∷◌, arith, ltb, if◌then◌else◌,
}
use akiso.Prelude.Int.{pos}
use akiso.Prelude.Text.{codes}
use akiso.Lsh.Job.{Process, Job}
use akiso.Lsh.Execute.Launch.Giving.{IsForking}
use akiso.Lsh.Execute.Launch.Ready.{IsKernel, IsStandard}
use akiso.Lsh.Execute.Pipes.{Kernel}
use akiso.Lsh.Execute.Redirects.{plain, Table}

-- The terminal stands behind the first three descriptors.
abbrev pub terminal_table : Table
terminal_table = λ d. if ltb d 3 then some (plain 0) else none

-- The two lowest descriptors above the standard ones that are not open, up to a limit.
abbrev is_open : Table → ℕ → Bool
is_open table d = elim (table d) [ none ↦ false | some _ ↦ true ]

abbrev lowest_free : Table → ℕ → ℕ → Option ℕ
lowest_free table zero d = none
lowest_free table (suc fuel) d =
    let rest = lowest_free table fuel (d + 1) in if is_open table d then rest else some d

abbrev posix_pipe : ℕ → Table → Option (ℕ × ℕ)
posix_pipe n table = elim (lowest_free table 20 0) [
  | none ↦ none
  | some r ↦ elim (lowest_free table 20 (r + 1)) [ none ↦ none | some w ↦ some (r, w) ]
]

abbrev pub kernel : Kernel
kernel = record {
  pipe = posix_pipe;
  fcntl = λ n i. true;
  fork = λ i. some (100 + i);
  opens = λ i. [];
  give_terminal = true;
  execvp = λ i. true;
  read_fails = λ i. false;
  errno = λ i. 2;
}

abbrev pub run_of : String → Process
run_of name = record { arguments = some (codes name) ∷ none ∷ []; argc = 1; redirects = [] }

abbrev pub three : Job
three = record {
  pgid = pos 0;
  fg = true;
  stopped = false;
  falling_apart = false;
  pipeline = run_of "ls" ∷ run_of "grep" ∷ run_of "wc" ∷ [];
  pipeline_size = 3;
}

some-inj : {A : Type 0} (a b : A) → some a ≡ some b → a ≡ b
some-inj a b h = cc

abbrev pair : ℕ → ℕ → Option (ℕ × ℕ)
pair a b = some (a, b)

pair-inj : (a b c d : ℕ) → pair a b ≡ pair c d → (a ≡ c) × (b ≡ d)
pair-inj a b c d h =
    (ap (λ o. elim o [ none ↦ a | some p ↦ p.0 ]) h, ap (λ o. elim o [ none ↦ b | some p ↦ p.1 ]) h)

abbrev no_pair : Option (ℕ × ℕ)
no_pair = none

no_pair_lem : (a b : ℕ) → no_pair ≡ pair a b → ⊥
no_pair_lem a b h = cc

is_open_no : (table : Table) (d : ℕ) → is_open table d ≡ false → table d ≡ none
is_open_no table d closed = elim (Option-cases (table d)) [
  | inl free ↦ free
  | inr (behind, at) ↦ let e : true ≡ false = rw (is_open, at) at closed in cc
]

lowest_free_lem :
    (table : Table) (fuel d r : ℕ) → lowest_free table fuel d ≡ some r → (table r ≡ none) × (d ≤ r)
lowest_free_lem table zero d r found = cc
lowest_free_lem table (suc fuel) d r found = elim (Bool-cases (is_open table d)) [
  | inl taken ↦
      let (free, above) = lowest_free_lem table fuel (d + 1) r (rw taken at found) in
      (free, omega arith)
  | inr not_taken ↦
      let same : d ≡ r = some-inj d r (rw not_taken at found) in
      (ap table (sym same) ∙ is_open_no table d not_taken, omega arith)
]

pub kernel-IsKernel : IsKernel kernel
kernel-IsKernel n table r w given = elim (Option-cases (lowest_free table 20 0)) [
  | inl full ↦
      let e : no_pair ≡ pair r w = rw (posix_pipe, full) at given in absurd (no_pair_lem r w e)
  | inr (r', found) ↦ elim (Option-cases (lowest_free table 20 (r' + 1))) [
    | inl full ↦
        let e : no_pair ≡ pair r w = rw (posix_pipe, found, full) at given in
        absurd (no_pair_lem r w e)
    | inr (w', found') ↦
        let e : pair r' w' ≡ pair r w = rw (posix_pipe, found, found') at given in
        let (same_r, same_w) = pair-inj r' w' r w e in
        let (free, _) = lowest_free_lem table 20 0 r' found in
        let (free', above) = lowest_free_lem table 20 (r' + 1) w' found' in
        (ap table (sym same_r) ∙ free, ap table (sym same_w) ∙ free', ground arith)
  ]
]

pub kernel-IsForking : IsForking kernel
kernel-IsForking i pid forked =
    let same : 100 + i ≡ pid = some-inj (100 + i) pid forked in omega arith

pub terminal-IsStandard : IsStandard terminal_table
terminal-IsStandard = (λ h. cc, λ h. cc)
