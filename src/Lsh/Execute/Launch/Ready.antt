-- ===== src/Lsh/Execute/Launch/Ready.antt =====
-- The shell in `start_job_internal` of lsh/execute.c between two rounds of the loop, and in a round
-- between the pipes and the fork.
use akiso.Prelude.{
  ℕ, ◌+◌, ◌≡◌, ◌≢◌, refl, sym, ap, ◌∙◌, Bool, true, false, Bool-cases, ==_iff, none, some, List, [],
  ◌∷◌, arith, ◌==◌, All, length, if◌then◌else◌, inl, inr,
}
use akiso.Prelude.Int.{ℤ, pos}
use akiso.Lsh.Execute.Redirects.{Open, Table}
use akiso.Lsh.Execute.Pipes.{Kernel, with_ends}
use akiso.Lsh.Execute.Launch.{Launch, exec_table}
use akiso.Lsh.Execute.Launch.Tables.{
  Clear, Apart, Holds, Passes, flagged, with_ends-Passes, with_ends-Holds, Clear-free, apart_open,
  Holds-open,
}

-- The two descriptors of a pipe are new, and differ.
abbrev pub IsKernel : Kernel → Type 0
IsKernel k =
    (n : ℕ) (table : Table) (r w : ℕ)
    → k.pipe n table ≡ some (r, w)
    → (table r ≡ none) × (table w ≡ none) × ((r == w) ≡ false)

-- The standard input and output are open.
abbrev pub IsStandard : Table → Type 0
IsStandard base = (base 0 ≢ none) × (base 1 ≢ none)

-- A pipe that is with_ends in a table which is like the one before, but for some descriptors.
pub record NewPipe (base : Table) (held : List ℤ) (next r w : ℕ) (table : Table) : Type 0 where
  pub given_r : table r ≡ none
  pub given_w : table w ≡ none
  pub clear_r : base r ≡ none
  pub clear_w : base w ≡ none
  pub holds : Holds base (pos r ∷ pos w ∷ held) (with_ends r w next true table)
  pub passes : Passes (exec_table base) (with_ends r w next true table)
  pub at_r : with_ends r w next true table r ≡ some (flagged next)
  pub at_w : with_ends r w next true table w ≡ some (flagged (next + 1))
  pub apart_r : Apart r (0 ∷ 1 ∷ [])
  pub apart_w : Apart w (0 ∷ 1 ∷ [])
  pub distinct : (r == w) ≡ false

module _ (base : Table) (standard : IsStandard base) where
  free-standard :
      (held : List ℤ) (table : Table) (d : ℕ)
      → All (Clear base) held
      → Holds base held table
      → table d ≡ none
      → Apart d (0 ∷ 1 ∷ [])
  free-standard held table d clear holds free = (not_open 0 standard.0, (not_open 1 standard.1, tt))
    where
      not_open : (n : ℕ) → base n ≢ none → (d == n) ≡ false
      not_open n is_open = elim (Bool-cases (d == n)) [
        | inl same ↦
            elim (is_open (
              sym (Holds-open base n held table is_open clear holds)
              ∙ ap table (sym ((==_iff d n).0 same))
              ∙ free)) [ ]
        | inr apart ↦ apart
      ]

  pub with_ends-NewPipe :
      (k : Kernel) (held : List ℤ) (next r w : ℕ) (table : Table)
      → IsKernel k
      → k.pipe next table ≡ some (r, w)
      → All (Clear base) held
      → Holds base held table
      → Passes (exec_table base) table
      → NewPipe base held next r w table
  with_ends-NewPipe k held next r w table law given clear holds passes =
      let (free_r, free_w, distinct) = law next table r w given in
      let same_r : (r == r) ≡ true = ground arith in
      let same_w : (w == w) ≡ true = ground arith in
      record {
        given_r = free_r;
        given_w = free_w;
        clear_r = Clear-free base r held table clear holds free_r;
        clear_w = Clear-free base w held table clear holds free_w;
        holds = with_ends-Holds base table next r w held holds;
        passes = with_ends-Passes table next r w free_r free_w (exec_table base) passes;
        at_r = rw (distinct, same_r) refl;
        at_w = rw same_w refl;
        apart_r = free-standard held table r clear holds free_r;
        apart_w = free-standard held table w clear holds free_w;
        distinct = distinct;
      }

-- What was open stays open when a pipe is made.
pub with_ends_open :
    (base : Table) (held : List ℤ) (next r w : ℕ) (table : Table) (d : ℕ) (behind : Open)
    → NewPipe base held next r w table
    → table d ≡ some behind
    → with_ends r w next true table d ≡ some behind
with_ends_open base held next r w table d behind new at =
    rw (apart_open table d w behind at new.given_w, apart_open table d r behind at new.given_r) at

-- What is open between two rounds, but for the table before; `prevfd` is closed by the last one.
abbrev pub opens : Bool → ℤ → ℤ → ℤ × ℤ → List ℤ
opens last prevfd first control =
    let kept = first ∷ control.0 ∷ control.1 ∷ [] in if last then kept else prevfd ∷ kept

-- The shell between two rounds, or behind the last.
pub record Going (base : Table) (last : Bool) (l : Launch) : Type 0 where
  pub size : length l.error_buff ≡ 128
  pub holds : Holds base (opens last l.prevfd l.first_error_pipe_read l.control_pipe) l.table
  pub passes : Passes (exec_table base) l.table
  pub clear :
      All
        (Clear base)
        (l.prevfd ∷ l.first_error_pipe_read ∷ l.control_pipe.0 ∷ l.control_pipe.1 ∷ [])
  pub clear_pipe : All (Clear base) (l.pipefds.0 ∷ l.pipefds.1 ∷ [])
  pub clear_error : All (Clear base) (l.error_pipe.0 ∷ l.error_pipe.1 ∷ [])
