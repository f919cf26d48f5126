-- ===== src/Lsh/Execute/Launch/Closing.antt =====
-- The closes of the shell's own ends in a round of `start_job_internal` of lsh/execute.c.
use akiso.Prelude.{
  ℕ, ◌≡◌, ◌≢◌, ap, ◌∙◌, Bool, true, false, none, some, List, [], ◌∷◌, ◌==◌, All, length,
  if◌then◌else◌,
}
use akiso.Prelude.Int.{ℤ, pos, ◌==ℤ◌}
use akiso.Lsh.Execute.Redirects.{Table}
use akiso.Lsh.Execute.Pipes.{no_fd, close_end, close_pipe}
use akiso.Lsh.Execute.Launch.{Launch, exec_table, close_parent}
use akiso.Lsh.Execute.Launch.Ready.{opens}
use akiso.Lsh.Execute.Launch.Tables.{
  Clear, Apart, Outside, Holds, Passes, flagged, close_end-Passes, close_end-drops, close_end-Clear,
  close_end_other, Clear-exec_table,
}

abbrev pub Differs : ℕ → ℤ → Type 0
Differs d v = (fd : ℕ) → v ≡ pos fd → (d == fd) ≡ false

-- The end to read of the pipe of this round, which the next process is to get.
abbrev pub IsReader : ℕ → Launch → Type 0
IsReader file l =
    (r : ℕ) × (l.pipefds.0 ≡ pos r)
    × (l.table r ≡ some (flagged file))
    × Apart r (0 ∷ 1 ∷ [])
    × All (Differs r) (l.prevfd ∷ l.pipefds.1 ∷ l.error_pipe.0 ∷ l.error_pipe.1 ∷ [])

abbrev pub kept : Launch → List ℤ
kept l = l.first_error_pipe_read ∷ l.control_pipe.0 ∷ l.control_pipe.1 ∷ []

abbrev pub errors : Launch → List ℤ
errors l = l.error_pipe.0 ∷ l.error_pipe.1 ∷ kept l

-- The descriptors that a round has to close or to keep, the pipe of this round in front.
abbrev pub held : Bool → Launch → List ℤ
held last l =
    let older = l.prevfd ∷ errors l in if last then older else l.pipefds.0 ∷ l.pipefds.1 ∷ older

-- The shell behind a fork.
pub record Forked (base : Table) (last : Bool) (l : Launch) : Type 0 where
  pub size : length l.error_buff ≡ 128
  pub holds : Holds base (held last l) l.table
  pub passes : Passes (exec_table base) l.table
  pub clear : All (Clear base) (held false l)

-- The shell behind the closes of the ends that the child has.
pub record Closed (base : Table) (last : Bool) (l : Launch) : Type 0 where
  pub size : length l.error_buff ≡ 128
  pub holds :
      Holds base
        (l.error_pipe.1
          ∷ l.error_pipe.0
          ∷ opens last l.prevfd l.first_error_pipe_read l.control_pipe)
        l.table
  pub passes : Passes (exec_table base) l.table
  pub clear : All (Clear base) (held false l)

module _ (base : Table) (zero_open : base 0 ≢ none) where
  pub close_parent-Closed :
      (last : Bool) (l : Launch) → Forked base last l → Closed base last (close_parent last l)
  unfolding close_parent close_pipe
  close_parent-Closed true l f =
      let (clear0, (clear1, (prev, older))) = f.clear in
      let left = close_end-drops l.prevfd (errors l) l.table zero_open prev f.holds in
      record {
        size = f.size;
        holds = λ d (o1, (o0, others)). left d (o0, (o1, others));
        passes = close_end-Passes l.prevfd l.table (Clear-exec_table base l.prevfd prev) f.passes;
        clear = (clear0, (clear1, (close_end-Clear l.prevfd l.table prev, older)));
      }
  close_parent-Closed false l f =
      let (clear0, (clear1, (prev, older))) = f.clear in
      let table = (close_end l.prevfd l.table).2 in
      let left : Holds base (l.pipefds.1 ∷ l.pipefds.0 ∷ errors l) table =
        close_end-drops l.prevfd (l.pipefds.1 ∷ l.pipefds.0 ∷ errors l) l.table zero_open prev
          (λ d (o, (o1, (o0, rest))). f.holds d (o0, (o1, (o, rest)))) in
      let left' =
        close_end-drops l.pipefds.1 (l.pipefds.0 ∷ errors l) table zero_open clear1 left in
      record {
        size = f.size;
        holds = λ d (o1, (o0, (o, others))). left' d (o, (o0, (o1, others)));
        passes =
            close_end-Passes l.pipefds.1 table (Clear-exec_table base l.pipefds.1 clear1)
              (close_end-Passes l.prevfd l.table (Clear-exec_table base l.prevfd prev) f.passes);
        clear = (clear0, (close_end-Clear l.pipefds.1 table clear1, (clear0, older)));
      }

-- The error pipe of the first round takes the place of a variable that holds nothing.
pub opens_first :
    (d : ℕ) (last : Bool) (prevfd first error : ℤ) (control : ℤ × ℤ)
    → first ≡ no_fd
    → Outside d (opens last prevfd error control)
    → Outside d (error ∷ opens last prevfd first control)
opens_first d true prevfd first error control none_yet (o, others) =
    (o, (ap (λ v. pos d ==ℤ v) none_yet, others))
opens_first d false prevfd first error control none_yet (op, (o, others)) =
    (o, (op, (ap (λ v. pos d ==ℤ v) none_yet, others)))

-- The end to read is still open behind the closes, and is the variable of the next round.
abbrev IsNext : ℕ → Launch → Type 0
IsNext file l =
    (r : ℕ) × (l.prevfd ≡ pos r)
    × (l.table r ≡ some (flagged file))
    × Apart r (0 ∷ 1 ∷ [])
    × Differs r l.error_pipe.0
    × Differs r l.error_pipe.1

pub close_parent-IsNext :
    (file : ℕ) (last : Bool) (l : Launch)
    → (last ≡ false → IsReader file l)
    → last ≡ false
    → IsNext file (close_parent last l)
unfolding close_parent close_pipe
close_parent-IsNext file true l reader h = cc
close_parent-IsNext file false l reader h =
    let (r, is_r, at, apart, (prev, (writer, (error0, (error1, _))))) = reader h in
    (
      r,
      is_r,
      close_end_other l.pipefds.1 (close_end l.prevfd l.table).2 r writer
          ∙ close_end_other l.prevfd l.table r prev
          ∙ at,
      apart,
      error0,
      error1,
    )
