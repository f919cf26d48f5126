-- ===== src/Lsh/Execute/Choosing.antt =====
-- Which handle `get_job_handle` of lsh/execute.c takes.
use akiso.Prelude.{
  ℕ, ◌+◌, ◌<◌, ◌≡◌, ap, true, false, none, some, List, [], ◌∷◌, ◌++◌, arith, ◌==◌, Bytes, length,
  All,
}
use akiso.Prelude.Int.{pos}
use akiso.Prelude.Run.{ok, fault}
use akiso.Libc.{strtol, skip_space, digits}
use akiso.Lsh.Job.{Job}
use akiso.Lsh.Job.Handles.{MatchesAt, MatchesAt-self, load-IsLive, remove_job_handle-split}
use akiso.Lsh.Execute.{Shell, absent, handle, find_handle, take_handle, get_job_handle}
use akiso.Lsh.Execute.Builtins.{Answers, do_fg}

find_handle-nth :
    (before : List ℕ) (a : ℕ) (after : List ℕ) (i n : ℕ)
    → n ≡ i + length before + 1
    → find_handle (pos n) i (before ++ (a ∷ after)) ≡ (n, some a)
unfolding find_handle
find_handle-nth [] a after i n e =
    let hit : (i + 1 == n) ≡ true = ground arith in rw hit (ap (λ k. (k, some a)) (omega arith))
find_handle-nth (b ∷ before) a after i n e =
    let miss : (i + 1 == n) ≡ false = ground arith in
    rw miss (find_handle-nth before a after (i + 1) n (omega arith))

find_handle-past :
    (handles : List ℕ) (i n : ℕ)
    → i + length handles < n
    → find_handle (pos n) i handles ≡ (i + length handles, none)
unfolding find_handle
find_handle-past [] i n h = ap (λ k. (k, none)) (omega arith)
find_handle-past (a ∷ handles) i n h =
    let miss : (i + 1 == n) ≡ false = ground arith in
    rw (miss, find_handle-past handles (i + 1) n (omega arith)) (ap (λ k. (k, none)) (omega arith))

-- The number n names the nth of the current jobs, counted from 1: its handle is returned and taken
-- off the list, the others keep their order, and nothing else changes. (The group of the job is
-- looked for in the list, so no job before it may have the same group.)
pub take_handle-nth :
    (s : Shell) (before : List ℕ) (a : ℕ) (after : List ℕ) (job : Job)
    → s.current_job ≡ before ++ (a ∷ after)
    → s.heap.job_at a ≡ some job
    → All (MatchesAt s.heap job.pgid false) before
    → take_handle (pos (length before + 1)) s
      ≡ ok (handle a, record s { current_job = before ++ after })
unfolding take_handle
take_handle-nth s before a after job listed here others =
    let found = find_handle-nth before a after 0 (length before + 1) (omega arith) in
    let same : (length before + 1 == length before + 1) ≡ true = ground arith in
    let removed =
      remove_job_handle-split s.heap job.pgid before a after others
        (MatchesAt-self s.heap a job here) in
    rw (listed, found, same, load-IsLive s.heap a job here, listed, removed)

-- A number past the end of the list names no job, and nothing changes.
pub take_handle-past :
    (s : Shell) (n : ℕ) → length s.current_job < n → take_handle (pos n) s ≡ ok (absent, s)
unfolding take_handle
take_handle-past s n h =
    let miss : (0 + length s.current_job == n) ≡ false = ground arith in
    rw (find_handle-past s.current_job 0 n (omega arith), miss)

-- With no current job, `fg 0` goes through a null pointer: the loop ends with `i` equal to the index,
-- and no handle.
pub do_fg-zero :
    (s : Shell) (k : Answers) (name : Bytes)
    → s.current_job ≡ []
    → do_fg (name ∷ (b'0' ∷ []) ∷ []) k s ≡ fault
unfolding do_fg get_job_handle take_handle find_handle strtol skip_space digits
do_fg-zero s k name empty = rw empty
