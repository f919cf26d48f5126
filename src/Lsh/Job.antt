-- ===== src/Lsh/Job.antt =====
-- lsh/job.h and lsh/job.c: the jobs in memory and the lists of handles on them. The fields `pid` and `pgid` of `struct process`, which stay 0 and are never
-- read, are left out, and `next` is the order of a list. A handle stands on one list at most, and is
-- the address of its job; several handles may share a job.
pub mod Handles
use akiso.Prelude.{
  ℕ, ◌+◌, Bool, true, false, ◌||◌, Option, none, some, List, [], ◌∷◌, ◌==◌, if◌then◌else◌, Bytes,
}
use akiso.Prelude.Int.{ℤ, pos, negsuc, ◌==ℤ◌}
use akiso.Prelude.Run.{Run, ok, fault, ◌>>=◌}

pub record Redirect : Type 0 where
  pub is_out : Bool
  pub left : Bytes
  pub left_fd : ℤ
  pub right : Bytes
  pub right_fd : ℤ

-- `arguments` with its null entries.
pub record Process : Type 0 where
  pub arguments : List (Option Bytes)
  pub argc : ℕ
  pub redirects : List Redirect

pub record Job : Type 0 where
  pub pgid : ℤ
  pub fg : Bool
  pub stopped : Bool
  pub falling_apart : Bool
  pub pipeline : List Process
  pub pipeline_size : ℕ

-- `memset(job, 0, sizeof(*job))`, and the same for a process
abbrev pub empty_job : Job
empty_job = record {
  pgid = pos 0;
  fg = false;
  stopped = false;
  falling_apart = false;
  pipeline = [];
  pipeline_size = 0;
}

abbrev pub empty_process : Process
empty_process = record { arguments = []; argc = 0; redirects = [] }

-- The allocated jobs; an address that holds `none` is free.
pub record Heap : Type 0 where
  pub job_at : ℕ → Option Job
  pub next : ℕ

-- `malloc` of a job, and its initial content.
abbrev pub alloc : Job → Heap → ℕ × Heap
alloc job h = (
  h.next,
  record { job_at = λ a. if a == h.next then some job else h.job_at a; next = h.next + 1 },
)

unfoldable pub load : ℕ → Heap → Run Job
load a h = elim (h.job_at a) [ none ↦ fault | some job ↦ ok job ]

abbrev pub put_job : ℕ → Option Job → Heap → Heap
put_job a content h = record h { job_at = λ b. if b == a then content else h.job_at b }

-- A write of fields through the pointer.
unfoldable pub update : ℕ → (Job → Job) → Heap → Run Heap
unfolding load
update a change h = do job ← load a h; ok (put_job a (some (change job)) h)

-- `destroy_job` with the processes, redirects and arguments of the job; `free` of what is not
-- allocated is a fault.
unfoldable pub destroy_job : ℕ → Heap → Run Heap
unfolding load
destroy_job a h = do _ ← load a h; ok (put_job a none h)

abbrev pub is_not_positive : ℤ → Bool
is_not_positive (pos n) = n == 0
is_not_positive (negsuc n) = true

-- The handle found, if any, and the list without it.
unfoldable pub remove_job_handle : Heap → List ℕ → ℤ → Run (Option ℕ × List ℕ)
unfolding load
remove_job_handle h [] pid = ok (none, [])
remove_job_handle h (a ∷ handles) pid =
    let rest = remove_job_handle h handles pid in
    do
      job ← load a h
      if job.pgid ==ℤ pid || is_not_positive pid
          then ok (some a, handles)
          else do (found, others) ← rest; ok (found, a ∷ others)

pub data Condition : Type 0 where
  stopped done running : Condition

-- What `print_job` writes: the index if it is positive, the group and the condition.
pub record Report : Type 0 where
  pub index : Option ℕ
  pub pgid : ℤ
  pub condition : Condition

abbrev positive : ℤ → Option ℕ
positive (pos n) = if n == 0 then none else some n
positive (negsuc n) = none

unfoldable pub print_job : ℤ → Job → Bool → Report
print_job index job ended = record {
  index = positive index;
  pgid = job.pgid;
  condition = if job.stopped then stopped else if ended then done else running;
}
