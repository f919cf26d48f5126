-- ===== src/Lsh/Execute/Staying.antt =====
-- What the commands of lsh/execute.c do with a job that is on no list: nothing.
use akiso.Prelude.{
  ℕ, ◌+◌, ◌<◌, ◌≤◌, ◌≡◌, ap, Bool, true, false, not, Bool-cases, Option, none, some, Option-cases,
  ==_iff, Bytes, List, [], ◌∷◌, arith, ◌==◌, ◌||◌, if◌then◌else◌, inl, inr,
}
use akiso.Prelude.Int.{ℤ, pos, ◌==ℤ◌}
use akiso.Prelude.Run.{Run, Always, Always-ok, Always-bind}
use akiso.Lsh.Job.{Job, Heap, load, update, is_not_positive, remove_job_handle}
use akiso.Lsh.Job.Handles.{IsLive}
use akiso.Libc.{strtol, to_int}
use akiso.Lsh.Execute.{
  Shell, emit, Status, Wait, note_status, terminate, add_job, wait_loop, start_waiting,
  wait_for_fg_job, Terminal, place_job, launch_job, Found, bad_argument, absent, lost, handle,
  find_handle, take_handle, get_job_handle, is_nil,
}
use akiso.Lsh.Execute.Waiting.{add_job_lem}
use akiso.Lsh.Execute.Valid.{count, count-append, count_equal, count_apart, IsLive-put}

-- The job is allocated, and no list has a handle on it.
abbrev pub IsUnlisted : ℕ → Shell → Type 0
IsUnlisted b s =
    IsLive s.heap b
    × (count b s.current_job + count b s.pending_jobs + count b s.pending_removed_jobs ≡ 0)

pub any {ℓ} : {A : Type ℓ} (m : Run A) → Always m (λ _. Unit {0})
any m a run = tt

-- A write of fields frees nothing.
pub update-IsLive_always :
    (a b : ℕ) (change : Job → Job) (h : Heap)
    → IsLive h b
    → Always (update a change h) (λ h'. IsLive h' b)
unfolding update
update-IsLive_always a b change h live =
    Always-bind (any (load a h))
      (λ job _. Always-ok (λ h'. IsLive h' b) (IsLive-put h a b (change job) live))

-- A handle that is found was on the list, and no other comes on it.
abbrev pub Removed : List ℕ → Option ℕ × List ℕ → Type 0
Removed handles (none, others) = (b : ℕ) → count b others ≤ count b handles
Removed handles (some a, others) =
    (0 < count a handles) × ((b : ℕ) → count b others ≤ count b handles)

Removed-cons :
    (a : ℕ) (handles : List ℕ) (r : Option ℕ × List ℕ)
    → Removed handles r
    → Removed (a ∷ handles) (r.0, a ∷ r.1)
Removed-cons a handles (none, others) few = λ b. omega (arith, few b)
Removed-cons a handles (some c, others) (on, few) = (omega arith, λ b. omega (arith, few b))

pub remove_job_handle-Removed :
    (h : Heap) (handles : List ℕ) (pid : ℤ)
    → Always (remove_job_handle h handles pid) (Removed handles)
unfolding remove_job_handle
remove_job_handle-Removed h [] pid = Always-ok (Removed []) (λ b. omega arith)
remove_job_handle-Removed h (a ∷ handles) pid = Always-bind (any (load a h)) (λ job _.
    elim (Bool-cases (job.pgid ==ℤ pid || is_not_positive pid)) [
      | inl hit ↦ rw hit (
          Always-ok (Removed (a ∷ handles))
            (omega (arith, count_equal a a handles (ground arith)), λ b. omega arith))
      | inr miss ↦ rw miss (
          Always-bind (remove_job_handle-Removed h handles pid)
            (λ r removed. Always-ok (Removed (a ∷ handles)) (Removed-cons a handles r removed)))
    ])

-- A handle on another job does not put the job on a list.
pub add_job-IsUnlisted :
    (a b : ℕ) (s : Shell) → (b == a) ≡ false → IsUnlisted b s → Always (add_job a s) (IsUnlisted b)
unfolding add_job
add_job-IsUnlisted a b s apart (live, none_listed) = rw (add_job_lem a s) (
    Always-ok (IsUnlisted b) (
      live,
      omega (
        arith,
        count_apart b a s.current_job apart,
        count_apart b a [] apart,
        count-append b s.pending_jobs (a ∷ []),
      ),
    ))

wait_loop-IsUnlisted :
    (a b : ℕ) (statuses : List Status) (w : Wait) (s : Shell)
    → (b == a) ≡ false
    → IsUnlisted b s
    → Always (wait_loop a statuses w s) (IsUnlisted b)
unfolding wait_loop
wait_loop-IsUnlisted a b [] w s apart h = Always-ok (IsUnlisted b) h
wait_loop-IsUnlisted a b (status ∷ statuses) w s apart h =
    let (w', ending) = note_status status w in
    Always-bind (any (load a s.heap)) (λ job _.
      let s' = if ending then emit (terminate job.pgid) s else s in
      let h' : IsUnlisted b s' = told b ending job s h in
      elim (Bool-cases (w'.stopped_process_count == job.pipeline_size)) [
        | inl all ↦ rw all (
            Always-bind (update-IsLive_always a b _ s'.heap h'.0)
              (λ heap live. add_job-IsUnlisted a b (record s' { heap = heap }) apart (live, h'.1)))
        | inr some_left ↦ rw some_left (wait_loop-IsUnlisted a b statuses w' s' apart h')
      ])
  where
    told :
        (b : ℕ) (ending : Bool) (job : Job) (s : Shell)
        → IsUnlisted b s
        → IsUnlisted b (if ending then emit (terminate job.pgid) s else s)
    told b true job s h = h
    told b false job s h = h

place_job-IsUnlisted :
    (a b : ℕ) (statuses : List Status) (s : Shell)
    → (b == a) ≡ false
    → IsUnlisted b s
    → Always (place_job (some a) statuses s) (IsUnlisted b)
unfolding place_job wait_for_fg_job
place_job-IsUnlisted a b statuses s apart h = Always-bind (any (load a s.heap)) (λ job _.
    elim (Bool-cases job.fg) [
      | inl fg ↦ rw fg (wait_loop-IsUnlisted a b statuses start_waiting s apart h)
      | inr bg ↦ rw bg (add_job-IsUnlisted a b s apart h)
    ])

pub launch_job-IsUnlisted :
    (a b : ℕ) (statuses : List Status) (t : Terminal) (s : Shell)
    → (b == a) ≡ false
    → IsUnlisted b s
    → Always (launch_job (some a) statuses t s) (λ (s', _). IsUnlisted b s')
unfolding launch_job
launch_job-IsUnlisted a b statuses t s apart h =
    Always-bind (place_job-IsUnlisted a b statuses s apart h) (λ s' h'.
      elim (Bool-cases t.take_back) [
        | inr gone ↦ rw gone (Always-ok (λ (s', _). IsUnlisted b s') h')
        | inl back ↦ elim (Bool-cases t.restore) [
          | inl restored ↦ rw (back, restored) (Always-ok (λ (s', _). IsUnlisted b s') h')
          | inr failed ↦ rw (back, failed) (Always-ok (λ (s', _). IsUnlisted b s') h')
        ]
      ])

-- A handle that a command takes is another job's.
abbrev pub TakenApart : ℕ → Found × Shell → Type 0
TakenApart b (handle a, s) = ((b == a) ≡ false) × IsUnlisted b s
TakenApart b (bad_argument, s) = IsUnlisted b s
TakenApart b (absent, s) = IsUnlisted b s
TakenApart b (lost, s) = IsUnlisted b s

apart_listed :
    (b a : ℕ) (handles : List ℕ) → count b handles ≡ 0 → 0 < count a handles → (b == a) ≡ false
apart_listed b a handles none_listed on = elim (Bool-cases (b == a)) [
  | inl same ↦ let e = ap (λ c. count c handles) ((==_iff b a).0 same) in absurd (omega arith)
  | inr apart ↦ apart
]

Removed-TakenApart :
    (b : ℕ) (s : Shell) (found : Option ℕ) (current : List ℕ)
    → Removed s.current_job (found, current)
    → IsUnlisted b s
    → TakenApart b
        (elim found [ none ↦ lost | some a ↦ handle a ], record s { current_job = current })
Removed-TakenApart b s none current few (live, none_listed) =
    (live, omega (arith, none_listed, few b))
Removed-TakenApart b s (some a) current (on, few) (live, none_listed) = (
  apart_listed b a s.current_job (omega (arith, none_listed)) on,
  (live, omega (arith, none_listed, few b)),
)

take_handle-TakenApart :
    (b : ℕ) (index : ℤ) (s : Shell) → IsUnlisted b s → Always (take_handle index s) (TakenApart b)
unfolding take_handle
take_handle-TakenApart b index s h =
    let (i, at) = find_handle index 0 s.current_job in
    elim (Bool-cases (pos i ==ℤ index)) [
      | inr miss ↦ rw miss (Always-ok (TakenApart b) h)
      | inl hit ↦ elim (Option-cases at) [
        | inl no_handle ↦ rw (hit, no_handle) (λ a e. cc)
        | inr (a, at_handle) ↦
            rw (hit, at_handle)
              (Always-bind (any (load a s.heap)) (λ job _.
                Always-bind (remove_job_handle-Removed s.heap s.current_job job.pgid)
                  (λ (found, current) removed.
                    Always-ok (TakenApart b) (Removed-TakenApart b s found current removed h))))
      ]
    ]

pub get_job_handle-TakenApart :
    (b : ℕ) (args : List Bytes) (s : Shell)
    → IsUnlisted b s
    → Always (get_job_handle args s) (TakenApart b)
unfolding get_job_handle
get_job_handle-TakenApart b [] s h = take_handle-TakenApart b (pos 1) s h
get_job_handle-TakenApart b (name ∷ []) s h = take_handle-TakenApart b (pos 1) s h
get_job_handle-TakenApart b (name ∷ arg ∷ []) s h =
    let (n, ptr) = strtol arg in
    elim (Bool-cases (is_nil arg || not (is_nil ptr))) [
      | inl bad ↦ rw bad (Always-ok (TakenApart b) h)
      | inr good ↦ rw good (take_handle-TakenApart b (to_int n) s h)
    ]
get_job_handle-TakenApart b (name ∷ arg ∷ other ∷ others) s h = Always-ok (TakenApart b) h
