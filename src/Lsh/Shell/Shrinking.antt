-- ===== src/Lsh/Shell/Shrinking.antt =====
-- The code of lsh/execute.c and lsh/main.c puts no job at an address that is free: only
-- `interpret_line` allocates one.
use akiso.Prelude.{
  ℕ, ◌≡◌, refl, sym, ap, ◌∙◌, Bool, true, false, not, ◌||◌, Bool-cases, none, some, Option,
  Option-cases, List, [], ◌∷◌, ◌==◌, ==_iff, inl, inr, Bytes, if◌then◌else◌,
}
use akiso.Prelude.Int.{ℤ, pos, ◌==ℤ◌}
use akiso.Prelude.Run.{Always, Always-ok, Always-bind}
use akiso.Libc.{strtol, to_int}
use akiso.Lsh.Job.{Job, Heap, load, update, put_job, destroy_job, remove_job_handle}
use akiso.Lsh.Execute.{
  Shell, emit, Status, Wait, note_status, terminate, add_job, wait_loop, start_waiting,
  wait_for_fg_job, Terminal, place_job, launch_job, Found, find_handle, take_handle, get_job_handle,
  is_nil, Ended, returned, jumped,
}
use akiso.Lsh.Execute.Staying.{any}
use akiso.Lsh.Execute.Waiting.{add_job_lem}

-- What is free in the heap before is free in the shell's.
abbrev pub IsWithin : Heap → Shell → Type 0
IsWithin h s = (s.heap.next ≡ h.next) × ((b : ℕ) → h.job_at b ≡ none → s.heap.job_at b ≡ none)

abbrev pub EndsWithin : Heap → Ended → Type 0
EndsWithin h (returned ret s) = IsWithin h s
EndsWithin h (jumped s) = IsWithin h s

abbrev Within : Heap → Heap → Type 0
Within h h' = (h'.next ≡ h.next) × ((b : ℕ) → h.job_at b ≡ none → h'.job_at b ≡ none)

load-some : (a : ℕ) (h : Heap) → Always (load a h) (λ job. h.job_at a ≡ some job)
unfolding load
load-some a h = elim (Option-cases (h.job_at a)) [
  | inl free ↦ rw (load, free) (λ job e. cc)
  | inr (job, here) ↦ rw (load, here) (Always-ok (λ j. some job ≡ some j) refl)
]

put_job-Within :
    (a : ℕ) (old : Job) (content : Option Job) (h h' : Heap)
    → h'.job_at a ≡ some old
    → Within h h'
    → Within h (put_job a content h')
put_job-Within a old content h h' here (next, free) = (
  next,
  λ b free_b. elim (Bool-cases (b == a)) [
    | inl same ↦
        let e : none ≡ some old = sym (free b free_b) ∙ ap h'.job_at ((==_iff b a).0 same) ∙ here in
        cc
    | inr apart ↦ rw apart (free b free_b)
  ],
)

pub update-Within :
    (a : ℕ) (change : Job → Job) (h h' : Heap)
    → Within h h'
    → Always (update a change h') (Within h)
unfolding update
update-Within a change h h' within =
    Always-bind (load-some a h')
      (λ job here. Always-ok (Within h) (put_job-Within a job (some (change job)) h h' here within))

pub destroy_job-Within : (a : ℕ) (h h' : Heap) → Within h h' → Always (destroy_job a h') (Within h)
unfolding destroy_job
destroy_job-Within a h h' within =
    Always-bind (load-some a h')
      (λ job here. Always-ok (Within h) (put_job-Within a job none h h' here within))

module _ (h : Heap) where
  add_job-IsWithin : (a : ℕ) (s : Shell) → IsWithin h s → Always (add_job a s) (IsWithin h)
  add_job-IsWithin a s within = rw (add_job_lem a s) (Always-ok (IsWithin h) within)

  wait_loop-IsWithin :
      (a : ℕ) (statuses : List Status) (w : Wait) (s : Shell)
      → IsWithin h s
      → Always (wait_loop a statuses w s) (IsWithin h)
  unfolding wait_loop
  wait_loop-IsWithin a [] w s within = Always-ok (IsWithin h) within
  wait_loop-IsWithin a (status ∷ statuses) w s within =
      let (w', ending) = note_status status w in
      Always-bind (any (load a s.heap)) (λ job _.
        let s' = if ending then emit (terminate job.pgid) s else s in
        let within' : IsWithin h s' = told ending job s within in
        elim (Bool-cases (w'.stopped_process_count == job.pipeline_size)) [
          | inl all ↦ rw all (
              Always-bind (update-Within a _ h s'.heap within')
                (λ heap within''. add_job-IsWithin a (record s' { heap = heap }) within''))
          | inr some_left ↦ rw some_left (wait_loop-IsWithin a statuses w' s' within')
        ])
    where
      told :
          (ending : Bool) (job : Job) (s : Shell)
          → IsWithin h s
          → IsWithin h (if ending then emit (terminate job.pgid) s else s)
      told true job s within = within
      told false job s within = within

  place_job-IsWithin :
      (job : Option ℕ) (statuses : List Status) (s : Shell)
      → IsWithin h s
      → Always (place_job job statuses s) (IsWithin h)
  unfolding place_job wait_for_fg_job
  place_job-IsWithin none statuses s within = Always-ok (IsWithin h) within
  place_job-IsWithin (some a) statuses s within = Always-bind (any (load a s.heap)) (λ job _.
      elim (Bool-cases job.fg) [
        | inl fg ↦ rw fg (wait_loop-IsWithin a statuses start_waiting s within)
        | inr bg ↦ rw bg (add_job-IsWithin a s within)
      ])

  pub launch_job-IsWithin :
      (job : Option ℕ) (statuses : List Status) (t : Terminal) (s : Shell)
      → IsWithin h s
      → Always (launch_job job statuses t s) (λ (s', _). IsWithin h s')
  unfolding launch_job
  launch_job-IsWithin job statuses t s within =
      Always-bind (place_job-IsWithin job statuses s within) (λ s' within'.
        elim (Bool-cases t.take_back) [
          | inr gone ↦ rw gone (Always-ok (λ (s', _). IsWithin h s') within')
          | inl back ↦ elim (Bool-cases t.restore) [
            | inl restored ↦ rw (back, restored) (Always-ok (λ (s', _). IsWithin h s') within')
            | inr failed ↦ rw (back, failed) (Always-ok (λ (s', _). IsWithin h s') within')
          ]
        ])

  abbrev pub FoundWithin : Found × Shell → Type 0
  FoundWithin (found, s) = IsWithin h s

  take_handle-IsWithin :
      (index : ℤ) (s : Shell) → IsWithin h s → Always (take_handle index s) FoundWithin
  unfolding take_handle
  take_handle-IsWithin index s within =
      let (i, at) = find_handle index 0 s.current_job in
      elim (Bool-cases (pos i ==ℤ index)) [
        | inr miss ↦ rw miss (Always-ok FoundWithin within)
        | inl hit ↦ elim (Option-cases at) [
          | inl no_handle ↦ rw (hit, no_handle) (λ a e. cc)
          | inr (a, at_handle) ↦
              rw (hit, at_handle)
                (Always-bind (any (load a s.heap)) (λ job _.
                  Always-bind (any (remove_job_handle s.heap s.current_job job.pgid))
                    (λ (found, current) _. Always-ok FoundWithin within)))
        ]
      ]

  pub get_job_handle-IsWithin :
      (args : List Bytes) (s : Shell) → IsWithin h s → Always (get_job_handle args s) FoundWithin
  unfolding get_job_handle
  get_job_handle-IsWithin [] s within = take_handle-IsWithin (pos 1) s within
  get_job_handle-IsWithin (name ∷ []) s within = take_handle-IsWithin (pos 1) s within
  get_job_handle-IsWithin (name ∷ arg ∷ []) s within =
      let (n, ptr) = strtol arg in
      elim (Bool-cases (is_nil arg || not (is_nil ptr))) [
        | inl bad ↦ rw bad (Always-ok FoundWithin within)
        | inr good ↦ rw good (take_handle-IsWithin (to_int n) s within)
      ]
  get_job_handle-IsWithin (name ∷ arg ∷ other ∷ others) s within = Always-ok FoundWithin within
