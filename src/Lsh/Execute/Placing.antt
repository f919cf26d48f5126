-- ===== src/Lsh/Execute/Placing.antt =====
-- Where `launch_job` of lsh/execute.c puts a job.
use akiso.Prelude.{
  ℕ, ◌+◌, ◌≡◌, refl, ap, ◌∙◌, some, List, [], ◌∷◌, ◌++◌, arith, ◌==◌, inl, inr, Bool-cases, ==_iff,
}
use akiso.Prelude.Run.{◌>>=◌, Gives, Gives-bind}
use akiso.Lsh.Job.{Job, update}
use akiso.Lsh.Job.Handles.{IsLive}
use akiso.Lsh.Execute.{
  Shell, emit, Status, Wait, note_status, terminate, add_job, wait_loop, start_waiting,
  wait_for_fg_job, Terminal, place_job, launch_job,
}
use akiso.Lsh.Execute.Waiting.{add_job_lem}
use akiso.Lsh.Execute.Valid.{
  count, count-append, count_equal, count_apart, IsValid, load-Gives, update-IsLive,
}

abbrev pub placed : ℕ → Shell → Shell
placed a s = record s { current_job = a ∷ s.current_job; pending_jobs = s.pending_jobs ++ (a ∷ []) }

pub IsValid-placed :
    (s : Shell) (a : ℕ)
    → IsValid s
    → IsLive s.heap a
    → count a s.current_job + count a s.pending_removed_jobs ≡ 0
    → IsValid (placed a s)
IsValid-placed s a valid here fresh b =
    let (once, live) = valid b in
    let added = count-append b s.pending_jobs (a ∷ []) in
    elim (Bool-cases (b == a)) [
      | inl same ↦
          let e = (==_iff b a).0 same in
          let fresh' = ap (λ x. count x s.current_job + count x s.pending_removed_jobs) e ∙ fresh in
          (
            omega (arith, count_equal b a s.current_job same),
            (λ on. let (job, found) = here in (job, ap s.heap.job_at e ∙ found)),
          )
      | inr apart ↦ (
        omega (arith, count_apart b a s.current_job apart),
        (λ on. live (omega (arith, count_apart b a s.current_job apart, count_apart b a [] apart))),
      )
    ]

add_job-IsValid :
    (a : ℕ) (s : Shell)
    → IsValid s
    → IsLive s.heap a
    → count a s.current_job + count a s.pending_removed_jobs ≡ 0
    → Gives (add_job a s) IsValid
add_job-IsValid a s valid here fresh =
    (placed a s, add_job_lem a s, IsValid-placed s a valid here fresh)

suspend-IsValid :
    (a : ℕ) (change : Job → Job) (s : Shell)
    → IsValid s
    → IsLive s.heap a
    → count a s.current_job + count a s.pending_removed_jobs ≡ 0
    → Gives (do heap ← update a change s.heap; add_job a (record s { heap = heap })) IsValid
suspend-IsValid a change s valid here fresh =
    Gives-bind (update-IsLive a change s.heap here) (λ h live.
      add_job-IsValid a (record s { heap = h })
        (λ b. let (once, found) = valid b in (once, λ on. live b (found on))) (live a here) fresh)

wait_loop-IsValid :
    (a : ℕ) (statuses : List Status) (w : Wait) (s : Shell)
    → IsValid s
    → IsLive s.heap a
    → count a s.current_job + count a s.pending_removed_jobs ≡ 0
    → Gives (wait_loop a statuses w s) IsValid
unfolding wait_loop
wait_loop-IsValid a [] w s valid here fresh = (s, refl, valid)
wait_loop-IsValid a (status ∷ statuses) w s valid here fresh =
    let w' = (note_status status w).0 in
    Gives-bind (load-Gives a s.heap here) (λ job e.
      elim (Bool-cases (w'.stopped_process_count == job.pipeline_size)) [
        | inl all ↦ elim (Bool-cases (note_status status w).1) [
          | inl ending ↦
              rw (all, ending) (suspend-IsValid a _ (emit (terminate job.pgid) s) valid here fresh)
          | inr going ↦ rw (all, going) (suspend-IsValid a _ s valid here fresh)
        ]
        | inr some_left ↦ elim (Bool-cases (note_status status w).1) [
          | inl ending ↦
              rw (some_left, ending)
                (wait_loop-IsValid a statuses w' (emit (terminate job.pgid) s) valid here fresh)
          | inr going ↦ rw (some_left, going) (wait_loop-IsValid a statuses w' s valid here fresh)
        ]
      ])

place_job-IsValid :
    (s : Shell) (a : ℕ) (statuses : List Status)
    → IsValid s
    → IsLive s.heap a
    → count a s.current_job + count a s.pending_removed_jobs ≡ 0
    → Gives (place_job (some a) statuses s) IsValid
unfolding place_job wait_for_fg_job
place_job-IsValid s a statuses valid here fresh = Gives-bind (load-Gives a s.heap here) (λ job e.
    elim (Bool-cases job.fg) [
      | inl fg ↦ rw fg (wait_loop-IsValid a statuses start_waiting s valid here fresh)
      | inr bg ↦ rw bg (add_job-IsValid a s valid here fresh)
    ])

-- `launch_job` of an allocated job that is neither a current nor a removed one never faults from a
-- valid state, whatever `waitpid` and the terminal answer, and whether it returns or jumps the state
-- is valid.
pub launch_job-IsValid :
    (s : Shell) (a : ℕ) (statuses : List Status) (t : Terminal)
    → IsValid s
    → IsLive s.heap a
    → count a s.current_job + count a s.pending_removed_jobs ≡ 0
    → Gives (launch_job (some a) statuses t s) (λ (s', _). IsValid s')
unfolding launch_job
launch_job-IsValid s a statuses t valid here fresh =
    Gives-bind (place_job-IsValid s a statuses valid here fresh) (λ s' valid'.
      elim (Bool-cases t.take_back) [
        | inr lost ↦ rw lost (_, refl, valid')
        | inl back ↦ elim (Bool-cases t.restore) [
          | inl restored ↦ rw (back, restored) (_, refl, valid')
          | inr failed ↦ rw (back, failed) (_, refl, valid')
        ]
      ])
