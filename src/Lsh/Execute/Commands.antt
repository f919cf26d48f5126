-- ===== src/Lsh/Execute/Commands.antt =====
-- The built-in commands of lsh/execute.c that take a job off the list of current jobs, and put it back.
use akiso.Prelude.{
  ℕ, ◌+◌, ◌<◌, ◌≤◌, ◌≡◌, refl, sym, ap, ◌∙◌, Bool, true, false, List, [], ◌∷◌, ◌++◌, arith, ◌==◌,
  inl, inr, Bool-cases, ==_iff, Bytes, length, append-nil,
}
use akiso.Prelude.Run.{Gives, Gives-bind}
use akiso.Lsh.Utility.{add_last}
use akiso.Lsh.Job.Handles.{IsLive}
use akiso.Lsh.Execute.{Shell, emit, Found, Ended, returned, jumped, killpg, sigcont}
use akiso.Lsh.Execute.Builtins.{Answers, fg_handle, do_fg, bg_handle, do_bg, launched}
use akiso.Lsh.Execute.Placing.{launch_job-IsValid}
use akiso.Lsh.Execute.Valid.{
  count, count-append, count_equal, count_apart, add_last-append, IsValid, load-Gives,
  update-IsLive,
}
use akiso.Lsh.Execute.Taking.{bad, none_found, one, get_job_handle-Taken, Taken}

-- Whether it returned or jumped, the state that a command left is valid.
abbrev pub IsEndedValid : Ended → Type 0
IsEndedValid (returned ret s) = IsValid s
IsEndedValid (jumped s) = IsValid s

-- A handle put at the end of the current jobs, and of the pending ones or not.
IsValid-added :
    (s t : Shell) (a : ℕ) (pending : List ℕ)
    → t.heap ≡ s.heap
    → t.pending_removed_jobs ≡ s.pending_removed_jobs
    → t.current_job ≡ add_last s.current_job (a ∷ [])
    → t.pending_jobs ≡ s.pending_jobs ++ pending
    → ((b : ℕ) → count b pending ≤ count b (a ∷ []))
    → IsValid s
    → IsLive s.heap a
    → count a s.current_job + count a s.pending_removed_jobs ≡ 0
    → IsValid t
IsValid-added s t a pending heap removed current listed few valid here fresh b =
    let (once, live) = valid b in
    let e1 = ap (count b) removed in
    let e2 = ap (count b) (current ∙ add_last-append s.current_job (a ∷ [])) in
    let e3 = count-append b s.current_job (a ∷ []) in
    let e4 = ap (count b) listed ∙ count-append b s.pending_jobs pending in
    let e5 = few b in
    elim (Bool-cases (b == a)) [
      | inl same ↦
          let e = (==_iff b a).0 same in
          let fresh' = ap (λ x. count x s.current_job + count x s.pending_removed_jobs) e ∙ fresh in
          (
            omega (arith, count_equal b a [] same),
            (λ on.
                let (job, found) = here in
                (job, ap (λ h. h.job_at b) heap ∙ ap s.heap.job_at e ∙ found)),
          )
      | inr apart ↦ (
        omega (arith, count_apart b a [] apart),
        (λ on.
            let (job, found) = live (omega (arith, count_apart b a [] apart)) in
            (job, ap (λ h. h.job_at b) heap ∙ found)),
      )
    ]

pub launched-IsEndedValid : (p : Shell × Bool) → IsValid p.0 → IsEndedValid (launched p)
launched-IsEndedValid (s, true) valid = valid
launched-IsEndedValid (s, false) valid = valid

fg_handle-IsEndedValid :
    (k : Answers) (p : Found × Shell) → Taken p → Gives (fg_handle p.0 k p.1) IsEndedValid
unfolding fg_handle
fg_handle-IsEndedValid k _ (bad s valid) = (_, refl, valid)
fg_handle-IsEndedValid k _ (none_found s valid) = (_, refl, valid)
fg_handle-IsEndedValid k _ (one a s valid here fresh) =
    Gives-bind (load-Gives a s.heap here) (λ job at. elim (Bool-cases k.given) [
      | inr failed_to_give ↦ rw failed_to_give (
        _,
        refl,
        IsValid-added s (record s { current_job = add_last s.current_job (a ∷ []) }) a [] refl refl
            refl (sym (append-nil s.pending_jobs)) (λ b. omega arith) valid here fresh,
      )
      | inl given ↦ rw given (
          Gives-bind (update-IsLive a _ s.heap here) (λ h live.
            let s' : Shell = emit (killpg job.pgid sigcont ∷ []) (record s { heap = h }) in
            Gives-bind
              (launch_job-IsValid s' a k.statuses k.terminal
                (λ b. let (once, found) = valid b in (once, λ on. live b (found on))) (live a here)
                fresh)
              (λ done valid'. (launched done, refl, launched-IsEndedValid done valid'))))
    ])

bg_handle-IsEndedValid : (p : Found × Shell) → Taken p → Gives (bg_handle p.0 p.1) IsEndedValid
unfolding bg_handle
bg_handle-IsEndedValid _ (bad s valid) = (_, refl, valid)
bg_handle-IsEndedValid _ (none_found s valid) = (_, refl, valid)
bg_handle-IsEndedValid _ (one a s valid here fresh) =
    Gives-bind (load-Gives a s.heap here) (λ job at.
      Gives-bind (update-IsLive a _ s.heap here) (λ h live. (
        _,
        refl,
        IsValid-added (record s { heap = h })
            (emit (killpg job.pgid sigcont ∷ []) (record s {
              heap = h;
              current_job = add_last s.current_job (a ∷ []);
              pending_jobs = add_last s.pending_jobs (a ∷ []);
            }))
            a (a ∷ []) refl refl refl (add_last-append s.pending_jobs (a ∷ [])) (λ b. omega arith)
            (λ b. let (once, found) = valid b in (once, λ on. live b (found on))) (live a here)
            fresh,
      )))

-- From a valid state with a current job, `fg` with any arguments and any answers of the kernel never
-- faults, and whether it returns or jumps it leaves a valid state.
pub do_fg-IsValid :
    (args : List Bytes) (k : Answers) (s : Shell)
    → IsValid s
    → 0 < length s.current_job
    → Gives (do_fg args k s) IsEndedValid
unfolding do_fg
do_fg-IsValid args k s valid some_job =
    Gives-bind (get_job_handle-Taken args s valid some_job) (λ p. fg_handle-IsEndedValid k p)

-- From a valid state with a current job, `bg` with any arguments never faults, and leaves a valid
-- state.
pub do_bg-IsValid :
    (args : List Bytes) (k : Answers) (s : Shell)
    → IsValid s
    → 0 < length s.current_job
    → Gives (do_bg args k s) IsEndedValid
unfolding do_bg
do_bg-IsValid args k s valid some_job =
    Gives-bind (get_job_handle-Taken args s valid some_job) (λ p. bg_handle-IsEndedValid p)
