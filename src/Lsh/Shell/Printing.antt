-- ===== src/Lsh/Shell/Printing.antt =====
-- What `print_pending_jobs` of lsh/main.c leaves.
use akiso.Prelude.{
  ℕ, ◌≡◌, refl, ap, ◌∙◌, true, false, none, List, [], ◌∷◌, arith, ◌==◌, All, inl, inr, Bool-cases,
}
use akiso.Prelude.Int.{negsuc}
use akiso.Prelude.Run.{Gives, Gives-bind}
use akiso.Lsh.Job.{put_job, print_job}
use akiso.Lsh.Job.Handles.{IsLive, load-IsLive}
use akiso.Lsh.Execute.{Shell, Effect, emit, printed}
use akiso.Lsh.Shell.{print_pending, print_removed, print_pending_jobs}
use akiso.Lsh.Execute.Valid.{count, count_self, IsValid, All-count, count_equal, IsLive-free}

print_pending-Gives :
    (handles : List ℕ) (s : Shell)
    → s.pending_jobs ≡ handles
    → All (IsLive s.heap) handles
    → Gives (print_pending handles s) (λ t.
      (t.pending_jobs ≡ [])
      × (t.heap ≡ s.heap)
      × (t.current_job ≡ s.current_job)
      × (t.pending_removed_jobs ≡ s.pending_removed_jobs))
unfolding print_pending
print_pending-Gives [] s listed live = (s, refl, (listed, refl, refl, refl))
print_pending-Gives (a ∷ handles) s listed ((job, here), live) =
    let s' =
      emit (printed (print_job (negsuc 0) job false) ∷ []) (record s { pending_jobs = handles }) in
    let (t, run, same) = print_pending-Gives handles s' refl live in
    (t, rw (load-IsLive s.heap a job here) run, same)

-- The first removed job is freed.
pub IsValid-free :
    (s : Shell) (a : ℕ) (handles : List ℕ) (e : List Effect)
    → s.pending_removed_jobs ≡ a ∷ handles
    → s.pending_jobs ≡ []
    → IsValid s
    → IsValid (emit e (record s { pending_removed_jobs = handles; heap = put_job a none s.heap }))
IsValid-free s a handles e listed no_more valid b =
    let (once, live) = valid b in
    let before = ap (count b) listed in
    let no_pending = ap (count b) no_more in
    (
      omega arith,
      (λ on. elim (Bool-cases (b == a)) [
        | inl same ↦ absurd (omega (arith, count_equal b a handles same))
        | inr apart ↦ IsLive-free s.heap a b apart (live (omega arith))
      ]),
    )

-- The removed jobs are freed, and the others are as valid as they were.
print_removed-Gives :
    (handles : List ℕ) (s : Shell)
    → s.pending_removed_jobs ≡ handles
    → s.pending_jobs ≡ []
    → IsValid s
    → Gives (print_removed handles s) (λ t.
      (t.pending_removed_jobs ≡ [])
      × (t.pending_jobs ≡ [])
      × (t.current_job ≡ s.current_job)
      × IsValid t)
unfolding print_removed
print_removed-Gives [] s listed no_more valid = (s, refl, (listed, no_more, refl, valid))
print_removed-Gives (a ∷ handles) s listed no_more valid =
    let (job, here) = (valid a).1 (omega (arith, ap (count a) listed, count_self a handles)) in
    let (t, run, (gone, rest, same, valid')) =
      print_removed-Gives handles
        (emit (printed (print_job (negsuc 0) job true) ∷ [])
          (record s { pending_removed_jobs = handles; heap = put_job a none s.heap }))
        refl no_more
        (IsValid-free s a handles (printed (print_job (negsuc 0) job true) ∷ []) listed no_more
          valid) in
    (t, rw (load-IsLive s.heap a job here) run, (gone, rest, same, valid'))

IsValid-printed :
    (s t : Shell)
    → t.pending_jobs ≡ []
    → t.heap ≡ s.heap
    → t.current_job ≡ s.current_job
    → t.pending_removed_jobs ≡ s.pending_removed_jobs
    → IsValid s
    → IsValid t
IsValid-printed s t none_pending heap current removed valid a =
    let (once, live) = valid a in
    let no_pending = ap (count a) none_pending in
    let same_current = ap (count a) current in
    let same_removed = ap (count a) removed in
    (
      omega arith,
      (λ on. let (job, here) = live (omega arith) in (job, ap (λ h. h.job_at a) heap ∙ here)),
    )

-- From a valid state `print_pending_jobs` never faults. It empties the lists of pending and removed
-- jobs and leaves the list of the current jobs as it was, and the state is valid again.
pub print_pending_jobs-IsValid :
    (s : Shell)
    → IsValid s
    → Gives (print_pending_jobs s) (λ (t, _).
      (t.pending_jobs ≡ [])
      × (t.pending_removed_jobs ≡ [])
      × (t.current_job ≡ s.current_job)
      × IsValid t)
unfolding print_pending_jobs
print_pending_jobs-IsValid s valid =
    Gives-bind
      (print_pending-Gives s.pending_jobs s refl
        (All-count s.pending_jobs (λ a on. (valid a).1 (omega arith))))
      (λ t (none_pending, heap, current, removed).
        Gives-bind
          (print_removed-Gives t.pending_removed_jobs t refl none_pending
            (IsValid-printed s t none_pending heap current removed valid))
          (λ u (none_removed, still_none, same, valid').
            (_, refl, (still_none, none_removed, same ∙ current, valid'))))
