-- ===== src/Lsh/Shell/Children.antt =====
-- What the handler of SIGCHLD in lsh/main.c does to the lists of jobs.
use akiso.Prelude.{
  ℕ, ◌%◌, ◌^◌, ◌≡◌, refl, ap, ◌∙◌, false, Option, List, [], ◌∷◌, arith, ◌==◌, All, inl, inr,
  Bool-cases,
}
use akiso.Prelude.Int.{ℤ}
use akiso.Prelude.Run.{fault, Gives, Gives-bind}
use akiso.Lsh.Utility.{add_first, add_last}
use akiso.Lsh.Job.Handles.{
  IsLive, MatchesAt, Removal, taken, kept, remove_job_handle-Removal, remove_job_handle-none,
}
use akiso.Lsh.Execute.{Shell, Status, ended, halted}
use akiso.Lsh.Shell.{
  to_list, note_child, note_children, retire, check_jobs, check_others, handle_chld,
}
use akiso.Lsh.Execute.Valid.{
  count, count-append, count_move, add_last-append, IsValid, All-count, All-map, load-Gives,
  update-IsLive,
}

-- The lists are the same, and nothing is freed.
abbrev Keeps : Shell → Shell → Type 0
Keeps s t =
    (t.current_job ≡ s.current_job)
    × (t.pending_jobs ≡ s.pending_jobs)
    × (t.pending_removed_jobs ≡ s.pending_removed_jobs)
    × ((a : ℕ) → IsLive s.heap a → IsLive t.heap a)

note_child-Keeps :
    (status : Status) (a : ℕ) (s : Shell)
    → IsLive s.heap a
    → Gives (note_child status a s) (Keeps s)
unfolding note_child
note_child-Keeps (ended pid) a s here = Gives-bind (load-Gives a s.heap here) (λ j e.
    Gives-bind (update-IsLive a _ s.heap here) (λ h live. (_, refl, (refl, refl, refl, live))))
note_child-Keeps (halted pid signum) a s here = Gives-bind (load-Gives a s.heap here) (λ j e.
    Gives-bind (update-IsLive a _ s.heap here) (λ h live. (_, refl, (refl, refl, refl, live))))

note_children-Keeps :
    (statuses : List Status) (a : ℕ) (s : Shell)
    → IsLive s.heap a
    → Gives (note_children statuses a s) (Keeps s)
unfolding note_children
note_children-Keeps [] a s here = (s, refl, (refl, refl, refl, λ b live. live))
note_children-Keeps (status ∷ statuses) a s here =
    Gives-bind (note_child-Keeps status a s here) (λ t (current, pending, removed, live).
      let (u, run, (current', pending', removed', live')) =
        note_children-Keeps statuses a t (live a here) in
      (
        u,
        run,
        (current' ∙ current, pending' ∙ pending, removed' ∙ removed, (λ b l. live' b (live b l))),
      ))

IsValid-Keeps : (s t : Shell) → Keeps s t → IsValid s → IsValid t
IsValid-Keeps s t (current, pending, removed, live) valid a =
    let (once, here) = valid a in
    let same_current = ap (count a) current in
    let same_pending = ap (count a) pending in
    let same_removed = ap (count a) removed in (omega arith, λ on. live a (here (omega arith)))

abbrev moved : Shell → Option ℕ × List ℕ → Shell
moved s (removed, current) = record s {
  current_job = current;
  pending_removed_jobs = add_last s.pending_removed_jobs (to_list removed);
}

moved-IsValid :
    (s : Shell) (pid : ℤ) (r : Option ℕ × List ℕ)
    → Removal s.heap pid s.current_job r
    → IsValid s
    → IsValid (moved s r)
moved-IsValid s pid _ (taken before b after e _ _) valid a =
    let (once, here) = valid a in
    let listed = ap (count a) e in
    let apart = count_move a b before after in
    let added = ap (count a) (add_last-append s.pending_removed_jobs (b ∷ [])) in
    let split = count-append a s.pending_removed_jobs (b ∷ []) in
    (omega arith, λ on. here (omega arith))
moved-IsValid s pid _ (kept _) valid a =
    let (once, here) = valid a in
    let added = ap (count a) (add_last-append s.pending_removed_jobs []) in
    let split = count-append a s.pending_removed_jobs [] in (omega arith, λ on. here (omega arith))

retire-IsValid :
    (a : ℕ) (s : Shell)
    → IsLive s.heap a
    → IsValid s
    → Gives (retire a s) (λ t. (t.heap ≡ s.heap) × IsValid t)
unfolding retire
retire-IsValid a s here valid = Gives-bind (load-Gives a s.heap here) (λ j e.
    elim (Bool-cases (j.pipeline_size % 2 ^ 32 == 0)) [
      | inr size ↦ rw size (s, refl, (refl, valid))
      | inl size ↦ rw size (
          Gives-bind
            (remove_job_handle-Removal s.heap j.pgid s.current_job
              (All-count s.current_job (λ b on. (valid b).1 (omega arith))))
            (λ r removal. (_, refl, (refl, moved-IsValid s j.pgid r removal valid))))
    ])

check_jobs-IsValid :
    (handles : List ℕ) (answers : List (List Status)) (s : Shell)
    → All (IsLive s.heap) handles
    → IsValid s
    → Gives (check_jobs handles answers s) IsValid
unfolding check_jobs
check_jobs-IsValid [] answers s live valid = (s, refl, valid)
check_jobs-IsValid (a ∷ handles) [] s (here, live) valid =
    Gives-bind (retire-IsValid a s here valid) (λ t (same, valid').
      check_jobs-IsValid handles [] t
        (All-map handles (λ b (job, e). (job, ap (λ h. h.job_at b) same ∙ e)) live) valid')
check_jobs-IsValid (a ∷ handles) (statuses ∷ answers) s (here, live) valid =
    Gives-bind (note_children-Keeps statuses a s here) (λ t keeps.
      let (_, _, _, lives) = keeps in
      Gives-bind (retire-IsValid a t (lives a here) (IsValid-Keeps s t keeps valid))
        (λ u (same, valid').
          check_jobs-IsValid handles answers u
            (All-map handles
              (λ b on. let (job, e) = lives b on in (job, ap (λ h. h.job_at b) same ∙ e)) live)
            valid'))

-- From a valid state, and when `waitpid` names no child outside the current jobs, the handler of
-- SIGCHLD never faults, whatever it hears of the processes of each job, and the state is valid
-- afterwards.
pub handle_chld-IsValid :
    (s : Shell) (answers : List (List Status))
    → IsValid s
    → Gives (handle_chld answers [] s) IsValid
unfolding handle_chld check_others
handle_chld-IsValid s answers valid =
    Gives-bind
      (check_jobs-IsValid s.current_job answers s
        (All-count s.current_job (λ a on. (valid a).1 (omega arith))) valid)
      (λ t valid'. (t, refl, valid'))

-- A child that is the group of no current job makes the handler write through a null handle when
-- there are removed jobs that are not yet printed.
pub check_others-unknown :
    (s : Shell) (pid : ℤ) (pids : List ℤ) (a : ℕ) (removed : List ℕ)
    → All (MatchesAt s.heap pid false) s.current_job
    → s.pending_removed_jobs ≡ a ∷ removed
    → check_others (pid ∷ pids) s ≡ fault
unfolding check_others add_first
check_others-unknown s pid pids a removed unknown listed =
    rw (remove_job_handle-none s.heap pid s.current_job unknown, listed)
