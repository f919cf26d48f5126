-- ===== src/Lsh/Shell/Cleanup.antt =====
-- What `cleanup` of lsh/main.c frees, and when it reads what it has freed.
use akiso.Prelude.{
  ℕ, ◌+◌, ◌<◌, ◌≤◌, ◌≡◌, refl, ap, ◌∙◌, false, none, some, List, [], ◌∷◌, ◌++◌, arith, ◌==◌, inl,
  inr, Bool-cases,
}
use akiso.Prelude.Run.{fault, ◌>>=◌, Gives, Gives-bind}
use akiso.Lsh.Job.{Job, Heap, put_job}
use akiso.Lsh.Job.Handles.{IsLive, load-IsLive}
use akiso.Lsh.Execute.{
  Shell, emit, message, killpg, sighup, sigcont, Status, Terminal, launch_job, place_job,
}
use akiso.Lsh.Execute.Waiting.{add_job_lem}
use akiso.Lsh.Execute.Placing.{placed, IsValid-placed}
use akiso.Lsh.Shell.{kill_jobs, print_pending, print_pending_jobs, cleanup}
use akiso.Lsh.Execute.Valid.{
  count, count_self, count_equal, count_apart, stays_free, IsValid, IsLive-free, load-Gives,
  load_free,
}
use akiso.Lsh.Shell.Printing.{print_pending_jobs-IsValid}

abbrev killed : ℕ → Job → List ℕ → Shell → Shell
killed a job handles s =
    emit (killpg job.pgid sighup ∷ killpg job.pgid sigcont ∷ [])
      (record s { current_job = handles; heap = put_job a none s.heap })

-- What `kill_jobs` leaves.
abbrev Killed : Shell → Shell → Type 0
Killed s t =
    (t.current_job ≡ [])
    × (t.pending_jobs ≡ s.pending_jobs)
    × (t.pending_removed_jobs ≡ s.pending_removed_jobs)
    × ((a : ℕ) → count a s.current_job ≡ 0 → IsLive s.heap a → IsLive t.heap a)
    × ((a : ℕ) → 0 < count a s.current_job → t.heap.job_at a ≡ none)
    × ((a : ℕ) → s.heap.job_at a ≡ none → t.heap.job_at a ≡ none)

Killed-cons :
    (a : ℕ) (job : Job) (handles : List ℕ) (s t : Shell)
    → s.current_job ≡ a ∷ handles
    → Killed (killed a job handles s) t
    → Killed s t
Killed-cons a job handles s t listed (none_left, pending, removed, live, freed, free) =
    let on_list : (b : ℕ) → count b s.current_job ≡ count b (a ∷ handles) =
      λ b. ap (count b) listed in
    (
      none_left,
      pending,
      removed,
      (λ b off here. elim (Bool-cases (b == a)) [
        | inl same ↦ absurd (omega (arith, on_list b, count_equal b a handles same))
        | inr apart ↦
            live b (omega (arith, on_list b, count_apart b a handles apart))
              (IsLive-free s.heap a b apart here)
      ]),
      (λ b on. elim (Bool-cases (b == a)) [
        | inl same ↦ free b (rw same)
        | inr apart ↦ freed b (omega (arith, on_list b, count_apart b a handles apart))
      ]),
      (λ b gone. free b (stays_free s.heap a b gone)),
    )

-- The jobs behind the first are not the first, and are as they were.
rest-once :
    (h : Heap) (a : ℕ) (handles : List ℕ)
    → ((b : ℕ) → (count b (a ∷ handles) ≤ 1) × (0 < count b (a ∷ handles) → IsLive h b))
    → (b : ℕ) → (count b handles ≤ 1) × (0 < count b handles → IsLive (put_job a none h) b)
rest-once h a handles all b =
    let (once, live) = all b in
    (
      omega arith,
      (λ on. elim (Bool-cases (b == a)) [
        | inl same ↦ absurd (omega (arith, count_equal b a handles same))
        | inr apart ↦ IsLive-free h a b apart (live (omega arith))
      ]),
    )

-- Each job stands once on the list, so that none is freed twice.
kill_jobs-Killed :
    (handles : List ℕ) (s : Shell)
    → s.current_job ≡ handles
    → ((a : ℕ) → (count a handles ≤ 1) × (0 < count a handles → IsLive s.heap a))
    → Gives (kill_jobs handles s) (Killed s)
unfolding kill_jobs
kill_jobs-Killed [] s listed h = (
  s,
  refl,
  (
    listed,
    refl,
    refl,
    (λ a _ live. live),
    (λ a on. absurd (omega (arith, ap (count a) listed))),
    (λ a free. free),
  ),
)
kill_jobs-Killed (a ∷ handles) s listed h =
    Gives-bind (load-Gives a s.heap ((h a).1 (omega (arith, count_self a handles)))) (λ job here.
      let s' = killed a job handles s in
      let (t, run, after) = kill_jobs-Killed handles s' refl (rest-once s.heap a handles h) in
      (t, rw (load-IsLive s.heap a job here) run, Killed-cons a job handles s t listed after))

-- From a valid state with no pending job, `cleanup` never faults and leaves all three lists empty.
pub cleanup-IsValid :
    (s : Shell)
    → IsValid s
    → s.pending_jobs ≡ []
    → Gives
        (cleanup s)
        (λ t. (t.current_job ≡ []) × (t.pending_jobs ≡ []) × (t.pending_removed_jobs ≡ []))
unfolding cleanup
cleanup-IsValid s valid none_pending =
    Gives-bind
      (kill_jobs-Killed s.current_job s refl
        (λ a. let (once, live) = valid a in (omega arith, λ on. live (omega arith))))
      (λ t (none_left, pending, removed, live, freed, free).
        let valid' : IsValid t = λ a.
          let (once, here) = valid a in
          let no_current = ap (count a) none_left in
          let no_pending = ap (count a) (pending ∙ none_pending) in
          let same_removed = ap (count a) removed in
          (omega arith, λ on. live a (omega arith) (here (omega arith))) in
        Gives-bind (print_pending_jobs-IsValid t valid')
          (λ (u, _) (pending', removed', current', _).
            (u, refl, (current' ∙ none_left, pending', removed'))))

print_freed :
    (s : Shell) (a : ℕ) (rest : List ℕ)
    → s.pending_jobs ≡ a ∷ rest
    → s.heap.job_at a ≡ none
    → print_pending_jobs s ≡ fault
unfolding print_pending_jobs print_pending
print_freed s a rest listed free = rw (listed, load_free a s.heap free)

cleanup-freed :
    (s : Shell) (a : ℕ) (rest : List ℕ)
    → IsValid s
    → 0 < count a s.current_job
    → s.pending_jobs ≡ a ∷ rest
    → cleanup s ≡ fault
unfolding cleanup
cleanup-freed s a rest valid on listed =
    let (t, run, (none_left, pending, removed, live, freed, free)) =
      kill_jobs-Killed s.current_job s refl
        (λ b. let (once, here) = valid b in (omega arith, λ on'. here (omega arith))) in
    rw (run, print_freed t a rest (pending ∙ listed) (freed a on))

-- When a background job that is neither a current nor a removed one is launched from a valid state
-- with no pending job, and the terminal cannot be taken back, the jump to the clean-up ends in a read
-- of freed memory: `cleanup` frees the new job among the current jobs and then prints it among the
-- pending ones.
pub launch_job-cleanup :
    (s : Shell) (a : ℕ) (job : Job) (statuses : List Status) (t : Terminal)
    → IsValid s
    → s.pending_jobs ≡ []
    → s.heap.job_at a ≡ some job
    → job.fg ≡ false
    → count a s.current_job + count a s.pending_removed_jobs ≡ 0
    → t.take_back ≡ false
    → (launch_job (some a) statuses t s >>= λ (s', _). cleanup s') ≡ fault
unfolding launch_job place_job
launch_job-cleanup s a job statuses t valid none_pending here background fresh lost =
    rw (load-IsLive s.heap a job here, background, add_job_lem, lost)
      (cleanup-freed (emit (message ∷ []) (placed a s)) a []
        (IsValid-placed s a valid (job, here) fresh) (omega (arith, count_self a s.current_job))
        (ap (λ l. l ++ (a ∷ [])) none_pending))
