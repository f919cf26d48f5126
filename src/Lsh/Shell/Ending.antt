-- ===== src/Lsh/Shell/Ending.antt =====
-- How the commands of lsh/execute.c end where the terminal can be taken back: none jumps to the
-- clean-up, and `exit` leaves no new pending job.
use akiso.Prelude.{
  ℕ, ◌≡◌, refl, Bool, true, false, Bool-cases, List, [], ◌∷◌, inl, inr, Bytes, All, if◌then◌else◌,
  Option, some, none,
}
use akiso.Prelude.Run.{Run, ◌>>=◌, Always, Always-ok, Always-bind}
use akiso.Lsh.Job.{Job, load, update, destroy_job}
use akiso.Lsh.Execute.{
  pr_exit, pr_syntax_error, Shell, Status, Terminal, launch_job, place_job, Found, bad_argument,
  absent, lost, handle, Ended, returned, jumped, get_job_handle, emit, killpg, sigcont,
}
use akiso.Lsh.Execute.Builtins.{
  Answers, cd_to, launched, do_cd, print_jobs, do_jobs, fg_handle, do_fg, bg_handle, do_bg, do_exit,
  start_job,
}
use akiso.Lsh.Execute.Launch.Whole.{start_job_internal}
use akiso.Lsh.Execute.Staying.{any}
use akiso.Lsh.Interpret.{builtins, destroy_after, run_job}
use akiso.Lsh.Interpret.Branches.{run_job-Always}

-- The terminal can be taken back and its settings be restored.
abbrev pub IsSteady : Answers → Type 0
IsSteady k = (k.terminal.take_back ≡ true) × (k.terminal.restore ≡ true)

abbrev pub EndsCalm : Ended → Type 0
EndsCalm (returned ret s) = ret ≡ pr_exit → s.pending_jobs ≡ []
EndsCalm (jumped s) = ⊥

launch_job_back :
    (job : Option ℕ) (statuses : List Status) (t : Terminal) (s : Shell)
    → t.take_back ≡ true
    → t.restore ≡ true
    → Always (launch_job job statuses t s) (λ (_, back). back ≡ true)
unfolding launch_job
launch_job_back job statuses t s back restored =
    Always-bind (any (place_job job statuses s))
      (λ s' _. rw (back, restored) (Always-ok (λ (_, b). b ≡ true) refl))

launched-EndsCalm : (p : Shell × Bool) → p.1 ≡ true → EndsCalm (launched p)
launched-EndsCalm (s, true) e = λ is_exit. cc
launched-EndsCalm (s, false) e = absurd cc

fg_handle-EndsCalm :
    (k : Answers) (found : Found) (s : Shell) → IsSteady k → Always (fg_handle found k s) EndsCalm
unfolding fg_handle
fg_handle-EndsCalm k bad_argument s steady = Always-ok EndsCalm (λ e. cc)
fg_handle-EndsCalm k absent s steady = Always-ok EndsCalm (λ e. cc)
fg_handle-EndsCalm k lost s steady = λ a e. cc
fg_handle-EndsCalm k (handle a) s (back, restored) = Always-bind (any (load a s.heap)) (λ job _.
    elim (Bool-cases k.given) [
      | inr refused ↦ rw refused (Always-ok EndsCalm (λ e. cc))
      | inl given ↦ rw given (
          Always-bind (any (update a _ s.heap)) (λ heap _.
            Always-bind
              (launch_job_back (some a) k.statuses k.terminal
                (emit (killpg job.pgid sigcont ∷ []) (record s { heap = heap })) back restored)
              (λ done well. Always-ok EndsCalm (launched-EndsCalm done well))))
    ])

bg_handle-EndsCalm : (found : Found) (s : Shell) → Always (bg_handle found s) EndsCalm
unfolding bg_handle
bg_handle-EndsCalm bad_argument s = Always-ok EndsCalm (λ e. cc)
bg_handle-EndsCalm absent s = Always-ok EndsCalm (λ e. cc)
bg_handle-EndsCalm lost s = λ a e. cc
bg_handle-EndsCalm (handle a) s =
    Always-bind (any (load a s.heap))
      (λ job _. Always-bind (any (update a _ s.heap)) (λ heap _. Always-ok EndsCalm (λ e. cc)))

cd_to-EndsCalm : (path : Bytes) (k : Answers) (s : Shell) → Always (cd_to path k s) EndsCalm
cd_to-EndsCalm path k s = elim (Bool-cases k.changed) [
  | inl well ↦ rw well (Always-ok EndsCalm (λ e. cc))
  | inr failed ↦ rw failed (Always-ok EndsCalm (λ e. cc))
]

do_cd-EndsCalm : (args : List Bytes) (k : Answers) (s : Shell) → Always (do_cd args k s) EndsCalm
unfolding do_cd
do_cd-EndsCalm [] k s = λ a e. cc
do_cd-EndsCalm (name ∷ []) k s = cd_to-EndsCalm k.home k s
do_cd-EndsCalm (name ∷ arg ∷ []) k s = cd_to-EndsCalm arg k s
do_cd-EndsCalm (name ∷ arg ∷ other ∷ others) k s = Always-ok EndsCalm (λ e. cc)

destroy_after-EndsCalm :
    (a : ℕ) (done : Ended) → EndsCalm done → Always (destroy_after a done) EndsCalm
unfolding destroy_after
destroy_after-EndsCalm a (returned ret s) calm =
    Always-bind (any (destroy_job a s.heap)) (λ heap _. Always-ok EndsCalm calm)
destroy_after-EndsCalm a (jumped s) calm = absurd calm

and_freed : (a : ℕ) {m : Run Ended} → Always m EndsCalm → Always (m >>= destroy_after a) EndsCalm
and_freed a always = Always-bind always (destroy_after-EndsCalm a)

builtins-EndsCalm :
    (a : ℕ) (k : Answers) (s : Shell)
    → IsSteady k
    → s.pending_jobs ≡ []
    → All
        (λ (_, command).
          (args : List Bytes) → Always (command args k s >>= destroy_after a) EndsCalm)
        builtins
unfolding do_jobs do_fg do_bg do_exit
builtins-EndsCalm a k s steady none_pending = (
  (λ args. and_freed a (do_cd-EndsCalm args k s)),
  (
    (λ args.
        and_freed a (
          Always-bind (any (print_jobs 1 s.current_job s)) (λ s' _. Always-ok EndsCalm (λ e. cc)))),
    (
      (λ args. and_freed a (
          Always-bind (any (get_job_handle args s))
            (λ (found, s') _. fg_handle-EndsCalm k found s' steady))),
      (
        (λ args. and_freed a (
            Always-bind (any (get_job_handle args s))
              (λ (found, s') _. bg_handle-EndsCalm found s'))),
        ((λ args. and_freed a (Always-ok EndsCalm (λ e. none_pending))), tt),
      ),
    ),
  ),
)

start_job-EndsCalm :
    (a : ℕ) (k : Answers) (s : Shell) → IsSteady k → Always (start_job a k s) EndsCalm
unfolding start_job
start_job-EndsCalm a k s (back, restored) = Always-bind (any (load a s.heap)) (λ job _.
    Always-bind (any (start_job_internal k.kernel job k.table k.next_file)) (λ (well, l) _.
      Always-bind (any (update a _ s.heap)) (λ heap _.
        Always-bind
          (launch_job_back (if well then some a else none) k.statuses k.terminal _ back restored)
          (λ done well'. Always-ok EndsCalm (launched-EndsCalm done well')))))

pub run_job-EndsCalm :
    (a : ℕ) (j : Job) (k : Answers) (s : Shell)
    → IsSteady k
    → s.pending_jobs ≡ []
    → Always (run_job a j k s) EndsCalm
run_job-EndsCalm a j k s steady none_pending =
    run_job-Always EndsCalm a j k s (builtins-EndsCalm a k s steady none_pending)
      (destroy_after-EndsCalm a (returned pr_syntax_error s) (λ e. cc))
      (start_job-EndsCalm a k s steady)
