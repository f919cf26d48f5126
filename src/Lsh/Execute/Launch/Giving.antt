-- ===== src/Lsh/Execute/Launch/Giving.antt =====
-- What `start_job_internal` of lsh/execute.c leaves where it gives up: its group is told to end.
use native.Mathlib.Nat.{lt_irrefl}
use akiso.Prelude.{
  zero, ℕ, suc, ◌+◌, ◌<◌, ◌≡◌, refl, subst, Bool, true, false, Bool-cases, some, Option-cases, List,
  [], ◌∷◌, ◌++◌, All, inl, inr, ◌⊎◌, arith, ◌==◌, if◌then◌else◌,
}
use akiso.Prelude.Int.{pos, ltb_ℤ}
use akiso.Prelude.Run.{Always, Always-bind, Always-ok}
use akiso.Lsh.Job.{Process, Job}
use akiso.Lsh.Execute.{Effect, message, terminate}
use akiso.Lsh.Execute.Redirects.{Table}
use akiso.Lsh.Execute.Pipes.{Kernel, Fds, no_fd, create_pipe}
use akiso.Lsh.Execute.Launch.{
  ChildEnd, Launch, child, parent, fork_process, with_error_pipe, with_pipe, start_process,
  start_processes, is_last,
}
use akiso.Lsh.Execute.Launch.Pipeline.{IsIn}
use akiso.Lsh.Execute.Launch.Whole.{
  first_heard, finish, give_up, start_launch, with_control, start_job_internal,
}
use akiso.Lsh.Execute.Launch.Grouping.{
  InGroup, Grouped, IsAlone, any, listen-InGroup, parent_first-InGroup, parent_later-InGroup,
  Before, Left, InGroup-Left, Before-Left, Before-same, well-InGroup,
}

-- The pids that the kernel gives are positive.
abbrev pub IsForking : Kernel → Type 0
IsForking k = (i pid : ℕ) → k.fork i ≡ some pid → 0 < pid

module _ (k : Kernel) (law : IsForking k) where
  parent-Left :
      (i : ℕ) (first last : Bool) (pid : ℕ) (ending : ChildEnd) (l : Launch)
      → 0 < pid
      → Before first l
      → Always (parent k i first last pid ending l) (Left first)
  parent-Left i true last zero ending l positive before = elim (lt_irrefl 0 positive) [ ]
  parent-Left i true last (suc pid) ending l positive before =
      λ a run. InGroup-Left true a (parent_first-InGroup k i last ending l pid before a run)
  parent-Left i false last pid ending l positive before =
      parent_later-InGroup k i last ending l pid before

  fork_process-Left :
      (i : ℕ) (first last fg : Bool) (p : Process) (l : Launch)
      → Before first l
      → Always (fork_process k i first last fg p l) (Left first)
  unfolding fork_process
  fork_process-Left i first last fg p l before = elim (Option-cases (k.fork i)) [
    | inl refused ↦ rw (fork_process, refused) (Always-ok (Left first) (Before-Left first l before))
    | inr (pid, forked) ↦
        rw (fork_process, forked)
          (Always-bind (any (child k i first last fg p l))
            (λ ending _. parent-Left i first last pid ending l (law i pid forked) before))
  ]

  with_error_pipe-Left :
      (i : ℕ) (first last fg : Bool) (p : Process) (l : Launch) (m : Bool × Fds × Table)
      → Before first l
      → Always (with_error_pipe k i first last fg p l m) (Left first)
  unfolding with_error_pipe
  with_error_pipe-Left i first last fg p l (true, fds, table) before =
      fork_process-Left i first last fg p _ (Before-same first l _ refl refl refl before)
  with_error_pipe-Left i first last fg p l (false, fds, table) before =
      Always-ok (Left first) (Before-Left first _ (Before-same first l _ refl refl refl before))

  start_process-Left :
      (i : ℕ) (first last fg : Bool) (p : Process) (l : Launch)
      → Before first l
      → Always (start_process k i first last fg p l) (Left first)
  unfolding start_process with_pipe
  start_process-Left i first true fg p l before =
      with_error_pipe-Left i first true fg p l (create_pipe k true l.next l.error_pipe l.table)
        before
  start_process-Left i first false fg p l before =
      elim (Bool-cases (create_pipe k true l.next l.pipefds l.table).0) [
        | inr refused ↦ rw refused (
            Always-ok (Left first)
              (Before-Left first _ (Before-same first l _ refl refl refl before)))
        | inl made ↦
            let (_, pipefds, table) = create_pipe k true l.next l.pipefds l.table in
            let l' : Launch = record l { table = table; pipefds = pipefds; next = l.next + 2 } in
            rw made (
              with_error_pipe-Left i first false fg p l'
                (create_pipe k true l'.next l'.error_pipe l'.table)
                (Before-same first l l' refl refl refl before))
      ]

  start_processes-Left :
      (i : ℕ) (first fg : Bool) (processes : List Process) (l : Launch)
      → (processes ≡ [] → InGroup l)
      → Before first l
      → Always (start_processes k i first fg processes l) (Left first)
  unfolding start_processes
  start_processes-Left i first fg [] l in_group before =
      Always-ok (Left first) (InGroup-Left first (true, l) (in_group refl))
  start_processes-Left i first fg (p ∷ processes) l in_group before =
      Always-bind (start_process-Left i first (is_last processes) fg p l before) (λ (well, l') left.
        elim (Bool-cases well) [
          | inr gave_up ↦
              rw gave_up (Always-ok (Left first) (subst (λ w. Left first (w, l')) gave_up left))
          | inl going_on ↦
              let grouped = well-InGroup first l' (subst (λ w. Left first (w, l')) going_on left) in
              rw going_on (λ a run.
                InGroup-Left first a
                  (start_processes-Left (i + 1) false fg processes l' (λ h. grouped) grouped a run))
        ])

  finish-Grouped : (l : Launch) → InGroup l → Always (finish k l) Grouped
  unfolding finish
  finish-Grouped l in_group =
      Always-bind (listen-InGroup (first_heard k l.children) _ in_group) (λ (well, l') after.
        elim (Bool-cases well) [
          | inr not_well ↦ rw not_well (Always-ok Grouped after)
          | inl is_well ↦ rw is_well (Always-ok Grouped after)
        ])

-- No child was started; or there is a group, which has all the children and is told to end.
abbrev pub IsGivenUp : Launch → Type 0
IsGivenUp l =
    (l.children ≡ [])
    ⊎ ((pid : ℕ) × (l.pgid ≡ pos (suc pid))
        × All (IsIn l.pgid) l.children
        × (others : List Effect) × (l.effects ≡ terminate l.pgid ++ others))

give_up-IsGivenUp : (l : Launch) → IsAlone l ⊎ InGroup l → IsGivenUp (give_up l)
unfolding give_up
give_up-IsGivenUp l (inl alone) = inl (alone.0)
give_up-IsGivenUp l (inr (pid, in_group, all, quiet)) =
    let positive : ltb_ℤ (pos 0) (pos (suc pid)) ≡ true = ground arith in
    inr (
      pid,
      in_group,
      all,
      (if l.child_errno == 0 then [] else message ∷ []),
      rw (quiet, in_group, positive) refl,
    )

abbrev IsLeft : Bool × Launch → Type 0
IsLeft (well, l) = well ≡ false → IsGivenUp l

-- Where the result is -1, with children or without.
pub start_job_internal-IsGivenUp :
    (k : Kernel) (job : Job) (table : Table) (next : ℕ) (p : Process) (processes : List Process)
    → IsForking k
    → job.pipeline ≡ p ∷ processes
    → Always (start_job_internal k job table next) (λ (well, l). well ≡ false → IsGivenUp l)
unfolding start_job_internal with_control
start_job_internal-IsGivenUp k job table next p processes law pipeline_is =
    let (made, control, table') = create_pipe k true next (no_fd, no_fd) table in
    let l = start_launch control table' (next + 2) job in
    elim (Bool-cases made) [
      | inr refused ↦ rw refused (Always-ok IsLeft (λ h. inl refl))
      | inl is_made ↦
          rw (is_made, pipeline_is)
            (Always-bind
              (start_processes-Left k law 0 true job.fg (p ∷ processes) l (λ h. cc) (refl, refl))
              (λ (well, l') left. elim (Bool-cases well) [
                | inr gave_up ↦ rw gave_up (
                    Always-ok IsLeft
                      (λ h. give_up-IsGivenUp l' (subst (λ w. Left true (w, l')) gave_up left)))
                | inl going_on ↦ rw going_on (
                    Always-bind
                      (finish-Grouped k law l' (subst (λ w. Left true (w, l')) going_on left))
                      (λ (well', l'') grouped. elim (Bool-cases well') [
                        | inr not_well ↦
                            rw not_well
                              (Always-ok IsLeft (λ h. give_up-IsGivenUp l'' (inr grouped)))
                        | inl is_well ↦ rw is_well (Always-ok IsLeft (λ h. cc))
                      ]))
              ]))
    ]
