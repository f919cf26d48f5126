-- ===== src/Lsh/Execute/Launch/First.antt =====
-- The first round of `start_job_internal` of lsh/execute.c, and with it the whole loop.
use akiso.Prelude.{
  ℕ, ◌+◌, ◌≡◌, refl, sym, ap, subst, ◌∙◌, Bool, true, false, Bool-cases, Option, none, some, List,
  [], ◌∷◌, ◌++◌, map, All, inl, inr,
}
use akiso.Prelude.Int.{pos}
use akiso.Prelude.Run.{Gives, Gives-bind}
use akiso.Lsh.Job.{Process}
use akiso.Lsh.Execute.Redirects.{Table}
use akiso.Lsh.Execute.Pipes.{Kernel, no_fd}
use akiso.Lsh.Execute.Launch.{
  Child, ChildEnd, executes, Launch, start_process, start_processes, is_last,
}
use akiso.Lsh.Execute.Launch.Linking.{Feeds, IsEnd, IsPlain, wire}
use akiso.Lsh.Execute.Launch.Looping.{writes, Round, start_process_last, start_process_middle}
use akiso.Lsh.Execute.Launch.Pipeline.{pipeline, endings, IsIn, start_processes-Started}
use akiso.Lsh.Execute.Launch.Ready.{Going, IsKernel, IsStandard}

-- The loop is done: the first child is its program, or reports an error that is not read yet; the
-- others are the rest of the pipeline, and all are in one group.
abbrev pub Looped : Kernel → Table → ℕ → Process → List Process → Launch → Type 0
Looped k base next p processes l =
    Going base true l
    × (ending : ChildEnd) × IsEnd (wire none (writes (is_last processes) next) base) p.arguments
        ending
    × (endings l ≡ ending ∷ pipeline base (next + 2 + 2) (some next) processes)
    × (pid : ℕ) × (l.pgid ≡ pos pid)
    × (k.fork 0 ≡ some pid)
    × All (IsIn l.pgid) l.children

pub pipeline_first :
    (base : Table) (next : ℕ) (from : Option ℕ) (p : Process) (processes : List Process)
    → pipeline base next from (p ∷ processes)
      ≡ executes (wire from (writes (is_last processes) next) base) p.arguments
        ∷ pipeline base (next + 2 + 2) (some next) processes
pipeline_first base next from p [] = refl
pipeline_first base next from p (q ∷ processes) = refl

module _ (k : Kernel) (base : Table) (p : Process) (last : Bool) (file next : ℕ) (l l1 : Launch)
    (none_started : l.children ≡ [])
    (round : Round k 0 base true last none file p l.children l.pgid next l1) where
  one_child : l1.children ≡ record { pid = round.0; group = l1.pgid; ending = round.1 } ∷ []
  one_child =
      let (pid, ending, is_end, done, forked) = round in
      let new : Child = record { pid = pid; group = l1.pgid; ending = ending } in
      done.added ∙ ap (λ older. older ++ new ∷ []) none_started

  one_ending : endings l1 ≡ round.1 ∷ []
  one_ending = ap (map (λ (c : Child). c.ending)) one_child

  one_group : All (IsIn l1.pgid) l1.children
  one_group = subst (All (IsIn l1.pgid)) (sym one_child) (refl, tt)

module _ (k : Kernel) (law : IsKernel k) (base : Table) (standard : IsStandard base)
    (fg : Bool) where
  first-Round :
      (p : Process) (processes : List Process) (l : Launch)
      → IsPlain p
      → Going base false l
      → Feeds l.prevfd none 0 l.table
      → l.first_error_pipe_read ≡ no_fd
      → Gives (start_process k 0 true (is_last processes) fg p l) (λ (well, l').
        well ≡ true
        → (next : ℕ) × Round k 0 base true
            (is_last processes)
            none
            l.next
            p
            l.children
            l.pgid
            next
            l'
          × (is_last processes ≡ false → next ≡ l.next + 2 + 2))
  first-Round p [] l simple going feeds none_yet =
      let (after, run, round) =
        start_process_last k law base standard 0 true fg p simple none l going feeds
          (λ h. none_yet) in
      (after, run, λ h. (l.next + 2, round h, λ e. cc))
  first-Round p (q ∷ processes) l simple going feeds none_yet =
      let (after, run, round) =
        start_process_middle k law base standard 0 true fg p simple none l going feeds
          (λ h. none_yet) in
      (after, run, λ h. (l.next + 2 + 2, round h, λ e. refl))

  -- The rest of a pipeline that is empty does not depend on the number of the next file.
  pipeline_next :
      (n m : ℕ) (from : Option ℕ) (processes : List Process)
      → (is_last processes ≡ false → n ≡ m)
      → pipeline base n from processes ≡ pipeline base m from processes
  pipeline_next n m from [] same = refl
  pipeline_next n m from (q ∷ processes) same =
      ap (λ i. pipeline base i from (q ∷ processes)) (same refl)

  pub start_processes-Looped :
      (p : Process) (processes : List Process) (l : Launch)
      → All IsPlain (p ∷ processes)
      → Going base false l
      → Feeds l.prevfd none 0 l.table
      → l.first_error_pipe_read ≡ no_fd
      → l.children ≡ []
      → Gives
          (start_processes k 0 true fg (p ∷ processes) l)
          (λ (well, l'). well ≡ true → Looped k base l.next p processes l')
  unfolding start_processes
  start_processes-Looped p processes l simple going feeds none_yet none_started =
      Gives-bind (first-Round p processes l simple.0 going feeds none_yet) (λ (well, l1) round.
        elim (Bool-cases well) [
          | inr gave_up ↦ rw gave_up (_, refl, λ h. cc)
          | inl going_on ↦
              let (next, (pid, ending, is_end, done, forked), same) = round going_on in
              let (after, run, started) =
                start_processes-Started k law base standard fg 1 (some l.next) processes l1 simple.1
                  done.going done.feeds in
              rw going_on (
                after,
                run,
                λ h.
                    let (going', group, ends, all) = started h in
                    (
                      going',
                      ending,
                      is_end,
                      ends
                          ∙ ap (λ es. es ++ pipeline base l1.next (some l.next) processes)
                              (one_ending k base p (is_last processes) l.next next l l1 none_started
                                (pid, ending, is_end, done, forked))
                          ∙ ap (◌∷◌ ending) (
                              pipeline_next l1.next (l.next + 2 + 2) (some l.next) processes
                                (λ last. done.same_next ∙ same last)),
                      pid,
                      group ∙ done.group,
                      forked,
                      subst (λ g. All (IsIn g) after.1.children) (sym group)
                          (all (
                            one_group k base p (is_last processes) l.next next l l1 none_started
                              (pid, ending, is_end, done, forked))),
                    ),
              )
        ])
