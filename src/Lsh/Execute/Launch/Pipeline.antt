-- ===== src/Lsh/Execute/Launch/Pipeline.antt =====
-- The abstract view of `start_job_internal` of lsh/execute.c: which files the programs of a pipeline
-- read and write. The loop gives each process those.
use mathlib.Core.List.{map-append}
use akiso.Prelude.{
  ℕ, ◌+◌, ◌≡◌, refl, sym, ap, ap₂, subst, ◌∙◌, Bool, true, false, Bool-cases, Option, none, some,
  List, [], ◌∷◌, ◌++◌, map, append_assoc, append-nil, All, All-append, inl, inr,
}
use akiso.Prelude.Int.{ℤ}
use akiso.Prelude.Run.{Gives, Gives-bind}
use akiso.Lsh.Job.{Process}
use akiso.Lsh.Execute.Redirects.{Table}
use akiso.Lsh.Execute.Pipes.{Kernel}
use akiso.Lsh.Execute.Launch.{Child, ChildEnd, executes, Launch, start_processes, is_last}
use akiso.Lsh.Execute.Launch.Linking.{Feeds, IsPlain, wire}
use akiso.Lsh.Execute.Launch.Looping.{writes, Round, start_process_last, start_process_middle}
use akiso.Lsh.Execute.Launch.Ready.{Going, IsKernel, IsStandard}

-- The programs, where `next` is the number of the next file and the first of them reads `from`: each
-- writes the end of a new pipe that the next one reads, and the last one writes where the shell does.
-- (Behind each pipe two numbers are those of an error pipe.)
abbrev pub pipeline : Table → ℕ → Option ℕ → List Process → List ChildEnd
pipeline base next from [] = []
pipeline base next from (p ∷ []) = executes (wire from none base) p.arguments ∷ []
pipeline base next from (p ∷ q ∷ processes) =
    executes (wire from (some (next + 1)) base) p.arguments
    ∷ pipeline base (next + 2 + 2) (some next) (q ∷ processes)

abbrev pub endings : Launch → List ChildEnd
endings l = map (λ (c : Child). c.ending) l.children

abbrev pub IsIn : ℤ → Child → Type 0
IsIn pgid c = c.group ≡ pgid

-- The processes behind the first one are started.
abbrev pub Started : Table → Option ℕ → List Process → Launch → Launch → Type 0
Started base from processes l l' =
    Going base true l'
    × (l'.pgid ≡ l.pgid)
    × (endings l' ≡ endings l ++ pipeline base l.next from processes)
    × (All (IsIn l.pgid) l.children → All (IsIn l.pgid) l'.children)

module _ (k : Kernel) (i : ℕ) (base : Table) (p : Process) (from : Option ℕ) (last : Bool)
    (file next : ℕ) (l l' : Launch)
    (round : Round k i base false last from file p l.children l.pgid next l') where
  later-endings :
      endings l' ≡ endings l ++ executes (wire from (writes last file) base) p.arguments ∷ []
  later-endings =
      let (pid, ending, is_end, done, forked) = round in
      ap (map (λ (c : Child). c.ending)) done.added
      ∙ map-append (λ (c : Child). c.ending) l.children _
      ∙ ap (λ e. endings l ++ e ∷ []) (done.runs refl)

  later-group : All (IsIn l.pgid) l.children → All (IsIn l.pgid) l'.children
  later-group all =
      let (pid, ending, is_end, done, forked) = round in
      subst (All (IsIn l.pgid)) (sym done.added)
        (All-append (IsIn l.pgid) l.children _ all (done.group, tt))

module _ (k : Kernel) (law : IsKernel k) (base : Table) (standard : IsStandard base)
    (fg : Bool) where
  pub start_processes-Started :
      (i : ℕ) (from : Option ℕ) (processes : List Process) (l : Launch)
      → All IsPlain processes
      → Going base (is_last processes) l
      → (is_last processes ≡ false → Feeds l.prevfd from 0 l.table)
      → Gives
          (start_processes k i false fg processes l)
          (λ (well, l'). well ≡ true → Started base from processes l l')
  unfolding start_processes
  start_processes-Started i from [] l simple going feeds =
      (_, refl, λ h. (going, refl, sym (append-nil (endings l)), λ all. all))
  start_processes-Started i from (p ∷ []) l simple going feeds =
      Gives-bind
        (start_process_last k law base standard i false fg p simple.0 from l going (feeds refl)
          (λ h. cc))
        (λ (well, l1) round. elim (Bool-cases well) [
          | inr gave_up ↦ rw gave_up (_, refl, λ h. cc)
          | inl going_on ↦
              let (pid, ending, is_end, done, forked) = round going_on in
              rw going_on (
                _,
                refl,
                λ h. (
                  done.going,
                  done.group,
                  later-endings k i base p from true l.next (l.next + 2) l l1 (round going_on),
                  later-group k i base p from true l.next (l.next + 2) l l1 (round going_on),
                ),
              )
        ])
  start_processes-Started i from (p ∷ q ∷ processes) l simple going feeds =
      Gives-bind
        (start_process_middle k law base standard i false fg p simple.0 from l going (feeds refl)
          (λ h. cc))
        (λ (well, l1) round. elim (Bool-cases well) [
          | inr gave_up ↦ rw gave_up (_, refl, λ h. cc)
          | inl going_on ↦
              let (pid, ending, is_end, done, forked) = round going_on in
              let (after, run, started) =
                start_processes-Started (i + 1) (some l.next) (q ∷ processes) l1 simple.1 done.going
                  (λ h. done.feeds refl) in
              rw going_on (
                after,
                run,
                λ h.
                    let (going', group, ends, all) = started h in
                    let first_ends =
                      later-endings k i base p from false l.next (l.next + 2 + 2) l l1
                        (round going_on) in
                    (
                      going',
                      group ∙ done.group,
                      ends
                          ∙ ap₂ (λ es n. es ++ pipeline base n (some l.next) (q ∷ processes))
                              first_ends done.same_next
                          ∙ append_assoc (endings l) _ _,
                      λ older.
                          subst (λ g. All (IsIn g) l1.children → All (IsIn g) after.1.children)
                            done.group all
                            (later-group k i base p from false l.next (l.next + 2 + 2) l l1
                              (round going_on) older),
                    ),
              )
        ])
