-- ===== src/Lsh/Execute/Launch/Grouping.antt =====
-- The group of the children of `start_job_internal` of lsh/execute.c.
use akiso.Prelude.{
  ℕ, suc, ◌≡◌, refl, sym, subst, ◌∙◌, Bool, true, false, Bool-cases, [], ◌∷◌, ◌++◌, All, All-append,
  inl, inr, ◌⊎◌,
}
use akiso.Prelude.Int.{pos}
use akiso.Prelude.Run.{Run, Always, Always-bind, Always-ok}
use akiso.Lsh.Execute.Pipes.{Kernel, Heard, read_error, close_pipe}
use akiso.Lsh.Execute.Launch.{Child, ChildEnd, Launch, hear, listen, close_parent, parent}
use akiso.Lsh.Execute.Launch.Pipeline.{IsIn}

-- Children were started, and are in a group of their own.
abbrev pub InGroup : Launch → Type 0
InGroup l = (pid : ℕ) × (l.pgid ≡ pos (suc pid)) × All (IsIn l.pgid) l.children × (l.effects ≡ [])

abbrev pub Grouped : Bool × Launch → Type 0
Grouped (well, l) = InGroup l

abbrev pub IsAlone : Launch → Type 0
IsAlone l = (l.children ≡ []) × (l.effects ≡ [])

pub any {ℓ} : {A : Type ℓ} (m : Run A) → Always m (λ _. Unit {0})
any m a run = tt

pub listen-InGroup : (heard : Heard) (l : Launch) → InGroup l → Always (listen heard l) Grouped
unfolding listen
listen-InGroup heard l in_group =
    Always-bind (any (read_error heard l.child_errno l.error_buff))
      (λ a _. Always-ok Grouped in_group)

module _ (k : Kernel) (i : ℕ) (last : Bool) (ending : ChildEnd) (l : Launch) where
  pub parent_first-InGroup :
      (pid : ℕ) → IsAlone l → Always (parent k i true last (suc pid) ending l) Grouped
  unfolding parent close_parent
  parent_first-InGroup pid (none_started, quiet) =
      let l1 = close_parent last l in
      let new : Child = record { pid = suc pid; group = pos (suc pid); ending = ending } in
      let all : All (IsIn (pos (suc pid))) (l1.children ++ new ∷ []) =
        subst (λ cs. All (IsIn (pos (suc pid))) (cs ++ new ∷ [])) (sym none_started) (refl, tt) in
      elim (Bool-cases (close_pipe 2 l1.error_pipe l1.table).0) [
        | inr stays ↦ rw stays (Always-ok Grouped (pid, refl, all, quiet))
        | inl closed ↦ rw closed (Always-ok Grouped (pid, refl, all, quiet))
      ]

  pub parent_later-InGroup :
      (pid : ℕ) → InGroup l → Always (parent k i false last pid ending l) Grouped
  unfolding parent close_parent
  parent_later-InGroup pid (first, in_group, all, quiet) =
      let l1 = close_parent last l in
      let new : Child = record { pid = pid; group = l1.pgid; ending = ending } in
      let all' : All (IsIn l1.pgid) (l1.children ++ new ∷ []) =
        All-append (IsIn l1.pgid) l1.children (new ∷ []) all (refl, tt) in
      elim (Bool-cases (close_pipe 2 l1.error_pipe l1.table).0) [
        | inr stays ↦ rw stays (Always-ok Grouped (first, in_group, all', quiet))
        | inl closed ↦ rw closed (
            Always-bind (listen-InGroup (hear k i ending) _ (first, in_group, all', quiet))
              (λ (well, l2) after. elim (Bool-cases well) [
                | inr not_well ↦ rw not_well (Always-ok Grouped after)
                | inl is_well ↦ rw is_well (Always-ok Grouped after)
              ]))
      ]

-- Before a round, and behind it: the first one may give up without a child.
abbrev pub Before : Bool → Launch → Type 0
Before true l = IsAlone l
Before false l = InGroup l

abbrev pub Left : Bool → Bool × Launch → Type 0
Left true (false, l) = IsAlone l ⊎ InGroup l
Left true (true, l) = InGroup l
Left false (well, l) = InGroup l

pub InGroup-Left : (first : Bool) (a : Bool × Launch) → InGroup (a.1) → Left first a
InGroup-Left true (true, l) in_group = in_group
InGroup-Left true (false, l) in_group = inr in_group
InGroup-Left false (well, l) in_group = in_group

pub Before-Left : (first : Bool) (l : Launch) → Before first l → Left first (false, l)
Before-Left true l alone = inl alone
Before-Left false l in_group = in_group

-- Other fields do not count.
pub Before-same :
    (first : Bool) (l l' : Launch)
    → l.pgid ≡ l'.pgid
    → l.children ≡ l'.children
    → l.effects ≡ l'.effects
    → Before first l
    → Before first l'
Before-same true l l' pgid children effects (none_started, quiet) =
    (sym children ∙ none_started, sym effects ∙ quiet)
Before-same false l l' pgid children effects (pid, in_group, all, quiet) = (
  pid,
  sym pgid ∙ in_group,
  subst (λ g. All (IsIn g) l'.children) pgid (subst (All (IsIn l.pgid)) children all),
  sym effects ∙ quiet,
)

pub well-InGroup : (first : Bool) (l : Launch) → Left first (true, l) → InGroup l
well-InGroup true l left = left
well-InGroup false l left = left
