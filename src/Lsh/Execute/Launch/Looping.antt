-- ===== src/Lsh/Execute/Launch/Looping.antt =====
-- The loop of `start_job_internal` of lsh/execute.c.
use akiso.Prelude.{
  ℕ, ◌+◌, ◌≡◌, refl, Bool, true, false, Bool-cases, Option, none, some, Option-cases, List,
  if◌then◌else◌, inl, inr,
}
use akiso.Prelude.Int.{ℤ}
use akiso.Prelude.Run.{Gives, Gives-bind}
use akiso.Lsh.Job.{Process}
use akiso.Lsh.Execute.Redirects.{Table}
use akiso.Lsh.Execute.Pipes.{Kernel, no_fd, with_ends, create_pipe}
use akiso.Lsh.Execute.Launch.{
  Child, ChildEnd, Launch, parent, fork_process, with_error_pipe, with_pipe, start_process,
}
use akiso.Lsh.Execute.Launch.Linking.{Feeds, IsEnd, IsPlain, wire}
use akiso.Lsh.Execute.Launch.Children.{child-IsEnd}
use akiso.Lsh.Execute.Launch.Piping.{IsReady, last-IsReady, middle-IsReady}
use akiso.Lsh.Execute.Launch.Ready.{Going, IsKernel, IsStandard}
use akiso.Lsh.Execute.Launch.Rounds.{Done, parent_first, parent_later}
use akiso.Lsh.Execute.Launch.Tables.{create_pipe_made}

-- The file that a round's process is to write to, where it is not the last.
abbrev pub writes : Bool → ℕ → Option ℕ
writes last file = if last then none else some (file + 1)

-- A round that does not give up: its process, and a child which is that process.
abbrev pub Round :
    Kernel → ℕ → Table → Bool → Bool → Option ℕ → ℕ → Process → List Child → ℤ → ℕ → Launch → Type 0
Round k i base first last from file p children pgid next l' =
    (pid : ℕ) × (ending : ChildEnd) × IsEnd (wire from (writes last file) base) p.arguments ending
    × Done base first last file pid ending p.arguments (wire from (writes last file) base) children
        pgid next l'
    × (k.fork i ≡ some pid)

module _ (k : Kernel) (law : IsKernel k) (base : Table) (standard : IsStandard base) (i : ℕ)
    (first last fg : Bool) (p : Process) (simple : IsPlain p) (from : Option ℕ) where
  -- The fork, when the pipes are made.
  fork-Round :
      (file : ℕ) (l : Launch)
      → IsReady base last from file l
      → (first ≡ true → l.first_error_pipe_read ≡ no_fd)
      → Gives (fork_process k i first last fg p l) (λ (well, l').
        well ≡ true → Round k i base first last from file p l.children l.pgid l.next l')
  unfolding fork_process
  fork-Round file l ready none_yet =
      let f = ready.forked in
      let (pipe0, (pipe1, (prev, (error0, (error1, (older, (control0, (control1, _)))))))) =
        f.clear in
      elim (Option-cases (k.fork i)) [
        | inl refused ↦ rw (fork_process, refused) (_, refl, λ h. cc)
        | inr (pid, forked) ↦
            rw (fork_process, forked)
              (Gives-bind
                (child-IsEnd k i first last fg p l from (writes last file) base standard.0
                  standard.1 simple ready.feeds_in ready.feeds_out f.passes prev pipe1 control0
                  control1)
                (λ ending is_end.
                  let (after, run, done) = both first none_yet pid ending is_end in
                  (after, run, λ h. (pid, ending, is_end, done h, refl))))
      ]
    where
      both :
          (b : Bool)
          → (b ≡ true → l.first_error_pipe_read ≡ no_fd)
          → (pid : ℕ) → (ending : ChildEnd)
          → IsEnd (wire from (writes last file) base) p.arguments ending
          → Gives (parent k i b last pid ending l) (λ (well, l').
            well ≡ true
            → Done base b last file pid ending p.arguments
                (wire from (writes last file) base)
                l.children
                l.pgid
                l.next
                l')
      both true none_yet pid ending is_end =
          parent_first k i base standard.0 last file pid ending p.arguments
            (wire from (writes last file) base) l ready.forked (none_yet refl) ready.reader
      both false none_yet pid ending is_end =
          parent_later k i base standard.0 last file pid ending p.arguments
            (wire from (writes last file) base) l ready.forked is_end ready.reader

-- Where the kernel refuses the fork or a pipe, the round gives up.
module _ (k : Kernel) (law : IsKernel k) (base : Table) (standard : IsStandard base) (i : ℕ)
    (first fg : Bool) (p : Process) (simple : IsPlain p) (from : Option ℕ) (l : Launch)
    (going : Going base false l) (feeds : Feeds l.prevfd from 0 l.table)
    (none_yet : first ≡ true → l.first_error_pipe_read ≡ no_fd) where
  pub start_process_last : Gives (start_process k i first true fg p l) (λ (well, l').
      well ≡ true → Round k i base first true from l.next p l.children l.pgid (l.next + 2) l')
  unfolding start_process with_error_pipe
  start_process_last = elim (Bool-cases (create_pipe k true l.next l.error_pipe l.table).0) [
    | inr refused ↦ rw refused (_, refl, λ h. cc)
    | inl made ↦
        let (e0, e1, given, eq) = create_pipe_made k l.next l.error_pipe l.table made in
        rw eq (
          fork-Round k law base standard i first true fg p simple from l.next _
            (last-IsReady k law base standard from l going feeds e0 e1 given) none_yet)
  ]

  pub start_process_middle : Gives (start_process k i first false fg p l) (λ (well, l').
      well ≡ true → Round k i base first false from l.next p l.children l.pgid (l.next + 2 + 2) l')
  unfolding start_process with_pipe with_error_pipe
  start_process_middle = elim (Bool-cases (create_pipe k true l.next l.pipefds l.table).0) [
    | inr refused ↦ rw refused (_, refl, λ h. cc)
    | inl made ↦
        let (r, w, given, eq) = create_pipe_made k l.next l.pipefds l.table made in
        let table = with_ends r w l.next true l.table in
        rw eq (elim (Bool-cases (create_pipe k true (l.next + 2) l.error_pipe table).0) [
          | inr refused ↦ rw refused (_, refl, λ h. cc)
          | inl made' ↦
              let (e0, e1, given', eq') =
                create_pipe_made k (l.next + 2) l.error_pipe table made' in
              rw eq' (
                fork-Round k law base standard i first false fg p simple from l.next _
                  (middle-IsReady k law base standard from l going feeds r w e0 e1 given given')
                  none_yet)
        ])
  ]
