-- ===== src/Lsh/Execute/Launch/Children.antt =====
-- What a child of `start_job_internal` of lsh/execute.c becomes, and what the shell reads of it.
use akiso.Prelude.{
  ℕ, ◌+◌, ◌≡◌, ◌≢◌, refl, sym, ap, ap₂, ◌∙◌, Bool, true, false, not, ◌&&◌, Option, none, some, List,
  [], ◌∷◌, arith, ◌==◌, ==_iff, Bool-cases, inl, inr, Bytes, length, if◌then◌else◌,
}
use akiso.Prelude.Int.{ℤ, pos, negsuc}
use akiso.Prelude.Text.{codes}
use akiso.Prelude.Run.{Gives}
use akiso.Lsh.Job.{Process}
use akiso.Lsh.Execute.Redirects.{plain, Table, put_fd, dup2, close}
use akiso.Lsh.Execute.Pipes.{Kernel, Fds, link_end, link_pipes, close_end, close_pipe, read_error}
use akiso.Lsh.Execute.Launch.{ChildEnd, executes, Launch, exec_table, become, child, hear, listen}
use akiso.Lsh.Execute.Launch.Errors.{read_error_fits}
use akiso.Lsh.Execute.Launch.Tables.{
  Clear, Apart, Passes, exec_table-none, exec_table_same, close_end-Passes,
}
use akiso.Lsh.Execute.Launch.Linking.{IsPlain, put_end, wire, IsEnd, Feeds, put_plain-Passes}

close-Passes :
    (v : ℤ) (table after : Table)
    → Clear after v
    → Passes after table
    → Passes after (close v table)
unfolding close
close-Passes (negsuc n) table after clear passes d = passes d
close-Passes (pos fd) table after clear passes d = elim (Bool-cases (d == fd)) [
  | inl same ↦
      exec_table-none (put_fd fd none table) d (rw same refl)
      ∙ sym (ap after ((==_iff d fd).0 same) ∙ clear fd refl)
  | inr apart ↦ exec_table_same (put_fd fd none table) table d (rw apart refl) ∙ passes d
]

becomes :
    (v : ℤ) (table after : Table)
    → Clear after v
    → Passes after table
    → exec_table (close v table) ≡ after
becomes v table after clear passes = λ j d. close-Passes v table after clear passes d j

-- From `setpgid` on the child only closes descriptors that a program does not get.
become-IsEnd :
    (k : Kernel) (i : ℕ) (first fg : Bool) (p : Process) (control : Fds) (table after : Table)
    → IsPlain p
    → Clear after control.0
    → Clear after control.1
    → Passes after table
    → Gives (become k i first fg p control table) (IsEnd after p.arguments)
unfolding become close_pipe
become-IsEnd k i false fg p control table after (_, name, others, args, short) clear0 clear1
      passes =
    rw (become, args)
      (elim (Bool-cases (k.execvp i)) [
        | inl runs ↦
            rw runs (_, refl, inr (ap₂ executes (becomes control.0 table after clear0 passes) args))
        | inr fails ↦ rw fails (_, refl, inl (name, refl, short))
      ])
become-IsEnd k i true fg p control table after (_, name, others, args, short) clear0 clear1 passes =
    rw (become, args)
      (elim (Bool-cases (fg && not k.give_terminal)) [
        | inl refused ↦ rw refused (_, refl, inl (codes "couldn't get terminal", refl, omega arith))
        | inr given ↦ rw given (elim (Bool-cases (close_end control.1 table).0) [
          | inr stays ↦ rw stays (_, refl, inl (codes "pipe", refl, omega arith))
          | inl closed ↦ rw closed (elim (Bool-cases (k.execvp i)) [
            | inl runs ↦ rw runs (
              _,
              refl,
              inr (
                  ap₂ executes
                    (becomes control.0 (close_end control.1 table).2 after clear0
                      (close_end-Passes control.1 table clear1 passes))
                    args),
            )
            | inr fails ↦ rw fails (_, refl, inl (name, refl, short))
          ])
        ])
      ])

Feeds-kept :
    (v : ℤ) (to : Option ℕ) (table table' : Table)
    → ((d : ℕ) → (d == 0) ≡ false → table' d ≡ table d)
    → Feeds v to 1 table
    → Feeds v to 1 table'
Feeds-kept v none table table' same (inl nothing) = inl nothing
Feeds-kept v none table table' same (inr (itself, behind, at)) =
    inr (itself, behind, same 1 refl ∙ at)
Feeds-kept v (some file) table table' same (fd, is_fd, at, (apart, apart')) =
    (fd, is_fd, same fd apart ∙ at, (apart, apart'))

-- A standard descriptor that is linked.
linked :
    (v : ℤ) (from : Option ℕ) (target : ℕ) (table after : Table)
    → ((fd : ℕ) → Apart fd (0 ∷ 1 ∷ []) → (fd == target) ≡ false)
    → Feeds v from target table
    → Passes after table
    → (table' : Table) × (link_end v target table ≡ some table')
      × Passes (put_end from target after) table'
      × ((d : ℕ) → (d == target) ≡ false → table' d ≡ table d)
unfolding dup2
linked v none target table after standard (inl nothing) passes =
    (table, rw nothing refl, passes, λ d apart. refl)
linked v none target table after standard (inr (itself, behind, at)) passes =
    let same : (target == target) ≡ true = ground arith in
    (table, rw (itself, dup2, at, same) refl, passes, λ d apart. refl)
linked v (some file) target table after standard (fd, is_fd, at, outside) passes = (
  put_fd target (some (plain file)) table,
  rw (is_fd, dup2, at, standard fd outside) refl,
  put_plain-Passes target file table after passes,
  λ d apart. rw apart refl,
)

link_pipes-Passes :
    (in_fd out_fd : ℤ) (from to : Option ℕ) (table base : Table)
    → Feeds in_fd from 0 table
    → Feeds out_fd to 1 table
    → Passes (exec_table base) table
    → (table' : Table) × (link_pipes in_fd out_fd table ≡ some table')
      × Passes (wire from to base) table'
unfolding link_pipes
link_pipes-Passes in_fd out_fd from to table base feeds_in feeds_out passes =
    let (table', run, passes', same) =
      linked in_fd from 0 table (exec_table base) (λ fd h. h.0) feeds_in passes in
    let (table'', run', passes'', _) =
      linked out_fd to 1 table' (put_end from 0 (exec_table base)) (λ fd h. h.1.0)
        (Feeds-kept out_fd to table table' same feeds_out) passes' in
    (table'', rw (link_pipes, run, run') refl, passes'')

put_end_other :
    (from : Option ℕ) (target : ℕ) (table : Table) (d : ℕ)
    → (d == target) ≡ false
    → put_end from target table d ≡ table d
put_end_other none target table d apart = refl
put_end_other (some file) target table d apart = rw apart refl

wire-Clear :
    (base : Table) (from to : Option ℕ) (v : ℤ)
    → base 0 ≢ none
    → base 1 ≢ none
    → Clear base v
    → Clear (wire from to base) v
wire-Clear base from to v zero_open one_open clear fd is_fd = elim (Bool-cases (fd == 0)) [
  | inl is_zero ↦ elim (zero_open (ap base (sym ((==_iff fd 0).0 is_zero)) ∙ clear fd is_fd)) [ ]
  | inr not_zero ↦ elim (Bool-cases (fd == 1)) [
    | inl is_one ↦ elim (one_open (ap base (sym ((==_iff fd 1).0 is_one)) ∙ clear fd is_fd)) [ ]
    | inr not_one ↦
        put_end_other to 1 (put_end from 0 (exec_table base)) fd not_one
        ∙ put_end_other from 0 (exec_table base) fd not_zero
        ∙ exec_table-none base fd (clear fd is_fd)
  ]
]

-- The end to write is closed where there is a next process.
pub close_writer-Passes :
    (last : Bool) (fds : Fds) (table after : Table)
    → Clear after fds.1
    → Passes after table
    → Passes after (if last then (true, fds, table) else close_pipe 2 fds table).2
unfolding close_pipe
close_writer-Passes true fds table after clear passes = passes
close_writer-Passes false fds table after clear passes = close_end-Passes fds.1 table clear passes

-- A child that is forked with the ends of its pipes in its variables becomes a program that finds
-- them as its standard input and output, or reports an error.
pub child-IsEnd :
    (k : Kernel) (i : ℕ) (first last fg : Bool) (p : Process) (l : Launch) (from to : Option ℕ)
    (base : Table)
    → base 0 ≢ none
    → base 1 ≢ none
    → IsPlain p
    → Feeds l.prevfd from 0 l.table
    → Feeds (if last then pos 1 else l.pipefds.1) to 1 l.table
    → Passes (exec_table base) l.table
    → Clear base l.prevfd
    → Clear base l.pipefds.1
    → Clear base l.control_pipe.0
    → Clear base l.control_pipe.1
    → Gives (child k i first last fg p l) (IsEnd (wire from to base) p.arguments)
unfolding child close_pipe
child-IsEnd k i first last fg p l from to base zero_open one_open simple feeds_in feeds_out passes
      prev out control0 control1 =
    let (table, run, passes') =
      link_pipes-Passes l.prevfd (if last then pos 1 else l.pipefds.1) from to l.table base feeds_in
        feeds_out passes in
    let clear = λ (v : ℤ). wire-Clear base from to v zero_open one_open in
    rw (child, run, simple.0)
      (become-IsEnd k i first fg p l.control_pipe _ (wire from to base) simple
        (clear l.control_pipe.0 control0) (clear l.control_pipe.1 control1)
        (close_writer-Passes last l.pipefds _ (wire from to base) (clear l.pipefds.1 out)
          (close_end-Passes l.prevfd table (clear l.prevfd prev) passes')))

-- Where the shell hears nothing of an error, the child is the program, and no variable has changed.
pub listen-executes :
    (k : Kernel) (i : ℕ) (e : ChildEnd) (after : Table) (args : List (Option Bytes)) (l : Launch)
    → length l.error_buff ≡ 128
    → IsEnd after args e
    → Gives
        (listen (hear k i e) l)
        (λ (well, l'). well ≡ true → (e ≡ executes after args) × (l' ≡ l))
unfolding listen hear read_error
listen-executes k i e after args l size (inr runs) = elim (Bool-cases (k.read_fails i)) [
  | inl fails ↦ rw (runs, hear, fails) (_, refl, λ h. cc)
  | inr hears ↦ rw (runs, hear, hears) (_, refl, λ h. (refl, refl))
]
listen-executes k i e after args l size (inl (text, ends, short)) =
    elim (Bool-cases (k.read_fails i)) [
      | inl fails ↦ rw (ends, hear, fails) (_, refl, λ h. cc)
      | inr hears ↦
          rw
            (
              ends,
              hear,
              hears,
              read_error_fits (k.errno i) l.child_errno text l.error_buff (omega arith),
            )
            (
              _,
              refl,
              λ h.
                  let apart : (4 + length text == 0) ≡ false = ground arith in
                  let refuted : false ≡ true = sym apart ∙ h in cc,
            )
    ]
