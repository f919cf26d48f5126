-- ===== src/Lsh/Execute/Launch/Tables.antt =====
-- What `close_pipe` and `create_pipe` of lsh/execute.c do to the table of descriptors, seen from a
-- table that was there before.
use akiso.Prelude.{
  ℕ, zero, suc, ◌+◌, ◌≡◌, ◌≢◌, refl, sym, ap, ◌∙◌, true, false, ◌&&◌, none, some, List, [], ◌∷◌,
  ◌==◌, ==_iff, Bool-cases, Option-cases, inl, inr, All,
}
use akiso.Prelude.Int.{ℤ, pos, negsuc, ◌==ℤ◌}
use akiso.Lsh.Execute.Redirects.{Open, Table, put_fd}
use akiso.Lsh.Execute.Pipes.{Kernel, Fds, close_end, create_pipe, with_ends}
use akiso.Lsh.Execute.Launch.{exec_table}

-- The variable holds no descriptor that is open in the table.
abbrev pub Clear : Table → ℤ → Type 0
Clear base v = (fd : ℕ) → v ≡ pos fd → base fd ≡ none

abbrev pub Apart : ℕ → List ℕ → Type 0
Apart d held = All (λ e. (d == e) ≡ false) held

abbrev pub Outside : ℕ → List ℤ → Type 0
Outside d held = All (λ v. (pos d ==ℤ v) ≡ false) held

-- The table is the one before, but for the descriptors in some variables.
abbrev pub Holds : Table → List ℤ → Table → Type 0
Holds base held table = (d : ℕ) → Outside d held → table d ≡ base d

abbrev pub flagged : ℕ → Open
flagged file = record { file = file; close_on_exec = true }

-- What a program gets from the table.
abbrev pub Passes : Table → Table → Type 0
Passes after table = (d : ℕ) → exec_table table d ≡ after d

pub exec_table-none : (table : Table) (d : ℕ) → table d ≡ none → exec_table table d ≡ none
unfolding exec_table
exec_table-none table d h = rw (exec_table, h)

pub exec_table_same :
    (table other : Table) (d : ℕ) → table d ≡ other d → exec_table table d ≡ exec_table other d
unfolding exec_table
exec_table_same table other d h = rw (exec_table, h) refl

exec_table_flag :
    (table : Table) (d : ℕ) (behind : Open)
    → table d ≡ some behind
    → behind.close_on_exec ≡ true
    → exec_table table d ≡ none
unfolding exec_table
exec_table_flag table d behind h flag = rw (exec_table, h, flag)

pub Clear-exec_table : (base : Table) (v : ℤ) → Clear base v → Clear (exec_table base) v
Clear-exec_table base v clear fd is_fd = exec_table-none base fd (clear fd is_fd)

module _ {base : Table} where
  put_none-Passes :
      (fd : ℕ) (table : Table)
      → base fd ≡ none
      → Passes base table
      → Passes base (put_fd fd none table)
  put_none-Passes fd table clear passes d = elim (Bool-cases (d == fd)) [
    | inl same ↦
        exec_table-none (put_fd fd none table) d (rw same refl)
        ∙ sym (ap base ((==_iff d fd).0 same) ∙ clear)
    | inr apart ↦ exec_table_same (put_fd fd none table) table d (rw apart refl) ∙ passes d
  ]

  put_none-drops :
      (fd : ℕ) (held : List ℤ) (table : Table)
      → base fd ≡ none
      → Holds base (pos fd ∷ held) table
      → Holds base held (put_fd fd none table)
  put_none-drops fd held table clear holds d outside = elim (Bool-cases (d == fd)) [
    | inl same ↦ rw same (sym (ap base ((==_iff d fd).0 same) ∙ clear))
    | inr apart ↦ rw apart (holds d (apart, outside))
  ]

  pub close_end-Passes :
      (v : ℤ) (table : Table) → Clear base v → Passes base table → Passes base (close_end v table).2
  unfolding close_end
  close_end-Passes (negsuc n) table clear passes = passes
  close_end-Passes (pos zero) table clear passes = passes
  close_end-Passes (pos (suc fd)) table clear passes = elim (Option-cases (table (suc fd))) [
    | inl closed ↦ rw (close_end, closed) passes
    | inr (behind, at) ↦
        rw (close_end, at) (put_none-Passes (suc fd) table (clear (suc fd) refl) passes)
  ]

  -- A close leaves no trace of a descriptor that was not open before.
  pub close_end-drops :
      (v : ℤ) (held : List ℤ) (table : Table)
      → base 0 ≢ none
      → Clear base v
      → Holds base (v ∷ held) table
      → Holds base held (close_end v table).2
  unfolding close_end
  close_end-drops (negsuc n) held table zero_open clear holds = λ d outside. holds d (refl, outside)
  close_end-drops (pos zero) held table zero_open clear holds = elim (zero_open (clear 0 refl)) [ ]
  close_end-drops (pos (suc fd)) held table zero_open clear holds =
      elim (Option-cases (table (suc fd))) [
        | inl closed ↦
            rw (close_end, closed)
              (λ d outside. elim (Bool-cases (d == suc fd)) [
                | inl same ↦
                    let e = (==_iff d (suc fd)).0 same in
                    ap table e ∙ closed ∙ sym (ap base e ∙ clear (suc fd) refl)
                | inr apart ↦ holds d (apart, outside)
              ])
        | inr (behind, at) ↦
            rw (close_end, at) (put_none-drops (suc fd) held table (clear (suc fd) refl) holds)
      ]

  pub close_end-Holds :
      (v : ℤ) (held : List ℤ) (table : Table)
      → base 0 ≢ none
      → Clear base v
      → Holds base held table
      → Holds base held (close_end v table).2
  close_end-Holds v held table zero_open clear holds =
      close_end-drops v held table zero_open clear (λ d outside. holds d outside.1)

  pub close_end-Clear : (v : ℤ) (table : Table) → Clear base v → Clear base (close_end v table).1
  unfolding close_end
  close_end-Clear (negsuc n) table clear = clear
  close_end-Clear (pos zero) table clear = clear
  close_end-Clear (pos (suc fd)) table clear = elim (Option-cases (table (suc fd))) [
    | inl closed ↦ rw (close_end, closed) clear
    | inr (behind, at) ↦ rw (close_end, at) (λ d same. cc)
  ]

-- A close of another descriptor leaves one open.
pub close_end_other :
    (v : ℤ) (table : Table) (d : ℕ)
    → ((fd : ℕ) → v ≡ pos fd → (d == fd) ≡ false)
    → (close_end v table).2 d ≡ table d
unfolding close_end
close_end_other (negsuc n) table d apart = refl
close_end_other (pos zero) table d apart = refl
close_end_other (pos (suc fd)) table d apart = elim (Option-cases (table (suc fd))) [
  | inl closed ↦ rw (close_end, closed) refl
  | inr (behind, at) ↦ rw (close_end, at, apart (suc fd) refl) refl
]

-- `true` means that the kernel gave a pipe, and the flags.
pub create_pipe_made :
    (k : Kernel) (next : ℕ) (fds : Fds) (table : Table)
    → (create_pipe k true next fds table).0 ≡ true
    → (r : ℕ) × (w : ℕ) × (k.pipe next table ≡ some (r, w))
      × (create_pipe k true next fds table ≡ (true, (pos r, pos w), with_ends r w next true table))
unfolding create_pipe
create_pipe_made k next fds table made = elim (Option-cases (k.pipe next table)) [
  | inl refused ↦ cc
  | inr ((r, w), given) ↦
      elim (Bool-cases (k.fcntl next 0 && k.fcntl next 1 && k.fcntl next 2 && k.fcntl next 3)) [
        | inl well ↦ (r, w, given, rw (create_pipe, given, well) refl)
        | inr not_flagged ↦
            let refuted : false ≡ true = rw (create_pipe, given, not_flagged) at made in cc
      ]
]

-- Two descriptors of a new pipe, which were not open, are not passed on.
module _ (table : Table) (next r w : ℕ) (free_r : table r ≡ none) (free_w : table w ≡ none) where
  pub with_ends-Passes :
      (after : Table) → Passes after table → Passes after (with_ends r w next true table)
  with_ends-Passes after passes d = elim (Bool-cases (d == w)) [
    | inl same ↦
        exec_table_flag (with_ends r w next true table) d (flagged (next + 1)) (rw same refl) refl
        ∙ sym (exec_table-none table d (ap table ((==_iff d w).0 same) ∙ free_w))
        ∙ passes d
    | inr apart ↦ elim (Bool-cases (d == r)) [
      | inl same ↦
          exec_table_flag (with_ends r w next true table) d (flagged next) (rw (apart, same) refl)
            refl
          ∙ sym (exec_table-none table d (ap table ((==_iff d r).0 same) ∙ free_r))
          ∙ passes d
      | inr apart' ↦
          exec_table_same (with_ends r w next true table) table d (rw (apart, apart') refl)
          ∙ passes d
    ]
  ]

pub with_ends-Holds :
    (base table : Table) (next r w : ℕ) (held : List ℤ)
    → Holds base held table
    → Holds base (pos r ∷ pos w ∷ held) (with_ends r w next true table)
with_ends-Holds base table next r w held holds d (apart, (apart', outside)) =
    rw (apart', apart) (holds d outside)

-- Two descriptors differ where one is open and the other is not.
pub apart_open :
    (table : Table) (d fd : ℕ) (behind : Open)
    → table d ≡ some behind
    → table fd ≡ none
    → (d == fd) ≡ false
apart_open table d fd behind at free = elim (Bool-cases (d == fd)) [
  | inl same ↦ let e : some behind ≡ none = sym at ∙ ap table ((==_iff d fd).0 same) ∙ free in cc
  | inr apart ↦ apart
]

module _ (base : Table) where
  -- What is open before is in no variable that is clear.
  Outside-Clear : (d : ℕ) (held : List ℤ) → base d ≢ none → All (Clear base) held → Outside d held
  Outside-Clear d [] is_open clear = tt
  Outside-Clear d (negsuc n ∷ held) is_open clear = (refl, Outside-Clear d held is_open clear.1)
  Outside-Clear d (pos fd ∷ held) is_open clear = (
    elim (Bool-cases (d == fd)) [
      | inl same ↦ elim (is_open (ap base ((==_iff d fd).0 same) ∙ clear.0 fd refl)) [ ]
      | inr apart ↦ apart
    ],
    Outside-Clear d held is_open clear.1,
  )

  pub Holds-open :
      (d : ℕ) (held : List ℤ) (table : Table)
      → base d ≢ none
      → All (Clear base) held
      → Holds base held table
      → table d ≡ base d
  Holds-open d held table is_open clear holds = holds d (Outside-Clear d held is_open clear)

  -- A descriptor that the kernel may give was not open before.
  pub Clear-free :
      (d : ℕ) (held : List ℤ) (table : Table)
      → All (Clear base) held
      → Holds base held table
      → table d ≡ none
      → base d ≡ none
  Clear-free d held table clear holds free = elim (Option-cases (base d)) [
    | inl closed ↦ closed
    | inr (behind, at) ↦
        let is_open : base d ≢ none = λ h. cc in
        elim (is_open (sym (Holds-open d held table is_open clear holds) ∙ free)) [ ]
  ]
