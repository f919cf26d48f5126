-- ===== src/Lsh/Execute/Launch/Linking.antt =====
-- The standard descriptors of a child of `start_job_internal` of lsh/execute.c.
use akiso.Prelude.{
  ℕ, ◌<◌, ◌≡◌, refl, ◌∙◌, Option, none, some, List, [], ◌∷◌, ◌==◌, Bool-cases, inl, inr, ◌⊎◌, Bytes,
  length,
}
use akiso.Prelude.Int.{ℤ, pos, negsuc}
use akiso.Lsh.Job.{Process}
use akiso.Lsh.Execute.Redirects.{Open, plain, Table, put_fd}
use akiso.Lsh.Execute.Launch.{ChildEnd, executes, exits, exec_table}
use akiso.Lsh.Execute.Launch.Tables.{Apart, Passes, flagged, exec_table_same}

-- A command without redirections, and with a name that fits into the buffer for an error.
abbrev pub IsPlain : Process → Type 0
IsPlain p =
    (p.redirects ≡ [])
    × (name : Bytes) × (others : List (Option Bytes)) × (p.arguments ≡ some name ∷ others)
    × (length name < 128)

abbrev pub put_end : Option ℕ → ℕ → Table → Table
put_end none target table = table
put_end (some file) target table = put_fd target (some (plain file)) table

-- What a program of a pipeline is to find open: the files that it reads and writes in place of the
-- standard input and output, and for the rest what any program gets from the shell.
abbrev pub wire : Option ℕ → Option ℕ → Table → Table
wire from to base = put_end to 1 (put_end from 0 (exec_table base))

-- The child reports an error that fits into the buffer, or is the program with these descriptors.
abbrev pub IsEnd : Table → List (Option Bytes) → ChildEnd → Type 0
IsEnd after args e =
    ((text : Bytes) × (e ≡ exits text) × (length text < 128)) ⊎ (e ≡ executes after args)

-- The descriptor that is linked to a standard one: a new end of a pipe; or none, or itself.
abbrev pub Feeds : ℤ → Option ℕ → ℕ → Table → Type 0
Feeds v none target table =
    (v ≡ negsuc 1) ⊎ ((v ≡ pos target) × (behind : Open) × (table target ≡ some behind))
Feeds v (some file) target table =
    (fd : ℕ) × (v ≡ pos fd) × (table fd ≡ some (flagged file)) × Apart fd (0 ∷ 1 ∷ [])

pub put_plain-Passes :
    (target file : ℕ) (table after : Table)
    → Passes after table
    → Passes (put_fd target (some (plain file)) after) (put_fd target (some (plain file)) table)
unfolding exec_table
put_plain-Passes target file table after passes d = elim (Bool-cases (d == target)) [
  | inl same ↦ rw (exec_table, same) refl
  | inr apart ↦
      rw apart (
        exec_table_same (put_fd target (some (plain file)) table) table d (rw apart refl)
        ∙ passes d)
]
