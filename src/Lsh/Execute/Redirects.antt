-- ===== src/Lsh/Execute/Redirects.antt =====
-- `do_redirects` of lsh/execute.c, which a child runs before the program: the table of its open
-- descriptors, each with the number of the open file behind it, and what `open` answers.
use akiso.Prelude.{
  ℕ, Bool, ◌≡◌, refl, sym, ap, ◌∙◌, true, false, Option, none, some, List, [], ◌∷◌, ◌==◌, ==_iff,
  if◌then◌else◌, Bool-cases, inl, inr, arith,
}
use akiso.Prelude.Int.{ℤ, pos, negsuc, ◌==ℤ◌}
use akiso.Lsh.Job.{Redirect}

-- What stands behind a descriptor, and its flag FD_CLOEXEC.
pub record Open : Type 0 where
  pub file : ℕ
  pub close_on_exec : Bool

abbrev pub plain : ℕ → Open
plain file = record { file = file; close_on_exec = false }

abbrev pub Table : Type 0
Table = ℕ → Option Open

abbrev pub put_fd : ℕ → Option Open → Table → Table
put_fd fd behind table = λ d. if d == fd then behind else table d

-- `dup2(old, new)`; `none` is -1. The new descriptor has no flag.
unfoldable pub dup2 : ℤ → ℤ → Table → Option Table
dup2 (pos old) (pos new) table = elim (table old) [
  | none ↦ none
  | some behind ↦ some (if old == new then table else put_fd new (some (plain behind.file)) table)
]
dup2 _ _ table = none

unfoldable pub close : ℤ → Table → Table
close (pos fd) table = put_fd fd none table
close (negsuc n) table = table

-- `open` gives a new descriptor and a new file, or -1; so does a call behind the last answer.
abbrev pub Opens : Type 0
Opens = List (Option (ℕ × ℕ))

-- `none` is -1, after which the child ends.
unfoldable pub do_redirects : List Redirect → Opens → Table → Option Table
unfolding dup2 close
do_redirects [] opens table = some table
do_redirects (redirect ∷ redirects) opens table =
    if redirect.right_fd ==ℤ negsuc 0
    then elim opens [
      | [] ↦ none
      | answer ∷ others ↦ elim answer [
        | none ↦ none
        | some (fd, file) ↦
            elim (dup2 (pos fd) redirect.left_fd (put_fd fd (some (plain file)) table)) [
              | none ↦ none
              | some table' ↦ do_redirects redirects others (close (pos fd) table')
            ]
      ]
    ]
    else elim (dup2 redirect.right_fd redirect.left_fd table) [
      | none ↦ none
      | some table' ↦ do_redirects redirects opens (close redirect.right_fd table')
    ]

-- A redirect of a descriptor to a file, for which `open` gives a descriptor that was not open before
-- and is another one, changes exactly that descriptor: it is the file, and no other is left open.
pub do_redirects-file :
    (redirect : Redirect) (left fd file : ℕ) (table : Table)
    → redirect.left_fd ≡ pos left
    → redirect.right_fd ≡ negsuc 0
    → table fd ≡ none
    → (fd == left) ≡ false
    → (after : Table) × (do_redirects (redirect ∷ []) (some (fd, file) ∷ []) table ≡ some after)
      × (after left ≡ some (plain file))
      × ((d : ℕ) → (d == left) ≡ false → after d ≡ table d)
unfolding do_redirects
do_redirects-file redirect left fd file table at_left to_file free apart =
    let same : (fd == fd) ≡ true = ground arith in
    let own : (left == left) ≡ true = ground arith in
    let apart' : (left == fd) ≡ false = ground arith in
    (
      close (pos fd) (put_fd left (some (plain file)) (put_fd fd (some (plain file)) table)),
      rw (to_file, at_left, same, apart) refl,
      rw (apart', own) refl,
      (λ d other. elim (Bool-cases (d == fd)) [
        | inl on_fd ↦ let e = (==_iff d fd).0 on_fd in rw on_fd (sym (ap table e ∙ free))
        | inr off_fd ↦ rw (off_fd, other) refl
      ]),
    )

-- A redirect to another descriptor that is open, as in `2>&1`, makes the left one the same file, but
-- closes the right one, which the command then does not have.
pub do_redirects-duplicate :
    (redirect : Redirect) (left right : ℕ) (behind : Open) (table : Table)
    → redirect.left_fd ≡ pos left
    → redirect.right_fd ≡ pos right
    → table right ≡ some behind
    → (left == right) ≡ false
    → (after : Table) × (do_redirects (redirect ∷ []) [] table ≡ some after)
      × (after left ≡ some (plain behind.file))
      × (after right ≡ none)
unfolding do_redirects
do_redirects-duplicate redirect left right behind table at_left to_right is_open apart =
    let own : (left == left) ≡ true = ground arith in
    let same : (right == right) ≡ true = ground arith in
    let apart' : (right == left) ≡ false = ground arith in
    (
      close (pos right) (put_fd left (some (plain behind.file)) table),
      rw (to_right, at_left, is_open, apart', to_right) refl,
      rw (apart, own) refl,
      rw same refl,
    )
