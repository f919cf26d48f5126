-- ===== src/Minitalk/Server.antt =====
-- minitalk/server_main.c: the table of users and one round of the main loop. The table is a function
-- of the index, below 16. What `accept`, `select` and `read` answer in a round is an argument, and
-- what the server closes and writes is kept as a list of effects.
use akiso.Prelude.{
  ℕ, zero, suc, ◌-◌, Bool, true, false, not, ◌&&◌, ◌||◌, Option, none, some, List, [], ◌∷◌, ◌++◌,
  ◌==◌, ltb, if◌then◌else◌, Bytes, c_str,
}
use akiso.Prelude.Int.{ℤ, pos, negsuc, ltb_ℤ, ◌==ℤ◌}
use akiso.Prelude.Text.{codes}
use akiso.Libc.{strtol, to_int}
use akiso.Minitalk.Reading.{Input, error, closed, text, is_nil, read_line}

-- `fd` is 0 in a free slot.
pub record User : Type 0 where
  pub fd : ℕ
  pub name : Option Bytes
  pub to : ℤ

abbrev pub fd_unassigned : ℤ
fd_unassigned = pos 0

abbrev pub fd_awaiting : ℤ
fd_awaiting = negsuc 0

abbrev pub no_user : User
no_user = record { fd = 0; name = none; to = fd_unassigned }

pub data Effect : Type 0 where
  close : ℕ → Effect
  write : ℕ → Bytes → Effect

abbrev pub Table : Type 0
Table = ℕ → User

-- `writable` is the set of that name, between two of its uses.
pub record Server : Type 0 where
  pub logged_in : Table
  pub writable : ℕ → Bool
  pub effects : List Effect

abbrev pub emit : Effect → Server → Server
emit e s = record s { effects = s.effects ++ (e ∷ []) }

abbrev pub put_user : ℕ → User → Server → Server
put_user i user s = record s { logged_in = λ j. if j == i then user else s.logged_in j }

abbrev pub without : ℕ → User → User
without fd user = if user.to ==ℤ pos fd then record user { to = fd_unassigned } else user

unfoldable pub remove_user : ℕ → Server → Server
remove_user i s =
    let fd = (s.logged_in i).fd in
    emit (close fd)
      (record s { logged_in = λ j. if j == i then no_user else without fd (s.logged_in j) })

abbrev pub cut_last : Bytes → Bytes
cut_last [] = []
cut_last (c ∷ []) = []
cut_last (c ∷ d ∷ s) = c ∷ cut_last (d ∷ s)

-- The bytes read, or `none` where the result is -1. `ret < len` always holds. Without the option the
-- last byte is overwritten with the terminator.
unfoldable pub read_user : ℕ → ℕ → Bool → List Input → Server → Option Bytes × Server
unfolding remove_user read_line
read_user i len leave_newline inputs s = elim (read_line true len inputs) [
  | error ↦ (none, remove_user i s)
  | closed ↦ (none, remove_user i s)
  | text buff _ ↦ (some (if leave_newline then buff else cut_last buff), s)
]

abbrev pub table_size : ℕ
table_size = 16

-- `for (int i = …; i < 16; i++)` over the `n` last indices.
unfoldable pub accept_from : ℕ → ℕ → Server → Server
accept_from zero peer s = s
accept_from (suc n) peer s =
    let i = table_size - suc n in
    let rest = accept_from n peer s in
    if (s.logged_in i).fd == 0
    then emit (write peer (codes "Enter login\n"))
        (put_user i (record (s.logged_in i) { fd = peer }) s)
    else rest

unfoldable pub accept_peer : ℕ → Server → Server
unfolding accept_from
accept_peer peer s = accept_from table_size peer s

abbrev insert : ℕ → (ℕ → Bool) → ℕ → Bool
insert fd set = λ f. f == fd || set f

abbrev remove : ℕ → (ℕ → Bool) → ℕ → Bool
remove fd set = λ f. not (f == fd) && set f

abbrev pub is_named : User → Bool
is_named user = elim user.name [ none ↦ false | some _ ↦ true ]

abbrev pub is_target : ℤ → Bool
is_target (pos n) = ltb 0 n
is_target (negsuc n) = false

abbrev pub fd_of : ℤ → ℕ
fd_of (pos n) = n
fd_of (negsuc n) = 0

-- The loop that asks for the descriptors: those of all users to read, and to write those that the
-- named users write to, or their own if they have nobody to write to.
unfoldable pub ask_user : ℕ → Server → Server
ask_user i s =
    let user = s.logged_in i in
    if user.fd == 0 || not (is_named user)
    then s
    else if is_target user.to
    then record s { writable = insert (fd_of user.to) s.writable }
    else if not (user.to ==ℤ fd_awaiting)
    then put_user i (record user { to = fd_awaiting })
        (record s { writable = insert user.fd s.writable })
    else s

unfoldable pub ask_from : ℕ → Server → Server
unfolding ask_user
ask_from zero s = s
ask_from (suc n) s = ask_from n (ask_user (table_size - suc n) s)

unfoldable pub ask : Server → Server
unfolding ask_from
ask s = ask_from table_size (record s { writable = λ _. false })

-- Whether the choice is no index of the table.
abbrev pub is_invalid : Bytes → Bool
is_invalid buff =
    let (n, ptr) = strtol buff in
    let new_to = to_int n in
    not (is_nil ptr) || ltb_ℤ new_to (pos 0) || not (ltb_ℤ new_to (pos table_size))

-- A user who has sent the choice `buff` of another to write to.
unfoldable pub choose : ℕ → Bytes → Server → Server
unfolding strtol remove_user
choose i buff s =
    let new_to = to_int (strtol buff).0 in
    if is_invalid buff
    then remove_user i s
    else (let target = s.logged_in (fd_of new_to) in
        if target.fd == 0 || not (is_named target)
        then remove_user i s
        else put_user i (record (s.logged_in i) { to = pos target.fd }) s)

-- `if (read_user(…) > 0)`
abbrev pub after_read : Option Bytes × Server → (Bytes → Server → Server) → Server
after_read (none, s) use_line = s
after_read (some line, s) use_line = use_line line s

abbrev pub log_in : ℕ → Bytes → Server → Server
log_in i line s = put_user i (record (s.logged_in i) { name = some (c_str line) }) s

abbrev pub relay : ℕ → Bytes → Server → Server
relay fd line s = emit (write fd line) (record s { writable = remove fd s.writable })

-- The body of the second loop for a user whose descriptor `select` has found readable.
unfoldable pub serve : ℕ → List Input → Server → Server
unfolding read_user choose
serve i inputs s =
    let user = s.logged_in i in
    if not (is_named user)
    then after_read (read_user i 256 false inputs s) (log_in i)
    else if user.to ==ℤ fd_awaiting
    then after_read (read_user i 256 false inputs s) (λ line. choose i (c_str line))
    else if is_target user.to && s.writable (fd_of user.to)
    then after_read (read_user i 256 true inputs s) (relay (fd_of user.to))
    else s

unfoldable pub serve_ready : ℕ → (ℕ → Bool) → List Input → Server → Server
unfolding serve
serve_ready i readable inputs s =
    let fd = (s.logged_in i).fd in if not (fd == 0) && readable fd then serve i inputs s else s

unfoldable pub serve_from : ℕ → (ℕ → Bool) → (ℕ → List Input) → Server → Server
unfolding serve_ready
serve_from zero readable inputs s = s
serve_from (suc n) readable inputs s =
    let i = table_size - suc n in serve_from n readable inputs (serve_ready i readable (inputs i) s)
