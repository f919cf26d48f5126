-- ===== src/Minitalk/Menu.antt =====
-- The last loop of minitalk/server_main.c, which writes the menu of users, and the main loop.
pub mod Overflow
pub mod Shown
use akiso.Prelude.{
  ℕ, zero, suc, ◌+◌, ◌-◌, ◌*◌, ◌/◌, ◌%◌, ◌<◌, ◌≡◌, refl, ap, ◌∙◌, Bool, true, false, not, ◌&&◌,
  ◌||◌, ◌⊎◌, inl, inr, Option, none, some, List, [], ◌∷◌, ◌++◌, ◌==◌, leb, ltb, if◌then◌else◌,
  Bytes, length, take, arith, length-append, append_assoc, append-nil,
}
use akiso.Prelude.Int.{◌==ℤ◌}
use akiso.Prelude.Run.{Run, ok, fault, ◌>>=◌}
use akiso.Prelude.Text.{codes}
use akiso.Minitalk.Reading.{Input}
use akiso.Minitalk.Server.{
  User, fd_awaiting, write, Table, Server, emit, table_size, accept_peer, ask, serve_from,
}

abbrev pub buff_size : ℕ
buff_size = 512

-- `written += snprintf(buff + written, 512 - written, …)` of a text: behind the end of the buffer the
-- size is a huge `size_t`. The text is what would be in a buffer that is large enough.
unfoldable pub print_text : Bytes → Bytes → Run Bytes
print_text text written = if leb (length written) buff_size then ok (written ++ text) else fault

-- `%3d - %s\n` of an index below 100
abbrev pub menu_line : ℕ → Bytes → Bytes
menu_line j name =
    (if ltb j 10
      then b' ' ∷ b' ' ∷ (b'0' + j) ∷ []
      else b' ' ∷ (b'0' + j / 10) ∷ (b'0' + j % 10) ∷ [])
    ++ codes " - "
    ++ name
    ++ codes "\n"

-- The line of user `j` in the menu of user `i`, if there is one.
abbrev pub line_for : Table → ℕ → ℕ → Option Bytes
line_for logged_in i j =
    if i == j || (logged_in j).fd == 0
    then none
    else elim (logged_in j).name [ none ↦ none | some name ↦ some (menu_line j name) ]

-- The inner loop, over the `n` last indices: the text and `count`.
unfoldable pub menu_from : ℕ → Table → ℕ → Bytes × ℕ → Run (Bytes × ℕ)
unfolding print_text
menu_from zero logged_in i (written, count) = ok (written, count)
menu_from (suc n) logged_in i (written, count) = elim (line_for logged_in i (table_size - suc n)) [
  | none ↦ menu_from n logged_in i (written, count)
  | some text ↦ do written' ← print_text text written; menu_from n logged_in i (written', count + 1)
]

-- What `write(user->fd, buff, written)` sends: where the text just fills the buffer, its last byte is
-- the terminator, and behind the buffer it reads out of bounds.
abbrev pub in_buffer : Bytes → Run Bytes
in_buffer text =
    if ltb (length text) buff_size
    then ok text
    else if length text == buff_size
    then ok (take (buff_size - 1) text ++ (0 ∷ []))
    else fault

unfoldable pub send_menu : ℕ → Server → Bytes × ℕ → Run Server
send_menu i s (text, count) =
    if ltb 0 count
    then (do sent ← in_buffer text; ok (emit (write (s.logged_in i).fd sent) s))
    else ok s

unfoldable pub menu : ℕ → Server → Run Server
unfolding print_text
menu i s = do
  title ← print_text (codes "Select user:\n") []
  menu_from table_size s.logged_in i (title, 0) >>= send_menu i s

-- The body of the last loop.
unfoldable pub offer : ℕ → Server → Run Server
unfolding menu
offer i s =
    let user = s.logged_in i in
    if s.writable user.fd && (user.to ==ℤ fd_awaiting) then menu i s else ok s

unfoldable pub menus_from : ℕ → Server → Run Server
unfolding offer
menus_from zero s = ok s
menus_from (suc n) s = do s' ← offer (table_size - suc n) s; menus_from n s'

-- What the kernel answers in one round of the main loop: a new connection, if `accept` is not
-- interrupted; and, if `select` finds any, the descriptors that are ready.
pub record Ready : Type 0 where
  pub readable : ℕ → Bool
  pub can_write : ℕ → Bool
  pub inputs : ℕ → List Input

pub record Answers : Type 0 where
  pub peer : Option ℕ
  pub selected : Option Ready

abbrev pub accepted : Option ℕ → Server → Server
accepted none s = s
accepted (some peer) s = accept_peer peer s

-- The rest of a round, if `select` has found something.
unfoldable pub after_select : Option Ready → Server → Run Server
unfolding serve_from menus_from
after_select none s = ok s
after_select (some ready) s = menus_from table_size (
    serve_from table_size ready.readable ready.inputs
      (record s { writable = λ fd. s.writable fd && ready.can_write fd }))

-- One round, in which no call fails.
unfoldable pub round : Answers → Server → Run Server
unfolding accept_peer ask after_select
round k s = after_select k.selected (ask (accepted k.peer s))

unfoldable pub rounds : List Answers → Server → Run Server
unfolding round
rounds [] s = ok s
rounds (k ∷ answers) s = do s' ← round k s; rounds answers s'
