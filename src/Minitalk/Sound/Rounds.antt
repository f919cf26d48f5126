-- ===== src/Minitalk/Sound/Rounds.antt =====
-- The steps of a round of minitalk/server_main.c and whom the users write to after each.
use akiso.Prelude.{
  ℕ, zero, suc, ◌-◌, ◌≡◌, refl, sym, ap, ◌∙◌, Bool, true, false, not, ◌&&◌, ◌||◌, Option, none,
  some, List, [], ◌∷◌, ◌==◌, inl, inr, Bool-cases, Option-cases, arith, subst, Bytes, c_str, ltb,
}
use akiso.Prelude.Int.{pos, ◌==ℤ◌}
use akiso.Prelude.Run.{ok, bind-eq-ok}
use akiso.Prelude.Text.{codes}
use akiso.Libc.{strtol, to_int}
use akiso.Minitalk.Reading.{Input}
use akiso.Minitalk.Server.{
  User, Server, emit, write, fd_awaiting, read_user, after_read, log_in, relay, accept_from,
  accept_peer, ask_user, ask_from, ask, choose, is_invalid, is_named, is_target, fd_of, serve,
  serve_ready, serve_from, table_size,
}
use akiso.Minitalk.Menu.{
  menu, menu_from, send_menu, in_buffer, offer, menus_from, Answers, Ready, accepted, after_select,
  round, rounds,
}
use akiso.Minitalk.Sound.{IsNamed, IsSound, IsSound-put, remove_user-IsSound, read_user-IsSound}

accept_from-IsSound :
    (n peer : ℕ) (s : Server) → IsSound s.logged_in → IsSound (accept_from n peer s).logged_in
unfolding accept_from
accept_from-IsSound zero peer s sound = sound
accept_from-IsSound (suc n) peer s sound =
    let i = table_size - suc n in
    elim (Bool-cases ((s.logged_in i).fd == 0)) [
      | inr taken ↦ rw taken (accept_from-IsSound n peer s sound)
      | inl free ↦ rw free (
          IsSound-put i (record (s.logged_in i) { fd = peer }) s (λ f at. absurd (ground arith))
            (λ named. named) (λ f to. sound i f to) sound)
    ]

ask_user-IsSound : (i : ℕ) (s : Server) → IsSound s.logged_in → IsSound (ask_user i s).logged_in
unfolding ask_user
ask_user-IsSound i s sound =
    let user = s.logged_in i in
    elim (Bool-cases (user.fd == 0 || not (is_named user))) [
      | inl skipped ↦ rw skipped sound
      | inr named ↦ elim (Bool-cases (is_target user.to)) [
        | inl target ↦ rw (named, target) sound
        | inr nobody ↦ elim (Bool-cases (user.to ==ℤ fd_awaiting)) [
          | inl waits ↦ rw (named, nobody, waits) sound
          | inr idle ↦
              rw (named, nobody, idle)
                (IsSound-put i (record user { to = fd_awaiting }) s (λ f at. at) (λ n. n)
                  (λ f to. absurd cc) sound)
        ]
      ]
    ]

ask_from-IsSound : (n : ℕ) (s : Server) → IsSound s.logged_in → IsSound (ask_from n s).logged_in
unfolding ask_from
ask_from-IsSound zero s sound = sound
ask_from-IsSound (suc n) s sound =
    ask_from-IsSound n (ask_user (table_size - suc n) s)
      (ask_user-IsSound (table_size - suc n) s sound)

IsNamed-there : (user : User) → (user.fd == 0 || not (is_named user)) ≡ false → IsNamed user.name
IsNamed-there user h = elim (Option-cases user.name) [
  | inr named ↦ named
  | inl nameless ↦ let h' = rw nameless at h in absurd (ground arith)
]

choose-IsSound :
    (i : ℕ) (buff : Bytes) (s : Server) → IsSound s.logged_in → IsSound (choose i buff s).logged_in
unfolding choose
choose-IsSound i buff s sound =
    let new_to = to_int (strtol buff).0 in
    let target = s.logged_in (fd_of new_to) in
    elim (Bool-cases (is_invalid buff)) [
      | inl invalid ↦ rw invalid (remove_user-IsSound i s sound)
      | inr index ↦ elim (Bool-cases (target.fd == 0 || not (is_named target))) [
        | inl nobody ↦ rw (index, nobody) (remove_user-IsSound i s sound)
        | inr there ↦
            rw (index, there)
              (IsSound-put i (record (s.logged_in i) { to = pos target.fd }) s (λ f at. at) (λ n. n)
                (λ f to. (fd_of new_to, ap fd_of to, IsNamed-there target there)) sound)
      ]
    ]

after_read-IsSound :
    (p : Option Bytes × Server) (use_line : Bytes → Server → Server)
    → IsSound p.1.logged_in
    → ((line : Bytes) (s : Server) → IsSound s.logged_in → IsSound (use_line line s).logged_in)
    → IsSound (after_read p use_line).logged_in
after_read-IsSound (none, s) use_line sound h = sound
after_read-IsSound (some line, s) use_line sound h = h line s sound

serve-IsSound :
    (i : ℕ) (inputs : List Input) (s : Server)
    → IsSound s.logged_in
    → IsSound (serve i inputs s).logged_in
unfolding serve
serve-IsSound i inputs s sound =
    let user = s.logged_in i in
    let after = λ (leave_newline : Bool). read_user-IsSound i 256 leave_newline inputs s sound in
    elim (Bool-cases (is_named user)) [
      | inr new ↦ rw new (
          after_read-IsSound (read_user i 256 false inputs s) (log_in i) (after false)
            (λ line t sound'.
              IsSound-put i (record (t.logged_in i) { name = some (c_str line) }) t (λ f at. at)
                (λ named. (c_str line, refl)) (λ f to. sound' i f to) sound'))
      | inl named ↦ elim (Bool-cases (user.to ==ℤ fd_awaiting)) [
        | inl waits ↦
            rw (named, waits)
              (after_read-IsSound (read_user i 256 false inputs s) (λ line. choose i (c_str line))
                (after false) (λ line t sound'. choose-IsSound i (c_str line) t sound'))
        | inr talks ↦ elim (Bool-cases (is_target user.to && s.writable (fd_of user.to))) [
          | inl ready ↦
              rw (named, talks, ready)
                (after_read-IsSound (read_user i 256 true inputs s) (relay (fd_of user.to))
                  (after true) (λ line t sound'. sound'))
          | inr other ↦ rw (named, talks, other) sound
        ]
      ]
    ]

serve_ready-IsSound :
    (i : ℕ) (readable : ℕ → Bool) (inputs : List Input) (s : Server)
    → IsSound s.logged_in
    → IsSound (serve_ready i readable inputs s).logged_in
unfolding serve_ready
serve_ready-IsSound i readable inputs s sound =
    let fd = (s.logged_in i).fd in
    elim (Bool-cases (not (fd == 0) && readable fd)) [
      | inl ready ↦ rw ready (serve-IsSound i inputs s sound)
      | inr other ↦ rw other sound
    ]

serve_from-IsSound :
    (n : ℕ) (readable : ℕ → Bool) (inputs : ℕ → List Input) (s : Server)
    → IsSound s.logged_in
    → IsSound (serve_from n readable inputs s).logged_in
unfolding serve_from
serve_from-IsSound zero readable inputs s sound = sound
serve_from-IsSound (suc n) readable inputs s sound =
    let i = table_size - suc n in
    serve_from-IsSound n readable inputs (serve_ready i readable (inputs i) s)
      (serve_ready-IsSound i readable (inputs i) s sound)

menu-same : (i : ℕ) (s t : Server) → menu i s ≡ ok t → t.logged_in ≡ s.logged_in
unfolding menu send_menu
menu-same i s t e =
    let ((written, count), _, sent) =
      bind-eq-ok (menu_from table_size s.logged_in i (codes "Select user:\n", 0)) (send_menu i s)
        e in
    elim (Bool-cases (ltb 0 count)) [
      | inr none_there ↦
          let done = rw none_there at sent in
          let same : s ≡ t = cc in ap (λ x. x.logged_in) (sym same)
      | inl others ↦
          let (bytes, _, done) = bind-eq-ok (in_buffer written) _ (rw others at sent) in
          let same : emit (write (s.logged_in i).fd bytes) s ≡ t = cc in
          ap (λ x. x.logged_in) (sym same)
    ]

offer-same : (i : ℕ) (s t : Server) → offer i s ≡ ok t → t.logged_in ≡ s.logged_in
unfolding offer
offer-same i s t e =
    let user = s.logged_in i in
    elim (Bool-cases (s.writable user.fd && (user.to ==ℤ fd_awaiting))) [
      | inl offered ↦ menu-same i s t (rw offered at e)
      | inr other ↦
          let done = rw other at e in let same : s ≡ t = cc in ap (λ x. x.logged_in) (sym same)
    ]

menus_from-same : (n : ℕ) (s t : Server) → menus_from n s ≡ ok t → t.logged_in ≡ s.logged_in
unfolding menus_from
menus_from-same zero s t e = let same : s ≡ t = cc in ap (λ x. x.logged_in) (sym same)
menus_from-same (suc n) s t e =
    let (u, offered, rest) = bind-eq-ok (offer (table_size - suc n) s) (menus_from n) e in
    menus_from-same n u t rest ∙ offer-same (table_size - suc n) s u offered

accepted-IsSound :
    (peer : Option ℕ) (s : Server) → IsSound s.logged_in → IsSound (accepted peer s).logged_in
unfolding accept_peer
accepted-IsSound none s sound = sound
accepted-IsSound (some peer) s sound = accept_from-IsSound table_size peer s sound

after_select-IsSound :
    (selected : Option Ready) (s t : Server)
    → IsSound s.logged_in
    → after_select selected s ≡ ok t
    → IsSound t.logged_in
unfolding after_select
after_select-IsSound none s t sound e =
    let same : s ≡ t = cc in subst (λ x. IsSound x.logged_in) same sound
after_select-IsSound (some ready) s t sound e =
    let asked : Server = record s { writable = λ fd. s.writable fd && ready.can_write fd } in
    subst IsSound
      (sym
        (menus_from-same table_size (serve_from table_size ready.readable ready.inputs asked) t e))
      (serve_from-IsSound table_size ready.readable ready.inputs asked sound)

round-IsSound :
    (k : Answers) (s t : Server) → IsSound s.logged_in → round k s ≡ ok t → IsSound t.logged_in
unfolding round ask
round-IsSound k s t sound e =
    let start : Server = record (accepted k.peer s) { writable = λ _. false } in
    after_select-IsSound k.selected (ask_from table_size start) t
      (ask_from-IsSound table_size start (accepted-IsSound k.peer s sound)) e

-- If every user writes only to someone who is logged in and has a name, this still holds after any
-- number of rounds of the main loop, whatever connects, is sent and leaves in them, as long as no
-- menu overflows its buffer.
pub rounds-IsSound :
    (answers : List Answers) (s t : Server)
    → IsSound s.logged_in
    → rounds answers s ≡ ok t
    → IsSound t.logged_in
unfolding rounds
rounds-IsSound [] s t sound e = let same : s ≡ t = cc in subst (λ x. IsSound x.logged_in) same sound
rounds-IsSound (k ∷ answers) s t sound e =
    let (u, first, rest) = bind-eq-ok (round k s) (rounds answers) e in
    rounds-IsSound answers u t (round-IsSound k s u sound first) rest
