-- ===== src/Minitalk/Sound.antt =====
-- Whom the users of minitalk/server_main.c write to.
pub mod Rounds
use akiso.Prelude.{
  ℕ, zero, suc, ◌+◌, ◌-◌, ◌<◌, ◌≡◌, ◌≢◌, refl, sym, ap, ◌∙◌, Bool, true, false, not, ◌&&◌, ◌||◌,
  Option, none, some, List, [], ◌∷◌, ◌==◌, ==_iff, inl, inr, Bool-cases, Option-cases, arith, subst,
  Bytes, c_str, ltb, if◌then◌else◌,
}
use akiso.Prelude.Int.{ℤ, pos, negsuc, ◌==ℤ◌}
use akiso.Prelude.Run.{Run, ok, fault, ◌>>=◌, bind-eq-ok}
use akiso.Prelude.Text.{codes}
use akiso.Libc.{strtol, to_int}
use akiso.Minitalk.Reading.{Input, Read, error, closed, text, read_line}
use akiso.Minitalk.Server.{
  User, Table, Server, emit, write, fd_awaiting, fd_unassigned, no_user, without, put_user,
  remove_user, read_user, after_read, log_in, relay, accept_from, accept_peer, ask_user, ask_from,
  ask, choose, is_invalid, cut_last, is_named, is_target, fd_of, serve, serve_ready, serve_from,
  table_size,
}
use akiso.Minitalk.Menu.{
  menu, menu_from, send_menu, in_buffer, offer, menus_from, Answers, Ready, accepted, after_select,
  round, rounds,
}

abbrev pub IsNamed : Option Bytes → Type 0
IsNamed name = (n : Bytes) × (name ≡ some n)

-- Someone who is logged in and has a name has the descriptor.
abbrev pub Reaches : Table → ℕ → Type 0
Reaches t fd = (j : ℕ) × ((t j).fd ≡ fd) × IsNamed (t j).name

-- Every user who writes to a descriptor writes to someone who is logged in and has a name.
abbrev pub IsSound : Table → Type 0
IsSound t = (i f : ℕ) → (t i).to ≡ pos (suc f) → Reaches t (suc f)

-- A change of one user that takes neither descriptor nor name away.
module _ (i : ℕ) (user : User) (s : Server) where
  Reaches-put :
      (fd : ℕ)
      → ((s.logged_in i).fd ≡ fd → user.fd ≡ fd)
      → (IsNamed (s.logged_in i).name → IsNamed user.name)
      → Reaches s.logged_in fd
      → Reaches (put_user i user s).logged_in fd
  Reaches-put fd same_fd same_name (j, at, named) = elim (Bool-cases (j == i)) [
    | inr apart ↦ (j, rw (apart, at) refl, rw apart named)
    | inl same ↦
        let e : j ≡ i = (==_iff j i).0 same in
        (
          j,
          rw same (same_fd (ap (λ k. (s.logged_in k).fd) (sym e) ∙ at)),
          rw same (same_name (named.0, ap (λ k. (s.logged_in k).name) (sym e) ∙ named.1)),
        )
  ]

  pub IsSound-put :
      ((f : ℕ) → (s.logged_in i).fd ≡ suc f → user.fd ≡ suc f)
      → (IsNamed (s.logged_in i).name → IsNamed user.name)
      → ((f : ℕ) → user.to ≡ pos (suc f) → Reaches s.logged_in (suc f))
      → IsSound s.logged_in
      → IsSound (put_user i user s).logged_in
  IsSound-put same_fd same_name target sound j f to = elim (Bool-cases (j == i)) [
    | inr apart ↦ Reaches-put (suc f) (same_fd f) same_name (sound j f (rw apart at to))
    | inl same ↦ Reaches-put (suc f) (same_fd f) same_name (target f (rw same at to))
  ]

not_target : (f : ℕ) → ¬ (pos 0 ≡ pos (suc f))
not_target f e = absurd (omega (arith, ap fd_of e))

without-fd : (fd : ℕ) (user : User) → (without fd user).fd ≡ user.fd
without-fd fd user = elim (Bool-cases (user.to ==ℤ pos fd)) [
  | inl cleared ↦ rw cleared refl
  | inr other ↦ rw other refl
]

without-name : (fd : ℕ) (user : User) → (without fd user).name ≡ user.name
without-name fd user = elim (Bool-cases (user.to ==ℤ pos fd)) [
  | inl cleared ↦ rw cleared refl
  | inr other ↦ rw other refl
]

Reaches-without :
    (i : ℕ) (s : Server) (f : ℕ)
    → (suc f == (s.logged_in i).fd) ≡ false
    → Reaches s.logged_in (suc f)
    → Reaches (remove_user i s).logged_in (suc f)
unfolding remove_user
Reaches-without i s f other (k, at, named) = elim (Bool-cases (k == i)) [
  | inl same ↦ let e = ap (λ j. (s.logged_in j).fd) ((==_iff k i).0 same) in absurd (ground arith)
  | inr apart ↦
      let fd = (s.logged_in i).fd in
      (
        k,
        rw apart (without-fd fd (s.logged_in k) ∙ at),
        (named.0, rw apart (without-name fd (s.logged_in k) ∙ named.1)),
      )
]

-- Nobody writes any more to the user who is removed.
pub remove_user-IsSound :
    (i : ℕ) (s : Server) → IsSound s.logged_in → IsSound (remove_user i s).logged_in
unfolding remove_user
remove_user-IsSound i s sound j f to = elim (Bool-cases (j == i)) [
  | inl same ↦ absurd (not_target f (rw same at to))
  | inr apart ↦
      let fd = (s.logged_in i).fd in
      let to' = rw apart at to in
      elim (Bool-cases ((s.logged_in j).to ==ℤ pos fd)) [
        | inl cleared ↦ absurd (not_target f (rw cleared at to'))
        | inr other ↦
            let to'' : (s.logged_in j).to ≡ pos (suc f) = rw other at to' in
            Reaches-without i s f (rw to'' at other) (sound j f to'')
      ]
]

pub read_user-IsSound :
    (i len : ℕ) (leave_newline : Bool) (inputs : List Input) (s : Server)
    → IsSound s.logged_in
    → IsSound (read_user i len leave_newline inputs s).1.logged_in
unfolding read_user
read_user-IsSound i len leave_newline inputs s sound = go (read_line true len inputs)
  where
    go :
        (r : Read)
        → IsSound
            (elim r as (λ _. Option Bytes × Server) [
              | error ↦ (none, remove_user i s)
              | closed ↦ (none, remove_user i s)
              | text buff _ ↦ (some (if leave_newline then buff else cut_last buff), s)
            ]).1.logged_in
    go error = remove_user-IsSound i s sound
    go closed = remove_user-IsSound i s sound
    go (text buff rest) = sound
