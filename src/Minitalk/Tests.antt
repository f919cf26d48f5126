-- ===== src/Minitalk/Tests.antt =====
-- The theorems on minitalk/ at concrete inputs.
use akiso.Prelude.{
  ◌≡◌, refl, Bool, true, false, none, some, List, [], ◌∷◌, ◌++◌, map, arith, ◌==◌, if◌then◌else◌,
  Bytes, replicate, Bool-cases, inl, inr, ap,
}
use akiso.Prelude.Text.{codes}
use akiso.Prelude.Run.{Run, ok, fault}
use akiso.Minitalk.Reading.{byte, text, read_line, read_line-line}
use akiso.Minitalk.Server.{no_user, Server, fd_awaiting, write, emit, fd_of, close}
use akiso.Minitalk.Menu.{Answers, menu, round, rounds}
use akiso.Minitalk.Menu.Overflow.{menu-fits, menu-overflow}
use akiso.Minitalk.Menu.Shown.{entries, lines_of, menu_text, menu_count}
use akiso.Minitalk.Sound.{IsSound}
use akiso.Minitalk.Sound.Rounds.{rounds-IsSound}

read_line-line_example :
    read_line true 4 (map byte (codes "hello" ++ (b'\n' ∷ [])) ++ byte b'x' ∷ [])
    ≡ text (codes "hel") (byte b'x' ∷ [])
read_line-line_example =
    read_line-line true 4 (byte b'x' ∷ []) (codes "hello") (omega arith) (omega arith)
      (refl, (refl, (refl, (refl, (refl, tt)))))

-- Three users with names, waiting for a menu.
abbrev server : Bytes → Bytes → Server
server first second = record {
  logged_in = λ i.
      if i == 0
      then record { fd = 4; name = some first; to = fd_awaiting }
      else if i == 1
      then record { fd = 5; name = some second; to = fd_awaiting }
      else if i == 2
      then record { fd = 6; name = some (codes "eve"); to = fd_awaiting }
      else no_user;
  writable = λ _. true;
  effects = [];
}

menu-fits_example :
    menu 2 (server (codes "amy") (codes "bob"))
    ≡ ok (
        emit
          (write 6 (codes "Select user:\n  0 - amy\n  1 - bob\n"))
          (server (codes "amy") (codes "bob")))
unfolding menu_text menu_count entries lines_of
menu-fits_example = menu-fits 2 (server (codes "amy") (codes "bob")) (omega arith)

-- The longest names that `read_user` gives.
menu-overflow_example : menu 2 (server (replicate 254 b'a') (replicate 254 b'b')) ≡ fault
unfolding menu_text menu_count entries lines_of
menu-overflow_example =
    menu-overflow 2 (server (replicate 254 b'a') (replicate 254 b'b')) (omega arith)

server-IsSound : (first second : Bytes) → IsSound (server first second).logged_in
server-IsSound first second i f to = elim (Bool-cases (i == 0)) [
  | inl zeroth ↦ let e = rw zeroth at to in absurd cc
  | inr later ↦ elim (Bool-cases (i == 1)) [
    | inl one ↦ let e = rw (later, one) at to in absurd cc
    | inr later' ↦ elim (Bool-cases (i == 2)) [
      | inl two ↦ let e = rw (later, later', two) at to in absurd cc
      | inr free ↦ let e = rw (later, later', free) at to in absurd (omega (arith, ap fd_of e))
    ]
  ]
]

-- Eve chooses Amy and writes to her; Amy, who is asked at the same time, leaves in the next round.
abbrev answers : List Answers
answers =
    record {
      peer = some 7;
      selected = some (record {
        readable = λ fd. fd == 6;
        can_write = λ _. true;
        inputs = λ _. map byte (codes "0\n");
      });
    }
    ∷ record {
      peer = none;
      selected = some (record {
        readable = λ fd. fd == 6;
        can_write = λ _. true;
        inputs = λ _. map byte (codes "hi\n");
      });
    }
    ∷ record {
      peer = none;
      selected =
          some (record { readable = λ fd. fd == 4; can_write = λ _. true; inputs = λ _. [] });
    }
    ∷ []

abbrev after : Run Server → Server
after (ok s) = s
after fault = server [] []

abbrev is_ok : Run Server → Bool
is_ok (ok s) = true
is_ok fault = false

ok-after : (m : Run Server) → is_ok m ≡ true → m ≡ ok (after m)
ok-after (ok s) e = refl
ok-after fault e = absurd cc

effects_of_answers :
    (after (rounds answers (server (codes "amy") (codes "bob")))).effects
    ≡ write 7 (codes "Enter login\n") ∷ write 4 (codes "hi\n") ∷ close 4 ∷ []
unfolding rounds round
effects_of_answers = refl

answers-is_ok : is_ok (rounds answers (server (codes "amy") (codes "bob"))) ≡ true
unfolding rounds round
answers-is_ok = refl

rounds-IsSound_example :
    IsSound (after (rounds answers (server (codes "amy") (codes "bob")))).logged_in
rounds-IsSound_example =
    rounds-IsSound answers (server (codes "amy") (codes "bob"))
      (after (rounds answers (server (codes "amy") (codes "bob"))))
      (server-IsSound (codes "amy") (codes "bob"))
      (ok-after (rounds answers (server (codes "amy") (codes "bob"))) answers-is_ok)
