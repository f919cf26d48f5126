-- ===== src/Minitalk/Menu/Overflow.antt =====
-- What the server writes as a menu, and when the menu does not fit its buffer.
use akiso.Prelude.{
  ℕ, zero, suc, ◌+◌, ◌-◌, ◌<◌, ◌≤◌, ◌≡◌, refl, ap, sym, ◌∙◌, true, false, ◌⊎◌, inl, inr, none, some,
  [], ◌++◌, ◌==◌, leb, ltb, if◌then◌else◌, Bytes, length, arith, length-append, append_assoc,
  append-nil, Bool-cases, Option-cases, ap₂,
}
use akiso.Prelude.Run.{ok, fault}
use akiso.Prelude.Text.{codes}
use akiso.Minitalk.Server.{write, Table, Server, emit}
use akiso.Minitalk.Menu.{buff_size, print_text, menu_from, send_menu, menu}
use akiso.Minitalk.Menu.Shown.{
  entry_line, entry_of, entries, lines_of, menu_text, menu_count, menu_text_hidden, menu_text_shown,
  menu_count_hidden, menu_count_shown, line_for_hidden, line_for_shown,
}

module _ (logged_in : Table) (i : ℕ) where
  menu_from_hidden :
      (n : ℕ) (written : Bytes) (count : ℕ)
      → entry_of logged_in i (16 - suc n) ≡ none
      → menu_from (suc n) logged_in i (written, count) ≡ menu_from n logged_in i (written, count)
  unfolding menu_from
  menu_from_hidden n written count hidden =
      rw (menu_from, line_for_hidden n logged_in i hidden) refl

  menu_from_shown :
      (n : ℕ) (written : Bytes) (count : ℕ) (entry : ℕ × Bytes)
      → entry_of logged_in i (16 - suc n) ≡ some entry
      → leb (length written) buff_size ≡ true
      → menu_from (suc n) logged_in i (written, count)
        ≡ menu_from n logged_in i (written ++ entry_line entry, count + 1)
  unfolding menu_from print_text
  menu_from_shown n written count entry shown room =
      rw (menu_from, line_for_shown n logged_in i entry shown, room) refl

  menu_from_full :
      (n : ℕ) (written : Bytes) (count : ℕ) (entry : ℕ × Bytes)
      → entry_of logged_in i (16 - suc n) ≡ some entry
      → leb (length written) buff_size ≡ false
      → menu_from (suc n) logged_in i (written, count) ≡ fault
  unfolding menu_from print_text
  menu_from_full n written count entry shown full =
      rw (menu_from, line_for_shown n logged_in i entry shown, full) refl

  -- The text and the number of lines that the loop adds.
  abbrev Written : ℕ → Bytes → ℕ → Type 0
  Written n written count =
      menu_from n logged_in i (written, count)
      ≡ ok (written ++ menu_text n logged_in i, count + menu_count n logged_in i)

  Written-none :
      (n : ℕ) (written : Bytes) (count : ℕ)
      → entry_of logged_in i (16 - suc n) ≡ none
      → Written n written count
      → Written (suc n) written count
  Written-none n written count hidden done =
      rw (menu_text_hidden n logged_in i hidden, menu_count_hidden n logged_in i hidden)
        (menu_from_hidden n written count hidden ∙ done)

  Written-some :
      (n : ℕ) (written : Bytes) (count : ℕ) (entry : ℕ × Bytes)
      → entry_of logged_in i (16 - suc n) ≡ some entry
      → leb (length written) buff_size ≡ true
      → Written n (written ++ entry_line entry) (count + 1)
      → Written (suc n) written count
  Written-some n written count entry shown room done =
      rw (menu_text_shown n logged_in i entry shown, menu_count_shown n logged_in i entry shown)
        (menu_from_shown n written count entry shown room
          ∙ done
          ∙ ap ok (
              ap₂ (λ t n. (t, n))
                (append_assoc written (entry_line entry) (menu_text n logged_in i)) (omega arith)))

  Written-zero : (written : Bytes) (count : ℕ) → Written 0 written count
  unfolding menu_from menu_text menu_count entries lines_of
  Written-zero written count = ap ok (ap₂ (λ t n. (t, n)) (sym (append-nil written)) (omega arith))

  length_shown :
      (n : ℕ) (written : Bytes) (entry : ℕ × Bytes)
      → entry_of logged_in i (16 - suc n) ≡ some entry
      → length (written ++ menu_text (suc n) logged_in i)
        ≡ length ((written ++ entry_line entry) ++ menu_text n logged_in i)
  length_shown n written entry shown = ap length (
      ap (λ t. written ++ t) (menu_text_shown n logged_in i entry shown)
      ∙ sym (append_assoc written (entry_line entry) (menu_text n logged_in i)))

  menu_from-fits :
      (n : ℕ) (written : Bytes) (count : ℕ)
      → length (written ++ menu_text n logged_in i) ≤ buff_size
      → Written n written count
  menu_from-fits zero written count h = Written-zero written count
  menu_from-fits (suc n) written count h = elim (Option-cases (entry_of logged_in i (16 - suc n))) [
    | inl hidden ↦
        Written-none n written count hidden
          (menu_from-fits n written count (rw (menu_text_hidden n logged_in i hidden) at h))
    | inr (entry, shown) ↦
        let rest = menu_text n logged_in i in
        let longer = length_shown n written entry shown in
        let room : leb (length written) buff_size ≡ true = ground (
          arith,
          length-append written (entry_line entry),
          length-append (written ++ entry_line entry) rest,
        ) in
        Written-some n written count entry shown room
          (menu_from-fits n (written ++ entry_line entry) (count + 1) (omega arith))
  ]

  menu_from-long :
      (n : ℕ) (written : Bytes) (count : ℕ)
      → buff_size < length (written ++ menu_text n logged_in i)
      → (menu_from n logged_in i (written, count) ≡ fault) ⊎ Written n written count
  menu_from-long zero written count h = inr (Written-zero written count)
  menu_from-long (suc n) written count h = elim (Option-cases (entry_of logged_in i (16 - suc n))) [
    | inl hidden ↦
        elim (menu_from-long n written count (rw (menu_text_hidden n logged_in i hidden) at h)) [
          | inl wrong ↦ inl (menu_from_hidden n written count hidden ∙ wrong)
          | inr done ↦ inr (Written-none n written count hidden done)
        ]
    | inr (entry, shown) ↦ elim (Bool-cases (leb (length written) buff_size)) [
      | inr full ↦ inl (menu_from_full n written count entry shown full)
      | inl room ↦
          let longer = length_shown n written entry shown in
          elim (menu_from-long n (written ++ entry_line entry) (count + 1) (omega arith)) [
            | inl wrong ↦ inl (menu_from_shown n written count entry shown room ∙ wrong)
            | inr done ↦ inr (Written-some n written count entry shown room done)
          ]
    ]
  ]

  menu_count-text : (n : ℕ) → menu_count n logged_in i ≡ 0 → menu_text n logged_in i ≡ []
  unfolding menu_text menu_count entries lines_of
  menu_count-text zero h = refl
  menu_count-text (suc n) h = elim (Option-cases (entry_of logged_in i (16 - suc n))) [
    | inl hidden ↦
        menu_text_hidden n logged_in i hidden
        ∙ menu_count-text n (sym (menu_count_hidden n logged_in i hidden) ∙ h)
    | inr (entry, shown) ↦ absurd (omega (arith, menu_count_shown n logged_in i entry shown))
  ]

abbrev pub title : Bytes
title = codes "Select user:\n"

send_menu-fits :
    (i : ℕ) (s : Server) (text : Bytes) (count : ℕ)
    → length text < buff_size
    → send_menu i s (text, count)
      ≡ (if count == 0 then ok s else ok (emit (write (s.logged_in i).fd text) s))
unfolding send_menu
send_menu-fits i s text count h =
    let fits : ltb (length text) buff_size ≡ true = ground arith in
    elim (Bool-cases (count == 0)) [
      | inl nobody ↦ let stop : ltb 0 count ≡ false = ground arith in rw (stop, nobody)
      | inr others ↦ let go : ltb 0 count ≡ true = ground arith in rw (go, others, fits)
    ]

send_menu-long :
    (i : ℕ) (s : Server) (text : Bytes) (count : ℕ)
    → 0 < count
    → buff_size < length text
    → send_menu i s (text, count) ≡ fault
unfolding send_menu
send_menu-long i s text count others h =
    let go : ltb 0 count ≡ true = ground arith in
    let long : ltb (length text) buff_size ≡ false = ground arith in
    let longer : (length text == buff_size) ≡ false = ground arith in rw (go, long, longer)

-- A menu that is shorter than the buffer is written to its user as it is: the title, then a line for
-- each other slot in use whose user has a name, in the order of the table: the index in three columns,
-- ` - ` and the name. Without such a user nothing is written.
pub menu-fits :
    (i : ℕ) (s : Server)
    → length (title ++ menu_text 16 s.logged_in i) < 512
    → menu i s ≡ (
        if menu_count 16 s.logged_in i == 0
        then ok s
        else ok (emit (write (s.logged_in i).fd (title ++ menu_text 16 s.logged_in i)) s))
unfolding menu print_text
menu-fits i s h =
    let same : 0 + menu_count 16 s.logged_in i ≡ menu_count 16 s.logged_in i = omega arith in
    rw (menu_from-fits s.logged_in i 16 title 0 (omega arith)) (
      send_menu-fits i s (title ++ menu_text 16 s.logged_in i) (0 + menu_count 16 s.logged_in i) h
      ∙ rw same refl)

-- A menu that is longer than the buffer is undefined behaviour: `snprintf` is given a place
-- behind the buffer with a size that has wrapped around, or `write` reads behind the buffer.
pub menu-overflow :
    (i : ℕ) (s : Server) → 512 < length (title ++ menu_text 16 s.logged_in i) → menu i s ≡ fault
unfolding menu print_text
menu-overflow i s h =
    let others : 0 < 0 + menu_count 16 s.logged_in i =
      elim (Bool-cases (menu_count 16 s.logged_in i == 0)) [
        | inl nobody ↦
            let empty = menu_count-text s.logged_in i 16 (ground arith) in
            absurd (omega (arith, rw empty at h))
        | inr some_line ↦ ground arith
      ] in
    elim (menu_from-long s.logged_in i 16 title 0 h) [
      | inl wrong ↦ rw wrong
      | inr right ↦ rw right (send_menu-long i s _ _ others h)
    ]
