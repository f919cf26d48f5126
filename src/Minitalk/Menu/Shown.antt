-- ===== src/Minitalk/Menu/Shown.antt =====
-- What the last loop of minitalk/server_main.c is to write as the menu of a user, told by the users
-- that are shown, and the line that it writes for each of them.
use akiso.Prelude.{
  ℕ, zero, suc, ◌+◌, ◌-◌, ◌/◌, ◌%◌, ◌<◌, ◌≡◌, refl, ap, ◌∙◌, true, not, Bool-cases, inl, inr,
  Option, none, some, Option-cases, List, [], ◌∷◌, ◌++◌, ◌==◌, ltb, if◌then◌else◌, Bytes, length,
  replicate, arith,
}
use akiso.Prelude.Text.{codes}
use akiso.Minitalk.Server.{Table}
use akiso.Minitalk.Menu.{menu_line, line_for}

abbrev digit : ℕ → ℕ
digit d = b'0' + d

-- A number in decimal, of as many digits as `fuel` at most.
abbrev decimal : ℕ → ℕ → Bytes
decimal zero n = []
decimal (suc fuel) n =
    let rest = decimal fuel (n / 10) in
    if ltb n 10 then digit n ∷ [] else rest ++ (digit (n % 10) ∷ [])

abbrev right_justified : ℕ → Bytes → Bytes
right_justified width text = replicate (width - length text) b' ' ++ text

-- The line that shows a user: the index in three columns, and the name.
abbrev pub entry_line : ℕ × Bytes → Bytes
entry_line (j, name) = right_justified 3 (decimal 3 j) ++ (codes " - " ++ (name ++ codes "\n"))

-- What is shown of slot `j` to the user of slot `i`: its index and name, if it is another slot, in use,
-- and has a name.
abbrev pub entry_of : Table → ℕ → ℕ → Option (ℕ × Bytes)
entry_of logged_in i j = elim (logged_in j).name [
  | none ↦ none
  | some name ↦ if j == i then none else if ltb 0 (logged_in j).fd then some (j, name) else none
]

-- The slots that are shown, among the `n` last of 16, in their order.
unfoldable pub entries : ℕ → Table → ℕ → List (ℕ × Bytes)
entries zero logged_in i = []
entries (suc n) logged_in i = elim (entry_of logged_in i (16 - suc n)) [
  | none ↦ entries n logged_in i
  | some entry ↦ entry ∷ entries n logged_in i
]

unfoldable pub lines_of : List (ℕ × Bytes) → Bytes
lines_of [] = []
lines_of (entry ∷ shown) = entry_line entry ++ lines_of shown

-- The lines for the `n` last slots, one behind the other, and their number.
unfoldable pub menu_text : ℕ → Table → ℕ → Bytes
unfolding entries lines_of
menu_text n logged_in i = lines_of (entries n logged_in i)

unfoldable pub menu_count : ℕ → Table → ℕ → ℕ
unfolding entries
menu_count n logged_in i = length (entries n logged_in i)

menu_line-entry_line : (j : ℕ) (name : Bytes) → j < 100 → menu_line j name ≡ entry_line (j, name)
menu_line-entry_line j name below = elim (Bool-cases (ltb j 10)) [
  | inl one ↦ rw one refl
  | inr two ↦ let ten : ltb (j / 10) 10 ≡ true = ground arith in rw (two, ten) refl
]

abbrev pub shown_line : Option (ℕ × Bytes) → Option Bytes
shown_line none = none
shown_line (some entry) = some (entry_line entry)

same_slot : (i j : ℕ) → (i == j) ≡ (j == i)
same_slot i j = ground arith

in_use : (fd : ℕ) → (fd == 0) ≡ not (ltb 0 fd)
in_use fd = ground arith

pub line_for-entry_of :
    (logged_in : Table) (i j : ℕ)
    → j < 100
    → line_for logged_in i j ≡ shown_line (entry_of logged_in i j)
line_for-entry_of logged_in i j below = elim (Option-cases (logged_in j).name) [
  | inl no_name ↦ elim (Bool-cases (j == i)) [
    | inl same ↦ rw (entry_of, no_name, same_slot i j, same)
    | inr other ↦ elim (Bool-cases (ltb 0 (logged_in j).fd)) [
      | inl used ↦ rw (entry_of, no_name, same_slot i j, in_use (logged_in j).fd, other, used) refl
      | inr free ↦ rw (entry_of, no_name, same_slot i j, in_use (logged_in j).fd, other, free) refl
    ]
  ]
  | inr (name, named) ↦ elim (Bool-cases (j == i)) [
    | inl same ↦ rw (entry_of, named, same_slot i j, same) refl
    | inr other ↦ elim (Bool-cases (ltb 0 (logged_in j).fd)) [
      | inl used ↦
          rw (entry_of, named, same_slot i j, in_use (logged_in j).fd, other, used)
            (ap some (menu_line-entry_line j name below))
      | inr free ↦ rw (entry_of, named, same_slot i j, in_use (logged_in j).fd, other, free) refl
    ]
  ]
]

-- One slot more in front.
module _ (n : ℕ) (logged_in : Table) (i : ℕ) where
  abbrev slot : ℕ
  slot = 16 - suc n

  pub menu_text_hidden :
      entry_of logged_in i slot ≡ none → menu_text (suc n) logged_in i ≡ menu_text n logged_in i
  unfolding menu_text entries
  menu_text_hidden hidden = rw (menu_text, entries, hidden) refl

  pub menu_text_shown :
      (entry : ℕ × Bytes)
      → entry_of logged_in i slot ≡ some entry
      → menu_text (suc n) logged_in i ≡ entry_line entry ++ menu_text n logged_in i
  unfolding menu_text entries lines_of
  menu_text_shown entry shown = rw (menu_text, entries, shown) refl

  pub menu_count_hidden :
      entry_of logged_in i slot ≡ none → menu_count (suc n) logged_in i ≡ menu_count n logged_in i
  unfolding menu_count entries
  menu_count_hidden hidden = rw (menu_count, entries, hidden) refl

  pub menu_count_shown :
      (entry : ℕ × Bytes)
      → entry_of logged_in i slot ≡ some entry
      → menu_count (suc n) logged_in i ≡ suc (menu_count n logged_in i)
  unfolding menu_count entries
  menu_count_shown entry shown = rw (menu_count, entries, shown) refl

  pub line_for_hidden : entry_of logged_in i slot ≡ none → line_for logged_in i slot ≡ none
  line_for_hidden hidden = line_for-entry_of logged_in i slot (omega arith) ∙ ap shown_line hidden

  pub line_for_shown :
      (entry : ℕ × Bytes)
      → entry_of logged_in i slot ≡ some entry
      → line_for logged_in i slot ≡ some (entry_line entry)
  line_for_shown entry shown =
      line_for-entry_of logged_in i slot (omega arith) ∙ ap shown_line shown
