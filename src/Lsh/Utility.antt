-- ===== src/Lsh/Utility.antt =====
-- lsh/utility.c and the list macros of lsh/utility.h. A `char *` is the memory from the pointer on,
-- so `str++` drops a byte; a read past the end of the memory is a fault. A linked list is the list
-- of its nodes.
pub mod Trim
pub mod Reading
pub mod Tokens
use akiso.Prelude.{
  ℕ, zero, suc, ◌-◌, Bool, true, false, not, ◌&&◌, Option, none, some, List, [], ◌∷◌, ◌++◌, ◌==◌,
  leb, ltb, if◌then◌else◌, Bytes, length, take, drop, strlen, c_str,
}
use akiso.Prelude.Run.{Run, ok, fault, ◌>>=◌}

-- `" \t\n\r"`
abbrev pub whitespace : Bytes
whitespace = b' ' ∷ b'\t' ∷ b'\n' ∷ b'\r' ∷ []

-- The set is the content of a C string.
unfoldable pub char_in_set : ℕ → Bytes → Bool
char_in_set c [] = false
char_in_set c (x ∷ set) = if x == c then true else char_in_set c set

-- The result is the pointer moved forward.
unfoldable pub trim_front : Bytes → Bytes → Run Bytes
trim_front [] characters = fault
trim_front (c ∷ str) characters =
    let rest = trim_front str characters in if char_in_set c characters then rest else ok (c ∷ str)

-- The loop body from index `i` on, where `i` is already positive: `i++` keeps it so.
unfoldable pub trim_end_loop : Bytes → Bytes → Run Bytes
trim_end_loop [] characters = fault
trim_end_loop (c ∷ str) characters =
    let rest = trim_end_loop str characters in
    if char_in_set c characters then (do m ← rest; ok (0 ∷ m)) else ok (c ∷ str)

-- The memory of `str` afterwards. For `len` 0 the C index is -1, which like 0 is not positive.
unfoldable pub trim_end : Bytes → Bytes → Run Bytes
unfolding trim_end_loop
trim_end str characters = elim (strlen str) [
  | none ↦ fault
  | some len ↦
      if ltb 0 (len - 1)
      then (do m ← trim_end_loop (drop (len - 1) str) characters; ok (take (len - 1) str ++ m))
      else ok str
]

unfoldable pub trim : Bytes → Bytes → Run Bytes
unfolding trim_front trim_end
trim str characters = do m ← trim_end str characters; trim_front m characters

-- The `for` loop over `str[i], …, str[len - 1]`; `prev` is `str[i - 1]` as it now stands, if `i > 0`.
unfoldable pub tokenize_loop : Option ℕ → ℕ → Bytes → Bytes → Bool → Run Bytes
tokenize_loop prev zero str delimeters can_backslash_escape = ok str
tokenize_loop prev (suc n) [] delimeters can_backslash_escape = fault
tokenize_loop prev (suc n) (c ∷ str) delimeters can_backslash_escape =
    let escaped = can_backslash_escape && elim prev [ none ↦ false | some p ↦ p == b'\\' ] in
    let c' = if char_in_set c delimeters && not escaped then 0 else c in
    do m ← tokenize_loop (some c') n str delimeters can_backslash_escape; ok (c' ∷ m)

-- The memory afterwards and the index of the returned pointer, `&str[len]`.
unfoldable pub tokenize : Bytes → Bytes → Bool → Run (Bytes × ℕ)
unfolding tokenize_loop
tokenize str delimeters can_backslash_escape = elim (strlen str) [
  | none ↦ fault
  | some len ↦ do m ← tokenize_loop none len str delimeters can_backslash_escape; ok (m, len)
]

-- The two loops of `next_token`, over the bytes from `str` up to `last`.
unfoldable pub skip_token : Bytes → Bytes
skip_token [] = []
skip_token (c ∷ str) = if not (c == 0) then skip_token str else c ∷ str

unfoldable pub skip_gap : Bytes → Bytes
skip_gap [] = []
skip_gap (c ∷ str) = if c == 0 then skip_gap str else c ∷ str

-- A pointer is the bytes from it up to `last`, which is the empty list; `none` is NULL.
unfoldable pub next_token : Option Bytes → Option Bytes
unfolding skip_token skip_gap
next_token none = none
next_token (some str) = elim (skip_gap (skip_token str)) [ [] ↦ none | c ∷ rest ↦ some (c ∷ rest) ]

-- An `argv` is the memory from the pointer on; `none` in it is a null entry.
unfoldable pub count_args {ℓ} : {A : Type ℓ} → List (Option A) → Run ℕ
count_args [] = fault
count_args (none ∷ argv) = ok 0
count_args (some a ∷ argv) = do count ← count_args argv; ok (suc count)

unfoldable pub get_argc {ℓ} : {A : Type ℓ} → Option (List (Option A)) → Run ℕ
unfolding count_args
get_argc none = ok 0
get_argc (some argv) = count_args argv

-- What one turn of the loop in `read_line_internal` meets: the value of the canceler, then the
-- answer of `read`.
pub data Turn : Type 0 where
  canceled : Turn
  interrupted : Turn
  failed : Turn
  received : Bytes → Turn

-- `pending`: the answers given so far do not end the call, which reads on.
pub data Line : Type 0 where
  line : Bytes → Line
  null : Line
  pending : Line

-- The last byte of the memory written so far, which is `ptr[ret - 1]`, and the rest.
unfoldable pub split_last : Bytes → Option (Bytes × ℕ)
split_last [] = none
split_last (c ∷ m) = elim (split_last m) [ none ↦ some ([], c) | some (s, d) ↦ some (c ∷ s, d) ]

-- `bytes_read` is never changed, so it is a parameter; `filled` is what stands before `ptr`. A
-- `read` that goes past `size` bytes of the buffer is a fault.
unfoldable pub read_loop : ℕ → ℕ → Bytes → List Turn → Run Line
unfolding split_last
read_loop size bytes_read filled [] = ok pending
read_loop size bytes_read filled (canceled ∷ turns) = ok null
read_loop size bytes_read filled (interrupted ∷ turns) = read_loop size bytes_read filled turns
read_loop size bytes_read filled (failed ∷ turns) = ok null
read_loop size bytes_read filled (received got ∷ turns) =
    let rest = read_loop size bytes_read (filled ++ got) turns in
    if ltb size (length (filled ++ got)) then fault else elim (split_last (filled ++ got)) [
      | none ↦ ok null
      | some (before, c) ↦
          if c == b'\n'
          then ok (line before)
          else if leb size bytes_read
          then ok (line before)
          else rest
    ]

unfoldable pub read_line_internal : ℕ → List Turn → Run Line
unfolding read_loop
read_line_internal size turns = read_loop size 0 [] turns

-- The macros `LINKED_LIST_ADD_LAST`, `ADD_FIRST`, `SIZE` and `POP_FIRST`. The argument is the chain
-- that begins at `arg`: `[]` is NULL.
module _ {ℓ} {A : Type ℓ} where
  unfoldable pub add_last : List A → List A → List A
  add_last [] arg = arg
  add_last (h ∷ head) arg = h ∷ add_last head arg

  -- On a list that is not empty the C code writes `arg->next`.
  unfoldable pub add_first : List A → List A → Run (List A)
  add_first [] arg = ok arg
  add_first (h ∷ head) [] = fault
  add_first (h ∷ head) (a ∷ arg) = ok (a ∷ h ∷ head)

  unfoldable pub list_size : List A → ℕ
  list_size [] = 0
  list_size (h ∷ head) = suc (list_size head)

  unfoldable pub pop_first : List A → Option A × List A
  pop_first [] = (none, [])
  pop_first (h ∷ head) = (some h, head)

-- A signal mask, and `set_signal_mask`: `sigaddset` or `sigdelset`, then `SIG_SETMASK`.
abbrev pub SignalMask : Type 0
SignalMask = ℕ → Bool

unfoldable pub set_signal_mask : ℕ → Bool → SignalMask → SignalMask
set_signal_mask signum on mask s = if s == signum then on else mask s
