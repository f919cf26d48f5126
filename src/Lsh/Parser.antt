-- ===== src/Lsh/Parser.antt =====
-- lsh/parser.c, first part: `parse_tokens`. The block that it allocates is a table of
-- `MAX_ARGS + 1` pointers and, right behind it, the text of the tokens. A pointer is its offset in
-- that text. A pointer stored behind the table would overwrite the text: `overrun`.
pub mod Blank
pub mod Fields
pub mod Line
pub mod Overrun
pub mod Post
pub mod Process
pub mod Redirect
pub mod Rest
pub mod Split
pub mod Steps
use akiso.Prelude.{
  ℕ, ◌+◌, ◌<◌, Bool, true, false, not, ◌&&◌, List, [], ◌∷◌, ◌++◌, map, ◌==◌, leb, ltb,
  if◌then◌else◌, Bytes, length, drop, c_str,
}
use akiso.Lsh.Utility.{char_in_set}

-- `MAX_ARGS` of lsh/parser.h
abbrev pub max_args : ℕ
max_args = 20

-- The local variables: `buffer` is what was written, so its length is the pointer, and the number
-- of arguments is `arg_count`.
pub record Scan : Type 0 where
  pub buffer : Bytes
  pub arguments : List ℕ
  pub escaped : Bool
  pub add_arg : Bool

abbrev pub initial : Scan
initial = record { buffer = []; arguments = []; escaped = false; add_arg = true }

-- `too_many` is the early `return NULL`.
pub data Status : Type 0 where
  scanning : Scan → Status
  too_many : Status
  overrun : Status

-- `*buffer++ = c`
abbrev pub put : ℕ → Scan → Scan
put c s = record s { buffer = s.buffer ++ c ∷ [] }

-- `arguments[arg_count++] = buffer`, into a table of `MAX_ARGS + 1`
unfoldable pub add_argument : Scan → Status
add_argument s =
    if ltb (length s.arguments) (max_args + 1)
    then scanning (record s { arguments = s.arguments ++ length s.buffer ∷ [] })
    else Status.overrun

abbrev pub and_then : Status → (Scan → Status) → Status
and_then (scanning s) f = f s
and_then Status.too_many f = Status.too_many
and_then Status.overrun f = Status.overrun

-- `if (arg_count >= MAX_ARGS) return NULL`
unfoldable pub check_count : Scan → Status
check_count s = if leb max_args (length s.arguments) then Status.too_many else scanning s

-- The branch for a delimiter that is not escaped, which ends in `continue`.
unfoldable pub delimeter : Bool → Scan → Status
unfolding add_argument
delimeter allow_empty s =
    and_then
      (if allow_empty && s.add_arg
        then and_then (add_argument s) (λ t. scanning (put 0 t))
        else if not s.add_arg
        then scanning (put 0 s)
        else scanning s)
      (λ t. scanning (record t { add_arg = true }))

-- `if (add_arg) { … }`
unfoldable pub begin_arg : Scan → Status
unfolding add_argument check_count
begin_arg s =
    if s.add_arg
    then and_then (add_argument s) (λ t. check_count (record t { add_arg = false }))
    else scanning s

-- The last part of the loop body, on the character read.
unfoldable pub put_char : ℕ → Scan → Scan
put_char c s =
    if c == b'\\'
    then (if s.escaped
        then record (put b'\\' s) { escaped = false }
        else record s { escaped = true })
    else if s.escaped
    then record (put c (put b'\\' s)) { escaped = false }
    else put c s

-- One turn of the `while` loop.
unfoldable pub scan_char : Bytes → Bool → ℕ → Scan → Status
unfolding delimeter begin_arg put_char
scan_char delimeters allow_empty c s =
    if char_in_set c delimeters
    then (if s.escaped
        then and_then (begin_arg (record s { escaped = false })) (λ t. scanning (put_char c t))
        else delimeter allow_empty s)
    else and_then (begin_arg s) (λ t. scanning (put_char c t))

-- The loop, over the content of the C string `command`.
unfoldable pub scan : Bytes → Bool → Bytes → Scan → Status
unfolding scan_char
scan delimeters allow_empty [] s = scanning s
scan delimeters allow_empty (c ∷ command) s =
    and_then (scan_char delimeters allow_empty c s) (scan delimeters allow_empty command)

-- What follows the loop, down to `arguments[arg_count] = NULL`.
unfoldable pub finish : Bool → Scan → Status
unfolding add_argument check_count
finish allow_empty s =
    and_then
      (if s.escaped
        then scanning (put 0 (put b'\\' s))
        else if s.add_arg && allow_empty
        then and_then (add_argument s) (λ t. check_count (put 0 t))
        else scanning (put 0 s))
      (λ t. if ltb (length t.arguments) (max_args + 1) then scanning t else Status.overrun)

-- What the returned block holds: each argument is the C string at its offset, and `argc` is their
-- number.
pub data Tokens : Type 0 where
  tokens : List Bytes → Tokens
  too_many : Tokens
  overrun : Tokens

abbrev pub tokens_of : Bytes → List ℕ → List Bytes
tokens_of buffer = map (λ offset. c_str (drop offset buffer))

abbrev pub returned : Status → Tokens
returned (scanning s) = tokens (tokens_of s.buffer s.arguments)
returned Status.too_many = Tokens.too_many
returned Status.overrun = Tokens.overrun

unfoldable pub parse_tokens : Bytes → Bytes → Bool → Tokens
unfolding scan finish
parse_tokens command delimeters allow_empty =
    returned (and_then (scan delimeters allow_empty command initial) (finish allow_empty))
