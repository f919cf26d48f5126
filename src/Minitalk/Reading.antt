-- ===== src/Minitalk/Reading.antt =====
-- `read_line` of minitalk/server_main.c and of minitalk/client_main.c. What `read` answers, one byte
-- at a time, is an argument: all that the peer still sends before it closes the connection.
use akiso.Prelude.{
  ℕ, zero, suc, ◌+◌, ◌-◌, ◌%◌, ◌^◌, ◌<◌, ◌≤◌, ◌≡◌, refl, ap, ◌∙◌, Bool, true, false, List, [], ◌∷◌,
  ◌++◌, map, arith, ◌==◌, ltb, if◌then◌else◌, Bytes, length, length-append, take, take-nil, All,
  append_assoc, append-nil,
}

pub data Input : Type 0 where
  byte : ℕ → Input
  interrupted failed : Input

-- The result of `read_line`: -1, 0, or the bytes in the buffer, whose number is returned, with the
-- answers that are not yet used.
pub data Read : Type 0 where
  error : Read
  closed : Read
  text : Bytes → List Input → Read

abbrev pub is_nil : Bytes → Bool
is_nil [] = true
is_nil (c ∷ s) = false

-- `n - 1` of a `size_t`: with `n` 0 it is the greatest of them.
abbrev room : ℕ → ℕ
room n = (n + 2 ^ 64 - 1) % 2 ^ 64

-- One byte more, if there is room for it and the terminator. The bytes are those that are written from
-- the start of the buffer on: with `n` 0 every byte is, although the buffer has no room for it.
abbrev store : ℕ → Bytes → ℕ → Bytes
store n buffer ch = if ltb (length buffer) (room n) then buffer ++ (ch ∷ []) else buffer

-- `again`: whether an interrupted `read` is tried again, as the server does, or ends with an error, as
-- the client does.
unfoldable pub read_loop : Bool → ℕ → List Input → Bytes → Read
read_loop again n [] buffer = if is_nil buffer then closed else text buffer []
read_loop again n (interrupted ∷ inputs) buffer =
    if again then read_loop again n inputs buffer else error
read_loop again n (failed ∷ inputs) buffer = error
read_loop again n (byte ch ∷ inputs) buffer =
    let rest = read_loop again n inputs (store n buffer ch) in
    if ch == b'\n' then text (store n buffer ch) inputs else rest

unfoldable pub read_line : Bool → ℕ → List Input → Read
unfolding read_loop
read_line again n inputs = read_loop again n inputs []

store-full :
    (n : ℕ) (buffer : Bytes) (ch : ℕ) → room n ≡ length buffer + 0 → store n buffer ch ≡ buffer
store-full n buffer ch h =
    let full : ltb (length buffer) (room n) ≡ false = ground arith in rw full refl

store-room :
    (n : ℕ) (buffer : Bytes) (ch m : ℕ)
    → room n ≡ length buffer + suc m
    → store n buffer ch ≡ buffer ++ (ch ∷ [])
store-room n buffer ch m h =
    let more : ltb (length buffer) (room n) ≡ true = ground arith in rw more refl

abbrev pub IsInLine : ℕ → Type 0
IsInLine c = (c == b'\n') ≡ false

module _ (again : Bool) (n : ℕ) (rest : List Input) where
  read_loop-line :
      (line buffer : Bytes) (m : ℕ)
      → All IsInLine line
      → room n ≡ length buffer + m
      → read_loop again n (map byte (line ++ (b'\n' ∷ [])) ++ rest) buffer
        ≡ text (buffer ++ take m (line ++ (b'\n' ∷ []))) rest
  unfolding read_loop
  read_loop-line [] buffer zero h size = rw (store-full n buffer b'\n' size, append-nil buffer) refl
  read_loop-line [] buffer (suc m) h size = rw (store-room n buffer b'\n' m size, take-nil) refl
  read_loop-line (c ∷ line) buffer zero (other, h) size =
      rw (other, store-full n buffer c size) (read_loop-line line buffer zero h size)
  read_loop-line (c ∷ line) buffer (suc m) (other, h) size =
      rw (other, store-room n buffer c m size)
        (read_loop-line line (buffer ++ (c ∷ [])) m h (omega (arith, length-append buffer (c ∷ [])))
          ∙ ap (λ b. text b rest) (append_assoc buffer (c ∷ []) (take m (line ++ (b'\n' ∷ [])))))

  -- `read_line` of a line with its newline gives the line, cut to the `n - 1` bytes that fit, and
  -- uses up the whole line, for the server and for the client, if the size `n` of the buffer is at least
  -- 1 and at most 2 ^ 63, so that the number of bytes is a `ssize_t`.
  pub read_line-line :
      (line : Bytes)
      → 0 < n
      → n ≤ 2 ^ 63
      → All IsInLine line
      → read_line again n (map byte (line ++ (b'\n' ∷ [])) ++ rest)
        ≡ text (take (n - 1) (line ++ (b'\n' ∷ []))) rest
  unfolding read_line
  read_line-line line some_room size h =
      let same : room n ≡ n - 1 = omega arith in
      read_loop-line line [] (n - 1) h (omega (arith, same))
