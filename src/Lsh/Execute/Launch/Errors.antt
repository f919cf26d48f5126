-- ===== src/Lsh/Execute/Launch/Errors.antt =====
-- The buffer of `read_error` of lsh/execute.c.
use akiso.Prelude.{
  ℕ, suc, zero, ◌+◌, ◌<◌, ◌≤◌, ◌≡◌, refl, ap, true, false, some, List, [], ◌∷◌, ◌++◌, arith, ltb,
  ltb→lt, Bool-cases, inl, inr, ◌⊎◌, Bytes, IsText, length, length-append, take, drop, c_str,
  c_str-terminated,
}
use akiso.Prelude.Int.{pos}
use akiso.Prelude.Run.{ok, fault}
use akiso.Lsh.Execute.Pipes.{number, read_error}

pub take_all {ℓ} : {A : Type ℓ} (n : ℕ) (xs : List A) → length xs ≤ n → take n xs ≡ xs
take_all zero [] h = refl
take_all zero (x ∷ xs) h = ground arith
take_all (suc n) [] h = refl
take_all (suc n) (x ∷ xs) h = ap (◌∷◌ x) (take_all n xs (omega arith))

length-take_full {ℓ} : {A : Type ℓ} (n : ℕ) (xs : List A) → n ≤ length xs → length (take n xs) ≡ n
length-take_full zero xs h = refl
length-take_full (suc n) [] h = omega arith
length-take_full (suc n) (x ∷ xs) h = ap suc (length-take_full n xs (omega arith))

length-drop_back {ℓ} :
    {A : Type ℓ} (n : ℕ) (xs : List A) → n ≤ length xs → n + length (drop n xs) ≡ length xs
length-drop_back zero xs h = omega arith
length-drop_back (suc n) [] h = omega arith
length-drop_back (suc n) (x ∷ xs) h = omega (arith, length-drop_back n xs (omega arith))

-- A message that is shorter than the buffer is stored with its terminator, and the result counts its
-- bytes and those of the number.
pub read_error_fits :
    (e err : ℕ) (message buff : Bytes)
    → length message < length buff
    → read_error (number e (some message)) err buff
      ≡ ok (pos (4 + length message), e, message ++ 0 ∷ drop (length message + 1) buff)
unfolding read_error
read_error_fits e err message buff h =
    let fits : ltb (length message) (length buff) ≡ true = ground arith in
    rw (read_error, take_all (length buff) message (omega arith), fits) refl

-- `read_error` leaves in a buffer, of which it does not change the size, the message that a child
-- wrote, if the message is shorter than the buffer. For every other message it writes the terminator
-- behind the buffer.
pub read_error-c_str :
    (e err : ℕ) (message buff : Bytes)
    → IsText message
    → ((length message < length buff)
        × (after : Bytes) × (read_error (number e (some message)) err buff
            ≡ ok (pos (4 + length message), e, after))
        × (c_str after ≡ message)
        × (length after ≡ length buff))
      ⊎ ((length buff ≤ length message) × (read_error (number e (some message)) err buff ≡ fault))
unfolding read_error
read_error-c_str e err message buff text = elim (Bool-cases (ltb (length message) (length buff))) [
  | inl fits ↦
      let shorter = ltb→lt (length message) (length buff) fits in
      let back = length-drop_back (length message + 1) buff (omega arith) in
      inl (
        shorter,
        message ++ 0 ∷ drop (length message + 1) buff,
        read_error_fits e err message buff shorter,
        c_str-terminated message (drop (length message + 1) buff) text,
        omega (arith, back, length-append message (0 ∷ drop (length message + 1) buff)),
      )
  | inr too_long ↦
      let longer : length buff ≤ length message = ground arith in
      let full : ltb (length buff) (length buff) ≡ false = ground arith in
      inr (longer, rw (read_error, length-take_full (length buff) message longer, full) refl)
]
