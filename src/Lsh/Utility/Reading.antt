-- ===== src/Lsh/Utility/Reading.antt =====
-- How `read_line_internal` of lsh/utility.c assembles a line from the answers of `read`.
use akiso.Prelude.{
  ℕ, zero, suc, ◌≤◌, ◌≡◌, ◌≢◌, refl, ap, ◌∙◌, inl, inr, true, false, some, List, [], ◌∷◌, ◌++◌,
  append_assoc, append-nil, arith, ltb, leb, ◌==◌, if◌then◌else◌, Bool-cases, Bytes, length,
  replicate, length-append,
}
use akiso.Prelude.Run.{ok, fault}
use akiso.Lsh.Utility.{
  Turn, interrupted, received, line, pending, split_last, read_loop, read_line_internal,
}

pub split_last-concat : (s : Bytes) (c : ℕ) → split_last (s ++ c ∷ []) ≡ some (s, c)
unfolding split_last
split_last-concat [] c = refl
split_last-concat (x ∷ s) c = rw (split_last-concat s c)

-- A piece of input that does not end its line: it ends in `last`, which is no newline.
pub record Piece : Type 0 where
  pub before : Bytes
  pub last : ℕ
  pub open_end : (last == b'\n') ≡ false

abbrev pub text : Piece → Bytes
text p = p.before ++ p.last ∷ []

-- The answers that deliver the pieces, each behind any number of interrupted calls.
abbrev pub deliver : List (ℕ × Piece) → List Turn → List Turn
deliver [] turns = turns
deliver ((n, p) ∷ pieces) turns =
    replicate n interrupted ++ (received (text p) ∷ deliver pieces turns)

abbrev pub joined : List (ℕ × Piece) → Bytes
joined [] = []
joined ((n, p) ∷ pieces) = text p ++ joined pieces

read_loop-interrupted :
    (n size : ℕ) (filled : Bytes) (turns : List Turn)
    → read_loop size 0 filled (replicate n interrupted ++ turns) ≡ read_loop size 0 filled turns
unfolding read_loop
read_loop-interrupted zero size filled turns = refl
read_loop-interrupted (suc n) size filled turns = read_loop-interrupted n size filled turns

read_loop-received :
    (size : ℕ) (filled s : Bytes) (c : ℕ) (turns : List Turn)
    → 0 ≢ size
    → read_loop size 0 filled (received (s ++ c ∷ []) ∷ turns) ≡ (
        if ltb size (length (filled ++ (s ++ c ∷ [])))
        then fault
        else if c == b'\n'
        then ok (line (filled ++ s))
        else read_loop size 0 (filled ++ (s ++ c ∷ [])) turns)
unfolding read_loop
read_loop-received size filled s c turns ne =
    let room : leb size 0 ≡ false = ground arith in
    let split : split_last (filled ++ (s ++ c ∷ [])) ≡ some (filled ++ s, c) =
      rw (← append_assoc filled s (c ∷ [])) (split_last-concat (filled ++ s) c) in
    rw (split, room)

overfull :
    (size : ℕ) (filled a b : Bytes)
    → ltb size (length (filled ++ a)) ≡ true
    → ltb size (length (filled ++ (a ++ b))) ≡ true
overfull size filled a b h =
    ground (arith, length-append filled a, length-append filled (a ++ b), length-append a b)

read_loop-pieces :
    (size : ℕ) (filled : Bytes) (pieces : List (ℕ × Piece)) (n : ℕ) (l : Bytes) (turns : List Turn)
    → 0 ≢ size
    → read_loop size 0 filled
        (deliver pieces (replicate n interrupted ++ (received (l ++ b'\n' ∷ []) ∷ turns)))
      ≡ (if ltb size (length (filled ++ (joined pieces ++ (l ++ b'\n' ∷ []))))
          then fault
          else ok (line (filled ++ (joined pieces ++ l))))
read_loop-pieces size filled [] n l turns ne =
    read_loop-interrupted n size filled _ ∙ read_loop-received size filled l b'\n' turns ne
read_loop-pieces size filled ((k, p) ∷ pieces) n l turns ne =
    let rest = deliver pieces (replicate n interrupted ++ (received (l ++ b'\n' ∷ []) ∷ turns)) in
    read_loop-interrupted k size filled _
    ∙ read_loop-received size filled p.before p.last rest ne
    ∙ rw p.open_end (elim (Bool-cases (ltb size (length (filled ++ text p)))) [
      | inl full ↦
          let over = overfull size filled (text p) (joined pieces ++ (l ++ b'\n' ∷ [])) full in
          rw full (rw (append_assoc (text p) (joined pieces) (l ++ b'\n' ∷ [])) (rw over refl))
      | inr room ↦
          rw room (read_loop-pieces size (filled ++ text p) pieces n l turns ne ∙ simp append_assoc)
    ])

-- A line that comes in any number of pieces, with interrupted calls between them, is returned
-- without its newline if all of it fits the buffer, and is written past the end if it does not:
-- the room that is left is never counted down.
pub read_line-pieces :
    (size : ℕ) (pieces : List (ℕ × Piece)) (n : ℕ) (l : Bytes) (turns : List Turn)
    → 0 ≢ size
    → read_line_internal size
        (deliver pieces (replicate n interrupted ++ (received (l ++ b'\n' ∷ []) ∷ turns)))
      ≡ (if ltb size (length (joined pieces ++ (l ++ b'\n' ∷ [])))
          then fault
          else ok (line (joined pieces ++ l)))
unfolding read_line_internal
read_line-pieces size pieces n l turns ne = read_loop-pieces size [] pieces n l turns ne

read_loop-empty :
    (size : ℕ) (filled s : Bytes) (c : ℕ) (turns : List Turn)
    → 0 ≢ size
    → split_last filled ≡ some (s, c)
    → (c == b'\n') ≡ false
    → length filled ≤ size
    → read_loop size 0 filled (received [] ∷ turns) ≡ read_loop size 0 filled turns
unfolding read_loop
read_loop-empty size filled s c turns ne split open_end fits =
    let full : ltb size (length filled) ≡ false = ground arith in
    let room : leb size 0 ≡ false = ground arith in
    rw append-nil
      (rw (full, split, open_end, room) (ap (λ f. read_loop size 0 f turns) (append-nil filled)))

spinning :
    (size k : ℕ) (p : Piece)
    → 0 ≢ size
    → length (text p) ≤ size
    → read_loop size 0 (text p) (replicate k (received [])) ≡ ok pending
spinning size zero p ne fits = unfold read_loop in refl
spinning size (suc k) p ne fits =
    read_loop-empty size (text p) p.before p.last (replicate k (received [])) ne
      (split_last-concat p.before p.last) p.open_end fits
    ∙ spinning size k p ne fits

-- At the end of the input behind an unfinished line, the loop never ends: however often `read`
-- answers 0, the call is still pending.
pub read_line-end_of_input :
    (size n : ℕ) (p : Piece)
    → 0 ≢ size
    → length (text p) ≤ size
    → read_line_internal size (received (text p) ∷ replicate n (received [])) ≡ ok pending
unfolding read_line_internal
read_line-end_of_input size n p ne fits =
    let room : ltb size (length (text p)) ≡ false = ground arith in
    read_loop-received size [] p.before p.last (replicate n (received [])) ne
    ∙ rw (room, p.open_end) (spinning size n p ne fits)
