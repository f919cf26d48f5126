-- ===== src/Lsh/Parser/Overrun.antt =====
-- Where `parse_tokens` of lsh/parser.c stores a pointer behind its table of arguments.
use akiso.Prelude.{
  ℕ, zero, suc, ◌+◌, ◌≤◌, ◌≡◌, refl, sym, ◌∙◌, ap, inl, inr, true, false, List, [], ◌∷◌, ◌++◌,
  append_assoc, append-nil, arith, ltb, Bool-cases, Bytes, length, replicate, length-append,
}
use akiso.Lsh.Parser.{Tokens, scan, finish, parse_tokens}
use akiso.Lsh.Parser.Fields.{starts, length-starts}
use akiso.Lsh.Parser.Steps
use akiso.Lsh.Parser.Steps.{between}
use akiso.Lsh.Parser.Rest.{rest_of, rest_of-cons}
use akiso.Lsh.Utility.{char_in_set}

module _ (d : ℕ) (command delimeters : Bytes) (hit : char_in_set d delimeters ≡ true) where
  fill :
      (n : ℕ) (done : List Bytes)
      → length done + n ≤ 21
      → rest_of delimeters true (replicate n d ++ command) (between done)
        ≡ rest_of delimeters true command (between (done ++ replicate n []))
  fill zero done room =
      ap (λ ts. rest_of delimeters true command (between ts)) (sym (append-nil done))
  fill (suc n) done room =
      rest_of-cons delimeters true d (replicate n d ++ command) (between done)
        (between (done ++ [] ∷ []))
        (Steps.between-empty delimeters true d done hit refl (omega arith))
      ∙ fill n (done ++ [] ∷ []) (omega (arith, length-append done ([] ∷ [])))
      ∙ ap (λ ts. rest_of delimeters true command (between ts))
          (append_assoc done ([] ∷ []) (replicate n []))

overrun_full :
    (command delimeters : Bytes) (done : List Bytes)
    → length done ≡ 21
    → rest_of delimeters true command (between done) ≡ Tokens.overrun
unfolding scan finish
overrun_full [] delimeters done full =
    let no_room : ltb (length (starts 0 done)) 21 ≡ false = ground (arith, length-starts 0 done) in
    rw no_room
overrun_full (c ∷ command) delimeters done full =
    let no_room : ltb (length (starts 0 done)) 21 ≡ false = ground (arith, length-starts 0 done) in
    elim (Bool-cases (char_in_set c delimeters)) [
      | inl hit ↦ rw (hit, no_room)
      | inr miss ↦ rw (miss, no_room)
    ]

-- Empty tokens are not counted against the limit: 21 delimiters in front fill the table, and the
-- next token, which there always is, is stored behind it, whatever the rest of the command.
pub parse_tokens-overrun :
    (d : ℕ) (command delimeters : Bytes)
    → char_in_set d delimeters ≡ true
    → parse_tokens (replicate 21 d ++ command) delimeters true ≡ Tokens.overrun
unfolding parse_tokens
parse_tokens-overrun d command delimeters hit =
    fill d command delimeters hit 21 [] (omega arith)
    ∙ overrun_full command delimeters (replicate 21 []) refl
