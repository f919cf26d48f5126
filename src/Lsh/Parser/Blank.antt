-- ===== src/Lsh/Parser/Blank.antt =====
-- `interpret_line` of lsh/parser.c on a line of blanks.
use akiso.Prelude.{◌≡◌, refl, true, [], ◌∷◌, ◌++◌, Bytes, All, ℕ}
use akiso.Prelude.Run.{ok, fault}
use akiso.Lsh.Parser.Line.{parse_line}
use akiso.Lsh.Utility.{whitespace, char_in_set, trim_front}

abbrev pub IsBlank : ℕ → Type 0
IsBlank c = char_in_set c whitespace ≡ true

trim_front-blanks :
    (blanks m : Bytes) → All IsBlank blanks → trim_front (blanks ++ (0 ∷ m)) whitespace ≡ ok (0 ∷ m)
unfolding trim_front char_in_set
trim_front-blanks [] m h = refl
trim_front-blanks (c ∷ blanks) m (blank, h) = rw blank (trim_front-blanks blanks m h)

-- An empty line, or one of blanks only, is undefined behaviour: the buffer is empty when its last
-- character is looked at, in front of the buffer.
pub parse_line-blank :
    (blanks m : Bytes) → All IsBlank blanks → parse_line (blanks ++ (0 ∷ m)) ≡ fault
unfolding parse_line
parse_line-blank blanks m h = rw (trim_front-blanks blanks m h)
