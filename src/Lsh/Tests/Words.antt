-- ===== src/Lsh/Tests/Words.antt =====
-- The string functions and the parser at concrete texts.
use akiso.Prelude.{
  ℕ, ◌<◌, ◌≡◌, refl, true, false, none, some, [], ◌∷◌, ◌++◌, arith, Bytes, IsText, length, c_str,
  replicate,
}
use akiso.Prelude.Run.{ok, fault}
use akiso.Prelude.Int.{pos, negsuc}
use akiso.Prelude.Text.{codes, IsText-is_text}
use akiso.Lsh.Job.{Process}
use akiso.Lsh.Parser.{Tokens, tokens, parse_tokens}
use akiso.Lsh.Parser.Fields.{fields, lex}
use akiso.Lsh.Parser.Line.{parse_line}
use akiso.Lsh.Parser.Blank.{parse_line-blank}
use akiso.Lsh.Parser.Overrun.{parse_tokens-overrun}
use akiso.Lsh.Parser.Process.{parse_process}
use akiso.Lsh.Parser.Redirect.{parse_redirect}
use akiso.Lsh.Parser.Process.Words.{IsCommand}
use akiso.Lsh.Parser.Process.Command.{parse_process-IsCommand}
use akiso.Lsh.Parser.Split.{parse_tokens-nonempty, parse_tokens-fields}
use akiso.Lsh.Utility.{
  char_in_set, whitespace, add_last, trim_front, trim_end, tokenize, get_argc, read_line_internal,
  received, interrupted, line, pending,
}
use akiso.Lsh.Utility.Trim.{IsTrimmed, trim_front-IsTrimmed, trim_end_short, trim_end_once}
use akiso.Lsh.Utility.Reading.{read_line-pieces, read_line-end_of_input, Piece}
use akiso.Lsh.Utility.Tokens.{cut, tokenize-cut, get_argc-length}

white-IsText : IsText whitespace
white-IsText = IsText-is_text whitespace refl

trim_front-IsTrimmed_example :
    (r : Bytes) × (trim_front (codes "  ls" ++ 0 ∷ 7 ∷ []) whitespace ≡ ok (r ++ 0 ∷ 7 ∷ []))
    × IsTrimmed whitespace (codes "  ls") r
trim_front-IsTrimmed_example = trim_front-IsTrimmed (codes "  ls") (7 ∷ []) whitespace white-IsText

trim_end_short_example : trim_end (codes " " ++ 0 ∷ []) whitespace ≡ ok (codes " " ++ 0 ∷ [])
trim_end_short_example =
    trim_end_short (codes " ") [] whitespace (IsText-is_text (codes " ") refl) (omega arith)

trim_end_once_example :
    (r : Bytes) × (trim_end ((codes "ls" ++ b' ' ∷ []) ++ (b'\n' ∷ 0 ∷ [])) whitespace ≡ ok r)
    × (c_str r ≡ codes "ls" ++ b' ' ∷ [])
unfolding char_in_set
trim_end_once_example =
    trim_end_once (codes "ls") b' ' b'\n' [] whitespace (IsText-is_text (codes "ls \n") refl)
      white-IsText refl refl

abbrev piece : Piece
piece = record { before = codes "l"; last = b's'; open_end = refl }

read_line-pieces_example :
    read_line_internal 8 (interrupted ∷ received (codes "ls") ∷ received (codes " -l\n") ∷ [])
    ≡ ok (line (codes "ls -l"))
read_line-pieces_example = read_line-pieces 8 ((1, piece) ∷ []) 0 (codes " -l") [] (omega arith)

read_line-end_of_input_example :
    read_line_internal 8 (received (codes "ls") ∷ received [] ∷ received [] ∷ []) ≡ ok pending
read_line-end_of_input_example = read_line-end_of_input 8 2 piece (omega arith) (omega arith)

tokenize-cut_example :
    tokenize (codes "a b\\ c" ++ 0 ∷ []) (codes " ") true
    ≡ ok (cut true (codes " ") (codes "a b\\ c") ++ 0 ∷ [], 6)
unfolding char_in_set
tokenize-cut_example =
    tokenize-cut (codes "a b\\ c") [] (codes " ") true (IsText-is_text (codes "a b\\ c") refl) refl

get_argc-length_example : get_argc {A = ℕ} (some (some 1 ∷ some 2 ∷ none ∷ [])) ≡ ok 2
get_argc-length_example = get_argc-length (1 ∷ 2 ∷ []) []

abbrev command : Bytes
command = codes " cat a\\ b  >out"

fields_of_command : fields false whitespace command ≡ codes "cat" ∷ codes "a b" ∷ codes ">out" ∷ []
unfolding lex char_in_set
fields_of_command = refl

parse_tokens-nonempty_example :
    parse_tokens command whitespace false ≡ tokens (codes "cat" ∷ codes "a b" ∷ codes ">out" ∷ [])
unfolding lex char_in_set
parse_tokens-nonempty_example =
    parse_tokens-nonempty command whitespace (IsText-is_text command refl) refl

parse_tokens-fields_example :
    parse_tokens (codes "a||b") (codes "|") true ≡ tokens (codes "a" ∷ [] ∷ codes "b" ∷ [])
unfolding lex char_in_set
parse_tokens-fields_example =
    parse_tokens-fields (codes "a||b") (codes "|") (IsText-is_text (codes "a||b") refl) refl
      (omega arith)

parse_tokens-overrun_example :
    parse_tokens (replicate 21 b'|' ++ codes "ls") (codes "|") true ≡ Tokens.overrun
unfolding char_in_set
parse_tokens-overrun_example = parse_tokens-overrun b'|' (codes "ls") (codes "|") refl

abbrev cat_process : Process
cat_process = record {
  arguments = some (codes "cat") ∷ some (codes "a b") ∷ none ∷ none ∷ [];
  argc = 2;
  redirects =
      record { is_out = true; left = []; left_fd = pos 1; right = codes "out"; right_fd = negsuc 0 }
      ∷ [];
}

parse_process-IsCommand_example :
    IsCommand (fields false whitespace command) cat_process
    × (length (fields false whitespace command) < 20)
unfolding parse_process parse_redirect char_in_set add_last
parse_process-IsCommand_example =
    parse_process-IsCommand command cat_process (IsText-is_text command refl) refl

parse_line-blank_example : parse_line (codes "  " ++ (0 ∷ [])) ≡ fault
unfolding char_in_set
parse_line-blank_example = parse_line-blank (codes "  ") [] (refl, (refl, tt))
