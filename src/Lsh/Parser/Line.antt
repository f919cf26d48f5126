-- ===== src/Lsh/Parser/Line.antt =====
-- The first part of `interpret_line` of lsh/parser.c, which makes a job of a line. Behind it the
-- code looks for a built-in command (Lsh/Interpret.antt).
use akiso.Prelude.{
  ℕ, ◌-◌, Bool, true, false, not, none, some, List, [], ◌∷◌, ◌++◌, ◌==◌, if◌then◌else◌, Bytes,
  length, take, replicate, strlen, c_str, set, get_elem?,
}
use akiso.Prelude.Run.{Run, ok, fault, ◌>>=◌}
use akiso.Lsh.Job.{Job, empty_job}
use akiso.Lsh.Parser.{Tokens, tokens, parse_tokens}
use akiso.Lsh.Parser.Process.{process, empty, error, parse_process}
use akiso.Lsh.Utility.{whitespace, trim_front, trim_end, add_last}

-- `BUFF_SIZE`
abbrev pub buff_size : ℕ
buff_size = 512

-- `strncpy` into a buffer of `n` bytes, from a C string: the rest is filled with zeros, and there is
-- no terminator if the string has `n` bytes or more.
abbrev pub strncpy : ℕ → Bytes → Bytes
strncpy n src = take n (c_str src ++ replicate n 0)

-- `none` where the line ends there: nothing to do, or a syntax error.
pub data Outcome : Type 0 where
  nothing : Outcome
  syntax_error : Outcome
  job : Job → Outcome

-- `buff[len - 1]`: on an empty line this reads in front of the buffer.
unfoldable pub last_char : Bytes → ℕ → Run ℕ
last_char buff len =
    if len == 0 then fault else elim (get_elem? buff (len - 1)) [ none ↦ fault | some c ↦ ok c ]

-- The buffer and `bg`.
unfoldable pub strip_bg : Bytes → Run (Bytes × Bool)
unfolding last_char
strip_bg buff = elim (strlen buff) [
  | none ↦ fault
  | some len ↦ do
    c ← last_char buff len
    ok (if c == b'&' then (set buff (len - 1) 0, true) else (buff, false))
]

-- The loop over the parts of the pipeline.
unfoldable pub parse_pipeline : List Bytes → Job → Run Outcome
unfolding parse_process add_last
parse_pipeline [] j = ok (job j)
parse_pipeline (part ∷ parts) j = do
  parsed ← parse_process part
  elim parsed [
    | error ↦ ok syntax_error
    | empty ↦ ok nothing
    | process p ↦ parse_pipeline parts (record j { pipeline = add_last j.pipeline (p ∷ []) })
  ]

unfoldable pub parse_parts : Tokens → Bool → Run Outcome
unfolding parse_pipeline
parse_parts Tokens.overrun bg = fault
parse_parts Tokens.too_many bg = ok (if bg then syntax_error else nothing)
parse_parts (tokens parts) bg =
    if length parts == 0 then ok (if bg then syntax_error else nothing) else (do
      outcome ← parse_pipeline parts (record empty_job { fg = not bg })
      ok (elim outcome [
        | nothing ↦ nothing
        | syntax_error ↦ syntax_error
        | job j ↦ job (record j { pipeline_size = length parts })
      ]))

-- The argument is the memory from `line` on.
unfoldable pub parse_line : Bytes → Run Outcome
unfolding parse_parts strip_bg trim_front trim_end parse_tokens
parse_line line = do
  front ← trim_front line whitespace
  buff ← trim_end (strncpy buff_size front) whitespace
  (buff', bg) ← strip_bg buff
  parse_parts (parse_tokens (c_str buff') (b'|' ∷ []) true) bg
