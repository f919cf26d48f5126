-- ===== src/Lsh/Parser/Process.antt =====
-- `parse_process` of lsh/parser.c: the words of a command, and behind them its redirects.
pub mod Command
pub mod Words
use akiso.Prelude.{
  ℕ, zero, suc, ◌+◌, ◌≡◌, refl, Bool, true, false, not, ◌&&◌, ◌||◌, Option, none, some, List, [],
  ◌∷◌, ◌++◌, map, arith, ◌==◌, if◌then◌else◌, Bytes, length, set, ◌≢◌, All, replicate, Bool-cases,
  inl, inr, append_assoc, ap, sym, ◌∙◌, length-append,
}
use mathlib.Core.Bool.{and-false}
use akiso.Prelude.Run.{Run, ok, fault}
use akiso.Lsh.Job.{Redirect, Process, empty_process}
use akiso.Lsh.Parser.{Tokens, tokens, parse_tokens}
use akiso.Lsh.Parser.Redirect.{parse_redirect}
use akiso.Lsh.Utility.{char_in_set, add_last, whitespace}

pub data Parsed : Type 0 where
  process : Process → Parsed
  empty : Parsed
  error : Parsed

-- `if (redirect == NULL) { error = true; break; }`, and what follows it.
abbrev pub or_error : Run (Option Redirect) → (Redirect → Run Parsed) → Run Parsed
or_error (ok none) go_on = ok error
or_error (ok (some r)) go_on = go_on r
or_error fault go_on = fault

-- The loop over the tokens from index `i` on, and what follows it.
unfoldable pub parse_args : ℕ → List Bytes → Bool → ℕ → Process → Run Parsed
parse_args i [] redirect_found argc p =
    ok (process (if not redirect_found then record p { argc = argc } else p))
parse_args i (token ∷ rest_tokens) redirect_found argc p =
    let is_out = char_in_set b'>' token in
    let is_in = not is_out && char_in_set b'<' token in
    let p' = record p { arguments = set p.arguments i none } in
    let found = or_error (parse_redirect token is_out) (λ r.
      parse_args (i + 1) rest_tokens true argc (record p' {
        redirects = add_last p.redirects (r ∷ []);
        argc = if not redirect_found then i else p.argc;
      })) in
    let rest = parse_args (i + 1) rest_tokens redirect_found argc p in
    if is_out || is_in
    then (if i == 0 then ok error else if is_in && is_out then ok error else found)
    else if redirect_found
    then ok error
    else rest

-- What `parse_process` makes of the tokens; with a null block `argc` is 0.
unfoldable pub parse_block : Tokens → Run Parsed
unfolding parse_args
parse_block Tokens.too_many = ok empty
parse_block Tokens.overrun = fault
parse_block (tokens ts) =
    if length ts == 0
    then ok empty
    else parse_args 0 ts false (length ts)
        (record empty_process { arguments = map some ts ++ none ∷ [] })

unfoldable pub parse_process : Bytes → Run Parsed
unfolding parse_block parse_tokens
parse_process command = parse_block (parse_tokens command whitespace false)
