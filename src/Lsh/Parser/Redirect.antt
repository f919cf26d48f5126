-- ===== src/Lsh/Parser/Redirect.antt =====
-- `check_redirect` and `parse_redirect` of lsh/parser.c.
use akiso.Prelude.{Bool, true, false, Option, none, some, List, [], ◌∷◌, ◌==◌, if◌then◌else◌, Bytes}
use akiso.Prelude.Int.{pos, negsuc}
use akiso.Prelude.Run.{Run, ok, fault}
use akiso.Libc.{strtol, to_int}
use akiso.Lsh.Job.{Redirect}
use akiso.Lsh.Parser.{Tokens, tokens, parse_tokens}

abbrev is_nil : Bytes → Bool
is_nil [] = true
is_nil (c ∷ s) = false

-- The right side: `false`, or the file descriptor behind `&`, or -1 for a file name.
unfoldable pub check_right : Redirect → Redirect × Bool
check_right redirect = elim redirect.right [
  | [] ↦ (redirect, false)
  | c ∷ rest ↦
      if c == b'&'
      then (if is_nil rest
          then (redirect, false)
          else (let (n, ptr) = strtol rest in
              (record redirect { right_fd = to_int n }, is_nil ptr)))
      else (record redirect { right_fd = negsuc 0 }, true)
]

-- The redirect afterwards and the result.
unfoldable pub check_redirect : Redirect → Redirect × Bool
unfolding check_right strtol
check_redirect redirect =
    if is_nil redirect.left
    then check_right (record redirect { left_fd = if redirect.is_out then pos 1 else pos 0 })
    else (let (n, ptr) = strtol redirect.left in
        let redirect' = record redirect { left_fd = to_int n } in
        if is_nil ptr then check_right redirect' else (redirect', false))

abbrev checked : Redirect × Bool → Option Redirect
checked (redirect, accepted) = if accepted then some redirect else none

-- The two sides, where there are two.
unfoldable pub make_redirect : List Bytes → Bool → Option Redirect
unfolding check_redirect
make_redirect (left ∷ right ∷ []) is_out = checked (
    check_redirect (record {
      is_out = is_out;
      left = left;
      left_fd = negsuc 0;
      right = right;
      right_fd = negsuc 0;
    }))
make_redirect _ is_out = none

-- `none` is NULL. With a null block `side_count` is 0.
unfoldable pub parse_redirect : Bytes → Bool → Run (Option Redirect)
unfolding parse_tokens make_redirect
parse_redirect str is_out = elim (parse_tokens str (if is_out then b'>' ∷ [] else b'<' ∷ []) true) [
  | tokens sides ↦ ok (make_redirect sides is_out)
  | Tokens.too_many ↦ ok none
  | Tokens.overrun ↦ fault
]
