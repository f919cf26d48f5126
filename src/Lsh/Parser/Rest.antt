-- ===== src/Lsh/Parser/Rest.antt =====
-- What `parse_tokens` of lsh/parser.c returns from a state of its loop on.
use akiso.Prelude.{
  ℕ, ◌≤◌, ◌<◌, ◌≡◌, refl, ap, ap₂, sym, ◌∙◌, Bool, true, false, List, [], ◌∷◌, ◌++◌, append_assoc,
  append-nil, arith, leb, ltb, Bytes, length, IsText, All, All-append, IsText-append,
}
use akiso.Lsh.Parser.{
  Scan, Status, scanning, and_then, scan_char, scan, finish, Tokens, tokens, returned, tokens_of,
}
use akiso.Lsh.Parser.Fields.{layout, starts, length-starts, layout-concat, tokens-layout}
use akiso.Lsh.Parser.Steps.{between, inside, length-arguments, starts-concat_zero}

-- What the call returns from a state on.
abbrev pub rest_of : Bytes → Bool → Bytes → Scan → Tokens
rest_of delimeters allow_empty command s =
    returned (and_then (scan delimeters allow_empty command s) (finish allow_empty))

pub rest_of-cons :
    (delimeters : Bytes) (allow_empty : Bool) (c : ℕ) (command : Bytes) (s t : Scan)
    → scan_char delimeters allow_empty c s ≡ scanning t
    → rest_of delimeters allow_empty (c ∷ command) s ≡ rest_of delimeters allow_empty command t
unfolding scan
rest_of-cons delimeters allow_empty c command s t e = rw e

pub rest_of-too_many :
    (delimeters : Bytes) (allow_empty : Bool) (c : ℕ) (command : Bytes) (s : Scan)
    → scan_char delimeters allow_empty c s ≡ Status.too_many
    → rest_of delimeters allow_empty (c ∷ command) s ≡ Tokens.too_many
unfolding scan
rest_of-too_many delimeters allow_empty c command s e = rw e

tokens-closed :
    {buffer : Bytes} (done : List Bytes) (cur : Bytes)
    → All IsText done
    → IsText cur
    → buffer ≡ layout (done ++ cur ∷ [])
    → tokens_of buffer (starts 0 done ++ length (layout done) ∷ []) ≡ done ++ cur ∷ []
tokens-closed done cur h hc e =
    ap₂ tokens_of (e ∙ sym (append-nil (layout (done ++ cur ∷ []))))
      (sym (starts-concat_zero done cur))
    ∙ tokens-layout (done ++ cur ∷ []) [] (All-append IsText done (cur ∷ []) h (hc, tt))

closed-layout :
    (done : List Bytes) (cur : Bytes) → (layout done ++ cur) ++ 0 ∷ [] ≡ layout (done ++ cur ∷ [])
closed-layout done cur = append_assoc (layout done) cur (0 ∷ []) ∙ sym (layout-concat done cur)

module _ (delimeters : Bytes) (done : List Bytes) (h : All IsText done) where
  pub finish-between : length done ≤ 20 → rest_of delimeters false [] (between done) ≡ tokens done
  unfolding scan finish
  finish-between room =
      let free : ltb (length (starts 0 done)) 21 ≡ true = ground (arith, length-starts 0 done) in
      rw free (ap tokens (tokens-layout done (0 ∷ []) h))

  pub finish-empty :
      length done < 19 → rest_of delimeters true [] (between done) ≡ tokens (done ++ [] ∷ [])
  unfolding scan finish
  finish-empty room =
      let free : ltb (length (starts 0 done)) 21 ≡ true = ground (arith, length-starts 0 done) in
      let count : leb 20 (length (starts 0 done ++ length (layout done) ∷ [])) ≡ false =
        ground (arith, length-arguments done) in
      let end : ltb (length (starts 0 done ++ length (layout done) ∷ [])) 21 ≡ true =
        ground (arith, length-arguments done) in
      rw (free, count, end) (ap tokens (tokens-closed done [] h tt (sym (layout-concat done []))))

  pub finish-inside :
      (allow_empty : Bool) (cur : Bytes)
      → IsText cur
      → length done < 19
      → rest_of delimeters allow_empty [] (inside done cur false) ≡ tokens (done ++ cur ∷ [])
  unfolding scan finish
  finish-inside allow_empty cur hc room =
      let end : ltb (length (starts 0 done ++ length (layout done) ∷ [])) 21 ≡ true =
        ground (arith, length-arguments done) in
      rw end (ap tokens (tokens-closed done cur h hc (closed-layout done cur)))

  pub finish-escaped :
      (allow_empty : Bool) (cur : Bytes)
      → IsText cur
      → length done < 19
      → rest_of delimeters allow_empty [] (inside done cur true)
        ≡ tokens (done ++ (cur ++ b'\\' ∷ []) ∷ [])
  unfolding scan finish
  finish-escaped allow_empty cur hc room =
      let end : ltb (length (starts 0 done ++ length (layout done) ∷ [])) 21 ≡ true =
        ground (arith, length-arguments done) in
      rw end (
        ap tokens (
          tokens-closed done (cur ++ b'\\' ∷ []) h (IsText-append cur (b'\\' ∷ []) hc (refl, tt)) (
            ap (λ b. b ++ 0 ∷ []) (append_assoc (layout done) cur (b'\\' ∷ []))
            ∙ closed-layout done (cur ++ b'\\' ∷ []))))
