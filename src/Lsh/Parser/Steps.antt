-- ===== src/Lsh/Parser/Steps.antt =====
-- One turn of the loop of `parse_tokens`, and its end, from the states in which the loop can be.
use akiso.Prelude.{
  ℕ, ◌+◌, ◌≤◌, ◌<◌, ◌≡◌, ap, sym, ◌∙◌, Bool, true, false, List, [], ◌∷◌, ◌++◌, append_assoc,
  append-nil, arith, ◌==◌, leb, ltb, Bytes, length, length-append,
}
use mathlib.Core.Bool.{and-false}
use native.Mathlib.Nat.{zero-add}
use akiso.Lsh.Parser.{Scan, Status, scanning, scan_char}
use akiso.Lsh.Parser.Fields.{layout, starts, length-starts, layout-concat, starts-concat}
use akiso.Lsh.Utility.{char_in_set}

-- The states of the loop: behind the tokens `done` and before the next one begins, and inside the
-- token that has begun with `cur`.
abbrev pub between : List Bytes → Scan
between done = record {
  buffer = layout done;
  arguments = starts 0 done;
  escaped = false;
  add_arg = true;
}

abbrev pub inside : List Bytes → Bytes → Bool → Scan
inside done cur escaped = record {
  buffer = layout done ++ cur;
  arguments = starts 0 done ++ length (layout done) ∷ [];
  escaped = escaped;
  add_arg = false;
}

pub length-arguments :
    (done : List Bytes) → length (starts 0 done ++ length (layout done) ∷ []) ≡ length done + 1
length-arguments done =
    omega (arith, length-append (starts 0 done) (length (layout done) ∷ []), length-starts 0 done)

pub starts-concat_zero :
    (done : List Bytes) (cur : Bytes)
    → starts 0 (done ++ cur ∷ []) ≡ starts 0 done ++ length (layout done) ∷ []
starts-concat_zero done cur =
    starts-concat 0 done cur ∙ ap (λ k. starts 0 done ++ k ∷ []) (zero-add (length (layout done)))

-- A token that is closed is one more token behind which the loop stands.
closed :
    (done : List Bytes) (cur buffer : Bytes)
    → buffer ≡ layout (done ++ cur ∷ [])
    → ◌≡◌ {A = Status}
        (scanning (record {
          buffer = buffer;
          arguments = starts 0 done ++ length (layout done) ∷ [];
          escaped = false;
          add_arg = true;
        }))
        (scanning (between (done ++ cur ∷ [])))
closed done cur buffer e = λ i. scanning (record {
  buffer = e i;
  arguments = sym (starts-concat_zero done cur) i;
  escaped = false;
  add_arg = true;
})

inside-path :
    {buffer : Bytes} (done : List Bytes) (cur : Bytes) (escaped : Bool)
    → buffer ≡ layout done ++ cur
    → ◌≡◌ {A = Status}
        (scanning (record {
          buffer = buffer;
          arguments = starts 0 done ++ length (layout done) ∷ [];
          escaped = escaped;
          add_arg = false;
        }))
        (scanning (inside done cur escaped))
inside-path done cur escaped e = λ i. scanning (record {
  buffer = e i;
  arguments = starts 0 done ++ length (layout done) ∷ [];
  escaped = escaped;
  add_arg = false;
})

module _ (delimeters : Bytes) (allow_empty : Bool) (c : ℕ) (done : List Bytes) where
  pub between-skip :
      char_in_set c delimeters ≡ true
      → allow_empty ≡ false
      → scan_char delimeters allow_empty c (between done) ≡ scanning (between done)
  unfolding scan_char
  between-skip d e = rw (d, e)

  pub between-empty :
      char_in_set c delimeters ≡ true
      → allow_empty ≡ true
      → length done ≤ 20
      → scan_char delimeters allow_empty c (between done) ≡ scanning (between (done ++ [] ∷ []))
  unfolding scan_char
  between-empty d e room =
      let free : ltb (length (starts 0 done)) 21 ≡ true = ground (arith, length-starts 0 done) in
      rw (d, e, free) (closed done [] (layout done ++ 0 ∷ []) (sym (layout-concat done [])))

  -- The 20th token is refused when it begins.
  pub between-full :
      char_in_set c delimeters ≡ false
      → length done ≡ 19
      → scan_char delimeters allow_empty c (between done) ≡ Status.too_many
  unfolding scan_char
  between-full d full =
      let free : ltb (length (starts 0 done)) 21 ≡ true = ground (arith, length-starts 0 done) in
      let many : leb 20 (length (starts 0 done ++ length (layout done) ∷ [])) ≡ true =
        ground (arith, length-arguments done) in
      rw (d, free, many)

  module _ (room : length done < 19) where
    few : leb 20 (length (starts 0 done ++ length (layout done) ∷ [])) ≡ false
    few = ground (arith, length-arguments done)

    free : ltb (length (starts 0 done)) 21 ≡ true
    free = ground (arith, length-starts 0 done)

    pub between-char :
        char_in_set c delimeters ≡ false
        → (c == b'\\') ≡ false
        → scan_char delimeters allow_empty c (between done) ≡ scanning (inside done (c ∷ []) false)
    unfolding scan_char
    between-char d e = rw (d, free, few, e)

    pub between-backslash :
        char_in_set c delimeters ≡ false
        → (c == b'\\') ≡ true
        → scan_char delimeters allow_empty c (between done) ≡ scanning (inside done [] true)
    unfolding scan_char
    between-backslash d e =
        rw (d, free, few, e) (inside-path done [] true (sym (append-nil (layout done))))

  pub inside-close :
      (cur : Bytes)
      → char_in_set c delimeters ≡ true
      → scan_char delimeters allow_empty c (inside done cur false)
        ≡ scanning (between (done ++ cur ∷ []))
  unfolding scan_char
  inside-close cur d =
      rw (d, and-false allow_empty)
        (closed done cur ((layout done ++ cur) ++ 0 ∷ [])
          (append_assoc (layout done) cur (0 ∷ []) ∙ sym (layout-concat done cur)))

  -- A character that does not close the token: what is written for it.
  module _ (cur : Bytes) where
    pub inside-char :
        char_in_set c delimeters ≡ false
        → (c == b'\\') ≡ false
        → scan_char delimeters allow_empty c (inside done cur false)
          ≡ scanning (inside done (cur ++ c ∷ []) false)
    unfolding scan_char
    inside-char d e =
        rw (d, e) (inside-path done (cur ++ c ∷ []) false (append_assoc (layout done) cur (c ∷ [])))

    pub inside-backslash :
        char_in_set c delimeters ≡ false
        → (c == b'\\') ≡ true
        → scan_char delimeters allow_empty c (inside done cur false)
          ≡ scanning (inside done cur true)
    unfolding scan_char
    inside-backslash d e = rw (d, e)

    pub escaped-delimeter :
        char_in_set c delimeters ≡ true
        → (c == b'\\') ≡ false
        → scan_char delimeters allow_empty c (inside done cur true)
          ≡ scanning (inside done (cur ++ c ∷ []) false)
    unfolding scan_char
    escaped-delimeter d e =
        rw (d, e) (inside-path done (cur ++ c ∷ []) false (append_assoc (layout done) cur (c ∷ [])))

    pub escaped-backslash :
        char_in_set c delimeters ≡ false
        → (c == b'\\') ≡ true
        → scan_char delimeters allow_empty c (inside done cur true)
          ≡ scanning (inside done (cur ++ b'\\' ∷ []) false)
    unfolding scan_char
    escaped-backslash d e =
        rw (d, e)
          (inside-path done (cur ++ b'\\' ∷ []) false (append_assoc (layout done) cur (b'\\' ∷ [])))

    pub escaped-char :
        char_in_set c delimeters ≡ false
        → (c == b'\\') ≡ false
        → scan_char delimeters allow_empty c (inside done cur true)
          ≡ scanning (inside done ((cur ++ b'\\' ∷ []) ++ c ∷ []) false)
    unfolding scan_char
    escaped-char d e =
        rw (d, e) (inside-path done ((cur ++ b'\\' ∷ []) ++ c ∷ []) false (simp append_assoc))
