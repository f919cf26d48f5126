-- ===== src/Lsh/Parser/Process/Command.antt =====
-- What a process is that `parse_process` of lsh/parser.c accepts.
use mathlib.Core.List.{map-append}
use mathlib.Core.Path.{subst}
use akiso.Prelude.{
  ℕ, suc, ◌+◌, ◌<◌, ◌≡◌, ◌≢◌, refl, ap, sym, ◌∙◌, inl, inr, true, false, none, some, List, [], ◌∷◌,
  ◌++◌, map, arith, ◌==◌, if◌then◌else◌, Bytes, length, All, All-append, replicate, Bool-cases,
  ltb→lt, append_assoc, length-map, ltb, IsText,
}
use akiso.Prelude.Run.{ok}
use akiso.Lsh.Job.{Process}
use akiso.Lsh.Parser.{Tokens, tokens}
use akiso.Lsh.Parser.Fields.{fields}
use akiso.Lsh.Parser.Split.{parse_tokens-nonempty}
use akiso.Lsh.Parser.Process.{process, parse_args, parse_block, parse_process}
use akiso.Lsh.Utility.{char_in_set, whitespace}
use akiso.Lsh.Parser.Process.Words.{
  has_angle, nil, cons, IsCommand, step-redirect, step-word, standing, advance, parse_args-end,
  length-concat, parse_args-targets,
}

ne_nil-length : {A : Type 0} (xs : List A) → 0 < length xs → xs ≢ []
ne_nil-length xs h z = omega (arith, ap length z)

-- A word is passed over.
standing-word :
    (words : List Bytes) (t : Bytes) (ts : List Bytes) (argc : ℕ)
    → standing (map some words) (t ∷ ts) argc [] ≡ standing (map some (words ++ t ∷ [])) ts argc []
standing-word words t ts argc =
    let back = map some ts ++ none ∷ [] in
    let same : map some words ++ (some t ∷ back) ≡ map some (words ++ t ∷ []) ++ back =
      sym (append_assoc (map some words) (some t ∷ []) back)
      ∙ ap (λ l. l ++ back) (sym (map-append some words (t ∷ []))) in
    λ j. record { arguments = same j; argc = argc; redirects = [] }

parse_args-words :
    (ts words : List Bytes) (i argc : ℕ) (q : Process)
    → i ≡ length words
    → argc ≡ length words + length ts
    → 0 < argc
    → All (λ t. has_angle t ≡ false) words
    → parse_args i ts false argc (standing (map some words) ts 0 []) ≡ ok (process q)
    → IsCommand (words ++ ts) q
parse_args-words [] words i argc q e count pos plain run =
    subst (IsCommand (words ++ []))
      (sym (parse_args-end i argc false (standing (map some words) [] 0 []) q run))
      (record {
        words = words;
        targets = [];
        splits = refl;
        some_word = ne_nil-length words (omega arith);
        plain = plain;
        parsed = nil;
        vector = refl;
        count = omega arith;
      })
parse_args-words (t ∷ ts) words i argc q e count pos plain run =
    let p = standing (map some words) (t ∷ ts) 0 [] in
    elim (Bool-cases (has_angle t)) [
      | inl angle ↦
          let (r, got, nz, later) = step-redirect i t ts false argc p q angle run in
          let front = map some words in
          let at : i ≡ length front = e ∙ sym (length-map words some) in
          let later' =
            subst (λ x. parse_args (i + 1) ts true argc x ≡ ok (process q))
              (advance front t ts i [] r i at) later in
          let (new, parsed, is) =
            parse_args-targets ts (front ++ none ∷ []) (i + 1) argc i (r ∷ []) q
              (omega (arith, length-concat front none)) later' in
          subst (IsCommand (words ++ t ∷ ts)) (sym is) (record {
            words = words;
            targets = t ∷ ts;
            splits = refl;
            some_word = ne_nil-length words (ground arith);
            plain = plain;
            parsed = cons angle got parsed;
            vector = append_assoc front (none ∷ []) (replicate (length ts) none ++ none ∷ []);
            count = e;
          })
      | inr word ↦
          let (_, later) = step-word i t ts false argc p q word run in
          let later' =
            subst (λ x. parse_args (i + 1) ts false argc x ≡ ok (process q))
              (standing-word words t ts 0) later in
          subst (λ l. IsCommand l q) (append_assoc words (t ∷ []) ts)
            (parse_args-words ts (words ++ t ∷ []) (i + 1) argc q
              (omega (arith, length-concat words t)) (omega (arith, length-concat words t)) pos
              (All-append (λ u. has_angle u ≡ false) words (t ∷ []) plain (word, tt)) later')
    ]

not_white : char_in_set b'\\' whitespace ≡ false
unfolding char_in_set
not_white = refl

parse_block-IsCommand :
    (ts : List Bytes) (p : Process) → parse_block (tokens ts) ≡ ok (process p) → IsCommand ts p
unfolding parse_block
parse_block-IsCommand [] p e = cc
parse_block-IsCommand (t ∷ ts) p e =
    let more : (suc (length ts) == 0) ≡ false = ground arith in
    parse_args-words (t ∷ ts) [] 0 (length (t ∷ ts)) p refl (omega arith) (omega arith) tt
      (rw more at e)

parse_block-too_many : (p : Process) → parse_block Tokens.too_many ≡ ok (process p) → ⊥
unfolding parse_block
parse_block-too_many p e = cc

-- What `parse_process` accepts is a command: its tokens are the fields of the text at white space,
-- fewer than 20, and they read as words and redirects.
pub parse_process-IsCommand :
    (command : Bytes) (p : Process)
    → IsText command
    → parse_process command ≡ ok (process p)
    → IsCommand (fields false whitespace command) p
      × (length (fields false whitespace command) < 20)
parse_process-IsCommand command p t e =
    let ts = fields false whitespace command in
    let e' : parse_block (if ltb (length ts) 20 then tokens ts else Tokens.too_many)
        ≡ ok (process p) =
      ap parse_block (sym (parse_tokens-nonempty command whitespace t not_white))
      ∙ (unfold parse_process in e) in
    elim (Bool-cases (ltb (length ts) 20)) [
      | inl few ↦ (parse_block-IsCommand ts p (rw few at e'), ltb→lt (length ts) 20 few)
      | inr many ↦ absurd (parse_block-too_many p (rw many at e'))
    ]
