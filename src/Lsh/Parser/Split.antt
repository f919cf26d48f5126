-- ===== src/Lsh/Parser/Split.antt =====
-- `parse_tokens` of lsh/parser.c returns the fields of the command.
use akiso.Prelude.{
  ℕ, ◌≤◌, ◌<◌, ◌≡◌, refl, ap, ◌∙◌, inl, inr, Bool, true, false, List, [], ◌∷◌, ◌++◌, arith, ltb,
  if◌then◌else◌, Bytes, length, IsText, All, All-append, length-append, IsText-append,
}
use native.Mathlib.Decide.{dec_lt}
use akiso.Lsh.Parser.{scanning, scan_char, Tokens, tokens, parse_tokens}
use akiso.Lsh.Parser.Fields.{
  lex, kind, delimits, backslash, plain, lex-sep, lex-escaped_sep, lex-backslash, lex-plain,
  lex-escaped_backslash, lex-escaped_plain, split_after, fields,
}
use akiso.Lsh.Parser.Steps.{between, inside}
use akiso.Lsh.Parser.Rest.{rest_of-cons, rest_of-too_many}
use akiso.Lsh.Parser.Steps
use akiso.Lsh.Utility.{char_in_set}
use akiso.Lsh.Parser.Post.{
  kept, ne-nil-concat, length-kept, Post-too_many, Post-step, Begun, Begun-ne, after, full, Between,
  Inside, nil-Between, sep-Between, nil-Inside, nil-escaped, after-close,
}

module _ (delimeters : Bytes) (b : Bool) (h : char_in_set b'\\' delimeters ≡ false) where
  length-escaped :
      (command : Bytes) → 1 ≤ length (kept b (split_after [] (lex delimeters true command)))
  length-escaped [] = unfold lex in length-kept b (b'\\' ∷ []) [] cc
  length-escaped (c ∷ command) =
      let l = lex delimeters false command in
      elim (kind delimeters c h) [
        | delimits d e ↦ rw (lex-escaped_sep delimeters c command d) (length-kept b (c ∷ []) l cc)
        | backslash d e ↦
            rw (lex-escaped_backslash delimeters c command d e) (length-kept b (b'\\' ∷ []) l cc)
        | plain d e ↦
            rw (lex-escaped_plain delimeters c command d e) (length-kept b (b'\\' ∷ c ∷ []) l cc)
      ]

  -- The step at a character that begins a token: `cur` and `escaped` are what it leaves.
  begin-Between :
      (c : ℕ) (command : Bytes) (done : List Bytes) (cur : Bytes) (escaped : Bool)
      → char_in_set c delimeters ≡ false
      → length done ≤ 19
      → after delimeters b done [] false (c ∷ command) ≡ after delimeters b done cur escaped command
      → 1 ≤ length (kept b (split_after cur (lex delimeters escaped command)))
      → (length done < 19
          → scan_char delimeters b c (between done) ≡ scanning (inside done cur escaped))
      → (length done < 19 → Inside delimeters b command done cur escaped)
      → Between delimeters b (c ∷ command) done
  begin-Between c command done cur escaped d room same some step next =
      elim (dec_lt (length done) 19) [
        | yes k ↦
            Post-step b same
              (rest_of-cons delimeters b c command (between done) (inside done cur escaped)
                (step k))
              (next k)
        | no k ↦
            Post-step b same
              (rest_of-too_many delimeters b c command (between done)
                (Steps.between-full delimeters b c done d (omega arith)))
              (Post-too_many b (after delimeters b done cur escaped command)
                (full b done (split_after cur (lex delimeters escaped command)) (omega arith) some))
      ]

  goes_on :
      (c : ℕ) (command : Bytes) (done : List Bytes) (cur : Bytes) (escaped : Bool) (cur' : Bytes)
      (escaped' : Bool)
      → after delimeters b done cur escaped (c ∷ command)
        ≡ after delimeters b done cur' escaped' command
      → scan_char delimeters b c (inside done cur escaped) ≡ scanning (inside done cur' escaped')
      → Inside delimeters b command done cur' escaped'
      → Inside delimeters b (c ∷ command) done cur escaped
  goes_on c command done cur escaped cur' escaped' same step = Post-step b same (
      rest_of-cons delimeters b c command (inside done cur escaped) (inside done cur' escaped')
        step)

  mutual
    from_Between :
        (command : Bytes) (done : List Bytes)
        → IsText command
        → All IsText done
        → length done ≤ 19
        → Between delimeters b command done
    from_Between [] done t ht room = nil-Between delimeters b done ht room
    from_Between (c ∷ command) done t ht room = elim (kind delimeters c h) [
      | delimits d e ↦
          sep-Between delimeters b c command done d ht room
            (λ done' h' r'. from_Between command done' t.1 h' r')
      | backslash d e ↦
          begin-Between c command done [] true d room
            (ap (λ l. done ++ kept b (split_after [] l)) (lex-backslash delimeters c command d e))
            (length-escaped command) (λ k. Steps.between-backslash delimeters b c done k d e)
            (λ k. from_Inside command done [] true t.1 ht tt k (inr refl))
      | plain d e ↦
          begin-Between c command done (c ∷ []) false d room
            (ap (λ l. done ++ kept b (split_after [] l)) (lex-plain delimeters c command d e))
            (length-kept b (c ∷ []) (lex delimeters false command) cc)
            (λ k. Steps.between-char delimeters b c done k d e)
            (λ k. from_Inside command done (c ∷ []) false t.1 ht (t.0, tt) k (inl cc))
    ]

    from_Inside :
        (command : Bytes) (done : List Bytes) (cur : Bytes) (escaped : Bool)
        → IsText command
        → All IsText done
        → IsText cur
        → length done < 19
        → Begun cur escaped
        → Inside delimeters b command done cur escaped
    from_Inside [] done cur false t ht tc room g =
        nil-Inside delimeters b done cur ht tc room (Begun-ne g)
    from_Inside [] done cur true t ht tc room g = nil-escaped delimeters b done cur ht tc room
    from_Inside (c ∷ command) done cur false t ht tc room g = elim (kind delimeters c h) [
      | delimits d e ↦
          Post-step b
            (ap (λ l. done ++ kept b (split_after cur l)) (lex-sep delimeters c command d)
              ∙ after-close b done cur (lex delimeters false command) (Begun-ne g))
            (rest_of-cons delimeters b c command (inside done cur false)
              (between (done ++ cur ∷ [])) (Steps.inside-close delimeters b c done cur d))
            (from_Between command (done ++ cur ∷ []) t.1
              (All-append IsText done (cur ∷ []) ht (tc, tt))
              (omega (arith, length-append done (cur ∷ []))))
      | backslash d e ↦
          goes_on c command done cur false cur true
            (ap (λ l. done ++ kept b (split_after cur l)) (lex-backslash delimeters c command d e))
            (Steps.inside-backslash delimeters b c done cur d e)
            (from_Inside command done cur true t.1 ht tc room (inr refl))
      | plain d e ↦
          goes_on c command done cur false (cur ++ c ∷ []) false
            (ap (λ l. done ++ kept b (split_after cur l)) (lex-plain delimeters c command d e))
            (Steps.inside-char delimeters b c done cur d e)
            (from_Inside command done (cur ++ c ∷ []) false t.1 ht
              (IsText-append cur (c ∷ []) tc (t.0, tt)) room (inl (ne-nil-concat cur c)))
    ]
    from_Inside (c ∷ command) done cur true t ht tc room g = elim (kind delimeters c h) [
      | delimits d e ↦
          goes_on c command done cur true (cur ++ c ∷ []) false
            (ap (λ l. done ++ kept b (split_after cur l)) (lex-escaped_sep delimeters c command d))
            (Steps.escaped-delimeter delimeters b c done cur d e)
            (from_Inside command done (cur ++ c ∷ []) false t.1 ht
              (IsText-append cur (c ∷ []) tc (t.0, tt)) room (inl (ne-nil-concat cur c)))
      | backslash d e ↦
          goes_on c command done cur true (cur ++ b'\\' ∷ []) false
            (ap (λ l. done ++ kept b (split_after cur l))
              (lex-escaped_backslash delimeters c command d e))
            (Steps.escaped-backslash delimeters b c done cur d e)
            (from_Inside command done (cur ++ b'\\' ∷ []) false t.1 ht
              (IsText-append cur (b'\\' ∷ []) tc (refl, tt)) room (inl (ne-nil-concat cur b'\\')))
      | plain d e ↦
          goes_on c command done cur true ((cur ++ b'\\' ∷ []) ++ c ∷ []) false
            (ap (λ l. done ++ kept b (split_after cur l))
              (lex-escaped_plain delimeters c command d e))
            (Steps.escaped-char delimeters b c done cur d e)
            (from_Inside command done ((cur ++ b'\\' ∷ []) ++ c ∷ []) false t.1 ht
              (IsText-append (cur ++ b'\\' ∷ []) (c ∷ [])
                (IsText-append cur (b'\\' ∷ []) tc (refl, tt)) (t.0, tt))
              room (inl (ne-nil-concat (cur ++ b'\\' ∷ []) c)))
    ]

-- With empty tokens skipped, the tokens are the fields of the command that are not empty; from 20
-- of them on the call gives up, and it never writes behind its table.
pub parse_tokens-nonempty :
    (command delimeters : Bytes)
    → IsText command
    → char_in_set b'\\' delimeters ≡ false
    → parse_tokens command delimeters false ≡ (
        if ltb (length (fields false delimeters command)) 20
        then tokens (fields false delimeters command)
        else Tokens.too_many)
unfolding parse_tokens
parse_tokens-nonempty command delimeters t h =
    from_Between delimeters false h command [] t tt (omega arith)

-- With empty tokens allowed, the tokens are all the fields of the command, if they are fewer than
-- 20.
pub parse_tokens-fields :
    (command delimeters : Bytes)
    → IsText command
    → char_in_set b'\\' delimeters ≡ false
    → length (fields true delimeters command) < 20
    → parse_tokens command delimeters true ≡ tokens (fields true delimeters command)
unfolding parse_tokens
parse_tokens-fields command delimeters t h =
    from_Between delimeters true h command [] t tt (omega arith)
