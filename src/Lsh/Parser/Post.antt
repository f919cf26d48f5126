-- ===== src/Lsh/Parser/Post.antt =====
-- What is carried through the loop of `parse_tokens`, at its end and at a separator.
use akiso.Prelude.{
  ℕ, ◌≤◌, ◌<◌, ◌≡◌, ◌≢◌, refl, ap, ◌∙◌, ◌⊎◌, inl, inr, Bool, true, false, List, [], ◌∷◌, ◌++◌,
  append_assoc, append-nil, arith, ltb, if◌then◌else◌, Bytes, length, IsText, All, All-append,
  length-append, sym,
}
use mathlib.Core.Path.{subst, subst₂}
use akiso.Lsh.Parser.{Tokens, tokens}
use akiso.Lsh.Parser.Fields.{Sym, sep, lit, lex, lex-sep, split_after, nonempty}
use akiso.Lsh.Parser.Steps.{between, inside}
use akiso.Lsh.Parser.Rest.{rest_of, rest_of-cons, rest_of-too_many}
use akiso.Lsh.Parser.Rest
use akiso.Lsh.Parser.Steps
use akiso.Lsh.Utility.{char_in_set}

-- The fields that are kept.
abbrev pub kept : Bool → List Bytes → List Bytes
kept true ts = ts
kept false ts = nonempty ts

kept-cons : (b : Bool) (t : Bytes) (ts : List Bytes) → t ≢ [] → kept b (t ∷ ts) ≡ t ∷ kept b ts
kept-cons true t ts ne = refl
kept-cons false [] ts ne = absurd (ne refl)
kept-cons false (c ∷ t) ts ne = refl

kept-single : (b : Bool) (t : Bytes) → t ≢ [] → kept b (t ∷ []) ≡ t ∷ []
kept-single true t ne = refl
kept-single false [] ne = absurd (ne refl)
kept-single false (c ∷ t) ne = refl

pub ne-nil-concat : (t : Bytes) (c : ℕ) → t ++ c ∷ [] ≢ []
ne-nil-concat [] c e = cc
ne-nil-concat (d ∷ t) c e = cc

-- A field that has begun is kept.
pub length-kept :
    (b : Bool) (t : Bytes) (l : List Sym) → t ≢ [] → 1 ≤ length (kept b (split_after t l))
length-kept b t [] ne = rw (kept-cons b t [] ne) (omega arith)
length-kept b t (sep ∷ l) ne = rw (kept-cons b t (split_after [] l) ne) (omega arith)
length-kept b t (lit c ∷ l) ne = length-kept b (t ++ c ∷ []) l (ne-nil-concat t c)

length-split : (t : Bytes) (l : List Sym) → 1 ≤ length (split_after t l)
length-split t [] = omega arith
length-split t (sep ∷ l) = omega arith
length-split t (lit c ∷ l) = length-split (t ++ c ∷ []) l

-- What a call may return whose fields are `ts`. With empty fields kept, only the case with room.
abbrev pub Post : Bool → List Bytes → Tokens → Type 0
Post true ts r = length ts < 20 → r ≡ tokens ts
Post false ts r = r ≡ (if ltb (length ts) 20 then tokens ts else Tokens.too_many)

Post-tokens : (b : Bool) (ts : List Bytes) → length ts < 20 → Post b ts (tokens ts)
Post-tokens true ts h = λ k. refl
Post-tokens false ts h = let e : ltb (length ts) 20 ≡ true = ground arith in rw e

pub Post-too_many : (b : Bool) (ts : List Bytes) → 20 ≤ length ts → Post b ts Tokens.too_many
Post-too_many true ts h = λ k. absurd (omega arith)
Post-too_many false ts h = let e : ltb (length ts) 20 ≡ false = ground arith in rw e

pub Post-step :
    (b : Bool) {ts ts' : List Bytes} {r r' : Tokens}
    → ts ≡ ts'
    → r ≡ r'
    → Post b ts' r'
    → Post b ts r
Post-step b e f p = subst₂ (λ x y. Post b x y) (sym e) (sym f) p

-- The spelling of a field that has begun: `cur`, and a backslash that is not yet written.
abbrev pub Begun : Bytes → Bool → Type 0
Begun cur escaped = (cur ≢ []) ⊎ (escaped ≡ true)

pub Begun-ne : {cur : Bytes} → Begun cur false → cur ≢ []
Begun-ne (inl ne) = ne
Begun-ne (inr e) = λ _. cc

abbrev pub after : Bytes → Bool → List Bytes → Bytes → Bool → Bytes → List Bytes
after delimeters b done cur escaped command =
    done ++ kept b (split_after cur (lex delimeters escaped command))

pub full :
    (b : Bool) (done : List Bytes) (ts : List Bytes)
    → 19 ≤ length done
    → 1 ≤ length (kept b ts)
    → 20 ≤ length (done ++ kept b ts)
full b done ts h k = omega (arith, length-append done (kept b ts))

-- What is shown for the rest of a command, between two tokens.
abbrev pub Between : Bytes → Bool → Bytes → List Bytes → Type 0
Between delimeters b command done =
    Post b (after delimeters b done [] false command) (rest_of delimeters b command (between done))

abbrev pub Inside : Bytes → Bool → Bytes → List Bytes → Bytes → Bool → Type 0
Inside delimeters b command done cur escaped =
    Post b (after delimeters b done cur escaped command)
      (rest_of delimeters b command (inside done cur escaped))

pub nil-Between :
    (delimeters : Bytes) (b : Bool) (done : List Bytes)
    → All IsText done
    → length done ≤ 19
    → Between delimeters b [] done
unfolding lex
nil-Between delimeters false done ht room =
    Post-step false (append-nil done) (Rest.finish-between delimeters done ht (omega arith))
      (Post-tokens false done (omega arith))
nil-Between delimeters true done ht room =
    λ k. Rest.finish-empty delimeters done ht (omega (arith, length-append done ([] ∷ [])))

pub sep-Between :
    (delimeters : Bytes) (b : Bool) (c : ℕ) (command : Bytes) (done : List Bytes)
    → char_in_set c delimeters ≡ true
    → All IsText done
    → length done ≤ 19
    → ((done' : List Bytes)
        → All IsText done'
        → length done' ≤ 19
        → Between delimeters b command done')
    → Between delimeters b (c ∷ command) done
sep-Between delimeters false c command done d ht room next =
    Post-step false (ap (λ l. done ++ nonempty (split_after [] l)) (lex-sep delimeters c command d))
      (rest_of-cons delimeters false c command (between done) (between done)
        (Steps.between-skip delimeters false c done d refl))
      (next done ht room)
sep-Between delimeters true c command done d ht room next = λ k.
    let l = lex delimeters false command in
    let same : after delimeters true done [] false (c ∷ command)
        ≡ (done ++ [] ∷ []) ++ split_after [] l =
      ap (λ x. done ++ split_after [] x) (lex-sep delimeters c command d)
      ∙ sym (append_assoc done ([] ∷ []) (split_after [] l)) in
    let few : length ((done ++ [] ∷ []) ++ split_after [] l) < 20 =
      subst (λ x. length x < 20) same k in
    let room' : length (done ++ [] ∷ []) ≤ 19 =
      omega (arith, length-append (done ++ [] ∷ []) (split_after [] l), length-split [] l, few) in
    Post-step true same
      (rest_of-cons delimeters true c command (between done) (between (done ++ [] ∷ []))
        (Steps.between-empty delimeters true c done d refl (omega arith)))
      (next (done ++ [] ∷ []) (All-append IsText done ([] ∷ []) ht (tt, tt)) room') k

pub nil-Inside :
    (delimeters : Bytes) (b : Bool) (done : List Bytes) (cur : Bytes)
    → All IsText done
    → IsText cur
    → length done < 19
    → cur ≢ []
    → Inside delimeters b [] done cur false
unfolding lex
nil-Inside delimeters b done cur ht tc room ne =
    Post-step b (ap (λ ts. done ++ ts) (kept-single b cur ne))
      (Rest.finish-inside delimeters done ht b cur tc room)
      (Post-tokens b (done ++ cur ∷ []) (omega (arith, length-append done (cur ∷ []))))

pub nil-escaped :
    (delimeters : Bytes) (b : Bool) (done : List Bytes) (cur : Bytes)
    → All IsText done
    → IsText cur
    → length done < 19
    → Inside delimeters b [] done cur true
unfolding lex
nil-escaped delimeters b done cur ht tc room =
    Post-step b
      (ap (λ ts. done ++ ts) (kept-single b (cur ++ b'\\' ∷ []) (ne-nil-concat cur b'\\')))
      (Rest.finish-escaped delimeters done ht b cur tc room)
      (Post-tokens b (done ++ (cur ++ b'\\' ∷ []) ∷ [])
        (omega (arith, length-append done ((cur ++ b'\\' ∷ []) ∷ []))))

pub after-close :
    (b : Bool) (done : List Bytes) (cur : Bytes) (l : List Sym)
    → cur ≢ []
    → done ++ kept b (split_after cur (sep ∷ l)) ≡ (done ++ cur ∷ []) ++ kept b (split_after [] l)
after-close b done cur l ne =
    ap (λ ts. done ++ ts) (kept-cons b cur (split_after [] l) ne)
    ∙ sym (append_assoc done (cur ∷ []) (kept b (split_after [] l)))
