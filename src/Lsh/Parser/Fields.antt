-- ===== src/Lsh/Parser/Fields.antt =====
-- What a command line means to `parse_tokens`, without memory: the escapes are read first, and the
-- characters and separators that result are split.
use akiso.Prelude.{
  ℕ, suc, ◌+◌, ◌≡◌, refl, ap, ap₂, ◌∙◌, inl, inr, Bool, true, false, List, [], ◌∷◌, ◌++◌,
  append_assoc, arith, ◌==◌, if◌then◌else◌, Bool-cases, Bytes, length, drop, c_str, IsText, All,
  c_str-terminated, drop-append, length-append,
}
use akiso.Lsh.Parser.{tokens_of}
use akiso.Lsh.Utility.{char_in_set}

pub data Sym : Type 0 where
  sep : Sym
  lit : ℕ → Sym

-- A backslash takes the meaning of a delimiter or a backslash away, and stands for itself in front
-- of any other character and at the end. The flag: a backslash stands in front.
unfoldable pub lex : Bytes → Bool → Bytes → List Sym
lex delimeters false [] = []
lex delimeters true [] = lit b'\\' ∷ []
lex delimeters false (c ∷ s) =
    let plain = lex delimeters false s in
    let escape = lex delimeters true s in
    if char_in_set c delimeters then sep ∷ plain else if c == b'\\' then escape else lit c ∷ plain
lex delimeters true (c ∷ s) =
    let plain = lex delimeters false s in
    if char_in_set c delimeters
    then lit c ∷ plain
    else if c == b'\\'
    then lit b'\\' ∷ plain
    else lit b'\\' ∷ lit c ∷ plain

-- What a character is to the lexer, where the backslash is no delimiter.
pub data Kind (delimeters : Bytes) (c : ℕ) : Type 0 where
  delimits : char_in_set c delimeters ≡ true → (c == b'\\') ≡ false → Kind delimeters c
  backslash : char_in_set c delimeters ≡ false → (c == b'\\') ≡ true → Kind delimeters c
  plain : char_in_set c delimeters ≡ false → (c == b'\\') ≡ false → Kind delimeters c

pub kind : (delimeters : Bytes) (c : ℕ) → char_in_set b'\\' delimeters ≡ false → Kind delimeters c
kind delimeters c h = elim (Bool-cases (char_in_set c delimeters)) [
  | inl hit ↦ delimits hit (ground arith)
  | inr miss ↦ elim (Bool-cases (c == b'\\')) [ inl e ↦ backslash miss e | inr e ↦ plain miss e ]
]

module _ (delimeters : Bytes) (c : ℕ) (s : Bytes) where
  pub lex-sep :
      char_in_set c delimeters ≡ true → lex delimeters false (c ∷ s) ≡ sep ∷ lex delimeters false s
  unfolding lex
  lex-sep d = rw d

  pub lex-escaped_sep :
      char_in_set c delimeters ≡ true → lex delimeters true (c ∷ s) ≡ lit c ∷ lex delimeters false s
  unfolding lex
  lex-escaped_sep d = rw d

  module _ (d : char_in_set c delimeters ≡ false) where
    pub lex-backslash : (c == b'\\') ≡ true → lex delimeters false (c ∷ s) ≡ lex delimeters true s
    unfolding lex
    lex-backslash e = rw (d, e)

    pub lex-plain :
        (c == b'\\') ≡ false → lex delimeters false (c ∷ s) ≡ lit c ∷ lex delimeters false s
    unfolding lex
    lex-plain e = rw (d, e)

    pub lex-escaped_backslash :
        (c == b'\\') ≡ true → lex delimeters true (c ∷ s) ≡ lit b'\\' ∷ lex delimeters false s
    unfolding lex
    lex-escaped_backslash e = rw (d, e)

    pub lex-escaped_plain :
        (c == b'\\') ≡ false
        → lex delimeters true (c ∷ s) ≡ lit b'\\' ∷ lit c ∷ lex delimeters false s
    unfolding lex
    lex-escaped_plain e = rw (d, e)

-- The pieces between the separators, the first of them begun by `t`.
abbrev pub split_after : Bytes → List Sym → List Bytes
split_after t [] = t ∷ []
split_after t (sep ∷ l) = t ∷ split_after [] l
split_after t (lit c ∷ l) = split_after (t ++ c ∷ []) l

abbrev pub nonempty : List Bytes → List Bytes
nonempty [] = []
nonempty ([] ∷ ts) = nonempty ts
nonempty ((c ∷ t) ∷ ts) = (c ∷ t) ∷ nonempty ts

-- All pieces, or those that are not empty.
abbrev pub fields : Bool → Bytes → Bytes → List Bytes
fields true delimeters command = split_after [] (lex delimeters false command)
fields false delimeters command = nonempty (split_after [] (lex delimeters false command))

-- The text behind the table of arguments: the tokens, each with its terminator.
abbrev pub layout : List Bytes → Bytes
layout [] = []
layout (t ∷ ts) = t ++ (0 ∷ layout ts)

abbrev pub starts : ℕ → List Bytes → List ℕ
starts n [] = []
starts n (t ∷ ts) = n ∷ starts (n + length t + 1) ts

pub length-starts : (n : ℕ) (ts : List Bytes) → length (starts n ts) ≡ length ts
length-starts n [] = refl
length-starts n (t ∷ ts) = ap suc (length-starts (n + length t + 1) ts)

pub layout-concat :
    (ts : List Bytes) (t : Bytes) → layout (ts ++ t ∷ []) ≡ layout ts ++ (t ++ 0 ∷ [])
layout-concat [] t = refl
layout-concat (u ∷ ts) t = simp (layout-concat ts t, append_assoc)

pub starts-concat :
    (n : ℕ) (ts : List Bytes) (t : Bytes)
    → starts n (ts ++ t ∷ []) ≡ starts n ts ++ (n + length (layout ts)) ∷ []
starts-concat n [] t = ap (λ k. k ∷ []) (omega arith)
starts-concat n (u ∷ ts) t = rw (starts-concat (n + length u + 1) ts t) (
    ap (λ k. n ∷ (starts (n + length u + 1) ts ++ k ∷ []))
      (omega (arith, length-append u (0 ∷ layout ts))))

tokens-layout_from :
    (front : Bytes) (n : ℕ) (ts : List Bytes) (m : Bytes)
    → n ≡ length front
    → All IsText ts
    → tokens_of (front ++ (layout ts ++ m)) (starts n ts) ≡ ts
tokens-layout_from front n [] m e h = refl
tokens-layout_from front n (t ∷ ts) m e h =
    let first : c_str (drop n (front ++ (layout (t ∷ ts) ++ m))) ≡ t =
      rw (e, drop-append front (layout (t ∷ ts) ++ m), append_assoc t (0 ∷ layout ts) m)
        (c_str-terminated t (layout ts ++ m) h.0) in
    let front' = front ++ (t ++ 0 ∷ []) in
    let same : front ++ (layout (t ∷ ts) ++ m) ≡ front' ++ (layout ts ++ m) = simp append_assoc in
    let next : n + length t + 1 ≡ length front' =
      omega (arith, length-append front (t ++ 0 ∷ []), length-append t (0 ∷ [])) in
    let later = tokens-layout_from front' (n + length t + 1) ts m next h.1 in
    ap₂ ◌∷◌ first (ap (λ b. tokens_of b (starts (n + length t + 1) ts)) same ∙ later)

-- Reading the arguments back from the block.
pub tokens-layout :
    (ts : List Bytes) (m : Bytes) → All IsText ts → tokens_of (layout ts ++ m) (starts 0 ts) ≡ ts
tokens-layout ts m h = tokens-layout_from [] 0 ts m refl h
