-- ===== src/Lsh/Utility/Tokens.antt =====
-- `tokenize` and `next_token` of lsh/utility.c, and `get_argc`.
use akiso.Prelude.{
  ℕ, zero, suc, ◌≡◌, refl, ap, ◌∙◌, inl, inr, Bool, false, not, ◌&&◌, Option, none, some, List, [],
  ◌∷◌, ◌++◌, map, arith, ◌==◌, if◌then◌else◌, Bool-cases, Bytes, length, replicate, IsText, strlen,
  strlen-terminated,
}
use akiso.Prelude.Run.{ok, ◌>>=◌}
use akiso.Lsh.Utility.{
  char_in_set, tokenize, tokenize_loop, skip_token, skip_gap, next_token, get_argc,
}

-- The text with its delimiters overwritten, where a delimiter behind a backslash is spared if
-- `escape` is set; `prev` is the character in front.
abbrev pub cut_after : ℕ → Bool → Bytes → Bytes → Bytes
cut_after prev escape delimeters [] = []
cut_after prev escape delimeters (c ∷ s) =
    (if char_in_set c delimeters && not (escape && prev == b'\\') then 0 else c)
    ∷ cut_after c escape delimeters s

-- No character stands in front of the first one: any that is no backslash serves.
abbrev pub cut : Bool → Bytes → Bytes → Bytes
cut = cut_after 0

written-same :
    (c : ℕ) (b : Bool) (delimeters : Bytes)
    → char_in_set b'\\' delimeters ≡ false
    → ((if char_in_set c delimeters && b then 0 else c) == b'\\') ≡ (c == b'\\')
written-same c b delimeters plain = elim (Bool-cases (c == b'\\')) [
  | inl e ↦ let c_is : c ≡ b'\\' = ground arith in rw (c_is, plain)
  | inr e ↦ ground arith
]

tokenize-strlen :
    (str delimeters : Bytes) (len : ℕ) (escape : Bool)
    → strlen str ≡ some len
    → tokenize str delimeters escape
      ≡ (do m ← tokenize_loop none len str delimeters escape; ok (m, len))
unfolding tokenize
tokenize-strlen str delimeters len escape e = rw (e, tokenize)

tokenize_loop-cut :
    (prev seen : ℕ) (s m delimeters : Bytes) (escape : Bool)
    → char_in_set b'\\' delimeters ≡ false
    → (seen == b'\\') ≡ (prev == b'\\')
    → tokenize_loop (some seen) (length s) (s ++ m) delimeters escape
      ≡ ok (cut_after prev escape delimeters s ++ m)
unfolding tokenize_loop
tokenize_loop-cut prev seen [] m delimeters escape plain same = refl
tokenize_loop-cut prev seen (c ∷ s) m delimeters escape plain same =
    let b = not (escape && prev == b'\\') in
    rw same (
      rw
        (tokenize_loop-cut c (if char_in_set c delimeters && b then 0 else c) s m delimeters escape
          plain (written-same c b delimeters plain))
        refl)

tokenize_loop-first :
    (s m delimeters : Bytes) (escape : Bool)
    → char_in_set b'\\' delimeters ≡ false
    → tokenize_loop none (length s) (s ++ m) delimeters escape ≡ ok (cut escape delimeters s ++ m)
unfolding tokenize_loop
tokenize_loop-first [] m delimeters escape plain = refl
tokenize_loop-first (c ∷ s) m delimeters escape plain =
    let b = not (escape && false) in
    rw
      (tokenize_loop-cut c (if char_in_set c delimeters && b then 0 else c) s m delimeters escape
        plain (written-same c b delimeters plain))
      refl

-- `tokenize` overwrites exactly the delimiters that no backslash of the text spares, and returns
-- the pointer to the terminator.
pub tokenize-cut :
    (s m delimeters : Bytes) (escape : Bool)
    → IsText s
    → char_in_set b'\\' delimeters ≡ false
    → tokenize (s ++ 0 ∷ m) delimeters escape ≡ ok (cut escape delimeters s ++ 0 ∷ m, length s)
tokenize-cut s m delimeters escape t plain =
    tokenize-strlen (s ++ 0 ∷ m) delimeters (length s) escape (strlen-terminated s m t)
    ∙ rw (tokenize_loop-first s (0 ∷ m) delimeters escape plain)

skip_token-text : (s m : Bytes) → IsText s → skip_token (s ++ m) ≡ skip_token m
unfolding skip_token
skip_token-text [] m t = refl
skip_token-text (c ∷ s) m t = rw (t.0) (skip_token-text s m t.1)

skip_gap-replicate : (n : ℕ) (m : Bytes) → skip_gap (replicate n 0 ++ m) ≡ skip_gap m
unfolding skip_gap
skip_gap-replicate zero m = refl
skip_gap-replicate (suc n) m = skip_gap-replicate n m

next_token-nil : (str : Bytes) → skip_gap (skip_token str) ≡ [] → next_token (some str) ≡ none
unfolding next_token
next_token-nil str e = rw (e, next_token)

next_token-cons :
    (str : Bytes) (c : ℕ) (rest : Bytes)
    → skip_gap (skip_token str) ≡ c ∷ rest
    → next_token (some str) ≡ some (c ∷ rest)
unfolding next_token
next_token-cons str c rest e = rw (e, next_token)

-- From a token, `next_token` goes over the rest of it and the gap of terminators behind it, to the
-- next token before `last`, or to NULL if only the gap is left.
pub next_token_lem :
    (s : Bytes) (n : ℕ) (rest : Bytes)
    → IsText s
    → (next_token (some (s ++ (replicate (suc n) 0 ++ []))) ≡ none)
      × ((c : ℕ)
          → (c == 0) ≡ false
          → next_token (some (s ++ (replicate (suc n) 0 ++ (c ∷ rest)))) ≡ some (c ∷ rest))
unfolding next_token
next_token_lem s n rest t = (
  next_token-nil (s ++ (replicate (suc n) 0 ++ []))
      (ap skip_gap (skip_token-text s (replicate (suc n) 0 ++ []) t) ∙ skip_gap-replicate n []),
  λ c h. next_token-cons (s ++ (replicate (suc n) 0 ++ (c ∷ rest))) c rest (
      ap skip_gap (skip_token-text s (replicate (suc n) 0 ++ (c ∷ rest)) t)
      ∙ skip_gap-replicate n (c ∷ rest)
      ∙ rw h),
)

-- `get_argc` counts the entries before the null entry, and reads no further.
pub get_argc-length {ℓ} :
    {A : Type ℓ} (args : List A) (m : List (Option A))
    → get_argc (some (map some args ++ none ∷ m)) ≡ ok (length args)
unfolding get_argc
get_argc-length [] m = refl
get_argc-length (a ∷ args) m = rw (get_argc-length args m)
