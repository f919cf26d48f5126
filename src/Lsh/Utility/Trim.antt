-- ===== src/Lsh/Utility/Trim.antt =====
-- What `trim_front` and `trim_end` of lsh/utility.c do to a C string.
use akiso.Prelude.{
  ℕ, ◌+◌, ◌-◌, ◌≤◌, ◌≡◌, ◌≢◌, refl, ap, ◌∙◌, inl, inr, true, false, some, [], ◌∷◌, ◌++◌,
  append_assoc, arith, ltb, if◌then◌else◌, Bool-cases, Bytes, length, take, drop, c_str, strlen,
  IsText, All, length-append, drop-append, strlen-terminated, c_str-terminated,
}
use akiso.Prelude.Run.{ok, ◌>>=◌}
use akiso.Lsh.Utility.{char_in_set, trim_front, trim_end, trim_end_loop}

abbrev pub IsIn : Bytes → ℕ → Type 0
IsIn characters c = char_in_set c characters ≡ true

-- A set given as a C string does not hold the terminator.
pub char_in_set_nul : (characters : Bytes) → IsText characters → char_in_set 0 characters ≡ false
unfolding char_in_set
char_in_set_nul [] h = refl
char_in_set_nul (c ∷ characters) h = rw (h.0) (char_in_set_nul characters h.1)

-- `r` is `s` without the characters of the set at its front.
pub record IsTrimmed (characters s r : Bytes) : Type 0 where
  pub removed : Bytes
  pub splits : s ≡ removed ++ r
  pub in_set : All (IsIn characters) removed
  pub stops : (c : ℕ) (rest : Bytes) → r ≡ c ∷ rest → char_in_set c characters ≡ false

trim_front-cons :
    (c : ℕ) (s characters : Bytes)
    → char_in_set c characters ≡ true
    → trim_front (c ∷ s) characters ≡ trim_front s characters
unfolding trim_front
trim_front-cons c s characters h = rw h

trim_front-stop :
    (c : ℕ) (s characters : Bytes)
    → char_in_set c characters ≡ false
    → trim_front (c ∷ s) characters ≡ ok (c ∷ s)
unfolding trim_front
trim_front-stop c s characters h = rw h

-- On a terminated text, `trim_front` never runs past the terminator; what it returns is the text
-- without its longest front part of characters of the set.
pub trim_front-IsTrimmed :
    (s m characters : Bytes)
    → IsText characters
    → (r : Bytes) × (trim_front (s ++ 0 ∷ m) characters ≡ ok (r ++ 0 ∷ m))
      × IsTrimmed characters s r
trim_front-IsTrimmed [] m characters h = (
  [],
  trim_front-stop 0 m characters (char_in_set_nul characters h),
  record { removed = []; splits = refl; in_set = tt; stops = λ c rest e. cc },
)
trim_front-IsTrimmed (c ∷ s) m characters h = elim (Bool-cases (char_in_set c characters)) [
  | inl hit ↦
      let (r, e, t) = trim_front-IsTrimmed s m characters h in
      (
        r,
        trim_front-cons c (s ++ 0 ∷ m) characters hit ∙ e,
        record {
          removed = c ∷ t.removed;
          splits = ap (◌∷◌ c) t.splits;
          in_set = (hit, t.in_set);
          stops = t.stops;
        },
      )
  | inr miss ↦ (
    c ∷ s,
    trim_front-stop c (s ++ 0 ∷ m) characters miss,
    record { removed = []; splits = refl; in_set = tt; stops = λ d rest e. ground arith },
  )
]

take-append : (s t : Bytes) → take (length s) (s ++ t) ≡ s
take-append [] t = refl
take-append (c ∷ s) t = ap (◌∷◌ c) (take-append s t)

trim_end_loop-last :
    (c : ℕ) (m characters : Bytes)
    → IsText characters
    → trim_end_loop (c ∷ 0 ∷ m) characters
      ≡ ok ((if char_in_set c characters then 0 else c) ∷ 0 ∷ m)
unfolding trim_end_loop
trim_end_loop-last c m characters h = rw (char_in_set_nul characters h) (ground arith)

ltb-length : (s : Bytes) → s ≢ [] → ltb 0 (length s) ≡ true
ltb-length [] ne = absurd (ne refl)
ltb-length (c ∷ s) ne = ground arith

strlen-concat :
    (s : Bytes) (c : ℕ) (m : Bytes)
    → IsText (s ++ c ∷ [])
    → strlen (s ++ (c ∷ 0 ∷ m)) ≡ some (length s + 1)
strlen-concat s c m t =
    rw
      (
        ← append_assoc s (c ∷ []) (0 ∷ m),
        strlen-terminated (s ++ c ∷ []) m t,
        length-append s (c ∷ []),
      )
      (ap some (omega arith))

trim_end-strlen :
    (str characters : Bytes) (len : ℕ)
    → strlen str ≡ some len
    → trim_end str characters ≡ (
        if ltb 0 (len - 1)
        then (do m ← trim_end_loop (drop (len - 1) str) characters; ok (take (len - 1) str ++ m))
        else ok str)
unfolding trim_end
trim_end-strlen str characters len e = rw (e, trim_end)

-- On a text of two characters or more `trim_end` looks at the last one only: it is overwritten by
-- the terminator if the set has it, and nothing else of the memory changes.
pub trim_end-last :
    (s : Bytes) (c : ℕ) (m characters : Bytes)
    → s ≢ []
    → IsText (s ++ c ∷ [])
    → IsText characters
    → trim_end (s ++ (c ∷ 0 ∷ m)) characters
      ≡ ok (s ++ ((if char_in_set c characters then 0 else c) ∷ 0 ∷ m))
trim_end-last s c m characters ne t h =
    let index : length s + 1 - 1 ≡ length s = omega arith in
    let enter : ltb 0 (length s) ≡ true = ltb-length s ne in
    trim_end-strlen (s ++ (c ∷ 0 ∷ m)) characters (length s + 1) (strlen-concat s c m t)
    ∙ rw (
      index,
      enter,
      drop-append s (c ∷ 0 ∷ m),
      take-append s (c ∷ 0 ∷ m),
      trim_end_loop-last c m characters h,
    )

-- A text of one character, and the empty one, are left as they are.
pub trim_end_short :
    (s m characters : Bytes)
    → IsText s
    → length s ≤ 1
    → trim_end (s ++ 0 ∷ m) characters ≡ ok (s ++ 0 ∷ m)
trim_end_short s m characters t short =
    let stop : ltb 0 (length s - 1) ≡ false = ground arith in
    trim_end-strlen (s ++ 0 ∷ m) characters (length s) (strlen-terminated s m t) ∙ rw stop

IsText-left : (s t : Bytes) → IsText (s ++ t) → IsText s
IsText-left [] t h = tt
IsText-left (c ∷ s) t h = (h.0, IsText-left s t h.1)

concat-ne-nil : (s : Bytes) (a : ℕ) → s ++ a ∷ [] ≢ []
concat-ne-nil [] a e = cc
concat-ne-nil (c ∷ s) a e = cc

-- However many characters of the set stand at the end, one is removed: with two of them there the
-- string that results still ends in one.
pub trim_end_once :
    (s : Bytes) (a b : ℕ) (m characters : Bytes)
    → IsText ((s ++ a ∷ []) ++ b ∷ [])
    → IsText characters
    → IsIn characters a
    → IsIn characters b
    → (r : Bytes) × (trim_end ((s ++ a ∷ []) ++ (b ∷ 0 ∷ m)) characters ≡ ok r)
      × (c_str r ≡ s ++ a ∷ [])
trim_end_once s a b m characters t h ha hb = (
  (s ++ a ∷ []) ++ (0 ∷ 0 ∷ m),
  trim_end-last (s ++ a ∷ []) b m characters (concat-ne-nil s a) t h ∙ rw hb,
  c_str-terminated (s ++ a ∷ []) (0 ∷ m) (IsText-left (s ++ a ∷ []) (b ∷ []) t),
)
