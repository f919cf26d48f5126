-- ===== src/Lsh/Parser/Process/Words.antt =====
-- The loop of `parse_process` of lsh/parser.c over its tokens.
use mathlib.Core.Bool.{and-false}
use mathlib.Core.Path.{subst}
use akiso.Prelude.{
  ℕ, ◌+◌, ◌≡◌, ◌≢◌, refl, ap, sym, ◌∙◌, inl, inr, Bool, true, false, not, ◌&&◌, ◌||◌, Option, none,
  some, List, [], ◌∷◌, ◌++◌, map, arith, ◌==◌, if◌then◌else◌, Bytes, length, set, All, replicate,
  Bool-cases, append_assoc, append-nil, length-append,
}
use akiso.Prelude.Run.{Run, ok, fault}
use akiso.Lsh.Job.{Redirect, Process}
use akiso.Lsh.Parser.Redirect.{parse_redirect}
use akiso.Lsh.Parser.Process.{Parsed, process, error, or_error, parse_args}
use akiso.Lsh.Utility.{char_in_set, add_last}

-- A token that the loop takes for a redirect.
abbrev pub has_angle : Bytes → Bool
has_angle t = char_in_set b'>' t || char_in_set b'<' t

pub data AllParsed : List Bytes → List Redirect → Type 0 where
  nil : AllParsed [] []
  cons :
      {t : Bytes} {r : Redirect} {ts : List Bytes} {rs : List Redirect}
      → has_angle t ≡ true
      → parse_redirect t (char_in_set b'>' t) ≡ ok (some r)
      → AllParsed ts rs
      → AllParsed (t ∷ ts) (r ∷ rs)

-- `p` is what the tokens `ts` say: words first, at least one, then redirects only; the null entries
-- behind the words end the argument vector, and `argc` counts the words.
pub record IsCommand (ts : List Bytes) (p : Process) : Type 0 where
  pub words : List Bytes
  pub targets : List Bytes
  pub splits : ts ≡ words ++ targets
  pub some_word : words ≢ []
  pub plain : All (λ t. has_angle t ≡ false) words
  pub parsed : AllParsed targets p.redirects
  pub vector : p.arguments ≡ map some words ++ (replicate (length targets) none ++ none ∷ [])
  pub count : p.argc ≡ length words

or_error-process :
    (m : Run (Option Redirect)) (go_on : Redirect → Run Parsed) {q : Process}
    → or_error m go_on ≡ ok (process q)
    → (r : Redirect) × (m ≡ ok (some r)) × (go_on r ≡ ok (process q))
or_error-process (ok none) go_on e = cc
or_error-process (ok (some r)) go_on e = (r, refl, e)
or_error-process fault go_on e = cc

-- The test for both marks in one token never holds: the second is looked for if the first is not
-- there.
both_marks : (b c : Bool) → ((not b && c) && b) ≡ false
both_marks true c = refl
both_marks false c = and-false c

either_mark : (b c : Bool) → (b || (not b && c)) ≡ (b || c)
either_mark true c = refl
either_mark false c = refl

parse_args-redirect :
    (i : ℕ) (t : Bytes) (ts : List Bytes) (found : Bool) (argc : ℕ) (p : Process)
    → has_angle t ≡ true
    → parse_args i (t ∷ ts) found argc p ≡ (
        if i == 0
        then ok error
        else or_error (parse_redirect t (char_in_set b'>' t)) (λ r.
          parse_args (i + 1) ts true argc (record p {
            arguments = set p.arguments i none;
            redirects = add_last p.redirects (r ∷ []);
            argc = if not found then i else p.argc;
          })))
unfolding parse_args
parse_args-redirect i t ts found argc p angle = rw (
  either_mark (char_in_set b'>' t) (char_in_set b'<' t),
  angle,
  both_marks (char_in_set b'>' t) (char_in_set b'<' t),
)

pub step-redirect :
    (i : ℕ) (t : Bytes) (ts : List Bytes) (found : Bool) (argc : ℕ) (p q : Process)
    → has_angle t ≡ true
    → parse_args i (t ∷ ts) found argc p ≡ ok (process q)
    → (r : Redirect) × (parse_redirect t (char_in_set b'>' t) ≡ ok (some r))
      × ((i == 0) ≡ false)
      × (parse_args (i + 1) ts true argc (record p {
        arguments = set p.arguments i none;
        redirects = add_last p.redirects (r ∷ []);
        argc = if not found then i else p.argc;
      })
          ≡ ok (process q))
step-redirect i t ts found argc p q angle e =
    let e' = sym (parse_args-redirect i t ts found argc p angle) ∙ e in
    elim (Bool-cases (i == 0)) [
      | inl z ↦ (let bad : ◌≡◌ {A = Run Parsed} (ok error) (ok (process q)) = rw z at e' in cc)
      | inr nz ↦
          let (r, got, later) =
            or_error-process (parse_redirect t (char_in_set b'>' t)) _ (rw nz at e') in
          (r, got, nz, later)
    ]

pub step-word :
    (i : ℕ) (t : Bytes) (ts : List Bytes) (found : Bool) (argc : ℕ) (p q : Process)
    → has_angle t ≡ false
    → parse_args i (t ∷ ts) found argc p ≡ ok (process q)
    → (found ≡ false) × (parse_args (i + 1) ts found argc p ≡ ok (process q))
unfolding parse_args
step-word i t ts found argc p q angle e = ground arith

set-length :
    {A : Type 0} (front : List A) (x y : A) (back : List A)
    → set (front ++ x ∷ back) (length front) y ≡ (front ++ y ∷ []) ++ back
set-length [] x y back = refl
set-length (a ∷ front) x y back = ap (◌∷◌ a) (set-length front x y back)

add_last-concat {ℓ} : {A : Type ℓ} (xs ys : List A) → add_last xs ys ≡ xs ++ ys
unfolding add_last
add_last-concat [] ys = refl
add_last-concat (x ∷ xs) ys = ap (◌∷◌ x) (add_last-concat xs ys)

-- The process while the loop stands in front of the tokens `ts`.
abbrev pub standing : List (Option Bytes) → List Bytes → ℕ → List Redirect → Process
standing front ts argc rs = record {
  arguments = front ++ (map some ts ++ none ∷ []);
  argc = argc;
  redirects = rs;
}

-- The process that `targets` with the redirects `new` leave.
abbrev left_by : List (Option Bytes) → List Bytes → ℕ → List Redirect → Process
left_by front targets argc rs = record {
  arguments = front ++ (replicate (length targets) none ++ none ∷ []);
  argc = argc;
  redirects = rs;
}

pub advance :
    (front : List (Option Bytes)) (t : Bytes) (ts : List Bytes) (argc : ℕ) (rs : List Redirect)
    (r : Redirect) (i : ℕ)
    → i ≡ length front
    → ◌≡◌ {A = Process}
        (record {
          arguments = set (front ++ (map some (t ∷ ts) ++ none ∷ [])) i none;
          argc = argc;
          redirects = add_last rs (r ∷ []);
        })
        (standing (front ++ none ∷ []) ts argc (rs ++ r ∷ []))
advance front t ts argc rs r i e =
    let back = map some ts ++ none ∷ [] in
    let blanked : set (front ++ some t ∷ back) i none ≡ (front ++ none ∷ []) ++ back =
      ap (λ n. set (front ++ some t ∷ back) n none) e ∙ set-length front (some t) none back in
    λ j. record { arguments = blanked j; argc = argc; redirects = add_last-concat rs (r ∷ []) j }

pub parse_args-end :
    (i argc : ℕ) (found : Bool) (p q : Process)
    → parse_args i [] found argc p ≡ ok (process q)
    → q ≡ (if not found then record p { argc = argc } else p)
unfolding parse_args
parse_args-end i argc found p q e = cc

-- Behind the first redirect every token is one.
found-angle :
    (i : ℕ) (t : Bytes) (ts : List Bytes) (argc : ℕ) (p q : Process)
    → parse_args i (t ∷ ts) true argc p ≡ ok (process q)
    → has_angle t ≡ true
found-angle i t ts argc p q run = elim (Bool-cases (has_angle t)) [
  | inl angle ↦ angle
  | inr plain ↦ (let e = (step-word i t ts true argc p q plain run).0 in cc)
]

pub length-concat : {A : Type 0} (xs : List A) (x : A) → length (xs ++ x ∷ []) ≡ length xs + 1
length-concat xs x = omega (arith, length-append xs (x ∷ []))

pub parse_args-targets :
    (ts : List Bytes) (front : List (Option Bytes)) (i argc k : ℕ) (rs : List Redirect)
    (q : Process)
    → i ≡ length front
    → parse_args i ts true argc (standing front ts k rs) ≡ ok (process q)
    → (new : List Redirect) × AllParsed ts new × (q ≡ left_by front ts k (rs ++ new))
parse_args-targets [] front i argc k rs q e run = (
  [],
  nil,
  parse_args-end i argc true (standing front [] k rs) q run
      ∙ ap (λ l. left_by front [] k l) (sym (append-nil rs)),
)
parse_args-targets (t ∷ ts) front i argc k rs q e run =
    let p = standing front (t ∷ ts) k rs in
    let angle = found-angle i t ts argc p q run in
    let (r, got, nz, later) = step-redirect i t ts true argc p q angle run in
    let later' =
      subst (λ x. parse_args (i + 1) ts true argc x ≡ ok (process q))
        (advance front t ts k rs r i e) later in
    let (new, parsed, is) =
      parse_args-targets ts (front ++ none ∷ []) (i + 1) argc k (rs ++ r ∷ []) q
        (omega (arith, length-concat front none)) later' in
    (
      r ∷ new,
      cons angle got parsed,
      is ∙ (λ j. record {
        arguments = append_assoc front (none ∷ []) (replicate (length ts) none ++ none ∷ []) j;
        argc = k;
        redirects = append_assoc rs (r ∷ []) new j;
      }),
    )
