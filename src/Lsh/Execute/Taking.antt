-- ===== src/Lsh/Execute/Taking.antt =====
-- What `get_job_handle` of lsh/execute.c takes off the list of current jobs.
use akiso.Prelude.{
  ℕ, ◌+◌, ◌<◌, ◌≡◌, refl, sym, ap, ◌∙◌, false, not, ◌||◌, Option, none, some, List, [], ◌∷◌, ◌++◌,
  arith, if◌then◌else◌, inl, inr, Bool-cases, Bytes, length, All, subst,
}
use akiso.Prelude.Int.{ℤ, pos, ◌==ℤ◌}
use akiso.Prelude.Run.{Run, ok, fault, ◌>>=◌, Gives, Gives-bind}
use akiso.Libc.{strtol, to_int}
use akiso.Lsh.Job.{Job, load, remove_job_handle}
use akiso.Lsh.Job.Handles.{
  IsLive, MatchesAt, matches, matches_self, Removal, taken, kept, remove_job_handle-Removal,
}
use akiso.Lsh.Execute.{
  Shell, Found, bad_argument, absent, lost, handle, find_handle, take_handle, get_job_handle,
  is_nil,
}
use akiso.Lsh.Execute.Valid.{count, count_self, count_move, IsValid, All-count, load-Gives}

-- What `find_handle` returns.
data Finding (index : ℤ) (i : ℕ) (handles : List ℕ) : ℕ × Option ℕ → Type 0 where
  hit :
      (j a : ℕ) (before after : List ℕ)
      → handles ≡ before ++ (a ∷ after)
      → Finding index i handles (j, some a)
  miss :
      (j : ℕ)
      → j ≡ i + length handles
      → (0 < length handles → (pos j ==ℤ index) ≡ false)
      → Finding index i handles (j, none)

find_handle-Finding :
    (index : ℤ) (i : ℕ) (handles : List ℕ) → Finding index i handles (find_handle index i handles)
unfolding find_handle
find_handle-Finding index i [] = miss i (omega arith) (λ h. absurd (omega arith))
find_handle-Finding index i (a ∷ handles) = elim (Bool-cases (pos (i + 1) ==ℤ index)) [
  | inl here ↦ rw here (hit (i + 1) a [] handles refl)
  | inr other ↦ rw other (behind a handles other (find_handle-Finding index (i + 1) handles))
]
  where
    behind :
        (a : ℕ) (handles : List ℕ) {r : ℕ × Option ℕ}
        → (pos (i + 1) ==ℤ index) ≡ false
        → Finding index (i + 1) handles r
        → Finding index i (a ∷ handles) r
    behind a handles other (hit j b before after e) = hit j b (a ∷ before) after (ap (◌∷◌ a) e)
    behind a [] other (miss j e h) =
        let at : j ≡ i + 1 = omega arith in
        miss j (omega arith) (λ _. ap (λ k. pos k ==ℤ index) at ∙ other)
    behind a (b ∷ handles) other (miss j e h) = miss j (omega arith) (λ _. h (omega arith))

-- What `take_handle` and `get_job_handle` leave: the handle that they return is on no list that has
-- to be kept apart.
pub data Taken : Found × Shell → Type 0 where
  bad : (s : Shell) → IsValid s → Taken (bad_argument, s)
  none_found : (s : Shell) → IsValid s → Taken (absent, s)
  one :
      (a : ℕ) (s : Shell)
      → IsValid s
      → IsLive s.heap a
      → count a s.current_job + count a s.pending_removed_jobs ≡ 0
      → Taken (handle a, s)

All-middle :
    (P : ℕ → Type 0) (before : List ℕ) (a : ℕ) (after : List ℕ)
    → All P (before ++ (a ∷ after))
    → P a
All-middle P [] a after (p, h) = p
All-middle P (b ∷ before) a after (p, h) = All-middle P before a after h

without-Taken :
    (s : Shell) (b : ℕ) (before after : List ℕ)
    → s.current_job ≡ before ++ (b ∷ after)
    → IsValid s
    → Taken (handle b, record s { current_job = before ++ after })
without-Taken s b before after e valid =
    let listed : (c : ℕ) → count c s.current_job ≡ count c (b ∷ []) + count c (before ++ after) =
      λ c. ap (count c) e ∙ count_move c b before after in
    one b (record s { current_job = before ++ after })
      (λ c.
        let (once, live) = valid c in
        (omega (arith, listed c), λ on. live (omega (arith, listed c))))
      ((valid b).1 (omega (arith, listed b, count_self b [])))
      (let (once, live) = valid b in omega (arith, listed b, count_self b []))

module _ (index : ℤ) (s : Shell) (valid : IsValid s) where
  take_found :
      (a : ℕ) (before after : List ℕ)
      → s.current_job ≡ before ++ (a ∷ after)
      → Gives
          (do
            job ← load a s.heap
            (found, current) ← remove_job_handle s.heap s.current_job job.pgid
            ok (
              elim found as (λ _. Found) [ none ↦ lost | some b ↦ handle b ],
              record s { current_job = current },
            ))
          Taken
  take_found a before after e =
      let all_live = All-count s.current_job (λ b on. (valid b).1 (omega arith)) in
      let on_list : 0 < count a s.current_job =
        omega (arith, ap (count a) e, count_move a a before after, count_self a []) in
      Gives-bind (load-Gives a s.heap ((valid a).1 (omega arith))) (λ job here.
        Gives-bind (remove_job_handle-Removal s.heap job.pgid s.current_job all_live)
          (λ r removal. removed job here r removal))
    where
      removed :
          (job : Job)
          → s.heap.job_at a ≡ some job
          → (r : Option ℕ × List ℕ) → Removal s.heap job.pgid s.current_job r
          → Gives
              (ok (
                elim r.0 as (λ _. Found) [ none ↦ lost | some b ↦ handle b ],
                record s { current_job = r.1 },
              ))
              Taken
      removed job here _ (taken before' b after' e' _ _) =
          (_, refl, without-Taken s b before' after' e' valid)
      removed job here _ (kept none_matches) =
          let (job', here', no_match) =
            All-middle (MatchesAt s.heap job.pgid false) before a after
              (subst (All (MatchesAt s.heap job.pgid false)) e none_matches) in
          let same : job' ≡ job = cc in
          let hit = matches_self job in
          let miss' : matches job.pgid job ≡ false = ap (matches job.pgid) (sym same) ∙ no_match in
          absurd cc

  take_handle-Taken : 0 < length s.current_job → Gives (take_handle index s) Taken
  unfolding take_handle
  take_handle-Taken some_job =
      go (find_handle index 0 s.current_job) (find_handle-Finding index 0 s.current_job)
    where
      go :
          (r : ℕ × Option ℕ)
          → Finding index 0 s.current_job r
          → Gives
              (if not (pos r.0 ==ℤ index)
                then ok (absent, s)
                else elim r.1 as (λ _. Run (Found × Shell)) [
                  | none ↦ fault
                  | some a ↦ do
                    job ← load a s.heap
                    (found, current) ← remove_job_handle s.heap s.current_job job.pgid
                    ok (
                      elim found as (λ _. Found) [ none ↦ lost | some b ↦ handle b ],
                      record s { current_job = current },
                    )
                ])
              Taken
      go _ (miss j e h) = rw (h some_job) (_, refl, none_found s valid)
      go _ (hit j a before after e) = elim (Bool-cases (pos j ==ℤ index)) [
        | inl there ↦ rw there (take_found a before after e)
        | inr past ↦ rw past (_, refl, none_found s valid)
      ]

pub get_job_handle-Taken :
    (args : List Bytes) (s : Shell)
    → IsValid s
    → 0 < length s.current_job
    → Gives (get_job_handle args s) Taken
unfolding get_job_handle
get_job_handle-Taken [] s valid some_job = take_handle-Taken (pos 1) s valid some_job
get_job_handle-Taken (name ∷ []) s valid some_job = take_handle-Taken (pos 1) s valid some_job
get_job_handle-Taken (name ∷ arg ∷ []) s valid some_job =
    elim (Bool-cases (is_nil arg || not (is_nil (strtol arg).1))) [
      | inl no_number ↦ rw no_number (_, refl, bad s valid)
      | inr number ↦ rw number (take_handle-Taken (to_int (strtol arg).0) s valid some_job)
    ]
get_job_handle-Taken (name ∷ arg ∷ _ ∷ _) s valid some_job = (_, refl, bad s valid)
