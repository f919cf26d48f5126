-- ===== src/Lsh/Job/Handles.antt =====
-- What `remove_job_handle` of lsh/job.c finds and leaves.
use akiso.Prelude.{
  ℕ, ◌≡◌, refl, ap, ◌∙◌, inl, inr, Bool, true, false, ◌||◌, Option, none, some, List, [], ◌∷◌, ◌++◌,
  arith, if◌then◌else◌, Bool-cases, All,
}
use akiso.Prelude.Int.{ℤ, pos, negsuc, ◌==ℤ◌}
use akiso.Prelude.Run.{ok, ◌>>=◌}
use akiso.Lsh.Job.{Job, Heap, load, is_not_positive, remove_job_handle}

-- The handle points to an allocated job.
abbrev pub IsLive : Heap → ℕ → Type 0
IsLive h a = (job : Job) × (h.job_at a ≡ some job)

abbrev pub matches : ℤ → Job → Bool
matches pid job = job.pgid ==ℤ pid || is_not_positive pid

abbrev pub MatchesAt : Heap → ℤ → Bool → ℕ → Type 0
MatchesAt h pid b a = (job : Job) × (h.job_at a ≡ some job) × (matches pid job ≡ b)

-- The first handle that matches is taken out, or there is none and the list is as it was.
pub data Removal (h : Heap) (pid : ℤ) (handles : List ℕ) : Option ℕ × List ℕ → Type 0 where
  taken :
      (before : List ℕ) (a : ℕ) (after : List ℕ)
      → handles ≡ before ++ (a ∷ after)
      → All (MatchesAt h pid false) before
      → MatchesAt h pid true a
      → Removal h pid handles (some a, before ++ after)
  kept : All (MatchesAt h pid false) handles → Removal h pid handles (none, handles)

pub load-IsLive : (h : Heap) (a : ℕ) (job : Job) → h.job_at a ≡ some job → load a h ≡ ok job
unfolding load
load-IsLive h a job e = rw (e, load)

remove_job_handle-cons :
    (h : Heap) (a : ℕ) (handles : List ℕ) (pid : ℤ) (job : Job)
    → h.job_at a ≡ some job
    → remove_job_handle h (a ∷ handles) pid ≡ (
        if matches pid job
        then ok (some a, handles)
        else (do (found, others) ← remove_job_handle h handles pid; ok (found, a ∷ others)))
unfolding remove_job_handle
remove_job_handle-cons h a handles pid job e = rw (load-IsLive h a job e)

module _ (h : Heap) (pid : ℤ) where
  pub remove_job_handle-matching :
      (a : ℕ) (handles : List ℕ)
      → MatchesAt h pid true a
      → remove_job_handle h (a ∷ handles) pid ≡ ok (some a, handles)
  remove_job_handle-matching a handles (job, e, hit) =
      remove_job_handle-cons h a handles pid job e ∙ rw hit

  Removal-cons :
      (a : ℕ) (handles : List ℕ) {r : Option ℕ × List ℕ}
      → MatchesAt h pid false a
      → Removal h pid handles r
      → Removal h pid (a ∷ handles) (r.0, a ∷ r.1)
  Removal-cons a handles m (taken before b after e none_before hit) =
      taken (a ∷ before) b after (ap (◌∷◌ a) e) (m, none_before) hit
  Removal-cons a handles m (kept none_at_all) = kept (m, none_at_all)

  -- On handles whose jobs are allocated, `remove_job_handle` never faults: it takes out the first
  -- handle whose job has the group `pid` (any handle, if `pid` is not positive), and keeps the order
  -- of the others; if there is none it changes nothing.
  pub remove_job_handle-Removal :
      (handles : List ℕ)
      → All (IsLive h) handles
      → (r : Option ℕ × List ℕ) × (remove_job_handle h handles pid ≡ ok r) × Removal h pid handles r
  remove_job_handle-Removal [] live = ((none, []), unfold remove_job_handle in refl, kept tt)
  remove_job_handle-Removal (a ∷ handles) ((job, e), others) = elim (Bool-cases (matches pid job)) [
    | inl hit ↦ (
      (some a, handles),
      remove_job_handle-matching a handles (job, e, hit),
      taken [] a handles refl tt (job, e, hit),
    )
    | inr miss ↦
        let (r, run, removal) = remove_job_handle-Removal handles others in
        (
          (r.0, a ∷ r.1),
          remove_job_handle-cons h a handles pid job e ∙ rw (miss, run),
          Removal-cons a handles (job, e, miss) removal,
        )
  ]

  pub remove_job_handle-none :
      (handles : List ℕ)
      → All (MatchesAt h pid false) handles
      → remove_job_handle h handles pid ≡ ok (none, handles)
  remove_job_handle-none [] none_at_all = unfold remove_job_handle in refl
  remove_job_handle-none (a ∷ handles) ((job, e, miss), others) =
      remove_job_handle-cons h a handles pid job e
      ∙ rw (miss, remove_job_handle-none handles others)

  pub remove_job_handle-split :
      (before : List ℕ) (a : ℕ) (after : List ℕ)
      → All (MatchesAt h pid false) before
      → MatchesAt h pid true a
      → remove_job_handle h (before ++ (a ∷ after)) pid ≡ ok (some a, before ++ after)
  remove_job_handle-split [] a after none_before hit = remove_job_handle-matching a after hit
  remove_job_handle-split (b ∷ before) a after ((job, e, miss), none_before) hit =
      remove_job_handle-cons h b (before ++ (a ∷ after)) pid job e
      ∙ rw (miss, remove_job_handle-split before a after none_before hit)

==ℤ_refl : (n : ℤ) → (n ==ℤ n) ≡ true
==ℤ_refl (pos n) = ground arith
==ℤ_refl (negsuc n) = ground arith

pub matches_self : (job : Job) → matches job.pgid job ≡ true
matches_self job = rw (==ℤ_refl job.pgid)

-- A handle matches the group of its own job.
pub MatchesAt-self :
    (h : Heap) (a : ℕ) (job : Job) → h.job_at a ≡ some job → MatchesAt h job.pgid true a
MatchesAt-self h a job e = (job, e, matches_self job)
