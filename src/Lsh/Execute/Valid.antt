-- ===== src/Lsh/Execute/Valid.antt =====
-- Which states of the shell are sound: the global lists of lsh/main.c and the jobs in memory.
use akiso.Prelude.{
  ℕ, ◌+◌, ◌<◌, ◌≤◌, ◌≡◌, refl, ap, true, false, none, some, List, [], ◌∷◌, ◌++◌, arith, ◌==◌,
  if◌then◌else◌, All, inl, inr, Bool-cases,
}
use akiso.Prelude.Run.{ok, fault, Gives}
use akiso.Lsh.Job.{Job, Heap, load, update, destroy_job, put_job}
use akiso.Lsh.Job.Handles.{IsLive, load-IsLive}
use akiso.Lsh.Execute.{Shell}
use akiso.Lsh.Utility.{add_last}

-- How often a handle stands on a list.
abbrev pub count : ℕ → List ℕ → ℕ
count a [] = 0
count a (b ∷ l) = (if a == b then 1 else 0) + count a l

pub count-append : (a : ℕ) (l m : List ℕ) → count a (l ++ m) ≡ count a l + count a m
count-append a [] m = omega arith
count-append a (b ∷ l) m = omega (arith, count-append a l m)

pub count_move :
    (a b : ℕ) (before after : List ℕ)
    → count a (before ++ (b ∷ after)) ≡ count a (b ∷ []) + count a (before ++ after)
count_move a b before after =
    omega (arith, count-append a before (b ∷ after), count-append a before after)

pub add_last-append : (l m : List ℕ) → add_last l m ≡ l ++ m
unfolding add_last
add_last-append [] m = refl
add_last-append (b ∷ l) m = ap (◌∷◌ b) (add_last-append l m)

pub count_self : (a : ℕ) (l : List ℕ) → count a (a ∷ l) ≡ 1 + count a l
count_self a l = let same : (a == a) ≡ true = ground arith in rw same

pub count_equal : (a b : ℕ) (l : List ℕ) → (a == b) ≡ true → count a (b ∷ l) ≡ 1 + count a l
count_equal a b l same = rw same

pub count_apart : (a b : ℕ) (l : List ℕ) → (a == b) ≡ false → count a (b ∷ l) ≡ count a l
count_apart a b l apart = rw apart (omega arith)

-- No job is twice among the current and the removed ones, and every handle on the three lists is the
-- address of an allocated job. A pending job may be a current or a removed one as well.
abbrev pub IsValid : Shell → Type 0
IsValid s =
    (a : ℕ)
    → (count a s.pending_removed_jobs + count a s.current_job ≤ 1)
      × (0 < count a s.pending_removed_jobs + count a s.current_job + count a s.pending_jobs
          → IsLive s.heap a)

pub All-count : {P : ℕ → Type 0} (l : List ℕ) → ((a : ℕ) → 0 < count a l → P a) → All P l
All-count [] h = tt
All-count (b ∷ l) h = (h b (omega (arith, count_self b l)), All-count l (λ a on. h a (omega arith)))

module _ (h : Heap) (a b : ℕ) where
  -- A write of fields frees nothing.
  pub IsLive-put : (job : Job) → IsLive h b → IsLive (put_job a (some job) h) b
  IsLive-put job (old, e) = elim (Bool-cases (b == a)) [
    | inl same ↦ (job, rw same)
    | inr apart ↦ (old, rw (apart, e))
  ]

  pub IsLive-free : (b == a) ≡ false → IsLive h b → IsLive (put_job a none h) b
  IsLive-free apart (old, e) = (old, rw (apart, e))

pub stays_free : (h : Heap) (a b : ℕ) → h.job_at b ≡ none → (put_job a none h).job_at b ≡ none
stays_free h a b free = elim (Bool-cases (b == a)) [
  | inl same ↦ rw same
  | inr apart ↦ rw (apart, free)
]

pub update-IsLive :
    (a : ℕ) (change : Job → Job) (h : Heap)
    → IsLive h a
    → Gives (update a change h) (λ h'. (b : ℕ) → IsLive h b → IsLive h' b)
unfolding update
update-IsLive a change h (job, here) = (
  put_job a (some (change job)) h,
  rw (load-IsLive h a job here),
  (λ b. IsLive-put h a b (change job)),
)

-- The heap after `destroy_job` of an allocated job.
pub destroy_job-IsLive : (a : ℕ) (h : Heap) → IsLive h a → destroy_job a h ≡ ok (put_job a none h)
unfolding destroy_job
destroy_job-IsLive a h (job, here) = rw (load-IsLive h a job here)

pub load-Gives : (a : ℕ) (h : Heap) → IsLive h a → Gives (load a h) (λ job. h.job_at a ≡ some job)
load-Gives a h (job, here) = (job, load-IsLive h a job here, here)

pub All-map : {P Q : ℕ → Type 0} (l : List ℕ) → ((a : ℕ) → P a → Q a) → All P l → All Q l
All-map [] f h = tt
All-map (a ∷ l) f (p, h) = (f a p, All-map l f h)

-- A read through a freed handle.
pub load_free : (a : ℕ) (h : Heap) → h.job_at a ≡ none → load a h ≡ fault
unfolding load
load_free a h free = rw (free, load)
