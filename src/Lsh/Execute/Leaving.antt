-- ===== src/Lsh/Execute/Leaving.antt =====
-- The built-in commands of lsh/execute.c leave a job alone that is on no list.
use akiso.Prelude.{
  ℕ, ◌+◌, ◌≡◌, refl, sym, ap, ◌∙◌, Bool, true, false, Bool-cases, List, [], ◌∷◌, ◌++◌, arith, ◌==◌,
  inl, inr, Bytes, append-nil,
}
use akiso.Prelude.Run.{Always, Always-ok, Always-bind}
use akiso.Lsh.Job.{load}
use akiso.Lsh.Job.Handles.{IsLive}
use akiso.Lsh.Utility.{add_last}
use akiso.Lsh.Execute.{
  Shell, emit, Found, bad_argument, absent, lost, handle, Ended, returned, jumped, killpg, sigcont,
}
use akiso.Lsh.Execute.Builtins.{
  Answers, launched, fg_handle, do_fg, bg_handle, do_bg, cd_to, do_cd, print_jobs, do_jobs,
}
use akiso.Lsh.Execute.Staying.{
  any, IsUnlisted, update-IsLive_always, launch_job-IsUnlisted, TakenApart,
  get_job_handle-TakenApart,
}
use akiso.Lsh.Execute.Valid.{count, count-append, count_apart, add_last-append}

abbrev pub EndsUnlisted : ℕ → Ended → Type 0
EndsUnlisted b (returned ret s) = IsUnlisted b s
EndsUnlisted b (jumped s) = IsUnlisted b s

launched-EndsUnlisted :
    (b : ℕ) (p : Shell × Bool) → IsUnlisted b (p.0) → EndsUnlisted b (launched p)
launched-EndsUnlisted b (s, true) h = h
launched-EndsUnlisted b (s, false) h = h

-- A handle put back at the end of the current jobs, and maybe of the pending ones.
put_back-IsUnlisted :
    (a b : ℕ) (s t : Shell) (pending : List ℕ)
    → (b == a) ≡ false
    → IsLive t.heap b
    → t.current_job ≡ add_last s.current_job (a ∷ [])
    → t.pending_jobs ≡ s.pending_jobs ++ pending
    → count b pending ≡ 0
    → t.pending_removed_jobs ≡ s.pending_removed_jobs
    → IsUnlisted b s
    → IsUnlisted b t
put_back-IsUnlisted a b s t pending apart live current listed none_new removed (_, none_listed) =
    let e1 = ap (count b) (current ∙ add_last-append s.current_job (a ∷ [])) in
    let e2 = count-append b s.current_job (a ∷ []) in
    let e3 = ap (count b) listed ∙ count-append b s.pending_jobs pending in
    let e4 = ap (count b) removed in (live, omega (arith, count_apart b a [] apart))

fg_handle-EndsUnlisted :
    (b : ℕ) (k : Answers) (found : Found) (s : Shell)
    → TakenApart b (found, s)
    → Always (fg_handle found k s) (EndsUnlisted b)
unfolding fg_handle
fg_handle-EndsUnlisted b k bad_argument s h = Always-ok (EndsUnlisted b) h
fg_handle-EndsUnlisted b k absent s h = Always-ok (EndsUnlisted b) h
fg_handle-EndsUnlisted b k lost s h = λ a e. cc
fg_handle-EndsUnlisted b k (handle a) s (apart, h) = Always-bind (any (load a s.heap)) (λ job _.
    elim (Bool-cases k.given) [
      | inr refused ↦ rw refused (
          Always-ok (EndsUnlisted b) (
            put_back-IsUnlisted a b s (record s { current_job = add_last s.current_job (a ∷ []) })
              [] apart h.0 refl (sym (append-nil s.pending_jobs)) refl refl h))
      | inl given ↦ rw given (
          Always-bind (update-IsLive_always a b _ s.heap h.0) (λ heap live.
            Always-bind
              (launch_job-IsUnlisted a b k.statuses k.terminal
                (emit (killpg job.pgid sigcont ∷ []) (record s { heap = heap })) apart (live, h.1))
              (λ done h'. Always-ok (EndsUnlisted b) (launched-EndsUnlisted b done h'))))
    ])

bg_handle-EndsUnlisted :
    (b : ℕ) (found : Found) (s : Shell)
    → TakenApart b (found, s)
    → Always (bg_handle found s) (EndsUnlisted b)
unfolding bg_handle
bg_handle-EndsUnlisted b bad_argument s h = Always-ok (EndsUnlisted b) h
bg_handle-EndsUnlisted b absent s h = Always-ok (EndsUnlisted b) h
bg_handle-EndsUnlisted b lost s h = λ a e. cc
bg_handle-EndsUnlisted b (handle a) s (apart, h) = Always-bind (any (load a s.heap)) (λ job _.
    Always-bind (update-IsLive_always a b _ s.heap h.0) (λ heap live. Always-ok (EndsUnlisted b) (
      put_back-IsUnlisted a b s
        (emit (killpg job.pgid sigcont ∷ []) (record s {
          heap = heap;
          current_job = add_last s.current_job (a ∷ []);
          pending_jobs = add_last s.pending_jobs (a ∷ []);
        }))
        (a ∷ []) apart live refl (add_last-append s.pending_jobs (a ∷ []))
        (count_apart b a [] apart) refl h)))

print_jobs-IsUnlisted :
    (b i : ℕ) (handles : List ℕ) (s : Shell)
    → IsUnlisted b s
    → Always (print_jobs i handles s) (IsUnlisted b)
unfolding print_jobs
print_jobs-IsUnlisted b i [] s h = Always-ok (IsUnlisted b) h
print_jobs-IsUnlisted b i (a ∷ handles) s h =
    Always-bind (any (load a s.heap)) (λ job _. print_jobs-IsUnlisted b (i + 1) handles _ h)

cd_to-EndsUnlisted :
    (b : ℕ) (path : Bytes) (k : Answers) (s : Shell)
    → IsUnlisted b s
    → Always (cd_to path k s) (EndsUnlisted b)
cd_to-EndsUnlisted b path k s h = elim (Bool-cases k.changed) [
  | inl well ↦ rw well (Always-ok (EndsUnlisted b) h)
  | inr failed ↦ rw failed (Always-ok (EndsUnlisted b) h)
]

module _ (b : ℕ) (args : List Bytes) (k : Answers) (s : Shell) (h : IsUnlisted b s) where
  pub do_fg-EndsUnlisted : Always (do_fg args k s) (EndsUnlisted b)
  unfolding do_fg
  do_fg-EndsUnlisted =
      Always-bind (get_job_handle-TakenApart b args s h)
        (λ (found, s') h'. fg_handle-EndsUnlisted b k found s' h')

  pub do_bg-EndsUnlisted : Always (do_bg args k s) (EndsUnlisted b)
  unfolding do_bg
  do_bg-EndsUnlisted =
      Always-bind (get_job_handle-TakenApart b args s h)
        (λ (found, s') h'. bg_handle-EndsUnlisted b found s' h')

  pub do_jobs-EndsUnlisted : Always (do_jobs args k s) (EndsUnlisted b)
  unfolding do_jobs
  do_jobs-EndsUnlisted =
      Always-bind (print_jobs-IsUnlisted b 1 s.current_job s h)
        (λ s' h'. Always-ok (EndsUnlisted b) h')

pub do_cd-EndsUnlisted :
    (b : ℕ) (args : List Bytes) (k : Answers) (s : Shell)
    → IsUnlisted b s
    → Always (do_cd args k s) (EndsUnlisted b)
unfolding do_cd
do_cd-EndsUnlisted b [] k s h = λ a e. cc
do_cd-EndsUnlisted b (name ∷ []) k s h = cd_to-EndsUnlisted b k.home k s h
do_cd-EndsUnlisted b (name ∷ arg ∷ []) k s h = cd_to-EndsUnlisted b arg k s h
do_cd-EndsUnlisted b (name ∷ arg ∷ other ∷ others) k s h = Always-ok (EndsUnlisted b) h
