-- ===== src/Lsh/Execute/Launch/Piping.antt =====
-- The pipes of a round of `start_job_internal` of lsh/execute.c, before the fork.
use akiso.Prelude.{
  ℕ, ◌+◌, ◌≡◌, refl, sym, ap, subst, ◌∙◌, Bool, true, false, Option, none, some, Option-cases, List,
  [], ◌∷◌, arith, ◌==◌, if◌then◌else◌, inl, inr,
}
use akiso.Prelude.Int.{ℤ, pos}
use akiso.Lsh.Execute.Redirects.{Open, Table}
use akiso.Lsh.Execute.Pipes.{Kernel, with_ends}
use akiso.Lsh.Execute.Launch.{Launch}
use akiso.Lsh.Execute.Launch.Linking.{Feeds}
use akiso.Lsh.Execute.Launch.Ready.{
  Going, IsKernel, IsStandard, NewPipe, with_ends-NewPipe, with_ends_open,
}
use akiso.Lsh.Execute.Launch.Closing.{Differs, IsReader, Forked}
use akiso.Lsh.Execute.Launch.Tables.{Clear, flagged, Holds-open, apart_open}

apart_free :
    (table : Table) (d fd : ℕ) (behind : Open)
    → table d ≡ none
    → table fd ≡ some behind
    → (d == fd) ≡ false
apart_free table d fd behind free at =
    let apart = apart_open table fd d behind at free in ground arith

pub pos-inj : (a b : ℕ) → pos a ≡ pos b → a ≡ b
pos-inj a b h = cc

-- A new descriptor is not the one that is linked.
Feeds-Differs :
    (v : ℤ) (from : Option ℕ) (r : ℕ) (table : Table)
    → Feeds v from 0 table
    → table r ≡ none
    → Differs r v
Feeds-Differs v none r table (inl nothing) free fd is_fd = cc
Feeds-Differs v none r table (inr (itself, behind, at)) free fd is_fd =
    apart_free table r fd behind free (ap table (sym (pos-inj 0 fd (sym itself ∙ is_fd))) ∙ at)
Feeds-Differs v (some file) r table (d, is_d, at, _) free fd is_fd =
    apart_free table r fd (flagged file) free
      (ap table (sym (pos-inj d fd (sym is_d ∙ is_fd))) ∙ at)

-- What is linked to the standard input is linked to it behind a new pipe, too.
Feeds-NewPipe :
    (base : Table) (held : List ℤ) (next r w : ℕ) (table : Table) (v : ℤ) (from : Option ℕ)
    → NewPipe base held next r w table
    → Feeds v from 0 table
    → Feeds v from 0 (with_ends r w next true table)
Feeds-NewPipe base held next r w table v none new (inl nothing) = inl nothing
Feeds-NewPipe base held next r w table v none new (inr (itself, behind, at)) =
    inr (itself, behind, with_ends_open base held next r w table 0 behind new at)
Feeds-NewPipe base held next r w table v (some file) new (fd, is_fd, at, apart) =
    (fd, is_fd, with_ends_open base held next r w table fd (flagged file) new at, apart)

-- The shell before the fork: the child may take its input and output, and the next round the pipe.
pub record IsReady (base : Table) (last : Bool) (from : Option ℕ) (file : ℕ) (l : Launch)
    : Type 0 where
  pub forked : Forked base last l
  pub feeds_in : Feeds l.prevfd from 0 l.table
  pub feeds_out :
      Feeds (if last then pos 1 else l.pipefds.1) (if last then none else some (file + 1)) 1 l.table
  pub reader : last ≡ false → IsReader file l

module _ (k : Kernel) (law : IsKernel k) (base : Table) (standard : IsStandard base)
    (from : Option ℕ) (l : Launch) (going : Going base false l)
    (feeds : Feeds l.prevfd from 0 l.table) where
  abbrev between : List ℤ
  between = l.prevfd ∷ l.first_error_pipe_read ∷ l.control_pipe.0 ∷ l.control_pipe.1 ∷ []

  -- The last round makes only an error pipe.
  pub last-IsReady :
      (e0 e1 : ℕ)
      → k.pipe l.next l.table ≡ some (e0, e1)
      → IsReady base true from l.next (record l {
        table = with_ends e0 e1 l.next true l.table;
        error_pipe = (pos e0, pos e1);
        next = l.next + 2;
      })
  last-IsReady e0 e1 given =
      let new =
        with_ends-NewPipe base standard k between l.next e0 e1 l.table law given going.clear
          going.holds going.passes in
      let (prev, (first, controls)) = going.clear in
      let (pipe0, (pipe1, _)) = going.clear_pipe in
      let error0 : Clear base (pos e0) = λ fd h. ap base (sym (pos-inj e0 fd h)) ∙ new.clear_r in
      let error1 : Clear base (pos e1) = λ fd h. ap base (sym (pos-inj e1 fd h)) ∙ new.clear_w in
      let at : with_ends e0 e1 l.next true l.table 1 ≡ base 1 =
        Holds-open base 1 (pos e0 ∷ pos e1 ∷ between) (with_ends e0 e1 l.next true l.table)
          standard.1 (error0, (error1, going.clear)) new.holds in
      record {
        forked = record {
          size = going.size;
          holds = λ d (o, (o0, (o1, others))). new.holds d (o0, (o1, (o, others)));
          passes = new.passes;
          clear = (pipe0, (pipe1, (prev, (error0, (error1, (first, controls))))));
        };
        feeds_in = Feeds-NewPipe base between l.next e0 e1 l.table l.prevfd from new feeds;
        feeds_out = elim (Option-cases (base 1)) [
          | inl closed ↦ elim (standard.1 closed) [ ]
          | inr (behind, is_open) ↦ inr (refl, behind, at ∙ is_open)
        ];
        reader = λ h. cc;
      }

  -- The other rounds make a pipe before it.
  pub middle-IsReady :
      (r w e0 e1 : ℕ)
      → k.pipe l.next l.table ≡ some (r, w)
      → k.pipe (l.next + 2) (with_ends r w l.next true l.table) ≡ some (e0, e1)
      → IsReady base false from l.next (record l {
        table = with_ends e0 e1 (l.next + 2) true (with_ends r w l.next true l.table);
        pipefds = (pos r, pos w);
        error_pipe = (pos e0, pos e1);
        next = l.next + 2 + 2;
      })
  middle-IsReady r w e0 e1 given given' =
      let new =
        with_ends-NewPipe base standard k between l.next r w l.table law given going.clear
          going.holds going.passes in
      let (prev, (first, controls)) = going.clear in
      let clear0 : Clear base (pos r) = λ fd h. ap base (sym (pos-inj r fd h)) ∙ new.clear_r in
      let clear1 : Clear base (pos w) = λ fd h. ap base (sym (pos-inj w fd h)) ∙ new.clear_w in
      let piped : List ℤ = pos r ∷ pos w ∷ between in
      let table = with_ends r w l.next true l.table in
      let new' =
        with_ends-NewPipe base standard k piped (l.next + 2) e0 e1 table law given'
          (clear0, (clear1, going.clear)) new.holds new.passes in
      let error0 : Clear base (pos e0) = λ fd h. ap base (sym (pos-inj e0 fd h)) ∙ new'.clear_r in
      let error1 : Clear base (pos e1) = λ fd h. ap base (sym (pos-inj e1 fd h)) ∙ new'.clear_w in
      let still = with_ends_open base piped (l.next + 2) e0 e1 table in
      let differs : (fd : ℕ) → (r == fd) ≡ false → Differs r (pos fd) =
        λ fd apart d h. subst (λ n. (r == n) ≡ false) (pos-inj fd d h) apart in
      record {
        forked = record {
          size = going.size;
          holds = λ d (o0, (o1, (o, (oe0, (oe1, others))))).
              new'.holds d (oe0, (oe1, (o0, (o1, (o, others)))));
          passes = new'.passes;
          clear = (clear0, (clear1, (prev, (error0, (error1, (first, controls))))));
        };
        feeds_in =
            Feeds-NewPipe base piped (l.next + 2) e0 e1 table l.prevfd from new'
              (Feeds-NewPipe base between l.next r w l.table l.prevfd from new feeds);
        feeds_out = (w, refl, still w (flagged (l.next + 1)) new' new.at_w, new.apart_w);
        reader = λ h. (
          r,
          refl,
          still r (flagged l.next) new' new.at_r,
          new.apart_r,
          (
            Feeds-Differs l.prevfd from r l.table feeds new.given_r,
            (
              differs w new.distinct,
              (
                differs e0 (apart_open table r e0 (flagged l.next) new.at_r new'.given_r),
                (differs e1 (apart_open table r e1 (flagged l.next) new.at_r new'.given_w), tt),
              ),
            ),
          ),
        );
      }
