-- ===== src/Lsh/Execute/Launch/Rounds.antt =====
-- The shell's part of a round of `start_job_internal` of lsh/execute.c, behind the fork.
use akiso.Prelude.{
  ℕ, ◌≡◌, ◌≢◌, refl, sym, subst, ◌∙◌, Bool, true, false, Bool-cases, Option, Bytes, none, some,
  List, [], ◌∷◌, ◌++◌, if◌then◌else◌, inl, inr,
}
use akiso.Prelude.Int.{ℤ, pos}
use akiso.Prelude.Run.{Gives, Gives-bind}
use akiso.Lsh.Execute.Redirects.{Table}
use akiso.Lsh.Execute.Pipes.{Kernel, no_fd, close_end, close_pipe}
use akiso.Lsh.Execute.Launch.{Child, ChildEnd, executes, Launch, exec_table, close_parent, parent}
use akiso.Lsh.Execute.Launch.Linking.{Feeds, IsEnd}
use akiso.Lsh.Execute.Launch.Children.{listen-executes}
use akiso.Lsh.Execute.Launch.Ready.{Going, opens}
use akiso.Lsh.Execute.Launch.Tables.{
  Passes, close_end-Passes, close_end-drops, close_end-Clear, close_end_other, Clear-exec_table,
}
use akiso.Lsh.Execute.Launch.Closing.{
  IsReader, Forked, close_parent-Closed, opens_first, close_parent-IsNext,
}

-- What a round has done, where it did not give up.
pub record Done (base : Table) (first last : Bool) (file pid : ℕ) (ending : ChildEnd)
    (args : List (Option Bytes)) (after : Table) (children : List Child) (pgid : ℤ) (next : ℕ)
    (l' : Launch) : Type 0 where
  pub going : Going base last l'
  pub same_next : l'.next ≡ next
  pub group : l'.pgid ≡ (if first then pos pid else pgid)
  pub added : l'.children ≡ children ++ record { pid = pid; group = l'.pgid; ending = ending } ∷ []
  pub runs : first ≡ false → ending ≡ executes after args
  pub feeds : last ≡ false → Feeds l'.prevfd (some file) 0 l'.table

abbrev close_reader : Launch → Launch
close_reader l =
    let (_, error_pipe, table) = close_pipe 1 l.error_pipe l.table in
    record l { error_pipe = error_pipe; table = table }

module _ (k : Kernel) (i : ℕ) (base : Table) (zero_open : base 0 ≢ none) (last : Bool)
    (file pid : ℕ) (ending : ChildEnd) (args : List (Option Bytes)) (after : Table)
    (l : Launch) where
  -- The first round keeps the end of its error pipe for later.
  pub parent_first :
      Forked base last l
      → l.first_error_pipe_read ≡ no_fd
      → (last ≡ false → IsReader file l)
      → Gives (parent k i true last pid ending l) (λ (well, l').
        well ≡ true → Done base true last file pid ending args after l.children l.pgid l.next l')
  unfolding parent close_parent close_pipe
  parent_first f none_yet reader =
      let l1 = close_parent last l in
      let f1 = close_parent-Closed base zero_open last l f in
      let (clear0, (clear1, (prev, (error0, (error1, (first, controls)))))) = f1.clear in
      let older = opens last l1.prevfd l1.first_error_pipe_read l1.control_pipe in
      let left =
        close_end-drops l1.error_pipe.1 (l1.error_pipe.0 ∷ older) l1.table zero_open error1
          f1.holds in
      elim (Bool-cases (close_end l1.error_pipe.1 l1.table).0) [
        | inr stays ↦ rw (parent, stays) (_, refl, λ h. cc)
        | inl closed ↦
            rw (parent, closed)
              (
                _,
                refl,
                λ h. record {
                  going = record {
                    size = f1.size;
                    holds = λ d outside. left d (
                        opens_first d last l1.prevfd l1.first_error_pipe_read l1.error_pipe.0
                          l1.control_pipe none_yet outside);
                    passes =
                        close_end-Passes l1.error_pipe.1 l1.table
                          (Clear-exec_table base l1.error_pipe.1 error1) f1.passes;
                    clear = (prev, (error0, controls));
                    clear_pipe = (clear0, (clear1, tt));
                    clear_error = (error0, (close_end-Clear l1.error_pipe.1 l1.table error1, tt));
                  };
                  same_next = refl;
                  group = refl;
                  added = refl;
                  runs = λ e. cc;
                  feeds = λ not_last.
                      let (r, is_r, at, apart, _, differs) =
                        close_parent-IsNext file last l reader not_last in
                      (r, is_r, close_end_other l1.error_pipe.1 l1.table r differs ∙ at, apart);
                },
              )
      ]

  -- The other rounds read what the child reports, and close the pipe.
  pub parent_later :
      Forked base last l
      → IsEnd after args ending
      → (last ≡ false → IsReader file l)
      → Gives (parent k i false last pid ending l) (λ (well, l').
        well ≡ true → Done base false last file pid ending args after l.children l.pgid l.next l')
  unfolding parent close_parent close_pipe
  parent_later f is_end reader =
      let l1 = close_parent last l in
      let f1 = close_parent-Closed base zero_open last l f in
      let (clear0, (clear1, (prev, (error0, (error1, older))))) = f1.clear in
      let (closed, error, table) = close_end l1.error_pipe.1 l1.table in
      let new : Child = record { pid = pid; group = l1.pgid; ending = ending } in
      let l2 : Launch = record l1 {
        pgid = l1.pgid;
        children = l1.children ++ new ∷ [];
        table = table;
        error_pipe = (l1.error_pipe.0, error);
      } in
      let open_left = opens last l1.prevfd l1.first_error_pipe_read l1.control_pipe in
      let left =
        close_end-drops l1.error_pipe.1 (l1.error_pipe.0 ∷ open_left) l1.table zero_open error1
          f1.holds in
      let passes : Passes (exec_table base) table =
        close_end-Passes l1.error_pipe.1 l1.table (Clear-exec_table base l1.error_pipe.1 error1)
          f1.passes in
      elim (Bool-cases closed) [
        | inr stays ↦ rw (parent, stays) (_, refl, λ h. cc)
        | inl closed' ↦
            rw (parent, closed')
              (Gives-bind (listen-executes k i ending after args l2 f1.size is_end)
                (λ (well, l3) heard. (
                  _,
                  refl,
                  λ h.
                      let (runs, same) = heard h in
                      rw h (
                        subst
                          (λ m.
                            Done base false last file pid ending args after l.children l.pgid l.next
                              (close_reader m))
                          (sym same)
                          (record {
                            going = record {
                              size = f1.size;
                              holds =
                                  close_end-drops l1.error_pipe.0 open_left table zero_open error0
                                    left;
                              passes =
                                  close_end-Passes l1.error_pipe.0 table
                                    (Clear-exec_table base l1.error_pipe.0 error0) passes;
                              clear = (prev, older);
                              clear_pipe = (clear0, (clear1, tt));
                              clear_error = (
                                close_end-Clear l1.error_pipe.0 table error0,
                                (close_end-Clear l1.error_pipe.1 l1.table error1, tt),
                              );
                            };
                            same_next = refl;
                            group = refl;
                            added = refl;
                            runs = λ e. runs;
                            feeds = λ not_last.
                                let (r, is_r, at, apart, differs0, differs) =
                                  close_parent-IsNext file last l reader not_last in
                                (
                                  r,
                                  is_r,
                                  close_end_other l1.error_pipe.0 table r differs0
                                      ∙ close_end_other l1.error_pipe.1 l1.table r differs
                                      ∙ at,
                                  apart,
                                );
                          })),
                )))
      ]
