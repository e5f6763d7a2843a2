-- ===== src/RunDedupe/Abort.antt =====
-- The end of a record whose last file does not open.
use duperemove.Prelude.{
  ℕ, ◌≡◌, ◌≢◌, refl, ap, ◌∙◌, true, false, none, some, [], ◌∷◌, inl, inr, List-cases,
}
use duperemove.Prelude.Int.{ℤ, pos, ◌==ℤ◌}
use duperemove.Prelude.Outcome.{Outcome, done, aborted, ◌>>=◌, bind-done}
use duperemove.SearchTree.{Rbtree, in_order}
use duperemove.Filerec.{Token, filerec_open_once}
use duperemove.Results.{Extent, DupeExtents}
use duperemove.Dedupe.{DedupeCtxt}
use duperemove.RunDedupe.{
  Answers, PostAnswers, Loop, Left, behind, step, opened_extent, skip_extent, run_dedupe,
  extent_loop, finish,
}

module _ {S : Type 0} (rb : Rbtree Token) (dedupe : (ℕ → ℤ) → S → DedupeCtxt → Outcome (S × ℕ))
    (num_dupes len : ℕ) where
  skipped :
      (a : Answers) (again : Loop S → Outcome (Left S)) (st : Loop S)
      → st.ctxt ≡ none
      → skip_extent rb dedupe num_dupes len true a again st ≡ again st
  unfolding skip_extent
  skipped a again st no_ctxt =
      ap
        (λ o. elim o [
          | none ↦ again st
          | some c ↦ run_dedupe rb dedupe num_dupes len true a again st c
        ])
        no_ctxt

  step_unopened :
      (answers : Extent → Answers) (st : Loop S) (e : Extent) (ret : ℤ)
      → st.ctxt ≡ none
      → filerec_open_once rb
          (answers e).token_mem
          (answers e).opened
          st.globals
          st.open_files
          e.e_file
        ≡ done (st.globals, st.open_files, ret)
      → (ret ==ℤ pos 0) ≡ false
      → extent_loop rb dedupe num_dupes len answers (e ∷ []) st ≡ done (behind st)
  unfolding extent_loop step opened_extent
  step_unopened answers st e ret no_ctxt run bad =
      bind-done _ (st.globals, st.open_files, ret)
        (opened_extent rb dedupe num_dupes len true (answers e)
          (extent_loop rb dedupe num_dupes len answers []) st e)
        run
      ∙ rw (opened_extent, bad)
          (skipped (answers e) (extent_loop rb dedupe num_dupes len answers []) st no_ctxt)

finish-behind :
    {S : Type 0} (rb : Rbtree Token) (post : Extent → PostAnswers) (dext : DupeExtents)
    (shared_prev fiemap_bytes : ℕ) (st : Loop S)
    → st.ctxt ≡ none
    → in_order st.open_files ≢ []
    → finish rb post dext shared_prev fiemap_bytes (behind st) ≡ aborted
unfolding finish
finish-behind rb post dext shared_prev fiemap_bytes st no_ctxt some_open =
    elim (List-cases (in_order st.open_files)) [
      | inl no_files ↦ absurd (some_open no_files)
      | inr (t, ts, files) ↦ rw (finish, no_ctxt, files) refl
    ]

-- When the loop reaches the last extent of a record between two contexts, with the target open again, and
-- the file of that extent cannot be opened, the loop ends with the target open, and the process
-- is aborted behind it.
pub unopened_last_aborts :
    {S : Type 0} (rb : Rbtree Token) (dedupe : (ℕ → ℤ) → S → DedupeCtxt → Outcome (S × ℕ))
    (answers : Extent → Answers) (post : Extent → PostAnswers) (dext : DupeExtents)
    (shared_prev fiemap_bytes : ℕ) (st : Loop S) (e : Extent) (ret : ℤ)
    → st.ctxt ≡ none
    → in_order st.open_files ≢ []
    → filerec_open_once rb
        (answers e).token_mem
        (answers e).opened
        st.globals
        st.open_files
        e.e_file
      ≡ done (st.globals, st.open_files, ret)
    → (ret ==ℤ pos 0) ≡ false
    → (extent_loop rb dedupe dext.de_num_dupes dext.de_len answers (e ∷ []) st
        >>= finish rb post dext shared_prev fiemap_bytes)
      ≡ aborted
unopened_last_aborts rb dedupe answers post dext shared_prev fiemap_bytes st e ret no_ctxt some_open
      run bad =
    bind-done _ (behind st) (finish rb post dext shared_prev fiemap_bytes)
      (step_unopened rb dedupe dext.de_num_dupes dext.de_len answers st e ret no_ctxt run bad)
    ∙ finish-behind rb post dext shared_prev fiemap_bytes st no_ctxt some_open
