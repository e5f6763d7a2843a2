-- ===== src/RunDedupe/Close.antt =====
-- The loop of dedupe_extent_list from the label run_dedupe on: the files are closed, and the target is opened again.
use duperemove.Prelude.{
  ℕ, ◌<◌, ◌≡◌, ◌≢◌, ◌⊎◌, refl, ap, ◌∙◌, ◌||◌, Bool, true, false, none, some, [], arith, ◌==◌,
  length, Bool-cases, Option-cases, inl, inr,
}
use Prim.Native.Nat.{◌-◌}
use mathlib.Core.Path.{sym}
use duperemove.Prelude.Int.{ℤ, pos, ◌==ℤ◌}
use duperemove.Prelude.Word.{add64}
use duperemove.Prelude.Outcome.{Outcome}
use duperemove.SearchTree.{Tree, Rbtree, in_order}
use duperemove.Filerec.{Token, Globals}
use duperemove.Dedupe.{DedupeCtxt}
use duperemove.Dedupe.Queue.{Filling}
use duperemove.RunDedupe.{
  Answers, Loop, Left, behind, reopened, reopen, closed, close_files, count_bytes, run_dedupe,
  queued_extent,
}
use duperemove.RunDedupe.Ready.{
  Leaves, GoesOn, FewRefs, FillsFor, Steady, Engages, open_once-Accounted, close_list-Accounted,
  after,
}

pub false_not_true : false ≢ true
false_not_true e = cc

or_true : (b : Bool) → (b || true) ≡ true
or_true true = refl
or_true false = refl

has_room :
    (c : DedupeCtxt) (room : ℕ)
    → room ≡ c.max_queable - length c.queued
    → ((room == 0) || false) ≡ false
    → length c.queued < c.max_queable
has_room c room left free = ground arith

has_request : (c : DedupeCtxt) → Filling c → (c.num_queued == 0) ≡ false → c.queued ≢ []
has_request c filling some_queued e =
    let counted = filling.counted in let none_there = ap length e in absurd (ground arith)

module _ {S : Type 0} (rb : Rbtree Token) (dedupe : (ℕ → ℤ) → S → DedupeCtxt → Outcome (S × ℕ))
    (num_dupes len : ℕ) (g0 : Globals) (Sound : S → Type 0) (few : FewRefs g0)
    (enough : 1 < num_dupes) (dedupe-returns : Engages Sound len dedupe) where
  reopened-Leaves :
      (again : Loop S → Outcome (Left S)) (st : Loop S) (g : Globals) (root : Tree Token) (ret : ℤ)
      → GoesOn g0 Sound len false again
      → Steady g0 Sound g root st.session
      → st.ctxt ≡ none
      → st.tgt_extent ≢ none
      → in_order st.open_files ≡ []
      → (ret ≡ pos 0) ⊎ (((ret ==ℤ pos 0) ≡ false) × (root ≡ st.open_files))
      → Leaves g0 (reopened rb dedupe num_dupes len again st (g, root, ret))
  unfolding reopened
  reopened-Leaves again st g root ret h v no_ctxt targeted no_files (inl good) =
      let (l, run, ready) =
        h (record st { globals = g; open_files = root })
          (record {
            files = v;
            filling = rw no_ctxt tt;
            no_target = λ none_there. absurd (targeted none_there);
          })
          (λ e. absurd (false_not_true e)) in
      (l, rw (reopened, good) run, ready)
  reopened-Leaves again st g root ret h v no_ctxt targeted no_files (inr (bad, same_root)) = (
    behind (record st { globals = g; open_files = root }),
    rw (reopened, bad) refl,
    (v.0, record { no_ctxt = no_ctxt; no_files = ap in_order same_root ∙ no_files }),
  )

  reopen-Leaves :
      (a : Answers) (again : Loop S → Outcome (Left S)) (st : Loop S)
      → GoesOn g0 Sound len false again
      → Steady g0 Sound st.globals st.open_files st.session
      → st.ctxt ≡ none
      → in_order st.open_files ≡ []
      → st.tgt_extent ≢ none
      → Leaves g0 (reopen rb dedupe num_dupes len a again st)
  unfolding reopen
  reopen-Leaves a again st h v no_ctxt no_files targeted = elim (Option-cases st.tgt_extent) [
    | inl no_tgt ↦ absurd (targeted no_tgt)
    | inr (tgt, at_tgt) ↦
        let (g, root, ret, run, v', shape) =
          open_once-Accounted rb a.token_mem' a.reopened g0 st.globals st.open_files tgt.e_file few
            v.0 in
        rw (reopen, at_tgt)
          (after _ (g, root, ret) (reopened rb dedupe num_dupes len again st) run
            (reopened-Leaves again st g root ret h (v', v.1) no_ctxt targeted no_files shape))
  ]

  closed-Leaves :
      (last : Bool) (a : Answers) (again : Loop S → Outcome (Left S)) (st : Loop S) (g : Globals)
      (root : Tree Token)
      → GoesOn g0 Sound len last again
      → Steady g0 Sound g root st.session
      → in_order root ≡ []
      → (last ≡ false → st.tgt_extent ≢ none)
      → Leaves g0 (closed rb dedupe num_dupes len last a again st (g, root))
  unfolding closed
  closed-Leaves true a again st g root h v no_files targeted =
      h (record st { globals = g; open_files = root; ctxt = none })
        (record { files = v; filling = tt; no_target = λ e. (refl, no_files) })
        (λ e. record { no_ctxt = refl; no_files = no_files })
  closed-Leaves false a again st g root h v no_files targeted =
      reopen-Leaves a again (record st { globals = g; open_files = root; ctxt = none }) h v refl
        no_files (targeted refl)

  pub close_files-Leaves :
      (last : Bool) (a : Answers) (again : Loop S → Outcome (Left S)) (st : Loop S)
      → GoesOn g0 Sound len last again
      → Steady g0 Sound st.globals st.open_files st.session
      → (last ≡ false → st.tgt_extent ≢ none)
      → Leaves g0 (close_files rb dedupe num_dupes len last a again st)
  unfolding close_files
  close_files-Leaves last a again st h v targeted =
      let (g, root, run, v', no_files) = close_list-Accounted rb g0 st.globals st.open_files v.0 in
      after _ (g, root) (closed rb dedupe num_dupes len last a again st) run
        (closed-Leaves last a again st g root h (v', v.1) no_files targeted)

  pub run_dedupe-Leaves :
      (last : Bool) (a : Answers) (again : Loop S → Outcome (Left S)) (st : Loop S) (c : DedupeCtxt)
      → GoesOn g0 Sound len last again
      → Steady g0 Sound st.globals st.open_files st.session
      → FillsFor len c
      → (last ≡ false → st.tgt_extent ≢ none)
      → Leaves g0 (run_dedupe rb dedupe num_dupes len last a again st c)
  unfolding run_dedupe
  run_dedupe-Leaves last a again st c h v filling targeted = elim (Bool-cases (c.num_queued == 0)) [
    | inl none_queued ↦
        rw (run_dedupe, none_queued) (close_files-Leaves last a again st h v targeted)
    | inr some_queued ↦
        let fds : ℕ → ℤ = λ file. (st.globals.memory file).fd in
        let (s', bytes, run, sound) =
          dedupe-returns fds st.session c v.1 filling (has_request c filling.0 some_queued) in
        rw (run_dedupe, some_queued)
          (after _ (s', bytes)
            (λ r.
              close_files rb dedupe num_dupes len last a again
                (count_bytes rb dedupe num_dupes len st r))
            run
            (close_files-Leaves last a again
              (record st { session = s'; kern_bytes = add64 st.kern_bytes bytes }) h (v.0, sound)
              targeted))
  ]

  pub queued_extent-Leaves :
      (last : Bool) (a : Answers) (again : Loop S → Outcome (Left S)) (st : Loop S) (d : DedupeCtxt)
      (room : ℕ)
      → GoesOn g0 Sound len last again
      → Steady g0 Sound st.globals st.open_files st.session
      → FillsFor len d
      → (room ≡ d.max_queable - length d.queued)
      → st.tgt_extent ≢ none
      → Leaves g0 (queued_extent rb dedupe num_dupes len last a again st (d, pos room))
  unfolding queued_extent
  queued_extent-Leaves true a again st d room h v filling left targeted =
      rw (queued_extent, or_true (room == 0))
        (run_dedupe-Leaves true a again (record st { ctxt = some d }) d h v filling
          (λ e. absurd (false_not_true (sym e))))
  queued_extent-Leaves false a again st d room h v filling left targeted =
      elim (Bool-cases ((room == 0) || false)) [
        | inl full ↦
            rw (queued_extent, full)
              (run_dedupe-Leaves false a again (record st { ctxt = some d }) d h v filling
                (λ e. targeted))
        | inr free ↦
            rw (queued_extent, free)
              (h (record st { ctxt = some d })
                (record {
                  files = v;
                  filling = (filling, has_room d room left free);
                  no_target = λ none_there. absurd (targeted none_there);
                })
                (λ e. absurd (false_not_true e)))
      ]
