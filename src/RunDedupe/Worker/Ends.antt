-- ===== src/RunDedupe/Worker/Ends.antt =====
-- The whole of a thread's work on a record.
use duperemove.Prelude.{
  ℕ, ◌+◌, ◌^◌, ◌<◌, ◌≡◌, ◌⊎◌, refl, ap, ◌∙◌, Bool, true, false, none, some, arith, length, is_empty,
  List-cases, inl, inr,
}
use mathlib.Core.Path.{sym, subst}
use duperemove.Prelude.Int.{pos, enomem}
use duperemove.Prelude.Outcome.{Outcome, done, bind-done}
use duperemove.SearchTree.Bag.{total}
use duperemove.Filerec.{Globals}
use duperemove.Filerec.Open.{refs, IsTidy}
use duperemove.Results.{Extent, DupeExtents, ResultsTree, content, store}
use duperemove.Results.Valid.{IsValid, extents_of}
use duperemove.Results.Store.{store-IsValid_rewrites, store-bag, store-find}
use duperemove.Results.Remove.Removed.{extents_in, record_at}
use duperemove.Results.Remove.Emptied.{Emptied, dupe_extents_free-Emptied}
use duperemove.RunDedupe.{Deduped}
use duperemove.RunDedupe.Ready.{FewRefs}
use duperemove.RunDedupe.Post.{IsTame}
use duperemove.RunDedupe.Clean.Trims.{Stands, Trims}
use duperemove.RunDedupe.Clean.Inner.{valid_record}
use duperemove.RunDedupe.Requests.{Session}
use duperemove.RunDedupe.Worker.{
  World, Passed, Worked, freed, free_record, when_deduped, worked, extent_dedupe_worker,
}
use duperemove.RunDedupe.Worker.Pass.{Serves, Passes, dedupe_extent_list-Passes}
use duperemove.RunDedupe.Worker.Rescan.{Rewrites, rescan_loop-Rewrites}

-- The record has left the valid tree with all its extents.
pub record Gone (p : DupeExtents) (res res' : ResultsTree) : Type 0 where
  pub valid : IsValid res'
  pub absent : record_at res' (content p) ≡ none
  pub bag : (f : Extent → ℕ) → total f p.de_extents + extents_in f res' ≡ extents_in f res

pub record WorksOff {S : Type 0} (g : Globals) (res : ResultsTree) (p : DupeExtents) (r : Worked S)
    : Type 0 where
  pub tidy : (a : ℕ) → IsTidy (r.deduped.globals.memory a)
  pub same_refs : (a : ℕ) → refs r.deduped.globals a ≡ refs g a
  pub outcome :
      ((r.deduped.ret ≡ pos 0) × Gone p res r.res)
      ⊎ ((r.deduped.ret ≡ enomem) × (p' : DupeExtents) × Trims p res p' r.res)

abbrev pub EndsOff :
    {S : Type 0} → Globals → ResultsTree → DupeExtents → Outcome (Worked S) → Type 0
EndsOff {S} g res p m = (r : Worked S) × (m ≡ done r) × WorksOff g res p r

-- The freeing of the record under its rewritten extents.
rewritten-Gone :
    (p p1 p2 : DupeExtents) (res res1 res2 : ResultsTree)
    → Trims p res p1 res1
    → Rewrites p1 p2
    → Emptied p2 (store p2 res1) res2
    → Gone p res res2
rewritten-Gone p p1 p2 res res1 res2 t w m =
    let same_content = w.same_content ∙ t.same_content in
    record {
      valid = m.valid;
      absent = subst (λ k. record_at res2 k ≡ none) same_content m.absent;
      bag = λ f.
          let trimmed = t.bag f in
          let stored = store-bag res1 p1 p2 f t.stands.valid t.stands.here w.same_content in
          let emptied = m.bag f in omega (arith, trimmed, stored, emptied);
    }

free_record-EndsOff :
    {W : Type 0} (w : World W) (g g2 : Globals) (res res1 : ResultsTree) (p p1 p2 : DupeExtents)
    (d : Deduped (Session W))
    → Trims p res p1 res1
    → Rewrites p1 p2
    → extents_of p < 2 ^ 31
    → ((a : ℕ) → IsTidy (g2.memory a))
    → ((a : ℕ) → refs g2 a ≡ refs g a)
    → EndsOff g res p (free_record w res1 d (g2, p2))
unfolding free_record freed
free_record-EndsOff w g g2 res res1 p p1 p2 d t rewrites small tidy same =
    let h = t.stands in
    let two = h.two in
    let fewer = t.fewer in
    let as_many = rewrites.as_many in
    let v =
      store-IsValid_rewrites res1 p1 p2 h.valid h.here rewrites.same_content rewrites.valid
        as_many in
    let here = store-find res1 p1 p2 h.valid h.here rewrites.same_content in
    let some_there : is_empty p2.de_extents ≡ false = elim (List-cases p2.de_extents) [
      | inl e ↦ let none_there = ap length e in absurd (omega arith)
      | inr (x, xs, e) ↦ rw e refl
    ] in
    let (res2, run, m) =
      dupe_extents_free-Emptied w.trees (store p2 res1) p2 v
        (subst (λ k. record_at (store p2 res1) k ≡ some p2) (sym rewrites.same_content) here)
        (omega arith, omega arith) in
    (
      record { res = res2; deduped = record d { globals = g2; ret = pos 0 } },
      rw (free_record, some_there) (bind-done _ res2 (freed w (record d { globals = g2 })) run),
      record {
        tidy = tidy;
        same_refs = same;
        outcome = inl (refl, rewritten-Gone p p1 p2 res res1 res2 t rewrites m);
      },
    )

when_deduped-EndsOff :
    {W : Type 0} (w : World W) (whole : Bool) (g : Globals) (res res1 : ResultsTree)
    (p p1 : DupeExtents) (d : Deduped (Session W))
    → Trims p res p1 res1
    → extents_of p < 2 ^ 31
    → ((e : Extent) → (w.rescan e).mem ≡ true)
    → FewRefs g
    → ((a : ℕ) → IsTidy (d.globals.memory a))
    → ((a : ℕ) → refs d.globals a ≡ refs g a)
    → EndsOff g res p (when_deduped w whole res1 p1 d)
unfolding when_deduped
when_deduped-EndsOff w true g res res1 p p1 d t small mem few tidy same =
    free_record-EndsOff w g d.globals res res1 p p1 p1 d t
      (record { valid = valid_record p1 res1 t.stands; same_content = refl; as_many = refl }) small
      tidy same
when_deduped-EndsOff w false g res res1 p p1 d t small mem few tidy same =
    let tame : IsTame d.globals = record {
      tidy = tidy;
      few = λ a. let room = few a in let now = same a in omega arith;
    } in
    let (g2, p2, run, tidy2, same2, rewrites) =
      rescan_loop-Rewrites w.rescan p1.de_extents d.globals p1 mem tame
        (valid_record p1 res1 t.stands) in
    let (r, run', ends) =
      free_record-EndsOff w g g2 res res1 p p1 p2 d t rewrites small tidy2
        (λ a. same2 a ∙ same a) in
    (r, bind-done _ (g2, p2) (free_record w res1 d) run ∙ run', ends)

worked_good :
    {W : Type 0} (w : World W) (whole : Bool) (r : Passed (Session W)) (p : DupeExtents)
    → r.deduped.ret ≡ pos 0
    → r.left ≡ some p
    → worked w whole r ≡ when_deduped w whole r.res p r.deduped
unfolding worked when_deduped free_record freed
worked_good w whole r p good left = rw (worked, good) (rw left refl)

worked-EndsOff :
    {W : Type 0} (w : World W) (whole : Bool) (g : Globals) (res : ResultsTree) (p : DupeExtents)
    (r : Passed (Session W))
    → extents_of p < 2 ^ 31
    → ((e : Extent) → (w.rescan e).mem ≡ true)
    → FewRefs g
    → Passes g res p r
    → EndsOff g res p (worked w whole r)
unfolding worked freed
worked-EndsOff w whole g res p r small mem few passes = elim passes.outcome [
  | inl (cleaned, no_left, f) ↦ (
    record { res = r.res; deduped = record r.deduped { ret = pos 0 } },
    rw (worked, cleaned) refl,
    record {
      tidy = passes.tidy;
      same_refs = passes.same_refs;
      outcome = inl (refl, record { valid = f.valid; absent = f.absent; bag = f.bag });
    },
  )
  | inr (p', left, t, inl good) ↦
      let (r', run, ends) =
        when_deduped-EndsOff w whole g res r.res p p' r.deduped t small mem few passes.tidy
          passes.same_refs in
      (r', worked_good w whole r p' good left ∙ run, ends)
  | inr (p', left, t, inr no_mem) ↦ (
    record { res = r.res; deduped = r.deduped },
    rw (worked, no_mem) refl,
    record { tidy = passes.tidy; same_refs = passes.same_refs; outcome = inr (no_mem, p', t) },
  )
]

-- A thread is given a record of at least two and at most 2^31 - 1 extents of a valid tree. The kernel complies,
-- and the block size is not known or one of a file system; the record's length is neither 0 nor 4 GiB or
-- more; no extent ends at 2^64 or above; there is memory to look at each extent afterwards and for the
-- requests of the extents' places; the last extent that clean_deduped leaves opens; and each file
-- has a descriptor exactly while it is referred to, with room for two more references. Then the
-- thread returns, its runs of dedupe_extents and process_dedupe_results included. Every file has
-- its references as before, and a descriptor exactly while there are any. The result is 0 and the
-- record has left the tree with all its extents and no others, also when clean_deduped found
-- nothing to dedupe; or it is ENOMEM, and the record stays with at least two extents. The tree is
-- valid and counts what is left.
pub extent_dedupe_worker-EndsOff :
    {W : Type 0} (w : World W) (whole_file_dedup : Bool) (g : Globals) (s : Session W)
    (res : ResultsTree) (p : DupeExtents) (fiemap_bytes kern_bytes : ℕ)
    → Stands p res
    → extents_of p < 2 ^ 31
    → Serves w g s res p
    → ((e : Extent) → (w.rescan e).mem ≡ true)
    → EndsOff g res p (extent_dedupe_worker w whole_file_dedup g s res p fiemap_bytes kern_bytes)
unfolding extent_dedupe_worker
extent_dedupe_worker-EndsOff w whole g s res p fiemap_bytes kern_bytes h small serves mem =
    let (r, run, passes) = dedupe_extent_list-Passes w g s res p fiemap_bytes kern_bytes h serves in
    let (r', run', ends) = worked-EndsOff w whole g res p r small mem serves.few passes in
    (r', bind-done _ r (worked w whole) run ∙ run', ends)
