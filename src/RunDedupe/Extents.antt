-- ===== src/RunDedupe/Extents.antt =====
-- The loop of dedupe_extent_list: an extent is queued, becomes the target, or is left out.
use duperemove.Prelude.{
  ℕ, ◌^◌, ◌<◌, ◌≡◌, ◌≢◌, ◌⊎◌, refl, ap, ◌∙◌, Bool, true, false, Option, none, some, arith, length,
  Option-cases, inl, inr,
}
use Prim.Native.Nat.{◌-◌}
use mathlib.Core.Path.{sym, subst}
use duperemove.Prelude.Int.{ℤ, pos, negsuc, enomem, ◌==ℤ◌}
use duperemove.Prelude.Outcome.{Outcome, done, ◌>>=◌}
use duperemove.SearchTree.{Tree, Rbtree, in_order}
use duperemove.Filerec.{Token, Globals}
use duperemove.Results.{Extent}
use duperemove.Dedupe.{DedupeCtxt, new_dedupe_ctxt, add_extent_to_dedupe}
use duperemove.Dedupe.Queue.{
  new_dedupe_ctxt-Filling, add_extent_to_dedupe-Filling, add_extent_to_dedupe_max,
  add_extent_to_dedupe_len,
}
use duperemove.RunDedupe.{
  Answers, Loop, Left, out, queued_extent, queue_extent, opened_extent, with_ctxt, take_extent,
  skip_extent,
}
use duperemove.RunDedupe.Ready.{
  HasRoom, FillsFor, Steady, Engages, CtxtReady, IsReady, Leaves, GoesOn, FewRefs, after,
}
use duperemove.RunDedupe.Close.{false_not_true, queued_extent-Leaves, close_files-Leaves}

none_not_some : {c : DedupeCtxt} → ◌≢◌ {A = Option DedupeCtxt} none (some c)
none_not_some e = cc

-- A context of two extents or more has room.
new_ctxt-HasRoom :
    (mem mem' : Bool) (n loff len file : ℕ) (c : DedupeCtxt)
    → 1 < n
    → new_dedupe_ctxt mem mem' n loff len file ≡ some c
    → HasRoom len c
unfolding new_dedupe_ctxt
new_ctxt-HasRoom true true n loff len file c h e =
    let (filling, room, a, b, f, none_there) = new_dedupe_ctxt-Filling n loff len file h c e in
    ((filling, a), let none_queued = ap length none_there in omega arith)
new_ctxt-HasRoom true false n loff len file c h e = absurd (none_not_some e)
new_ctxt-HasRoom false mem' n loff len file c h e = absurd (none_not_some e)

some_ctxt : (c : DedupeCtxt) → ◌≢◌ {A = Option DedupeCtxt} (some c) none
some_ctxt c e = cc

module _ {S : Type 0} (rb : Rbtree Token) (dedupe : (ℕ → ℤ) → S → DedupeCtxt → Outcome (S × ℕ))
    (num_dupes len : ℕ) (g0 : Globals) (Sound : S → Type 0) (few : FewRefs g0)
    (enough : 1 < num_dupes) (dedupe-returns : Engages Sound len dedupe) where
  queue_with :
      (mem : Bool) (last : Bool) (a : Answers) (again : Loop S → Outcome (Left S)) (st : Loop S)
      (c : DedupeCtxt) (e : Extent)
      → GoesOn g0 Sound len last again
      → Steady g0 Sound st.globals st.open_files st.session
      → FillsFor len c
      → length c.queued < c.max_queable
      → st.tgt_extent ≢ none
      → e.e_loff < 2 ^ 64
      → Leaves g0 (
          add_extent_to_dedupe mem c e.e_loff e.e_file
          >>= queued_extent rb dedupe num_dupes len last a again st)
  unfolding queued_extent
  queue_with false last a again st c e h v filling room targeted word =
      after _ (c, negsuc 0) (queued_extent rb dedupe num_dupes len last a again st)
        (add_extent_to_dedupe-Filling c e.e_loff e.e_file filling.0 room word).0
        (out enomem (record st { ctxt = some c }), refl, (v.0, refl))
  queue_with true last a again st c e h v filling room targeted word =
      let (d, run, filling', one_more, held) =
        (add_extent_to_dedupe-Filling c e.e_loff e.e_file filling.0 room word).1 in
      after _ (d, pos (d.max_queable - length d.queued))
        (queued_extent rb dedupe num_dupes len last a again st)
        (run
          ∙ ap (λ n. done (d, pos (n - length d.queued)))
              (sym (add_extent_to_dedupe_max c d e.e_loff e.e_file _ run)))
        (queued_extent-Leaves rb dedupe num_dupes len g0 Sound few enough dedupe-returns last a
          again st d (d.max_queable - length d.queued) h v
          (filling', add_extent_to_dedupe_len c d e.e_loff e.e_file _ run ∙ filling.1) refl
          targeted)

  queue_extent-Leaves :
      (last : Bool) (a : Answers) (again : Loop S → Outcome (Left S)) (st : Loop S) (c : DedupeCtxt)
      (e : Extent)
      → GoesOn g0 Sound len last again
      → Steady g0 Sound st.globals st.open_files st.session
      → HasRoom len c
      → st.tgt_extent ≢ none
      → e.e_loff < 2 ^ 64
      → Leaves g0 (queue_extent rb dedupe num_dupes len last a again st c e)
  unfolding queue_extent
  queue_extent-Leaves last a again st c e h v (filling, room) targeted word =
      queue_with a.req_mem last a again st c e h v filling room targeted word

  with_ctxt-Leaves :
      (a : Answers) (st : Loop S) (tgt : Extent) (use_it : Loop S → DedupeCtxt → Outcome (Left S))
      → Steady g0 Sound st.globals st.open_files st.session
      → ((c : DedupeCtxt) → HasRoom len c → Leaves g0 (use_it (record st { ctxt = some c }) c))
      → Leaves g0 (with_ctxt rb dedupe num_dupes len a st tgt use_it)
  unfolding with_ctxt
  with_ctxt-Leaves a st tgt use_it v h =
      elim (Option-cases
        (new_dedupe_ctxt a.ctxt_mem a.same_mem num_dupes tgt.e_loff len tgt.e_file)) [
          | inl no_mem ↦ rw (with_ctxt, no_mem) (out enomem st, refl, (v.0, refl))
          | inr (c, made) ↦
              rw (with_ctxt, made)
                (h c (
                  new_ctxt-HasRoom a.ctxt_mem a.same_mem num_dupes tgt.e_loff len tgt.e_file c
                    enough made))
        ]

  some_not_none : (e : Extent) → ◌≢◌ {A = Option Extent} (some e) none
  some_not_none e h = cc

  take_first-Leaves :
      (last : Bool) (a : Answers) (again : Loop S → Outcome (Left S)) (st : Loop S) (e : Extent)
      → GoesOn g0 Sound len last again
      → Steady g0 Sound st.globals st.open_files st.session
      → st.ctxt ≡ none
      → st.tgt_extent ≡ none
      → Leaves g0 (take_extent rb dedupe num_dupes len last a again st e)
  unfolding take_extent
  take_first-Leaves true a again st e h v no_ctxt no_tgt =
      rw (take_extent, no_ctxt, no_tgt)
        (close_files-Leaves rb dedupe num_dupes len g0 Sound few enough dedupe-returns true a again
          st h v (λ q. absurd (false_not_true (sym q))))
  take_first-Leaves false a again st e h v no_ctxt no_tgt =
      rw (take_extent, no_ctxt, no_tgt)
        (with_ctxt-Leaves a (record st { tgt_extent = some e }) e (λ st' c. again st') v
          (λ c room.
            h (record st { tgt_extent = some e; ctxt = some c })
              (record { files = v; filling = room; no_target = λ q. absurd (some_not_none e q) })
              (λ q. absurd (false_not_true q))))

  take_extent-Leaves :
      (last : Bool) (a : Answers) (again : Loop S → Outcome (Left S)) (st : Loop S) (e : Extent)
      → GoesOn g0 Sound len last again
      → Steady g0 Sound st.globals st.open_files st.session
      → CtxtReady len st.ctxt
      → (st.tgt_extent ≡ none → st.ctxt ≡ none)
      → e.e_loff < 2 ^ 64
      → Leaves g0 (take_extent rb dedupe num_dupes len last a again st e)
  unfolding take_extent
  take_extent-Leaves last a again st e h v filling targeted word = elim (Option-cases st.ctxt) [
    | inr (c, at_c) ↦
        rw (take_extent, at_c)
          (queue_extent-Leaves last a again st c e h v (subst (CtxtReady len) at_c filling)
            (λ q. some_ctxt c (sym at_c ∙ targeted q)) word)
    | inl no_ctxt ↦ elim (Option-cases st.tgt_extent) [
      | inl no_tgt ↦ take_first-Leaves last a again st e h v no_ctxt no_tgt
      | inr (tgt, at_tgt) ↦
          rw (take_extent, no_ctxt, at_tgt)
            (with_ctxt-Leaves a st tgt
              (λ st' c. queue_extent rb dedupe num_dupes len last a again st' c e) v
              (λ c room.
                queue_extent-Leaves last a again (record st { ctxt = some c }) c e h v room
                  (λ q. some_not_none tgt (sym at_tgt ∙ q)) word))
    ]
  ]

  skip_extent-Leaves :
      (a : Answers) (again : Loop S → Outcome (Left S)) (st : Loop S)
      → GoesOn g0 Sound len false again
      → IsReady g0 Sound len st
      → Leaves g0 (skip_extent rb dedupe num_dupes len false a again st)
  unfolding skip_extent
  skip_extent-Leaves a again st h ready = elim (Option-cases st.ctxt) [
    | inl no_ctxt ↦ rw (skip_extent, no_ctxt) (h st ready (λ q. absurd (false_not_true q)))
    | inr (c, at_c) ↦ rw (skip_extent, at_c) (h st ready (λ q. absurd (false_not_true q)))
  ]

  pub opened_extent-Leaves :
      (last : Bool) (a : Answers) (again : Loop S → Outcome (Left S)) (st : Loop S) (e : Extent)
      (g : Globals) (root : Tree Token) (ret : ℤ)
      → GoesOn g0 Sound len last again
      → IsReady g0 Sound len st
      → Steady g0 Sound g root st.session
      → (ret ≡ pos 0) ⊎ (((ret ==ℤ pos 0) ≡ false) × (root ≡ st.open_files))
      → (last ≡ true → ret ≡ pos 0)
      → e.e_loff < 2 ^ 64
      → Leaves g0 (opened_extent rb dedupe num_dupes len last a again st e (g, root, ret))
  unfolding opened_extent
  opened_extent-Leaves last a again st e g root ret h ready v (inl good) opens word =
      let st' : Loop S = record st { globals = g; open_files = root } in
      rw (opened_extent, good)
        (take_extent-Leaves last a again st' e h v ready.filling (λ q. (ready.no_target q).0) word)
  opened_extent-Leaves true a again st e g root ret h ready v (inr (bad, same_root)) opens word =
      absurd (false_not_true (sym bad ∙ rw (opens refl) refl))
  opened_extent-Leaves false a again st e g root ret h ready v (inr (bad, same_root)) opens word =
      let st' : Loop S = record st { globals = g; open_files = root } in
      rw (opened_extent, bad)
        (skip_extent-Leaves a again st' h (record {
          files = v;
          filling = ready.filling;
          no_target = λ q. ((ready.no_target q).0, ap in_order same_root ∙ (ready.no_target q).1);
        }))
