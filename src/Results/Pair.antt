-- ===== src/Results/Pair.antt =====
-- `insert_result`: two extents that were found equal are offered under one digest.
use duperemove.Prelude.{
  ℕ, ◌+◌, ◌*◌, ◌%◌, ◌^◌, ◌<◌, ◌≡◌, refl, ap, ◌∙◌, Bool, true, false, some, arith,
}
use mathlib.Core.Path.{sym, subst}
use duperemove.Prelude.Int.{pos}
use duperemove.Prelude.Word.{add64, sub64}
use duperemove.Prelude.Order.{pair_order}
use duperemove.Prelude.Outcome.{done}
use duperemove.SearchTree.{Rbtree, find}
use duperemove.SearchTree.Bag.{total}
use duperemove.Results.{
  Extent, DupeExtents, ResultsTree, Trees, place, content, store, alloc_extent,
  insert_extent_list_free, count_kept, score_both, add_both, with_extents, insert_result,
}
use duperemove.Results.Valid.{
  DextValid, IsValid, extents_of, extent_at, one_if, AddsExtent, insert_extent_list_free-AddsExtent,
}
use duperemove.Results.Store.{
  Located, find_alloc_dext-Located, store-IsValid, store-total, store-find,
}
use duperemove.Results.Insert.{total_all, own, its-DextValid, count_kept-num, len_of}

-- The tree after two extents were offered under a digest and a length.
pub record RecordsBoth (res res' : ResultsTree) (digest len : ℕ) (e0 e1 : Extent)
    (kept0 kept1 : Bool) : Type 0 where
  pub valid : IsValid res'
  pub bag :
      (f : Extent → ℕ)
      → total_all f res' ≡ one_if kept0 * f e0 + one_if kept1 * f e1 + total_all f res
  pub present :
      (d : DupeExtents) × (found0 : Extent) × (found1 : Extent) × (find pair_order content res'.root
          (len, digest)
        ≡ some d)
      × (extent_at d (place e0) ≡ some found0)
      × (extent_at d (place e1) ≡ some found1)

-- The score is not part of what is valid.
score_both-AddsExtent :
    (add_score kept0 kept : Bool) (len : ℕ) (e : Extent) (d d' : DupeExtents)
    → AddsExtent e d d' kept
    → DextValid (score_both add_score kept0 kept len d')
      × (content (score_both add_score kept0 kept len d') ≡ content d)
      × (extents_of (score_both add_score kept0 kept len d') ≡ one_if kept + extents_of d)
      × ((f : Extent → ℕ)
          → total f (score_both add_score kept0 kept len d').de_extents
            ≡ one_if kept * f e + total f d.de_extents)
unfolding score_both
score_both-AddsExtent true kept0 kept len e d d' a = (
  record {
    sorted = a.valid.sorted;
    same_extents = a.valid.same_extents;
    counted = a.valid.counted;
  },
  a.same_content,
  a.grown,
  a.there,
)
score_both-AddsExtent false kept0 kept len e d d' a = (a.valid, a.same_content, a.grown, a.there)

extent_at-score_both :
    (add_score kept0 kept1 : Bool) (len : ℕ) (d : DupeExtents) (k : ℕ × ℕ)
    → extent_at (score_both add_score kept0 kept1 len d) k ≡ extent_at d k
unfolding score_both
extent_at-score_both true kept0 kept1 len d k = refl
extent_at-score_both false kept0 kept1 len d k = refl

count_both :
    (kept0 kept1 : Bool) (res : ResultsTree)
    → res.num_extents < 2 ^ 64
    → count_kept kept1 (count_kept kept0 res)
      ≡ record res { num_extents = (res.num_extents + (one_if kept0 + one_if kept1)) % 2 ^ 64 }
count_both kept0 kept1 res word =
    rw
      (
        count_kept-num kept0 res word,
        count_kept-num kept1
            (record res { num_extents = (res.num_extents + one_if kept0) % 2 ^ 64 }) (omega arith),
      )
      (ap (λ n. record res { num_extents = n }) (omega arith))

add_both-RecordsBoth :
    (rb : Rbtree Extent) (res0 res : ResultsTree) (digest len : ℕ) (d : DupeExtents)
    (add_score : Bool) (e0 e1 : Extent)
    → Located res0 res digest len d
    → (kept0 : Bool) × (kept1 : Bool) × RecordsBoth res0
        (add_both rb res d add_score e0 e1 len)
        digest
        len
        e0
        e1
        kept0
        kept1
unfolding add_both store
add_both-RecordsBoth rb res0 res digest len d add_score e0 e1 l =
    let (d0, kept0) = insert_extent_list_free rb d e0 in
    let a0 = insert_extent_list_free-AddsExtent rb d e0 (its-DextValid res0 res digest len d l) in
    let (d1, kept1) = insert_extent_list_free rb d0 e1 in
    let a1 = insert_extent_list_free-AddsExtent rb d0 e1 a0.valid in
    let still0 = a1.still (place e0) a0.present.0 a0.present.1 in
    let scored = score_both add_score kept0 kept1 len d1 in
    let (valid, same_content, grown, there) =
      score_both-AddsExtent add_score kept0 kept1 len e1 d0 d1 a1 in
    let here = own res0 res digest len d l in
    let word : res.num_extents < 2 ^ 64 = (let n = l.valid.extents_counted in omega arith) in
    let both = count_both kept0 kept1 (store scored res) word in
    let more0 = a0.grown in
    (
      kept0,
      kept1,
      record {
        valid = subst IsValid (sym both) (
            store-IsValid res d scored (one_if kept0 + one_if kept1) _ l.valid here
              (same_content ∙ a0.same_content) valid (omega arith) refl);
        bag = λ f.
            let there0 = a0.there f in
            let there1 = there f in
            let gain : total f scored.de_extents
                ≡ (one_if kept0 * f e0 + one_if kept1 * f e1) + total f d.de_extents =
              omega arith in
            let after =
              store-total res d scored (one_if kept0 * f e0 + one_if kept1 * f e1) f l.valid here
                (same_content ∙ a0.same_content) gain in
            let before = l.same_total f in let at_root = ap (total_all f) both in omega arith;
        present = (
          scored,
          still0.0,
          a1.present.0,
          ap (λ (r : ResultsTree). find pair_order content r.root (len, digest)) both
              ∙ subst (λ c. find pair_order content (store scored res).root c ≡ some scored) l.named
                  (store-find res d scored l.valid here (same_content ∙ a0.same_content)),
          extent_at-score_both add_score kept0 kept1 len d1 (place e0) ∙ still0.1,
          extent_at-score_both add_score kept0 kept1 len d1 (place e1) ∙ a1.present.1,
        );
      },
    )

-- On a valid tree of results and with memory, `insert_result` returns 0 and the tree is valid
-- again. The record of the digest and the length of the first range has extents at both files and
-- starts afterwards, and the bag of all extents has grown by the two that were given, each once or
-- not at all.
pub insert_result-RecordsBoth :
    (rb : Trees) (res : ResultsTree) (digest rec0 rec1 start0 start1 end0 end1 : ℕ)
    → IsValid res
    → (res' : ResultsTree) × (kept0 : Bool) × (kept1 : Bool) × (insert_result rb true true true res
          digest
          (rec0, rec1)
          (start0, start1)
          (end0, end1)
        ≡ done (res', pos 0))
      × RecordsBoth res res' digest
          (add64 (sub64 end0 start0) 1)
          (record { e_loff = start0; e_file = rec0; e_poff = 0; e_plen = 0; e_shared_bytes = 0 })
          (record { e_loff = start1; e_file = rec1; e_poff = 0; e_plen = 0; e_shared_bytes = 0 })
          kept0
          kept1
unfolding insert_result with_extents alloc_extent
insert_result-RecordsBoth rb res digest rec0 rec1 start0 start1 end0 end1 v =
    let len = add64 (sub64 end0 start0) 1 in
    let e0 : Extent = record {
      e_loff = start0;
      e_file = rec0;
      e_poff = 0;
      e_plen = 0;
      e_shared_bytes = 0;
    } in
    let e1 : Extent = record {
      e_loff = start1;
      e_file = rec1;
      e_poff = 0;
      e_plen = 0;
      e_shared_bytes = 0;
    } in
    let (res1, d, add_score, eq, l) = find_alloc_dext-Located rb.dupes res digest len v in
    let (kept0, kept1, r) =
      add_both-RecordsBoth rb.extents res res1 digest len d add_score e0 e1 l in
    (
      add_both rb.extents res1 d add_score e0 e1 len,
      kept0,
      kept1,
      rw (eq, len_of d digest len l.named) refl,
      r,
    )
