-- ===== src/Results/Insert.antt =====
-- `insert_one_result`: what it adds to the tree of results.
use duperemove.Prelude.{
  ℕ, ◌+◌, ◌*◌, ◌%◌, ◌^◌, ◌<◌, ◌≡◌, refl, ap, ◌∙◌, Bool, true, false, some, ◌==◌, arith,
}
use mathlib.Core.Path.{sym, subst}
use duperemove.Prelude.Int.{pos}
use duperemove.Prelude.Order.{pair_order}
use duperemove.Prelude.Outcome.{done}
use duperemove.SearchTree.{Rbtree, in_order, find}
use duperemove.SearchTree.Bag.{total}
use duperemove.Results.{
  Extent, DupeExtents, ResultsTree, Trees, place, content, store, alloc_extent,
  insert_extent_list_free, count_kept, add_one, with_extent, insert_one_result,
}
use duperemove.Results.Valid.{
  DextValid, IsValid, extent_at, one_if, insert_extent_list_free-AddsExtent,
}
use duperemove.Results.Store.{
  Located, find_alloc_dext-Located, store-IsValid, store-total, store-find,
}
use duperemove.SearchTree.Replace.{All-lookup}
use duperemove.SearchTree.Sorted.{find-lookup}

-- A measure of all the extents in the tree.
abbrev pub total_all : (Extent → ℕ) → ResultsTree → ℕ
total_all f res = total (λ d. total f d.de_extents) (in_order res.root)

-- The tree after one extent was offered under a digest and a length.
pub record Records (res res' : ResultsTree) (digest len : ℕ) (e : Extent) (kept : Bool)
    : Type 0 where
  pub valid : IsValid res'
  pub bag : (f : Extent → ℕ) → total_all f res' ≡ one_if kept * f e + total_all f res
  pub present :
      (d : DupeExtents) × (found : Extent) × (find pair_order content res'.root (len, digest)
        ≡ some d)
      × (extent_at d (place e) ≡ some found)

pub count_kept-num :
    (kept : Bool) (res : ResultsTree)
    → res.num_extents < 2 ^ 64
    → count_kept kept res ≡ record res { num_extents = (res.num_extents + one_if kept) % 2 ^ 64 }
count_kept-num true res word = refl
count_kept-num false res word = ap (λ n. record res { num_extents = n }) (omega arith)

pub count_kept-root : (kept : Bool) (res : ResultsTree) → (count_kept kept res).root ≡ res.root
count_kept-root true res = refl
count_kept-root false res = refl

-- The record that was located is under its own contents, and valid.
pub own :
    (res0 res : ResultsTree) (digest len : ℕ) (d : DupeExtents)
    → Located res0 res digest len d
    → find pair_order content res.root (content d) ≡ some d
own res0 res digest len d l =
    subst (λ c. find pair_order content res.root c ≡ some d) (sym l.named) l.here

pub its-DextValid :
    (res0 res : ResultsTree) (digest len : ℕ) (d : DupeExtents)
    → Located res0 res digest len d
    → DextValid d
its-DextValid res0 res digest len d l =
    All-lookup pair_order content DextValid (in_order res.root) (len, digest) d l.valid.dupes
      (sym (find-lookup pair_order content res.root (len, digest) l.valid.sorted) ∙ l.here)

add_one-Records :
    (rb : Rbtree Extent) (res0 res : ResultsTree) (digest len : ℕ) (d : DupeExtents) (e : Extent)
    → Located res0 res digest len d
    → (kept : Bool) × Records res0 (add_one rb res d e) digest len e kept
unfolding add_one store
add_one-Records rb res0 res digest len d e l =
    let (d', kept) = insert_extent_list_free rb d e in
    let a = insert_extent_list_free-AddsExtent rb d e (its-DextValid res0 res digest len d l) in
    let here = own res0 res digest len d l in
    let word : res.num_extents < 2 ^ 64 = (let n = l.valid.extents_counted in omega arith) in
    let root = count_kept-root kept (store d' res) in
    (
      kept,
      record {
        valid = subst IsValid (sym (count_kept-num kept (store d' res) word)) (
            store-IsValid res d d' (one_if kept) _ l.valid here a.same_content a.valid a.grown
              refl);
        bag = λ f.
            let grown =
              store-total res d d' (one_if kept * f e) f l.valid here a.same_content (a.there f) in
            let before = l.same_total f in
            let at_root = ap (λ r. total (λ d. total f d.de_extents) (in_order r)) root in
            omega arith;
        present = (
          d',
          a.present.0,
          subst (λ r. find pair_order content r (len, digest) ≡ some d') (sym root)
              (subst (λ c. find pair_order content (store d' res).root c ≡ some d') l.named
                (store-find res d d' l.valid here a.same_content)),
          a.present.1,
        );
      },
    )

pub len_of :
    (d : DupeExtents) (digest len : ℕ) → content d ≡ (len, digest) → (d.de_len == len) ≡ true
len_of d digest len e = let n = ap (λ c. c.0) e in ground arith

-- On a valid tree of results and with memory, `insert_one_result` returns 0 and the tree is
-- valid again: sorted, without duplicates, lists, trees and counters in agreement. The digest
-- and length now have a record with an extent at the file and offset, and the bag of all extents
-- has grown by the given one or not at all.
pub insert_one_result-Records :
    (rb : Trees) (res : ResultsTree) (digest file startoff len poff : ℕ)
    → IsValid res
    → (res' : ResultsTree) × (kept : Bool) × (insert_one_result rb true true res digest file
          startoff len poff
        ≡ done (res', pos 0))
      × Records res res' digest len
          (record {
            e_loff = startoff;
            e_file = file;
            e_poff = poff;
            e_plen = len;
            e_shared_bytes = 0;
          })
          kept
unfolding insert_one_result with_extent alloc_extent
insert_one_result-Records rb res digest file startoff len poff v =
    let (res1, d, add_score, eq, l) = find_alloc_dext-Located rb.dupes res digest len v in
    let e : Extent = record {
      e_loff = startoff;
      e_file = file;
      e_poff = poff;
      e_plen = len;
      e_shared_bytes = 0;
    } in
    let (kept, r) = add_one-Records rb.extents res res1 digest len d e l in
    (add_one rb.extents res1 d e, kept, rw (eq, len_of d digest len l.named) refl, r)
