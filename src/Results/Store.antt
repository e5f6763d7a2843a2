-- ===== src/Results/Store.antt =====
-- The record for a digest and a length: found or made by `find_alloc_dext`, and written back.
use duperemove.Prelude.{
  ℕ, ◌+◌, ◌%◌, ◌^◌, ◌≡◌, refl, ap, ◌∙◌, Bool, true, false, some, [], arith, length-map,
  Option-cases, inl, inr,
}
use mathlib.Core.Path.{sym, subst}
use duperemove.Prelude.Word.{add32}
use duperemove.Prelude.Order.{pair_order, cmp_pair_refl}
use duperemove.Prelude.Outcome.{done}
use duperemove.SearchTree.{Tree, leaf, Rbtree, in_order, find, lookup, replace}
use duperemove.SearchTree.Sorted.{Sorted, find-lookup}
use duperemove.SearchTree.Put.{Put, Put-All, Put-Sorted}
use duperemove.SearchTree.Bag.{total, total-Put, total-one}
use duperemove.SearchTree.Insert.{insert_of_absent, find-Put}
use duperemove.SearchTree.Replace.{
  swap, in_order-replace, All-swap, IsFor, Sorted-swap, total-swap, lookup-swap, key_of_lookup,
}
use duperemove.Results.{
  Extent, DupeExtents, ResultsTree, content, names, store, find_dupe_extents, dupe_extents_new,
  insert_dupe_extents, inserted, alloc_dext, find_alloc_dext,
}
use duperemove.Results.Valid.{DextValid, IsValid, extents_of}

-- What `find_alloc_dext` leaves: a valid tree with the same extents, and its record for the contents.
pub record Located (res res' : ResultsTree) (digest len : ℕ) (d : DupeExtents) : Type 0 where
  pub valid : IsValid res'
  pub named : content d ≡ (len, digest)
  pub here : find pair_order content res'.root (len, digest) ≡ some d
  pub same_total :
      (f : Extent → ℕ)
      → total (λ d. total f d.de_extents) (in_order res'.root)
        ≡ total (λ d. total f d.de_extents) (in_order res.root)

pub is_content-IsFor : (k : ℕ × ℕ) → IsFor pair_order content k (names k)
is_content-IsFor (a, b) d = ground arith

found-Located :
    (res : ResultsTree) (digest len : ℕ) (d : DupeExtents)
    → IsValid res
    → find_dupe_extents res digest len ≡ some d
    → Located res res digest len d
unfolding find_dupe_extents
found-Located res digest len d v e = record {
  valid = v;
  named =
      key_of_lookup pair_order content (in_order res.root) (len, digest) d
        (sym (find-lookup pair_order content res.root (len, digest) v.sorted) ∙ e);
  here = e;
  same_total = λ f. refl;
}

fresh_record : ℕ → ℕ → DupeExtents
fresh_record digest len = record {
  de_num_dupes = 0;
  de_len = len;
  de_hash = digest;
  de_score = len;
  de_extents = [];
  de_extents_root = leaf;
}

new-Located :
    (res : ResultsTree) (root' : Tree DupeExtents) (digest len : ℕ)
    → IsValid res
    → Put pair_order content (fresh_record digest len) (in_order res.root) (in_order root')
    → Located res
        (record res { root = root'; num_dupes = add32 res.num_dupes 1 })
        digest
        len
        (fresh_record digest len)
unfolding fresh_record
new-Located res root' digest len v p = record {
  valid = record {
    sorted = Put-Sorted pair_order content _ v.sorted p;
    dupes =
        Put-All pair_order content DextValid _
          (record { sorted = tt; same_extents = λ f. refl; counted = refl }) v.dupes p;
    dupes_counted =
        let n = v.dupes_counted in
        let m = total-Put pair_order content (λ d. 1) _ p in
        let a = total-one (in_order res.root) in let b = total-one (in_order root') in omega arith;
    extents_counted =
        let n = v.extents_counted in
        let m = total-Put pair_order content extents_of _ p in omega arith;
  };
  named = refl;
  here =
      find-Put pair_order content (fresh_record digest len) res.root root' (len, digest) v.sorted p
      ∙ rw (cmp_pair_refl (len, digest)) refl;
  same_total =
      λ f. let m = total-Put pair_order content (λ d. total f d.de_extents) _ p in omega arith;
}

-- With memory for a new record `find_alloc_dext` returns.
pub find_alloc_dext-Located :
    (rb : Rbtree DupeExtents) (res : ResultsTree) (digest len : ℕ)
    → IsValid res
    → (res' : ResultsTree) × (d : DupeExtents) × (add_score : Bool) × (find_alloc_dext rb true res
          digest len
        ≡ done (res', d, add_score))
      × Located res res' digest len d
unfolding fresh_record find_dupe_extents find_alloc_dext alloc_dext dupe_extents_new
    insert_dupe_extents inserted
find_alloc_dext-Located rb res digest len v =
    elim (Option-cases (find_dupe_extents res digest len)) [
      | inl absent ↦
          let (root', made, p) =
            insert_of_absent pair_order content rb (fresh_record digest len) res.root v.sorted
              absent in
          (
            record res { root = root'; num_dupes = add32 res.num_dupes 1 },
            fresh_record digest len,
            false,
            rw
                (
                  find_alloc_dext, absent, alloc_dext, absent, dupe_extents_new,
                  insert_dupe_extents, made,
                )
                refl,
            new-Located res root' digest len v p,
          )
      | inr (d, e) ↦
          (res, d, true, rw (find_alloc_dext, e) refl, found-Located res digest len d v e)
    ]

-- Writing back the record of a valid tree: `n` counts the sum of all sizes without the old size and
-- with the new one.
pub store-IsValid_of :
    (res : ResultsTree) (d d' : DupeExtents) (n : ℕ)
    → IsValid res
    → find pair_order content res.root (content d) ≡ some d
    → content d' ≡ content d
    → DextValid d'
    → ((t : ℕ)
        → t + extents_of d ≡ total extents_of (in_order res.root) + extents_of d'
        → n ≡ t % 2 ^ 64)
    → IsValid (record (store d' res) { num_extents = n })
unfolding store
store-IsValid_of res d d' n v here same_content valid counted =
    let p = names (content d') in
    let for = is_content-IsFor (content d') in
    let listed = in_order-replace p d' res.root in
    let there =
      sym (find-lookup pair_order content res.root (content d') v.sorted)
      ∙ subst (λ c. find pair_order content res.root c ≡ some d) (sym same_content) here in
    let sum =
      total-swap pair_order content extents_of p d' d (in_order res.root) for v.sorted there in
    record {
      sorted = rw listed (Sorted-swap pair_order content p d' (in_order res.root) for v.sorted);
      dupes = rw listed (All-swap DextValid p d' (in_order res.root) valid v.dupes);
      dupes_counted = rw listed (rw (length-map (in_order res.root) (swap p d')) v.dupes_counted);
      extents_counted = rw listed (counted _ sum);
    }

-- With `k` extents more.
pub store-IsValid :
    (res : ResultsTree) (d d' : DupeExtents) (k n : ℕ)
    → IsValid res
    → find pair_order content res.root (content d) ≡ some d
    → content d' ≡ content d
    → DextValid d'
    → extents_of d' ≡ k + extents_of d
    → n ≡ (res.num_extents + k) % 2 ^ 64
    → IsValid (record (store d' res) { num_extents = n })
store-IsValid res d d' k n v here same_content valid grown counted =
    store-IsValid_of res d d' n v here same_content valid
      (λ t sum. let old = v.extents_counted in omega arith)

-- A record of the same size is written back.
pub store-IsValid_rewrites :
    (res : ResultsTree) (d d' : DupeExtents)
    → IsValid res
    → find pair_order content res.root (content d) ≡ some d
    → content d' ≡ content d
    → DextValid d'
    → extents_of d' ≡ extents_of d
    → IsValid (store d' res)
unfolding store
store-IsValid_rewrites res d d' v here same_content valid as_many =
    store-IsValid res d d' 0 res.num_extents v here same_content valid (omega arith)
      (let n = v.extents_counted in omega arith)

-- The bag of all extents after writing back a record.
pub store-bag :
    (res : ResultsTree) (d d' : DupeExtents) (f : Extent → ℕ)
    → IsValid res
    → find pair_order content res.root (content d) ≡ some d
    → content d' ≡ content d
    → total (λ d. total f d.de_extents) (in_order (store d' res).root) + total f d.de_extents
      ≡ total (λ d. total f d.de_extents) (in_order res.root) + total f d'.de_extents
unfolding store
store-bag res d d' f v here same_content =
    let p = names (content d') in
    let for = is_content-IsFor (content d') in
    let there =
      sym (find-lookup pair_order content res.root (content d') v.sorted)
      ∙ subst (λ c. find pair_order content res.root c ≡ some d) (sym same_content) here in
    rw (in_order-replace p d' res.root) (
      total-swap pair_order content (λ d. total f d.de_extents) p d' d (in_order res.root) for
        v.sorted there)

pub store-total :
    (res : ResultsTree) (d d' : DupeExtents) (m : ℕ) (f : Extent → ℕ)
    → IsValid res
    → find pair_order content res.root (content d) ≡ some d
    → content d' ≡ content d
    → total f d'.de_extents ≡ m + total f d.de_extents
    → total (λ d. total f d.de_extents) (in_order (store d' res).root)
      ≡ m + total (λ d. total f d.de_extents) (in_order res.root)
store-total res d d' m f v here same_content more_of =
    let bag = store-bag res d d' f v here same_content in omega arith

-- The record under its contents.
pub store-find :
    (res : ResultsTree) (d d' : DupeExtents)
    → IsValid res
    → find pair_order content res.root (content d) ≡ some d
    → content d' ≡ content d
    → find pair_order content (store d' res).root (content d) ≡ some d'
unfolding store
store-find res d d' v here same_content =
    let p = names (content d') in
    let for = is_content-IsFor (content d') in
    let listed = in_order-replace p d' res.root in
    let there =
      sym (find-lookup pair_order content res.root (content d') v.sorted)
      ∙ subst (λ c. find pair_order content res.root c ≡ some d) (sym same_content) here in
    let s = Sorted-swap pair_order content p d' (in_order res.root) for v.sorted in
    subst (λ c. find pair_order content (replace p d' res.root) c ≡ some d') same_content
      (find-lookup pair_order content (replace p d' res.root) (content d')
          (subst (Sorted pair_order content) (sym listed) s)
        ∙ ap (λ l. lookup pair_order content l (content d')) listed
        ∙ lookup-swap pair_order content p d' d (in_order res.root) for there)
