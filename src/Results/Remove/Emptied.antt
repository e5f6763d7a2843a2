-- ===== src/Results/Remove/Emptied.antt =====
-- The end of the tree of results: dupe_extents_free and free_results_tree.
use duperemove.Prelude.{
  nil_of_length, ℕ, zero, suc, ◌+◌, ◌<◌, ◌≤◌, ◌≡◌, refl, ◌∙◌, true, none, some, List, [], ◌∷◌, All,
  arith, length, inl, inr,
}
use mathlib.Core.Path.{sym, subst}
use duperemove.Prelude.Order.{pair_order}
use duperemove.Prelude.Outcome.{done}
use duperemove.SearchTree.{in_order, lookup, head?}
use duperemove.SearchTree.Sorted.{find-lookup}
use duperemove.SearchTree.Bag.{total}
use duperemove.SearchTree.Replace.{All-lookup}
use duperemove.SearchTree.Erase.{lookup-head}
use duperemove.Results.{Extent, DupeExtents, ResultsTree, Trees, content}
use duperemove.Results.Valid.{DextValid, IsValid, extents_of}
use duperemove.Results.Remove.{
  Removal, remove_extent, is_positive, free_loop, dupe_extents_free, free_all, free_results_tree,
}
use duperemove.Results.Remove.Removed.{
  extents_in, record_at, HasExtents, Kept, first_of, remove_extent-Removes,
}

-- The tree without the record.
pub record Emptied (p : DupeExtents) (res res' : ResultsTree) : Type 0 where
  pub valid : IsValid res'
  pub absent : record_at res' (content p) ≡ none
  pub bag : (f : Extent → ℕ) → total f p.de_extents + extents_in f res' ≡ extents_in f res
  pub others : All HasExtents (in_order res.root) → All HasExtents (in_order res'.root)
  pub fewer : 1 + length (in_order res'.root) ≡ length (in_order res.root)

after-Kept :
    (res : ResultsTree) (e : Extent) (p p' : DupeExtents) (r : Removal) (res' : ResultsTree)
    → Kept e p p' res r
    → Emptied p' r.res res'
    → Emptied p res res'
after-Kept res e p p' r res' k m = record {
  valid = m.valid;
  absent = subst (λ c. record_at res' c ≡ none) k.drops.same_content m.absent;
  bag = λ f. let one = k.bag f in let rest = m.bag f in let gone = k.drops.gone f in omega arith;
  others = λ h. m.others (k.others h);
  fewer = m.fewer ∙ k.as_many;
}

free_loop_ends :
    (rb : Trees) (fuel : ℕ) (res : ResultsTree) (p : DupeExtents) (e : Extent) (r : Removal)
    → rb.extents.first p.de_extents_root ≡ some e
    → remove_extent rb res p e ≡ done r
    → r.left ≡ none
    → free_loop rb (suc fuel) res p ≡ done r.res
unfolding free_loop
free_loop_ends rb fuel res p e r first removed left = rw (free_loop, first, removed) (rw left refl)

free_loop_goes_on :
    (rb : Trees) (fuel : ℕ) (res : ResultsTree) (p : DupeExtents) (e : Extent) (r : Removal)
    (p' : DupeExtents)
    → rb.extents.first p.de_extents_root ≡ some e
    → remove_extent rb res p e ≡ done r
    → r.left ≡ some p'
    → is_positive r.result ≡ true
    → free_loop rb (suc fuel) res p ≡ free_loop rb fuel r.res p'
unfolding free_loop
free_loop_goes_on rb fuel res p e r p' first removed left positive =
    rw (free_loop, first, removed) (rw (left, positive) refl)

free_loop-Emptied :
    (rb : Trees) (fuel : ℕ) (res : ResultsTree) (p : DupeExtents)
    → IsValid res
    → record_at res (content p) ≡ some p
    → HasExtents p
    → extents_of p ≤ fuel
    → (res' : ResultsTree) × (free_loop rb fuel res p ≡ done res') × Emptied p res res'
unfolding free_loop
free_loop-Emptied rb zero res p v here has enough = absurd (let some_there = has.0 in omega arith)
free_loop-Emptied rb (suc fuel) res p v here has enough =
    let found = sym (find-lookup pair_order content res.root (content p) v.sorted) ∙ here in
    let valid =
      All-lookup pair_order content DextValid (in_order res.root) (content p) p v.dupes found in
    let (e, first, there) = first_of rb.extents p valid has.0 in
    let (r, removed, shape) =
      remove_extent-Removes rb res p e v here (let small = has.1 in omega arith) there in
    elim shape [
      | inl (few, f) ↦ (
        r.res,
        free_loop_ends rb fuel res p e r first removed f.left,
        record {
          valid = f.valid;
          absent = f.absent;
          bag = f.bag;
          others = f.others;
          fewer = f.fewer;
        },
      )
      | inr (many, p', k) ↦
          let positive : is_positive r.result ≡ true =
            let n = k.result in let shrunk = k.drops.shrunk in let few = has.1 in ground arith in
          let (res', freed, m) =
            free_loop-Emptied rb fuel r.res p' k.valid
              (subst (λ c. record_at r.res c ≡ some p') (sym k.drops.same_content) k.here)
              (
                let shrunk = k.drops.shrunk in let few = has.1 in omega arith,
                let shrunk = k.drops.shrunk in let few = has.1 in omega arith,
              )
              (let shrunk = k.drops.shrunk in omega arith) in
          (
            res',
            free_loop_goes_on rb fuel res p e r p' first removed k.left positive ∙ freed,
            after-Kept res e p p' r res' k m,
          )
    ]

-- The length of its list is enough fuel to empty a record.
pub dupe_extents_free-Emptied :
    (rb : Trees) (res : ResultsTree) (p : DupeExtents)
    → IsValid res
    → record_at res (content p) ≡ some p
    → HasExtents p
    → (res' : ResultsTree) × (dupe_extents_free rb res p ≡ done res') × Emptied p res res'
unfolding dupe_extents_free
dupe_extents_free-Emptied rb res p v here has =
    free_loop-Emptied rb (length p.de_extents) res p v here has (omega arith)

abbrev pub IsEmptyTree : ResultsTree → Type 0
IsEmptyTree res = (in_order res.root ≡ []) × (res.num_dupes ≡ 0) × (res.num_extents ≡ 0)

first_record :
    (xs : List DupeExtents)
    → All HasExtents xs
    → 0 < length xs
    → (p : DupeExtents) × (head? xs ≡ some p)
      × (lookup pair_order content xs (content p) ≡ some p)
      × HasExtents p
first_record [] has some_there = ground arith
first_record (p ∷ ps) has some_there = (p, refl, lookup-head pair_order content p ps, has.0)

free_all-IsEmptyTree :
    (rb : Trees) (fuel : ℕ) (res : ResultsTree)
    → IsValid res
    → All HasExtents (in_order res.root)
    → length (in_order res.root) ≡ fuel
    → (res' : ResultsTree) × (free_all rb fuel res ≡ done res') × IsEmptyTree res'
unfolding free_all
free_all-IsEmptyTree rb zero res v has enough =
    let none_left = nil_of_length (in_order res.root) enough in
    (
      res,
      rw (free_all, rb.dupes.first_lem res.root, none_left) refl,
      (none_left, v.dupes_counted ∙ rw enough refl, v.extents_counted ∙ rw none_left refl),
    )
free_all-IsEmptyTree rb (suc fuel) res v has enough =
    let (p, head, there, has_p) = first_record (in_order res.root) has (omega arith) in
    let first = rb.dupes.first_lem res.root ∙ head in
    let (res', freed, m) =
      dupe_extents_free-Emptied rb res p v
        (find-lookup pair_order content res.root (content p) v.sorted ∙ there) has_p in
    let (res'', rest, empty) =
      free_all-IsEmptyTree rb fuel res' m.valid (m.others has) (let n = m.fewer in omega arith) in
    (res'', rw (free_all, first, freed) rest, empty)

-- free_results_tree returns and leaves no record and zero counters, from every valid tree whose
-- records have between one extent and the largest int.
pub free_results_tree-IsEmptyTree :
    (rb : Trees) (res : ResultsTree)
    → IsValid res
    → All HasExtents (in_order res.root)
    → (res' : ResultsTree) × (free_results_tree rb res ≡ done res') × IsEmptyTree res'
unfolding free_results_tree
free_results_tree-IsEmptyTree rb res v has =
    free_all-IsEmptyTree rb (length (in_order res.root)) res v has refl
