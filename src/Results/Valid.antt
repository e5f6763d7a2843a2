-- ===== src/Results/Valid.antt =====
-- What the tree of results keeps: sorted trees without duplicates, lists that hold what the trees
-- hold, and counters that count.
use duperemove.Prelude.{
  ℕ, ◌+◌, ◌*◌, ◌%◌, ◌^◌, ◌≡◌, refl, ap, ◌∙◌, Bool, true, false, Option, none, some, [], ◌∷◌, All,
  arith, if◌then◌else◌, length, length-append, Option-cases, inl, inr, ◌⊎◌,
}
use duperemove.Prelude.Order.{Order3, less, same, more, cmp_pair_refl, pair_order}
use duperemove.SearchTree.{Tree, Rbtree, in_order, descend, find}
use duperemove.SearchTree.Sorted.{Sorted}
use duperemove.SearchTree.Put.{Put, Put-Sorted}
use duperemove.SearchTree.Bag.{total, total-Put, total-append}
use duperemove.SearchTree.Insert.{insert_of_absent, insert_of_present, find-Put}
use duperemove.Results.{
  keep, Extent, DupeExtents, ResultsTree, place, content, insert_extent_rb, insert_extent_list_free,
}

pub record DextValid (d : DupeExtents) : Type 0 where
  pub sorted : Sorted pair_order place (in_order d.de_extents_root)
  pub same_extents : (f : Extent → ℕ) → total f (in_order d.de_extents_root) ≡ total f d.de_extents
  pub counted : d.de_num_dupes ≡ length d.de_extents % 2 ^ 32

abbrev pub extents_of : DupeExtents → ℕ
extents_of d = length d.de_extents

pub record IsValid (res : ResultsTree) : Type 0 where
  pub sorted : Sorted pair_order content (in_order res.root)
  pub dupes : All DextValid (in_order res.root)
  pub dupes_counted : res.num_dupes ≡ length (in_order res.root) % 2 ^ 32
  pub extents_counted : res.num_extents ≡ total extents_of (in_order res.root) % 2 ^ 64

abbrev pub one_if : Bool → ℕ
one_if b = if b then 1 else 0

abbrev pub extent_at : DupeExtents → ℕ × ℕ → Option Extent
extent_at d at = find pair_order place d.de_extents_root at

-- What adding an extent does to a record: it is kept exactly when its place is new.
pub record AddsExtent (e : Extent) (d d' : DupeExtents) (kept : Bool) : Type 0 where
  pub valid : DextValid d'
  pub same_content : content d' ≡ content d
  pub grown : extents_of d' ≡ one_if kept + extents_of d
  pub reason :
      ((kept ≡ true) × (extent_at d (place e) ≡ none))
      ⊎ ((kept ≡ false) × (d' ≡ d) × (old : Extent) × (extent_at d (place e) ≡ some old))
  pub present : (found : Extent) × (extent_at d' (place e) ≡ some found)
  pub still :
      (k : ℕ × ℕ) (old : Extent)
      → extent_at d k ≡ some old
      → (found : Extent) × (extent_at d' k ≡ some found)
  pub there : (f : Extent → ℕ) → total f d'.de_extents ≡ one_if kept * f e + total f d.de_extents

-- What was found is found after an insertion, or the new extent is.
descend-some :
    (o : Order3) (old e : Extent)
    → (found : Extent) × (descend o (some old) (some e) (some old) ≡ some found)
descend-some less old e = (old, refl)
descend-some same old e = (e, refl)
descend-some more old e = (old, refl)

keep-AddsExtent :
    (d : DupeExtents) (e : Extent) (root' : Tree Extent)
    → DextValid d
    → extent_at d (place e) ≡ none
    → Put pair_order place e (in_order d.de_extents_root) (in_order root')
    → AddsExtent e d (keep d e root') true
keep-AddsExtent d e root' v absent p = record {
  valid = record {
    sorted = Put-Sorted pair_order place e v.sorted p;
    same_extents = λ f.
        let tree = total-Put pair_order place f e p in
        let list = total-append f d.de_extents (e ∷ []) in
        let old = v.same_extents f in omega arith;
    counted = let n = v.counted in let list = length-append d.de_extents (e ∷ []) in omega arith;
  };
  same_content = refl;
  reason = inl (refl, absent);
  present = (
    e,
    find-Put pair_order place e d.de_extents_root root' (place e) v.sorted p
        ∙ rw (cmp_pair_refl (place e)) refl,
  );
  grown = let list = length-append d.de_extents (e ∷ []) in omega arith;
  still = λ k old at_k.
      let (found, e') = descend-some (pair_order.cmp k (place e)) old e in
      (
        found,
        find-Put pair_order place e d.de_extents_root root' k v.sorted p
            ∙ ap (λ o. descend (pair_order.cmp k (place e)) o (some e) o) at_k
            ∙ e',
      );
  there = λ f. let list = total-append f d.de_extents (e ∷ []) in omega arith;
}

pub insert_extent_list_free-AddsExtent :
    (rb : Rbtree Extent) (d : DupeExtents) (e : Extent)
    → DextValid d
    → AddsExtent e d (insert_extent_list_free rb d e).0 (insert_extent_list_free rb d e).1
unfolding insert_extent_list_free insert_extent_rb
insert_extent_list_free-AddsExtent rb d e v =
    elim (Option-cases (find pair_order place d.de_extents_root (place e))) [
      | inl absent ↦
          let (root', made, p) =
            insert_of_absent pair_order place rb e d.de_extents_root v.sorted absent in
          rw (insert_extent_list_free, made) (keep-AddsExtent d e root' v absent p)
      | inr (old, present) ↦
          rw
            (
              insert_extent_list_free,
              insert_of_present pair_order place rb e old d.de_extents_root v.sorted present,
            )
            (record {
              valid = v;
              same_content = refl;
              grown = omega arith;
              reason = inr (refl, refl, old, present);
              present = (old, present);
              still = λ k old' at_k. (old', at_k);
              there = λ f. omega arith;
            })
    ]
