-- ===== src/Results/Remove/Removed.antt =====
-- What remove_extent leaves: the record with one extent less, or no record.
use duperemove.Prelude.{
  ℕ, ◌+◌, ◌%◌, ◌^◌, ◌<◌, ◌≤◌, ◌≡◌, ◌⊎◌, refl, ap, ◌∙◌, false, Option, none, some, List, [], ◌∷◌,
  All, arith, ◌==◌, length, length-map, Bool-cases, inl, inr,
}
use mathlib.Core.Path.{sym, subst}
use duperemove.Prelude.Word.{sub64}
use duperemove.Prelude.Order.{pair_order}
use duperemove.Prelude.Outcome.{done}
use duperemove.SearchTree.{Rbtree, in_order, find, remove_first, lookup, head?}
use duperemove.SearchTree.Sorted.{find-lookup}
use duperemove.SearchTree.Bag.{total, total-one, Sorted-remove, All-remove}
use duperemove.SearchTree.Replace.{swap, All-swap, in_order-replace, All-lookup}
use duperemove.SearchTree.Erase.{total-erase, lookup-remove, lookup-head}
use duperemove.Results.{Extent, DupeExtents, ResultsTree, Trees, place, content, names, store}
use duperemove.Results.Valid.{DextValid, IsValid, extents_of, extent_at}
use duperemove.Results.Store.{is_content-IsFor, store-IsValid_of, store-bag, store-find}
use duperemove.Results.Remove.{drop_extent, one_less, Removal, unlink, remove_extent}
use duperemove.Results.Remove.Drop.{Drops, drop_extent-Drops}

-- The extents of all records, as a bag.
abbrev pub extents_in : (Extent → ℕ) → ResultsTree → ℕ
extents_in f res = total (λ d. total f d.de_extents) (in_order res.root)

abbrev pub record_at : ResultsTree → ℕ × ℕ → Option DupeExtents
record_at res k = find pair_order content res.root k

-- The counts that an int holds.
abbrev pub HasExtents : DupeExtents → Type 0
HasExtents d = (0 < extents_of d) × (extents_of d < 2 ^ 31)

-- The record and its extents are gone.
pub record Freed (p : DupeExtents) (res : ResultsTree) (r : Removal) : Type 0 where
  pub valid : IsValid r.res
  pub left : r.left ≡ none
  pub result : r.result ≡ 0
  pub absent : record_at r.res (content p) ≡ none
  pub bag : (f : Extent → ℕ) → total f p.de_extents + extents_in f r.res ≡ extents_in f res
  pub others : All HasExtents (in_order res.root) → All HasExtents (in_order r.res.root)
  pub fewer : 1 + length (in_order r.res.root) ≡ length (in_order res.root)

-- The extent alone is gone, and `p'` stands for the record.
pub record Kept (e : Extent) (p p' : DupeExtents) (res : ResultsTree) (r : Removal) : Type 0 where
  pub valid : IsValid r.res
  pub left : r.left ≡ some p'
  pub result : r.result ≡ extents_of p'
  pub drops : Drops e p p'
  pub here : record_at r.res (content p) ≡ some p'
  pub bag : (f : Extent → ℕ) → f e + extents_in f r.res ≡ extents_in f res
  pub others : All HasExtents (in_order res.root) → All HasExtents (in_order r.res.root)
  pub as_many : length (in_order r.res.root) ≡ length (in_order res.root)

unlink-Freed :
    (rb : Rbtree DupeExtents) (res : ResultsTree) (p q : DupeExtents) (n : ℕ)
    → IsValid res
    → record_at res (content p) ≡ some p
    → content q ≡ content p
    → q.de_num_dupes ≡ 0
    → ((t : ℕ) → extents_of p + t ≡ total extents_of (in_order res.root) → n ≡ t % 2 ^ 64)
    → Freed p res (unlink rb (record res { num_extents = n }) q)
unfolding unlink
unlink-Freed rb res p q n v here same_content empty counted =
    let k = content p in
    let t = names k in
    let xs = in_order res.root in
    let for = is_content-IsFor k in
    let found = sym (find-lookup pair_order content res.root k v.sorted) ∙ here in
    let erased = rb.erase_lem t res.root in
    let s = Sorted-remove pair_order content t xs v.sorted in
    let gone : (f : DupeExtents → ℕ) → f p + total f (remove_first t xs) ≡ total f xs =
      λ f. total-erase pair_order content f k t p xs for v.sorted found in
    let one_gone : 1 + length (remove_first t xs) ≡ length xs =
      let ones = gone (λ d. 1) in
      let a = total-one (remove_first t xs) in let b = total-one xs in omega arith in
    rw (empty, same_content)
      (record {
        valid = record {
          sorted = rw erased s;
          dupes = rw erased (All-remove DextValid t xs v.dupes);
          dupes_counted = rw erased (let n = v.dupes_counted in omega (arith, one_gone));
          extents_counted = rw erased (counted _ (gone extents_of));
        };
        left = refl;
        result = refl;
        absent =
            find-lookup pair_order content (rb.erase t res.root) k (rw erased s)
            ∙ rw erased (lookup-remove pair_order content k t xs for v.sorted);
        bag = λ f. rw erased (gone (λ d. total f d.de_extents));
        others = λ h. rw erased (All-remove HasExtents t xs h);
        fewer = rw erased one_gone;
      })

unlink-Kept :
    (rb : Rbtree DupeExtents) (res : ResultsTree) (e : Extent) (p q : DupeExtents) (n : ℕ)
    → IsValid res
    → record_at res (content p) ≡ some p
    → Drops e p q
    → 0 < extents_of q
    → extents_of q < 2 ^ 32
    → n ≡ sub64 res.num_extents 1
    → Kept e p q res (unlink rb (record res { num_extents = n }) q)
unfolding unlink store
unlink-Kept rb res e p q n v here d some_left small counted =
    let as_counted = d.valid.counted in
    let many : q.de_num_dupes ≡ extents_of q = omega arith in
    let not_zero : (q.de_num_dupes == 0) ≡ false = ground arith in
    rw not_zero (record {
      valid =
          store-IsValid_of res p q n v here d.same_content d.valid
            (λ t sum. let old = v.extents_counted in let shrunk = d.shrunk in omega arith);
      left = refl;
      result = many;
      drops = d;
      here = store-find res p q v here d.same_content;
      bag = λ f.
          let sum = store-bag res p q f v here d.same_content in let gone = d.gone f in omega arith;
      others = λ h.
          let names_it = names (content q) in
          let found = sym (find-lookup pair_order content res.root (content p) v.sorted) ∙ here in
          let small =
            All-lookup pair_order content HasExtents (in_order res.root) (content p) p h found in
          let shrunk = d.shrunk in
          subst (All HasExtents) (sym (in_order-replace names_it q res.root)) (
            All-swap HasExtents names_it q (in_order res.root) (some_left, omega (arith, small.1))
              h);
      as_many =
          let names_it = names (content q) in
          ap length (in_order-replace names_it q res.root)
          ∙ length-map (in_order res.root) (swap names_it q);
    })

head-lookup :
    (xs : List Extent)
    → 0 < total (λ x. 1) xs
    → (e : Extent) × (head? xs ≡ some e) × (lookup pair_order place xs (place e) ≡ some e)
head-lookup [] some_there = ground arith
head-lookup (x ∷ xs) some_there = (x, refl, lookup-head pair_order place x xs)

-- A record with extents has a first node.
pub first_of :
    (rb : Rbtree Extent) (p : DupeExtents)
    → DextValid p
    → 0 < extents_of p
    → (e : Extent) × (rb.first p.de_extents_root ≡ some e) × (extent_at p (place e) ≡ some e)
first_of rb p v some_there =
    let same_number = v.same_extents (λ x. 1) ∙ total-one p.de_extents in
    let (e, first, there) = head-lookup (in_order p.de_extents_root) (omega arith) in
    (
      e,
      rb.first_lem p.de_extents_root ∙ first,
      find-lookup pair_order place p.de_extents_root (place e) v.sorted ∙ there,
    )

abbrev pub Removes : Extent → DupeExtents → ResultsTree → Removal → Type 0
Removes e p res r =
    ((extents_of p ≤ 2) × Freed p res r)
    ⊎ ((2 < extents_of p) × (p' : DupeExtents) × Kept e p p' res r)

removes_last_two :
    (rb : Trees) (res : ResultsTree) (p q : DupeExtents) (e : Extent)
    → IsValid res
    → record_at res (content p) ≡ some p
    → Drops e p q
    → extents_of q ≡ 1
    → (e' : Extent) × (rb.extents.first q.de_extents_root ≡ some e')
      × Freed p res (unlink rb.dupes (one_less (one_less res)) (drop_extent rb.extents q e'))
removes_last_two rb res p q e v here d one =
    let (e', first, there) = first_of rb.extents q d.valid (omega arith) in
    let d' = drop_extent-Drops rb.extents q e' d.valid (omega arith) there in
    let q' = drop_extent rb.extents q e' in
    let shrunk = d.shrunk in
    let shrunk' = d'.shrunk in
    let none_left = d'.valid.counted in
    (
      e',
      first,
      unlink-Freed rb.dupes res p q' (one_less (one_less res)).num_extents v here
          (d'.same_content ∙ d.same_content) (omega arith)
          (λ t sum. let old = v.extents_counted in omega arith),
    )

-- On a valid tree remove_extent returns. A record with at most two extents is freed with them, and a
-- larger one keeps all but the extent, counts them and is found as before; the return value is the
-- number that is left.
pub remove_extent-Removes :
    (rb : Trees) (res : ResultsTree) (p : DupeExtents) (e : Extent)
    → IsValid res
    → record_at res (content p) ≡ some p
    → extents_of p < 2 ^ 32
    → extent_at p (place e) ≡ some e
    → (r : Removal) × (remove_extent rb res p e ≡ done r) × Removes e p res r
unfolding remove_extent
remove_extent-Removes rb res p e v here small there =
    let valid =
      All-lookup pair_order content DextValid (in_order res.root) (content p) p v.dupes
        (sym (find-lookup pair_order content res.root (content p) v.sorted) ∙ here) in
    let d = drop_extent-Drops rb.extents p e valid small there in
    let q = drop_extent rb.extents p e in
    let shrunk = d.shrunk in
    let as_counted = d.valid.counted in
    let many : q.de_num_dupes ≡ extents_of q = omega arith in
    elim (Bool-cases (q.de_num_dupes == 1)) [
      | inl one ↦
          let (e', first, freed) = removes_last_two rb res p q e v here d (ground arith) in
          (_, rw (one, first) refl, inl (ground arith, freed))
      | inr other ↦ elim (Bool-cases (q.de_num_dupes == 0)) [
        | inl empty ↦ (
          _,
          rw other refl,
          inl (
            ground arith,
            unlink-Freed rb.dupes res p q (one_less res).num_extents v here d.same_content
                (ground arith)
                (λ t sum.
                  let old = v.extents_counted in
                  let e0 : extents_of q ≡ 0 = ground arith in omega arith),
          ),
        )
        | inr left ↦ (
          _,
          rw other refl,
          inr (
            ground arith,
            q,
            unlink-Kept rb.dupes res e p q (one_less res).num_extents v here d (ground arith)
                (omega arith) refl,
          ),
        )
      ]
    ]
