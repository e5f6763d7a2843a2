-- ===== src/Results/Remove/Drop.antt =====
-- One pass of remove_extent: the extent leaves the tree and the list of its record.
use duperemove.Prelude.{
  ℕ, ◌+◌, ◌^◌, ◌<◌, ◌≡◌, ◌↔◌, refl, ap, ◌∙◌, Bool, true, not, ◌&&◌, some, List, [], ◌∷◌, All, arith,
  ◌==◌, if◌then◌else◌, Bool-cases, inl, inr,
}
use mathlib.Core.Path.{sym, subst}
use duperemove.Prelude.Order.{pair_order}
use duperemove.SearchTree.{Rbtree, in_order, remove_first, lookup}
use duperemove.SearchTree.Sorted.{Sorted, find-lookup}
use duperemove.SearchTree.Bag.{total, total-one, Sorted-remove}
use duperemove.SearchTree.Replace.{IsFor}
use duperemove.SearchTree.Erase.{total-remove_only, only-lookup, counts-lookup, total-erase}
use duperemove.Results.{Extent, DupeExtents, place, content}
use duperemove.Results.Valid.{DextValid, extents_of, extent_at}
use duperemove.Results.Remove.{is_at, drop_extent}

pub is_at-IsFor : (k : ℕ × ℕ) → IsFor pair_order place k (is_at k)
is_at-IsFor (a, b) e = ground arith

abbrev pub same_extent : Extent → Extent → Bool
same_extent x y =
    x.e_loff == y.e_loff
    && x.e_file == y.e_file
    && x.e_poff == y.e_poff
    && x.e_plen == y.e_plen
    && x.e_shared_bytes == y.e_shared_bytes

pub same_extent_iff : (x y : Extent) → (same_extent x y ≡ true) ↔ (x ≡ y)
same_extent_iff x y = ground arith

-- An element that the test picks although it is another one than `e`.
abbrev stray : (Extent → Bool) → Extent → Extent → ℕ
stray t e x = if t x && not (same_extent x e) then 1 else 0

stray_of_only :
    (t : Extent → Bool) (e : Extent) (xs : List Extent)
    → All (λ x. t x ≡ true → x ≡ e) xs
    → total (stray t e) xs ≡ 0
stray_of_only t e [] h = refl
stray_of_only t e (x ∷ xs) h =
    let rest = stray_of_only t e xs h.1 in
    elim (Bool-cases (t x)) [
      | inl hit ↦ rw (hit, (same_extent_iff x e).1 (h.0 hit)) (omega (arith, rest))
      | inr miss ↦ rw miss (omega (arith, rest))
    ]

none_stray : (t : Extent → Bool) (e x : Extent) (n : ℕ) → stray t e x + n ≡ 0 → t x ≡ true → x ≡ e
none_stray t e x n h hit = elim (Bool-cases (same_extent x e)) [
  | inl it ↦ (same_extent_iff x e).0 it
  | inr other ↦
      let one : stray t e x ≡ 1 = rw (hit, other) refl in
      absurd (let no : 1 + n ≡ 0 = subst (λ m. m + n ≡ 0) one h in omega arith)
]

only_of_stray :
    (t : Extent → Bool) (e : Extent) (xs : List Extent)
    → total (stray t e) xs ≡ 0
    → All (λ x. t x ≡ true → x ≡ e) xs
only_of_stray t e [] h = tt
only_of_stray t e (x ∷ xs) h =
    (none_stray t e x (total (stray t e) xs) h, only_of_stray t e xs (omega arith))

-- A list with the bag of a sorted one loses the same element.
total-remove_list :
    (k : ℕ × ℕ) (e : Extent) (tree list : List Extent) (f : Extent → ℕ)
    → Sorted pair_order place tree
    → ((g : Extent → ℕ) → total g tree ≡ total g list)
    → lookup pair_order place tree k ≡ some e
    → f e + total f (remove_first (is_at k) list) ≡ total f list
total-remove_list k e tree list f s bag found =
    let only = only-lookup pair_order place k (is_at k) e tree (is_at-IsFor k) s found in
    let there = counts-lookup pair_order place k (is_at k) e tree (is_at-IsFor k) found in
    total-remove_only f (is_at k) e list
      (only_of_stray (is_at k) e list
        (sym (bag (stray (is_at k) e)) ∙ stray_of_only (is_at k) e tree only))
      (subst (λ n. 0 < n) (bag (λ x. if is_at k x then 1 else 0)) there)

-- What a pass does to a record that has the extent.
pub record Drops (e : Extent) (p p' : DupeExtents) : Type 0 where
  pub valid : DextValid p'
  pub same_content : content p' ≡ content p
  pub shrunk : 1 + extents_of p' ≡ extents_of p
  pub gone : (f : Extent → ℕ) → f e + total f p'.de_extents ≡ total f p.de_extents
  pub nodes :
      in_order p'.de_extents_root ≡ remove_first (is_at (place e)) (in_order p.de_extents_root)

pub drop_extent-Drops :
    (rb : Rbtree Extent) (p : DupeExtents) (e : Extent)
    → DextValid p
    → extents_of p < 2 ^ 32
    → extent_at p (place e) ≡ some e
    → Drops e p (drop_extent rb p e)
unfolding drop_extent
drop_extent-Drops rb p e v small there =
    let k = place e in
    let found = sym (find-lookup pair_order place p.de_extents_root k v.sorted) ∙ there in
    let erased = rb.erase_lem (is_at k) p.de_extents_root in
    let list = total-remove_list k e (in_order p.de_extents_root) p.de_extents in
    let one = total-one p.de_extents in
    let one' = total-one (remove_first (is_at k) p.de_extents) in
    let fewer = list (λ x. 1) v.sorted v.same_extents found in
    record {
      valid = record {
        sorted =
            subst (Sorted pair_order place) (sym erased)
              (Sorted-remove pair_order place (is_at k) (in_order p.de_extents_root) v.sorted);
        same_extents = λ f.
            let tree =
              total-erase pair_order place f k (is_at k) e (in_order p.de_extents_root)
                (is_at-IsFor k) v.sorted found in
            let at_list = list f v.sorted v.same_extents found in
            let same_sum = v.same_extents f in let at_root = ap (total f) erased in omega arith;
        counted = let n = v.counted in omega arith;
      };
      same_content = refl;
      shrunk = omega arith;
      gone = λ f. list f v.sorted v.same_extents found;
      nodes = erased;
    }
