-- ===== src/HashTree/Sort.antt =====
-- hash-tree.c: the blocks of each head are sorted by their offset. What list_sort does is the record
-- `ListSort`.
pub mod Insertion
use duperemove.Prelude.{
  ℕ, zero, suc, ◌+◌, ◌%◌, ◌^◌, ◌<◌, ◌≤◌, ◌≡◌, refl, ap, ◌∙◌, Bool, true, false, not, List, [], ◌∷◌,
  All, All-mono, arith, ltb, ◌==◌, if◌then◌else◌, length, is_empty,
}
use mathlib.Core.Path.{sym, subst}
use duperemove.Prelude.Int.{ℤ, pos, negsuc}
use duperemove.Prelude.Order.{ℕ_order}
use duperemove.SearchTree.{Tree, in_order, map_tree}
use duperemove.SearchTree.Bag.{total, total-one}
use duperemove.SearchTree.Mapped.{
  total-map_tree, All-map_tree, All-written_tree, total-same, map_tree-SortedTree,
}
use duperemove.HashTree.{
  Block, FileHashHead, DupeBlocksList, HashTree, State, file_order, h_key, hash,
}
use duperemove.HashTree.Valid.{
  one_if, IsHead, Heads, ListValid, blocks_in, empties, of_file, TreeValid, FilesValid, IsValid,
}

abbrev pub cmp_blocks : Block → Block → ℤ
cmp_blocks a b =
    if ltb a.b_loff b.b_loff then negsuc 0 else if ltb b.b_loff a.b_loff then pos 1 else pos 0

-- No element is greater than one behind it.
abbrev pub Ascending : List Block → Type 0
Ascending [] = Unit
Ascending (b ∷ bs) = All (λ c. b.b_loff ≤ c.b_loff) bs × Ascending bs

-- A positive result: the first argument goes behind the second.
abbrev pub is_after : ℤ → Bool
is_after (pos zero) = false
is_after (pos (suc n)) = true
is_after (negsuc n) = false

-- No element goes behind a later one.
abbrev pub Ordered : (Block → Block → ℤ) → List Block → Type 0
Ordered cmp [] = Unit
Ordered cmp (b ∷ bs) = All (λ c. is_after (cmp b c) ≡ false) bs × Ordered cmp bs

-- What list_sort asks of a comparison.
pub record IsComparison (cmp : Block → Block → ℤ) : Type 0 where
  pub one_way : (a b : Block) → is_after (cmp a b) ≡ true → is_after (cmp b a) ≡ false
  pub trans :
      (a b c : Block)
      → is_after (cmp a b) ≡ false
      → is_after (cmp b c) ≡ false
      → is_after (cmp a c) ≡ false

pub record ListSort : Type 1 where
  pub list_sort : (Block → Block → ℤ) → List Block → List Block
  pub same_blocks :
      (cmp : Block → Block → ℤ) (f : Block → ℕ) (bs : List Block)
      → total f (list_sort cmp bs) ≡ total f bs
  pub same_claims :
      (cmp : Block → Block → ℤ) (P : Block → Type 0) (bs : List Block)
      → All P bs
      → All P (list_sort cmp bs)
  pub sorts :
      (cmp : Block → Block → ℤ)
      → IsComparison cmp
      → (bs : List Block) → Ordered cmp (list_sort cmp bs)

pub cmp_blocks-IsComparison : IsComparison cmp_blocks
cmp_blocks-IsComparison = record {
  one_way = λ a b h. ground arith;
  trans = λ a b c h k. ground arith;
}

before_le : (b c : Block) → is_after (cmp_blocks b c) ≡ false → b.b_loff ≤ c.b_loff
before_le b c h = ground arith

-- For cmp_blocks the order is that of the offsets.
Ordered-Ascending : (bs : List Block) → Ordered cmp_blocks bs → Ascending bs
Ordered-Ascending [] h = tt
Ordered-Ascending (b ∷ bs) h =
    (All-mono _ _ (λ c k. before_le b c k) bs h.0, Ordered-Ascending bs h.1)

pub sort_head : ListSort → FileHashHead → FileHashHead
sort_head s head = record head { h_blocks = s.list_sort cmp_blocks head.h_blocks }

pub sort_heads : ListSort → DupeBlocksList → DupeBlocksList
sort_heads s dups = record dups { dl_files_root = map_tree (sort_head s) dups.dl_files_root }

pub sort_file_hash_heads : ListSort → HashTree → HashTree
sort_file_hash_heads s tree = record tree { root = map_tree (sort_heads s) tree.root }

sort_head-IsHead :
    (s : ListSort) (digest : ℕ) (h : FileHashHead) → IsHead digest h → IsHead digest (sort_head s h)
unfolding sort_head
sort_head-IsHead s digest h v = (
  let same = s.same_blocks cmp_blocks (λ b. 1) h.h_blocks in
      let n = total-one h.h_blocks in
      let n' = total-one (s.list_sort cmp_blocks h.h_blocks) in let some_there = v.0 in omega arith,
  s.same_claims cmp_blocks _ h.h_blocks v.1,
)

sort_heads-ListValid :
    (s : ListSort) (d : DupeBlocksList) → ListValid d → ListValid (sort_heads s d)
unfolding sort_heads sort_head
sort_heads-ListValid s d v = record {
  heads = record {
    sorted =
        map_tree-SortedTree file_order h_key (sort_head s) (λ h. refl) d.dl_files_root
          v.heads.sorted;
    each =
        All-map_tree (IsHead d.dl_hash) (sort_head s) d.dl_files_root (sort_head-IsHead s d.dl_hash)
          v.heads.each;
    same_blocks = λ f.
        total-map_tree (λ h. total f h.h_blocks) (sort_head s) d.dl_files_root
        ∙ (total-same _ (λ h. total f h.h_blocks) (in_order d.dl_files_root)
              (λ h. s.same_blocks cmp_blocks f h.h_blocks)
            ∙ v.heads.same_blocks f);
  };
  own = v.own;
  counted = v.counted;
}

-- The blocks of every head ascend.
abbrev pub AllAscending : HashTree → Type 0
AllAscending tree =
    All (λ d. All (λ h. Ascending h.h_blocks) (in_order d.dl_files_root)) (in_order tree.root)

sorted-AllAscending : (s : ListSort) (tree : HashTree) → AllAscending (sort_file_hash_heads s tree)
unfolding sort_file_hash_heads sort_heads sort_head
sorted-AllAscending s tree =
    All-written_tree (λ d. All (λ h. Ascending h.h_blocks) (in_order d.dl_files_root))
      (sort_heads s) tree.root
      (λ d.
        All-written_tree (λ h. Ascending h.h_blocks) (sort_head s) d.dl_files_root
          (λ h.
            Ordered-Ascending (s.list_sort cmp_blocks h.h_blocks)
              (s.sorts cmp_blocks cmp_blocks-IsComparison h.h_blocks)))

sorted-total :
    (s : ListSort) (tree : HashTree) (g : DupeBlocksList → ℕ)
    → ((d : DupeBlocksList) → g (sort_heads s d) ≡ g d)
    → total g (in_order (sort_file_hash_heads s tree).root) ≡ total g (in_order tree.root)
unfolding sort_file_hash_heads
sorted-total s tree g same =
    total-map_tree g (sort_heads s) tree.root
    ∙ total-same (λ d. g (sort_heads s d)) g (in_order tree.root) same

-- In a valid hash tree the sort makes the blocks of every head ascend, and the tree is valid and has
-- the same blocks as before.
pub sort_file_hash_heads-AllAscending :
    (s : ListSort) (t : State)
    → IsValid t
    → IsValid (record t { tree = sort_file_hash_heads s t.tree })
      × AllAscending (sort_file_hash_heads s t.tree)
      × ((f : Block → ℕ) → blocks_in f (sort_file_hash_heads s t.tree) ≡ blocks_in f t.tree)
unfolding sort_file_hash_heads sort_heads
sort_file_hash_heads-AllAscending s t v =
    let bag : (f : Block → ℕ) → blocks_in f (sort_file_hash_heads s t.tree) ≡ blocks_in f t.tree =
      λ f. sorted-total s t.tree (λ d. total f d.dl_list) (λ d. refl) in
    (
      record {
        tree = record {
          sorted =
              map_tree-SortedTree ℕ_order hash (sort_heads s) (λ d. refl) t.tree.root v.tree.sorted;
          lists =
              All-map_tree ListValid (sort_heads s) t.tree.root (sort_heads-ListValid s)
                v.tree.lists;
          hashes_counted =
              let same = sorted-total s t.tree (λ d. 1) (λ d. refl) in
              let n = total-one (in_order t.tree.root) in
              let n' = total-one (in_order (sort_file_hash_heads s t.tree).root) in
              let old = v.tree.hashes_counted in omega arith;
          blocks_counted =
              let same = bag (λ b. 1) in let old = v.tree.blocks_counted in omega arith;
          sizes = λ k.
              let same = sorted-total s t.tree (λ d. one_if (d.dl_hash == k)) (λ d. refl) in
              let old = v.tree.sizes k in omega arith;
        };
        files = record {
          sorted = v.files.sorted;
          own = v.files.own;
          same_blocks = λ file f. v.files.same_blocks file f ∙ sym (bag (of_file file f));
        };
      },
      sorted-AllAscending s t.tree,
      bag,
    )
