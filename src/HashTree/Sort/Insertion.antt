-- ===== src/HashTree/Sort/Insertion.antt =====
-- An insertion sort. It shows that the laws of `ListSort` can hold.
use duperemove.Prelude.{
  ℕ, ◌+◌, ◌≡◌, refl, List, [], ◌∷◌, All, All-mono, arith, Bool-cases, inl, inr, if◌then◌else◌,
}
use duperemove.Prelude.Int.{ℤ}
use duperemove.SearchTree.Bag.{total}
use duperemove.HashTree.{Block}
use duperemove.HashTree.Sort.{is_after, Ordered, IsComparison, ListSort}

put_block : (Block → Block → ℤ) → Block → List Block → List Block
put_block cmp b [] = b ∷ []
put_block cmp b (c ∷ cs) = if is_after (cmp b c) then (c ∷ put_block cmp b cs) else (b ∷ c ∷ cs)

sorted : (Block → Block → ℤ) → List Block → List Block
sorted cmp [] = []
sorted cmp (b ∷ bs) = put_block cmp b (sorted cmp bs)

put-total :
    (cmp : Block → Block → ℤ) (f : Block → ℕ) (b : Block) (bs : List Block)
    → total f (put_block cmp b bs) ≡ f b + total f bs
unfolding put_block
put-total cmp f b [] = refl
put-total cmp f b (c ∷ cs) = elim (Bool-cases (is_after (cmp b c))) [
  | inl after ↦ rw after (let rest = put-total cmp f b cs in omega arith)
  | inr before ↦ rw before refl
]

put-All :
    (cmp : Block → Block → ℤ) (P : Block → Type 0) (b : Block) (bs : List Block)
    → P b
    → All P bs
    → All P (put_block cmp b bs)
unfolding put_block
put-All cmp P b [] pb h = (pb, tt)
put-All cmp P b (c ∷ cs) pb h = elim (Bool-cases (is_after (cmp b c))) [
  | inl after ↦ rw after (h.0, put-All cmp P b cs pb h.1)
  | inr before ↦ rw before (pb, h)
]

put-Ordered :
    (cmp : Block → Block → ℤ) (b : Block) (bs : List Block)
    → IsComparison cmp
    → Ordered cmp bs
    → Ordered cmp (put_block cmp b bs)
unfolding put_block
put-Ordered cmp b [] o h = (tt, tt)
put-Ordered cmp b (c ∷ cs) o h = elim (Bool-cases (is_after (cmp b c))) [
  | inl after ↦ rw after (put-All cmp _ b cs (o.one_way b c after) h.0, put-Ordered cmp b cs o h.1)
  | inr before ↦ rw before ((before, All-mono _ _ (λ d k. o.trans b c d before k) cs h.0), h)
]

sorted-total :
    (cmp : Block → Block → ℤ) (f : Block → ℕ) (bs : List Block)
    → total f (sorted cmp bs) ≡ total f bs
unfolding sorted
sorted-total cmp f [] = refl
sorted-total cmp f (b ∷ bs) =
    let first = put-total cmp f b (sorted cmp bs) in let rest = sorted-total cmp f bs in omega arith

sorted-All :
    (cmp : Block → Block → ℤ) (P : Block → Type 0) (bs : List Block)
    → All P bs
    → All P (sorted cmp bs)
unfolding sorted
sorted-All cmp P [] h = tt
sorted-All cmp P (b ∷ bs) h = put-All cmp P b (sorted cmp bs) h.0 (sorted-All cmp P bs h.1)

sorted-Ordered :
    (cmp : Block → Block → ℤ) → IsComparison cmp → (bs : List Block) → Ordered cmp (sorted cmp bs)
unfolding sorted
sorted-Ordered cmp o [] = tt
sorted-Ordered cmp o (b ∷ bs) = put-Ordered cmp b (sorted cmp bs) o (sorted-Ordered cmp o bs)

pub insertion_sort : ListSort
insertion_sort = record {
  list_sort = sorted;
  same_blocks = sorted-total;
  same_claims = sorted-All;
  sorts = sorted-Ordered;
}
