-- ===== src/SearchTree/Write.antt =====
-- The changes that the owners of a tree make to it: a new node, a write to a node, a node taken out.
-- Each leaves a sorted tree, what it says of the elements, and sums over them.
use duperemove.Prelude.{ℕ, ◌+◌, ◌≡◌, refl, ap, ◌∙◌, Bool, none, some, All, arith}
use mathlib.Core.Path.{sym}
use duperemove.Prelude.Order.{Order}
use duperemove.SearchTree.{Tree, Rbtree, in_order, find, insert, replace, lookup}
use duperemove.SearchTree.Sorted.{Sorted, find-lookup}
use duperemove.SearchTree.Put.{Put-All, Put-Sorted}
use duperemove.SearchTree.Bag.{total, total-Put, All-remove, Sorted-remove}
use duperemove.SearchTree.Insert.{insert_of_absent, find-Put}
use duperemove.SearchTree.Replace.{
  in_order-replace, All-swap, IsFor, Sorted-swap, total-swap, lookup-swap, All-lookup,
}
use duperemove.SearchTree.Erase.{total-erase, lookup-remove}

module _ {ℓ κ} {K : Type κ} {A : Type ℓ} (o : Order K) (key : A → K) where
  abbrev pub SortedTree : Tree A → Type 0
  SortedTree t = Sorted o key (in_order t)

  pub record Added (a : A) (t t' : Tree A) : Type (ℓ ⊔ κ ⊔ 1) where
    pub sorted : SortedTree t'
    pub keeps : (P : A → Type 0) → P a → All P (in_order t) → All P (in_order t')
    pub sum : (g : A → ℕ) → total g (in_order t') ≡ g a + total g (in_order t)
    pub there : find o key t' (key a) ≡ some a

  pub record Written (old a : A) (t t' : Tree A) : Type (ℓ ⊔ κ ⊔ 1) where
    pub sorted : SortedTree t'
    pub keeps : (P : A → Type 0) → P a → All P (in_order t) → All P (in_order t')
    pub sum : (g : A → ℕ) → g old + total g (in_order t') ≡ g a + total g (in_order t)
    pub there : find o key t' (key a) ≡ some a

  pub record Taken (old : A) (t t' : Tree A) : Type (ℓ ⊔ κ ⊔ 1) where
    pub sorted : SortedTree t'
    pub keeps : (P : A → Type 0) → All P (in_order t) → All P (in_order t')
    pub sum : (g : A → ℕ) → g old + total g (in_order t') ≡ total g (in_order t)
    pub gone : find o key t' (key old) ≡ none

  pub All-find :
      (P : A → Type 0) (t : Tree A) (k : K) (a : A)
      → SortedTree t
      → All P (in_order t)
      → find o key t k ≡ some a
      → P a
  All-find P t k a s h found =
      All-lookup o key P (in_order t) k a h (sym (find-lookup o key t k s) ∙ found)

  pub insert-Added :
      (rb : Rbtree A) (a : A) (t : Tree A)
      → SortedTree t
      → find o key t (key a) ≡ none
      → (t' : Tree A) × (insert o key rb a t ≡ some t') × Added a t t'
  insert-Added rb a t s absent =
      let (t', made, p) = insert_of_absent o key rb a t s absent in
      (
        t',
        made,
        record {
          sorted = Put-Sorted o key a s p;
          keeps = λ P pa h. Put-All o key P a pa h p;
          sum = λ g. total-Put o key g a p;
          there = find-Put o key a t t' (key a) s p ∙ rw (o.cmp_refl (key a)) refl;
        },
      )

  pub replace-Written :
      (test : A → Bool) (old a : A) (t : Tree A)
      → IsFor o key (key a) test
      → SortedTree t
      → find o key t (key a) ≡ some old
      → Written old a t (replace test a t)
  replace-Written test old a t for s found =
      let listed = in_order-replace test a t in
      let at_old = sym (find-lookup o key t (key a) s) ∙ found in
      let s' : SortedTree (replace test a t) =
        rw listed (Sorted-swap o key test a (in_order t) for s) in
      record {
        sorted = s';
        keeps = λ P pa h. rw listed (All-swap P test a (in_order t) pa h);
        sum = λ g.
            let e = total-swap o key g test a old (in_order t) for s at_old in
            rw listed (omega arith);
        there =
            find-lookup o key (replace test a t) (key a) s'
            ∙ ap (λ l. lookup o key l (key a)) listed
            ∙ lookup-swap o key test a old (in_order t) for at_old;
      }

  pub erase-Taken :
      (rb : Rbtree A) (test : A → Bool) (old : A) (t : Tree A)
      → IsFor o key (key old) test
      → SortedTree t
      → find o key t (key old) ≡ some old
      → Taken old t (rb.erase test t)
  erase-Taken rb test old t for s found =
      let listed = rb.erase_lem test t in
      let at_old = sym (find-lookup o key t (key old) s) ∙ found in
      let s' : SortedTree (rb.erase test t) = rw listed (Sorted-remove o key test (in_order t) s) in
      record {
        sorted = s';
        keeps = λ P h. rw listed (All-remove P test (in_order t) h);
        sum = λ g. rw listed (total-erase o key g (key old) test old (in_order t) for s at_old);
        gone =
            find-lookup o key (rb.erase test t) (key old) s'
            ∙ rw listed (lookup-remove o key (key old) test (in_order t) for s);
      }
