-- ===== src/SearchTree.antt =====
-- The search trees of the program: the walks that each file writes out by hand over the nodes of
-- a red-black tree (hash-tree.c, filerec.c, results-tree.c). The tree's own library, rbtree.c, is a
-- copy of the kernel's: `rb_insert_color`, `rb_erase` and `rb_first` are the fields of `Rbtree`.
pub mod Sorted
pub mod Put
pub mod Bag
pub mod Insert
pub mod Keys
pub mod Plain
pub mod Replace
pub mod Erase
pub mod Write
pub mod Member
pub mod Mapped
mod Tests
use duperemove.Prelude.{
  ℕ, ◌≡◌, Bool, true, false, Option, none, some, List, [], ◌∷◌, ◌++◌, if◌then◌else◌, is_empty,
}
use duperemove.Prelude.Order.{Order, Order3, less, same, more}

pub data Tree {ℓ} (A : Type ℓ) : Type ℓ where
  leaf : Tree A
  node : Tree A → A → Tree A → Tree A

abbrev pub in_order {ℓ} : {A : Type ℓ} → Tree A → List A
in_order leaf = []
in_order (node l x r) = in_order l ++ x ∷ in_order r

abbrev pub head? {ℓ} : {A : Type ℓ} → List A → Option A
head? [] = none
head? (x ∷ xs) = some x

-- The list without the first element that passes the test.
abbrev pub remove_first {ℓ} : {A : Type ℓ} → (A → Bool) → List A → List A
remove_first t [] = []
remove_first t (x ∷ xs) = if t x then xs else (x ∷ remove_first t xs)

-- A write to the node that passes the test.
abbrev pub replace {ℓ} : {A : Type ℓ} → (A → Bool) → A → Tree A → Tree A
replace p a leaf = leaf
replace p a (node l x r) = node (replace p a l) (if p x then a else x) (replace p a r)

-- A loop from `rb_first` along `rb_next` that writes to each node.
abbrev pub map_tree {ℓ} : {A : Type ℓ} → (A → A) → Tree A → Tree A
map_tree f leaf = leaf
map_tree f (node l x r) = node (map_tree f l) (f x) (map_tree f r)

-- What the walks rely on: rebalancing keeps the nodes and their order, erasing takes out the one
-- node, and `rb_first` is the leftmost node.
pub record Rbtree {ℓ} (A : Type ℓ) : Type ℓ where
  pub insert_color : Tree A → Tree A
  pub erase : (A → Bool) → Tree A → Tree A
  pub first : Tree A → Option A
  pub insert_color_lem : (t : Tree A) → in_order (insert_color t) ≡ in_order t
  pub erase_lem : (p : A → Bool) (t : Tree A) → in_order (erase p t) ≡ remove_first p (in_order t)
  pub first_lem : (t : Tree A) → first t ≡ head? (in_order t)

abbrev pub descend {ℓ} : {A : Type ℓ} → Order3 → A → A → A → A
descend less a b c = a
descend same a b c = b
descend more a b c = c

abbrev pub map_option {ℓ κ} : {A : Type ℓ} {B : Type κ} → (A → B) → Option A → Option B
map_option f none = none
map_option f (some a) = some (f a)

module _ {ℓ κ} {K : Type κ} {A : Type ℓ} (o : Order K) (key : A → K) where
  -- The loop `while (n)` of a lookup.
  unfoldable pub find : Tree A → K → Option A
  find leaf k = none
  find (node l x r) k = descend (o.cmp k (key x)) (find l k) (some x) (find r k)

  -- The loop `while (*p)` of an insertion and `rb_link_node` at the empty place it ends at; `none`
  -- when it meets a node with the same key.
  unfoldable pub link : A → Tree A → Option (Tree A)
  link x leaf = some (node leaf x leaf)
  link x (node l y r) =
      let left = map_option (λ t. node t y r) (link x l) in
      let right = map_option (node l y) (link x r) in
      descend (o.cmp (key x) (key y)) left none right

  -- An insertion: the walk, then `rb_insert_color`.
  unfoldable pub insert : Rbtree A → A → Tree A → Option (Tree A)
  insert rb x t = map_option rb.insert_color (link x t)

  -- Lookup and insertion in a sorted list, which the walks implement.
  abbrev pub lookup : List A → K → Option A
  lookup [] k = none
  lookup (x ∷ xs) k = descend (o.cmp k (key x)) none (some x) (lookup xs k)

  abbrev pub put : A → List A → Option (List A)
  put x [] = some (x ∷ [])
  put x (y ∷ ys) =
      let rest = map_option (◌∷◌ y) (put x ys) in
      descend (o.cmp (key x) (key y)) (some (x ∷ y ∷ ys)) none rest
