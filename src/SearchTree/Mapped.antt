-- ===== src/SearchTree/Mapped.antt =====
-- A write to every node of a tree that keeps the keys.
use duperemove.Prelude.{ℕ, ◌≡◌, refl, List, [], ◌∷◌, map, All, arith}
use mathlib.Core.Path.{sym, subst}
use duperemove.Prelude.Order.{Order, less}
use duperemove.SearchTree.{Tree, leaf, node, in_order, map_tree}
use duperemove.SearchTree.Sorted.{Sorted}
use duperemove.SearchTree.Bag.{total}
use duperemove.SearchTree.Replace.{map-append}
use duperemove.SearchTree.Write.{SortedTree}

module _ {ℓ} {A : Type ℓ} where
  in_order-map : (f : A → A) (t : Tree A) → in_order (map_tree f t) ≡ map f (in_order t)
  in_order-map f leaf = refl
  in_order-map f (node l x r) =
      rw (in_order-map f l, in_order-map f r, map-append f (in_order l) (x ∷ in_order r)) refl

  total-map : (g : A → ℕ) (f : A → A) (xs : List A) → total g (map f xs) ≡ total (λ x. g (f x)) xs
  total-map g f [] = refl
  total-map g f (x ∷ xs) = omega (arith, total-map g f xs)

  All-map {κ} :
      (P : A → Type κ) (f : A → A)
      → ((x : A) → P x → P (f x))
      → (xs : List A) → All P xs
      → All P (map f xs)
  All-map P f h [] p = tt
  All-map P f h (x ∷ xs) p = (h x p.0, All-map P f h xs p.1)

  pub total-map_tree :
      (g : A → ℕ) (f : A → A) (t : Tree A)
      → total g (in_order (map_tree f t)) ≡ total (λ x. g (f x)) (in_order t)
  total-map_tree g f t = rw (in_order-map f t) (total-map g f (in_order t))

  pub All-map_tree {κ} :
      (P : A → Type κ) (f : A → A) (t : Tree A)
      → ((x : A) → P x → P (f x))
      → All P (in_order t)
      → All P (in_order (map_tree f t))
  All-map_tree P f t h p = rw (in_order-map f t) (All-map P f h (in_order t) p)

  All-written {κ} :
      (P : A → Type κ) (f : A → A) → ((x : A) → P (f x)) → (xs : List A) → All P (map f xs)
  All-written P f h [] = tt
  All-written P f h (x ∷ xs) = (h x, All-written P f h xs)

  -- What each write makes true.
  pub All-written_tree {κ} :
      (P : A → Type κ) (f : A → A) (t : Tree A)
      → ((x : A) → P (f x))
      → All P (in_order (map_tree f t))
  All-written_tree P f t h = rw (in_order-map f t) (All-written P f h (in_order t))

  pub total-same : (f g : A → ℕ) (xs : List A) → ((x : A) → f x ≡ g x) → total f xs ≡ total g xs
  total-same f g [] h = refl
  total-same f g (x ∷ xs) h = let first = h x in let rest = total-same f g xs h in omega arith

module _ {ℓ κ} {K : Type κ} {A : Type ℓ} (o : Order K) (key : A → K) (f : A → A)
    (same_key : (x : A) → key (f x) ≡ key x) where
  behind-map :
      (k : K) (xs : List A)
      → All (λ y. o.cmp k (key y) ≡ less) xs
      → All (λ y. o.cmp k (key y) ≡ less) (map f xs)
  behind-map k [] b = tt
  behind-map k (x ∷ xs) b =
      (subst (λ n. o.cmp k n ≡ less) (sym (same_key x)) b.0, behind-map k xs b.1)

  Sorted-map : (xs : List A) → Sorted o key xs → Sorted o key (map f xs)
  Sorted-map [] s = tt
  Sorted-map (x ∷ xs) s = (
    subst (λ n. All (λ y. o.cmp n (key y) ≡ less) (map f xs)) (sym (same_key x))
        (behind-map (key x) xs s.0),
    Sorted-map xs s.1,
  )

  pub map_tree-SortedTree : (t : Tree A) → SortedTree o key t → SortedTree o key (map_tree f t)
  map_tree-SortedTree t s = rw (in_order-map f t) (Sorted-map (in_order t) s)
