-- ===== src/SearchTree/Plain.antt =====
-- A tree library that does not balance: erasing rebuilds the tree as a list. It shows that the laws
-- of `Rbtree` can hold.
use duperemove.Prelude.{◌≡◌, refl, ap, List, [], ◌∷◌}
use duperemove.SearchTree.{Tree, leaf, node, in_order, Rbtree, head?, remove_first}

abbrev pub spine {ℓ} : {A : Type ℓ} → List A → Tree A
spine [] = leaf
spine (x ∷ xs) = node leaf x (spine xs)

pub in_order-spine {ℓ} : {A : Type ℓ} (xs : List A) → in_order (spine xs) ≡ xs
in_order-spine [] = refl
in_order-spine (x ∷ xs) = ap (◌∷◌ x) (in_order-spine xs)

abbrev pub plain {ℓ} : (A : Type ℓ) → Rbtree A
plain A = record {
  insert_color = λ t. t;
  erase = λ p t. spine (remove_first p (in_order t));
  first = λ t. head? (in_order t);
  insert_color_lem = λ t. refl;
  erase_lem = λ p t. in_order-spine (remove_first p (in_order t));
  first_lem = λ t. refl;
}
