-- ===== src/SearchTree/Sorted.antt =====
-- On a sorted tree the walks of SearchTree.antt find and insert what a sorted list would.
use duperemove.Prelude.{
  ◌≡◌, refl, ap, ◌∙◌, Option, none, some, List, [], ◌∷◌, ◌++◌, All, All-append_left,
  All-append_right,
}
use duperemove.Prelude.Order.{Order, Order3, less, same, more}
use duperemove.SearchTree.{
  Tree, leaf, node, in_order, Rbtree, descend, map_option, find, link, insert, lookup, put,
}

pub data Split3 (o : Order3) : Type 0 where
  is_less : o ≡ less → Split3 o
  is_same : o ≡ same → Split3 o
  is_more : o ≡ more → Split3 o

pub split3 : (o : Order3) → Split3 o
split3 less = is_less refl
split3 same = is_same refl
split3 more = is_more refl

module _ {ℓ κ} {K : Type κ} {A : Type ℓ} (o : Order K) (key : A → K) where
  -- Each element comes before those behind it.
  abbrev pub Sorted : List A → Type 0
  Sorted [] = Unit
  Sorted (x ∷ xs) = All (λ y. o.cmp (key x) (key y) ≡ less) xs × Sorted xs

  abbrev pub Before : K → List A → Type 0
  Before k xs = All (λ y. o.cmp (key y) k ≡ less) xs

  abbrev pub Behind : K → List A → Type 0
  Behind k xs = All (λ y. o.cmp k (key y) ≡ less) xs

  pub Sorted-left : (xs ys : List A) → Sorted (xs ++ ys) → Sorted xs
  Sorted-left [] ys s = tt
  Sorted-left (x ∷ xs) ys s = (All-append_left _ xs ys s.0, Sorted-left xs ys s.1)

  pub Sorted-right : (xs ys : List A) → Sorted (xs ++ ys) → Sorted ys
  Sorted-right [] ys s = s
  Sorted-right (x ∷ xs) ys s = Sorted-right xs ys s.1

  pub Before-middle :
      (xs : List A) (y : A) (ys : List A) → Sorted (xs ++ y ∷ ys) → Before (key y) xs
  Before-middle [] y ys s = tt
  Before-middle (x ∷ xs) y ys s =
      ((All-append_right _ xs (y ∷ ys) s.0).0, Before-middle xs y ys s.1)

  less_of_same : (a b c : K) → o.cmp a b ≡ same → o.cmp b c ≡ less → o.cmp a c ≡ less
  less_of_same a b c e l = rw (o.eq_of_same a b e) l

  pub lookup-append :
      (xs : List A) (y : A) (ys : List A) (k : K)
      → Before (key y) xs
      → lookup o key (xs ++ y ∷ ys) k
        ≡ descend (o.cmp k (key y)) (lookup o key xs k) (some y) (lookup o key ys k)
  lookup-append [] y ys k b = elim (split3 (o.cmp k (key y))) [
    | is_less e ↦ rw e refl
    | is_same e ↦ rw e refl
    | is_more e ↦ rw e refl
  ]
  lookup-append (x ∷ xs) y ys k b = elim (split3 (o.cmp k (key x))) [
    | is_less e ↦ rw (e, o.cmp_trans k (key x) (key y) e b.0) refl
    | is_same e ↦ rw (e, less_of_same k (key x) (key y) e b.0) refl
    | is_more e ↦ rw (e, lookup-append xs y ys k b.1) refl
  ]

  -- On a tree whose nodes are in the order of their keys, the walk of a lookup finds what a
  -- search of the nodes from left to right finds.
  pub find-lookup :
      (t : Tree A) (k : K) → Sorted (in_order t) → find o key t k ≡ lookup o key (in_order t) k
  unfolding find
  find-lookup leaf k s = refl
  find-lookup (node l x r) k s =
      rw
        (
          find-lookup l k (Sorted-left (in_order l) (x ∷ in_order r) s),
          find-lookup r k (Sorted-right (in_order l) (x ∷ in_order r) s).1,
          lookup-append (in_order l) x (in_order r) k (Before-middle (in_order l) x (in_order r) s),
        )
        refl

  shift :
      (x y : A) (xs ys : List A) (c : Order3) (p q : Option (List A))
      → map_option
          (◌∷◌ x)
          (descend c (map_option (λ zs. zs ++ y ∷ ys) p) none (map_option (λ zs. xs ++ y ∷ zs) q))
        ≡ descend c
            (map_option (λ zs. zs ++ y ∷ ys) (map_option (◌∷◌ x) p))
            none
            (map_option (λ zs. x ∷ xs ++ y ∷ zs) q)
  shift x y xs ys less none q = refl
  shift x y xs ys less (some p) q = refl
  shift x y xs ys same p q = refl
  shift x y xs ys more p none = refl
  shift x y xs ys more p (some q) = refl

  pub put-append :
      (a : A) (xs : List A) (y : A) (ys : List A)
      → Before (key y) xs
      → put o key a (xs ++ y ∷ ys)
        ≡ descend
            (o.cmp (key a) (key y))
            (map_option (λ zs. zs ++ y ∷ ys) (put o key a xs))
            none
            (map_option (λ zs. xs ++ y ∷ zs) (put o key a ys))
  put-append a [] y ys b = elim (split3 (o.cmp (key a) (key y))) [
    | is_less e ↦ rw e refl
    | is_same e ↦ rw e refl
    | is_more e ↦ rw e refl
  ]
  put-append a (x ∷ xs) y ys b = elim (split3 (o.cmp (key a) (key x))) [
    | is_less e ↦ rw (e, o.cmp_trans (key a) (key x) (key y) e b.0) refl
    | is_same e ↦ rw (e, less_of_same (key a) (key x) (key y) e b.0) refl
    | is_more e ↦
        rw (e, put-append a xs y ys b.1)
          (shift x y xs ys (o.cmp (key a) (key y)) (put o key a xs) (put o key a ys))
  ]

  flatten :
      (l : Tree A) (y : A) (r : Tree A) (c : Order3) (p q : Option (Tree A))
      → map_option in_order
          (descend c (map_option (λ t. node t y r) p) none (map_option (node l y) q))
        ≡ descend c
            (map_option (λ zs. zs ++ y ∷ in_order r) (map_option in_order p))
            none
            (map_option (λ zs. in_order l ++ y ∷ zs) (map_option in_order q))
  flatten l y r less none q = refl
  flatten l y r less (some p) q = refl
  flatten l y r same p q = refl
  flatten l y r more p none = refl
  flatten l y r more p (some q) = refl

  -- The list that an insertion leaves behind.
  pub link-put :
      (a : A) (t : Tree A)
      → Sorted (in_order t)
      → map_option in_order (link o key a t) ≡ put o key a (in_order t)
  unfolding link
  link-put a leaf s = refl
  link-put a (node l y r) s =
      rw
        (
          flatten l y r (o.cmp (key a) (key y)) (link o key a l) (link o key a r),
          link-put a l (Sorted-left (in_order l) (y ∷ in_order r) s),
          link-put a r (Sorted-right (in_order l) (y ∷ in_order r) s).1,
          put-append a (in_order l) y (in_order r) (Before-middle (in_order l) y (in_order r) s),
        )
        refl

  recolor :
      (rb : Rbtree A) (p : Option (Tree A))
      → map_option in_order (map_option rb.insert_color p) ≡ map_option in_order p
  recolor rb none = refl
  recolor rb (some t) = ap some (rb.insert_color_lem t)

  -- On such a tree, with any balancing that keeps the order of the nodes, an insertion leaves
  -- the sorted list of the old nodes with the new one at its place, and is refused when and only
  -- when that list has a node with the same key.
  pub insert-put :
      (rb : Rbtree A) (a : A) (t : Tree A)
      → Sorted (in_order t)
      → map_option in_order (insert o key rb a t) ≡ put o key a (in_order t)
  unfolding insert
  insert-put rb a t s = recolor rb (link o key a t) ∙ link-put a t s
