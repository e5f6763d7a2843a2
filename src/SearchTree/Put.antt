-- ===== src/SearchTree/Put.antt =====
-- Insertion into a sorted list: what it keeps, what it adds and when it is refused.
use duperemove.Prelude.{◌≡◌, refl, ap, ◌∙◌, Option, none, some, List, [], ◌∷◌, All, All-mono}
use duperemove.Prelude.Order.{Order, less, same, more}
use duperemove.SearchTree.{descend, map_option, lookup, put}
use duperemove.SearchTree.Sorted.{Sorted, split3, is_less, is_same, is_more}
use mathlib.Core.Path.{sym, subst}
use mathlib.Core.Option.{some-injective}

module _ {ℓ κ} {K : Type κ} {A : Type ℓ} (o : Order K) (key : A → K) where
  none_some : {B : Type ℓ} {C : Type ℓ} {b : B} → none ≡ some b → C
  none_some e = cc

  some_of_map :
      (x : A) (p : Option (List A)) (l : List A)
      → map_option (◌∷◌ x) p ≡ some l
      → (l' : List A) × (p ≡ some l') × (l ≡ x ∷ l')
  some_of_map x none l e = cc
  some_of_map x (some l') l e = (l', refl, cc)

  -- The list `ys` is `xs` with `a` at its place.
  pub data Put (a : A) : List A → List A → Type ℓ where
    at_end : Put a [] (a ∷ [])
    here : (x : A) (xs : List A) → o.cmp (key a) (key x) ≡ less → Put a (x ∷ xs) (a ∷ x ∷ xs)
    there :
        (x : A) (xs ys : List A)
        → o.cmp (key a) (key x) ≡ more
        → Put a xs ys
        → Put a (x ∷ xs) (x ∷ ys)

  put_less :
      (a x : A) (xs : List A)
      → o.cmp (key a) (key x) ≡ less
      → put o key a (x ∷ xs) ≡ some (a ∷ x ∷ xs)
  put_less a x xs c = rw c refl

  put_same : (a x : A) (xs : List A) → o.cmp (key a) (key x) ≡ same → put o key a (x ∷ xs) ≡ none
  put_same a x xs c = rw c refl

  put_more :
      (a x : A) (xs : List A)
      → o.cmp (key a) (key x) ≡ more
      → put o key a (x ∷ xs) ≡ map_option (◌∷◌ x) (put o key a xs)
  put_more a x xs c = rw c refl

  pub put-Put : (a : A) (xs ys : List A) → put o key a xs ≡ some ys → Put a xs ys
  put-Put a [] ys e = subst (Put a []) (some-injective _ _ e) at_end
  put-Put a (x ∷ xs) ys e = elim (split3 (o.cmp (key a) (key x))) [
    | is_less c ↦
        subst (Put a (x ∷ xs)) (some-injective _ _ (sym (put_less a x xs c) ∙ e)) (here x xs c)
    | is_same c ↦ none_some (sym (put_same a x xs c) ∙ e)
    | is_more c ↦
        let found = some_of_map x (put o key a xs) ys (sym (put_more a x xs c) ∙ e) in
        subst (Put a (x ∷ xs)) (sym found.2) (there x xs found.0 c (put-Put a xs found.0 found.1))
  ]

  -- Whatever holds of the new element and the old ones holds of the elements afterwards.
  pub Put-All {μ} :
      (P : A → Type μ) (a : A) {xs ys : List A} → P a → All P xs → Put a xs ys → All P ys
  Put-All P a pa h at_end = (pa, tt)
  Put-All P a pa h (here x xs c) = (pa, h)
  Put-All P a pa h (there x xs ys c p) = (h.0, Put-All P a pa h.1 p)

  pub Put-Sorted : (a : A) {xs ys : List A} → Sorted o key xs → Put a xs ys → Sorted o key ys
  Put-Sorted a s at_end = (tt, tt)
  Put-Sorted a s (here x xs c) = ((c, All-mono _ _ (λ y. o.cmp_trans _ _ (key y) c) xs s.0), s)
  Put-Sorted a s (there x xs ys c p) = (Put-All _ a (o.cmp_swap' _ _ c) s.0 p, Put-Sorted a s.1 p)

  -- After an insertion the new element is found under its key, the others are as before.
  pub lookup-Put :
      (a : A) {xs ys : List A} (k : K)
      → Sorted o key xs
      → Put a xs ys
      → lookup o key ys k
        ≡ descend (o.cmp k (key a)) (lookup o key xs k) (some a) (lookup o key xs k)
  lookup-Put a k s at_end = refl
  lookup-Put a k s (here x xs c) = elim (split3 (o.cmp k (key a))) [
    | is_less e ↦ rw (e, o.cmp_trans k (key a) (key x) e c) refl
    | is_same e ↦ rw e refl
    | is_more e ↦ rw e refl
  ]
  lookup-Put a k s (there x xs ys c p) = elim (split3 (o.cmp k (key x))) [
    | is_less e ↦ rw (e, o.cmp_trans k (key x) (key a) e (o.cmp_swap' _ _ c)) refl
    | is_same e ↦ rw (e, o.eq_of_same k (key x) e, o.cmp_swap' _ _ c) refl
    | is_more e ↦ rw (e, lookup-Put a k s.1 p) refl
  ]

  -- An insertion is refused when the key is there, and only then.
  pub put_of_absent :
      (a : A) (xs : List A)
      → Sorted o key xs
      → lookup o key xs (key a) ≡ none
      → (ys : List A) × (put o key a xs ≡ some ys)
  put_of_absent a [] s e = (a ∷ [], refl)
  put_of_absent a (x ∷ xs) s e = elim (split3 (o.cmp (key a) (key x))) [
    | is_less c ↦ (a ∷ x ∷ xs, put_less a x xs c)
    | is_same c ↦ none_some {b = x} (sym e ∙ rw c refl)
    | is_more c ↦
        let rest = put_of_absent a xs s.1 (sym (rw c refl) ∙ e) in
        (x ∷ rest.0, put_more a x xs c ∙ ap (map_option (◌∷◌ x)) rest.1)
  ]

  pub put_of_present :
      (a b : A) (xs : List A) → lookup o key xs (key a) ≡ some b → put o key a xs ≡ none
  put_of_present a b [] e = cc
  put_of_present a b (x ∷ xs) e = elim (split3 (o.cmp (key a) (key x))) [
    | is_less c ↦ none_some ((sym (rw c refl) ∙ e))
    | is_same c ↦ put_same a x xs c
    | is_more c ↦
        put_more a x xs c ∙ ap (map_option (◌∷◌ x)) (put_of_present a b xs (sym (rw c refl) ∙ e))
  ]
