-- ===== src/SearchTree/Bag.antt =====
-- A list seen as a bag: the sum of a measure over its elements, whatever their order.
use duperemove.Prelude.{
  ℕ, ◌+◌, ◌<◌, ◌≡◌, refl, Bool, true, List, [], ◌∷◌, ◌++◌, All, arith, Bool-cases, inl, inr,
  if◌then◌else◌, length,
}
use mathlib.Core.Path.{subst}
use duperemove.Prelude.Order.{Order}
use duperemove.SearchTree.{remove_first}
use duperemove.SearchTree.Sorted.{Sorted}
use duperemove.SearchTree.Put.{Put, at_end, here, there}

module _ {ℓ} {A : Type ℓ} where
  abbrev pub total : (A → ℕ) → List A → ℕ
  total f [] = 0
  total f (x ∷ xs) = f x + total f xs

  pub total-append : (f : A → ℕ) (xs ys : List A) → total f (xs ++ ys) ≡ total f xs + total f ys
  total-append f [] ys = omega arith
  total-append f (x ∷ xs) ys = omega (arith, total-append f xs ys)

  pub total-one : (xs : List A) → total (λ x. 1) xs ≡ length xs
  total-one [] = refl
  total-one (x ∷ xs) = omega (arith, total-one xs)

  pub total-Put {κ} :
      {K : Type κ} (o : Order K) (key : A → K) (f : A → ℕ) (a : A) {xs ys : List A}
      → Put o key a xs ys
      → total f ys ≡ f a + total f xs
  total-Put o key f a at_end = refl
  total-Put o key f a (here x xs c) = refl
  total-Put o key f a (there x xs ys c p) = omega (arith, total-Put o key f a p)

  pub All-remove {κ} :
      (P : A → Type κ) (t : A → Bool) (xs : List A) → All P xs → All P (remove_first t xs)
  All-remove P t [] h = tt
  All-remove P t (x ∷ xs) h = elim (Bool-cases (t x)) [
    | inl e ↦ rw e h.1
    | inr e ↦ rw e (h.0, All-remove P t xs h.1)
  ]

  pub Sorted-remove {κ} :
      {K : Type κ} (o : Order K) (key : A → K) (t : A → Bool) (xs : List A)
      → Sorted o key xs
      → Sorted o key (remove_first t xs)
  Sorted-remove o key t [] s = tt
  Sorted-remove o key t (x ∷ xs) s = elim (Bool-cases (t x)) [
    | inl e ↦ rw e s.1
    | inr e ↦ rw e (All-remove _ t xs s.0, Sorted-remove o key t xs s.1)
  ]

  -- Removing the element that the test picks out takes it, and nothing else, out of the bag.
  pub total-remove :
      (f : A → ℕ) (t : A → Bool) (a : A) (xs : List A)
      → ((x : A) → t x ≡ true → x ≡ a)
      → 0 < total (λ x. if t x then 1 else 0) xs
      → f a + total f (remove_first t xs) ≡ total f xs
  total-remove f t a [] only some_there = ground arith
  total-remove f t a (x ∷ xs) only some_there = elim (Bool-cases (t x)) [
    | inl e ↦ rw (e, only x e) refl
    | inr e ↦
        let ones = total (λ x. if t x then 1 else 0) xs in
        let h : 0 < 0 + ones = subst (λ b. 0 < (if b then 1 else 0) + ones) e some_there in
        let there : 0 < ones = omega arith in
        let rest = total-remove f t a xs only there in rw e (omega (arith, rest))
  ]
