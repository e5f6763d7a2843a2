-- ===== src/SearchTree/Member.antt =====
-- A measure that only elements with one key can have finds such an element.
use duperemove.Prelude.{
  ℕ, ◌<◌, ◌≤◌, ◌≡◌, ◌≢◌, refl, ap, ◌∙◌, ◌⊎◌, inl, inr, Option, none, some, List, [], ◌∷◌, All,
  arith,
}
use mathlib.Core.Path.{sym, subst}
use mathlib.Core.Option.{some-injective}
use duperemove.Prelude.Order.{Order, less, more}
use duperemove.SearchTree.{Tree, in_order, find, lookup}
use duperemove.SearchTree.Sorted.{Sorted, split3, is_less, is_same, is_more, find-lookup}
use duperemove.SearchTree.Bag.{total}
use duperemove.SearchTree.Replace.{All-lookup, key_of_lookup}
use duperemove.SearchTree.Erase.{lookup-head}
use duperemove.SearchTree.Write.{SortedTree}

zero_or_more : (n : ℕ) → (0 < n) ⊎ (n ≡ 0)
zero_or_more n = ground arith

module _ {ℓ κ} {K : Type κ} {A : Type ℓ} (o : Order K) (key : A → K) where
  lookup-behind :
      (x a : A) (xs : List A) (k : K)
      → All (λ y. o.cmp (key x) (key y) ≡ less) xs
      → lookup o key xs k ≡ some a
      → lookup o key (x ∷ xs) k ≡ some a
  lookup-behind x a xs k behind found =
      let same_key = key_of_lookup o key xs k a found in
      let before = All-lookup o key (λ y. o.cmp (key x) (key y) ≡ less) xs k a behind found in
      let after : o.cmp k (key x) ≡ more =
        o.cmp_swap (key x) k (subst (λ n. o.cmp (key x) n ≡ less) same_key before) in
      rw after found

  pub lookup_of_total :
      (g : A → ℕ) (k : K) (xs : List A)
      → Sorted o key xs
      → All (λ x. 0 < g x → key x ≡ k) xs
      → 0 < total g xs
      → (a : A) × (lookup o key xs k ≡ some a) × (0 < g a)
  lookup_of_total g k [] s h some_there = absurd (omega arith)
  lookup_of_total g k (x ∷ xs) s h some_there = elim (zero_or_more (g x)) [
    | inl it ↦
        (x, subst (λ n. lookup o key (x ∷ xs) n ≡ some x) (h.0 it) (lookup-head o key x xs), it)
    | inr other ↦
        let (a, found, it) = lookup_of_total g k xs s.1 h.1 (omega arith) in
        (a, lookup-behind x a xs k s.0 found, it)
  ]

  pub find_of_total :
      (g : A → ℕ) (k : K) (t : Tree A)
      → SortedTree o key t
      → All (λ x. 0 < g x → key x ≡ k) (in_order t)
      → 0 < total g (in_order t)
      → (a : A) × (find o key t k ≡ some a) × (0 < g a)
  find_of_total g k t s h some_there =
      let (a, found, it) = lookup_of_total g k (in_order t) s h some_there in
      (a, find-lookup o key t k s ∙ found, it)

  none_not_some : {a : A} → ◌≢◌ {A = Option A} none (some a)
  none_not_some e = cc

  -- What a lookup finds is in the bag.
  pub total_of_lookup :
      (g : A → ℕ) (k : K) (xs : List A) (a : A) → lookup o key xs k ≡ some a → g a ≤ total g xs
  total_of_lookup g k [] a found = absurd (none_not_some found)
  total_of_lookup g k (x ∷ xs) a found = elim (split3 (o.cmp k (key x))) [
    | is_less c ↦ absurd (none_not_some (sym (rw c refl) ∙ found))
    | is_same c ↦ let it = ap g (some-injective x a (sym (rw c refl) ∙ found)) in omega arith
    | is_more c ↦ let rest = total_of_lookup g k xs a (sym (rw c refl) ∙ found) in omega arith
  ]

  pub total_of_find :
      (g : A → ℕ) (k : K) (t : Tree A) (a : A)
      → SortedTree o key t
      → find o key t k ≡ some a
      → g a ≤ total g (in_order t)
  total_of_find g k t a s found =
      total_of_lookup g k (in_order t) a (sym (find-lookup o key t k s) ∙ found)

module _ {ℓ} {A : Type ℓ} where
  pub total_mono : (f g : A → ℕ) (xs : List A) → ((x : A) → f x ≤ g x) → total f xs ≤ total g xs
  total_mono f g [] h = omega arith
  total_mono f g (x ∷ xs) h = let first = h x in let rest = total_mono f g xs h in omega arith

  pub All-of_every {κ} : (P : A → Type κ) → ((x : A) → P x) → (xs : List A) → All P xs
  All-of_every P h [] = tt
  All-of_every P h (x ∷ xs) = (h x, All-of_every P h xs)
