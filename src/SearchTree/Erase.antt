-- ===== src/SearchTree/Erase.antt =====
-- Taking the node with a given key out of a sorted tree.
use duperemove.Prelude.{
  ℕ, ◌+◌, ◌<◌, ◌≡◌, ◌≢◌, refl, ◌∙◌, Bool, true, false, Option, none, some, List, [], ◌∷◌, All,
  arith, Bool-cases, inl, inr, if◌then◌else◌,
}
use mathlib.Core.Path.{sym, subst}
use mathlib.Core.Option.{some-injective}
use duperemove.Prelude.Order.{Order, Order3, less, same, more}
use duperemove.SearchTree.{lookup, remove_first}
use duperemove.SearchTree.Sorted.{Sorted, split3, is_less, is_same, is_more}
use duperemove.SearchTree.Bag.{total}
use duperemove.SearchTree.Replace.{IsFor}

module _ {ℓ} {A : Type ℓ} where
  -- Removing the one element of a list that passes a test takes it out of the bag.
  pub total-remove_only :
      (f : A → ℕ) (t : A → Bool) (a : A) (xs : List A)
      → All (λ x. t x ≡ true → x ≡ a) xs
      → 0 < total (λ x. if t x then 1 else 0) xs
      → f a + total f (remove_first t xs) ≡ total f xs
  total-remove_only f t a [] only some_there = ground arith
  total-remove_only f t a (x ∷ xs) only some_there = elim (Bool-cases (t x)) [
    | inl e ↦ rw (e, only.0 e) refl
    | inr e ↦
        let ones = total (λ x. if t x then 1 else 0) xs in
        let h : 0 < 0 + ones = subst (λ b. 0 < (if b then 1 else 0) + ones) e some_there in
        let there : 0 < ones = omega arith in
        let rest = total-remove_only f t a xs only.1 there in rw e (omega (arith, rest))
  ]

module _ {ℓ κ} {K : Type κ} {A : Type ℓ} (o : Order K) (key : A → K) where
  none_not_some : {b : A} → ◌≢◌ {A = Option A} none (some b)
  none_not_some e = cc

  less_not_same : {c : Order3} → c ≡ less → c ≢ same
  less_not_same e e' = cc

  more_not_same : {c : Order3} → c ≡ more → c ≢ same
  more_not_same e e' = cc

  true_not_false : true ≢ false
  true_not_false e = cc

  lookup-behind :
      (k : K) (xs : List A) → All (λ y. o.cmp k (key y) ≡ less) xs → lookup o key xs k ≡ none
  lookup-behind k [] b = refl
  lookup-behind k (x ∷ xs) b = rw b.0 refl

  pub lookup-head : (x : A) (xs : List A) → lookup o key (x ∷ xs) (key x) ≡ some x
  lookup-head x xs = rw (o.cmp_refl (key x)) refl

  -- Behind an element with the key, no other one has it.
  none_behind :
      (k : K) (t : A → Bool) (a : A) (xs : List A)
      → IsFor o key k t
      → All (λ y. o.cmp k (key y) ≡ less) xs
      → All (λ x. t x ≡ true → x ≡ a) xs
  none_behind k t a [] h b = tt
  none_behind k t a (x ∷ xs) h b = (
    λ e. absurd (less_not_same (subst (λ n. o.cmp k n ≡ less) ((h x).0 e) b.0) (o.cmp_refl k)),
    none_behind k t a xs h b.1,
  )

  -- In a sorted list the element that a lookup finds is the only one that a test for its key picks.
  pub only-lookup :
      (k : K) (t : A → Bool) (a : A) (xs : List A)
      → IsFor o key k t
      → Sorted o key xs
      → lookup o key xs k ≡ some a
      → All (λ x. t x ≡ true → x ≡ a) xs
  only-lookup k t a [] h s e = tt
  only-lookup k t a (x ∷ xs) h s e = elim (split3 (o.cmp k (key x))) [
    | is_less c ↦ absurd (none_not_some (sym (rw c refl) ∙ e))
    | is_same c ↦ (
      λ hit. some-injective x a (sym (rw c refl) ∙ e),
      none_behind k t a xs h
          (subst (λ n. All (λ y. o.cmp n (key y) ≡ less) xs) (sym (o.eq_of_same k (key x) c)) s.0),
    )
    | is_more c ↦ (
      λ hit.
          absurd
            (more_not_same c (subst (λ n. o.cmp k n ≡ same) (sym ((h x).0 hit)) (o.cmp_refl k))),
      only-lookup k t a xs h s.1 (sym (rw c refl) ∙ e),
    )
  ]

  pub counts-lookup :
      (k : K) (t : A → Bool) (a : A) (xs : List A)
      → IsFor o key k t
      → lookup o key xs k ≡ some a
      → 0 < total (λ x. if t x then 1 else 0) xs
  counts-lookup k t a [] h e = absurd (none_not_some e)
  counts-lookup k t a (x ∷ xs) h e = elim (split3 (o.cmp k (key x))) [
    | is_less c ↦ absurd (none_not_some (sym (rw c refl) ∙ e))
    | is_same c ↦ rw ((h x).1 (sym (o.eq_of_same k (key x) c))) (omega arith)
    | is_more c ↦ let rest = counts-lookup k t a xs h (sym (rw c refl) ∙ e) in omega arith
  ]

  pub total-erase :
      (f : A → ℕ) (k : K) (t : A → Bool) (a : A) (xs : List A)
      → IsFor o key k t
      → Sorted o key xs
      → lookup o key xs k ≡ some a
      → f a + total f (remove_first t xs) ≡ total f xs
  total-erase f k t a xs h s e =
      total-remove_only f t a xs (only-lookup k t a xs h s e) (counts-lookup k t a xs h e)

  -- After the removal no element has the key.
  pub lookup-remove :
      (k : K) (t : A → Bool) (xs : List A)
      → IsFor o key k t
      → Sorted o key xs
      → lookup o key (remove_first t xs) k ≡ none
  lookup-remove k t [] h s = refl
  lookup-remove k t (x ∷ xs) h s = elim (Bool-cases (t x)) [
    | inl hit ↦
        rw hit
          (lookup-behind k xs (subst (λ n. All (λ y. o.cmp n (key y) ≡ less) xs) ((h x).0 hit) s.0))
    | inr miss ↦
        let rest = lookup-remove k t xs h s.1 in
        elim (split3 (o.cmp k (key x))) [
          | is_less c ↦ rw miss (rw c refl)
          | is_same c ↦
              absurd (true_not_false (sym ((h x).1 (sym (o.eq_of_same k (key x) c))) ∙ miss))
          | is_more c ↦ rw miss (rw c rest)
        ]
  ]
