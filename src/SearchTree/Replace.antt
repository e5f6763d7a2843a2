-- ===== src/SearchTree/Replace.antt =====
-- A write to one node of a tree that keeps the node's key.
use duperemove.Prelude.{
  ℕ, ◌+◌, ◌≡◌, ◌≢◌, ◌↔◌, refl, ap, ◌∙◌, Bool, true, false, Option, none, some, List, [], ◌∷◌, ◌++◌,
  map, All, arith, Bool-cases, inl, inr, if◌then◌else◌,
}
use mathlib.Core.Path.{sym, subst}
use mathlib.Core.Option.{some-injective}
use duperemove.Prelude.Order.{Order, Order3, less, same, more}
use duperemove.SearchTree.{Tree, leaf, node, in_order, replace, lookup}
use duperemove.SearchTree.Sorted.{Sorted, split3, is_less, is_same, is_more}
use duperemove.SearchTree.Bag.{total}

module _ {ℓ} {A : Type ℓ} where
  abbrev pub swap : (A → Bool) → A → A → A
  swap p a x = if p x then a else x

  pub map-append : (f : A → A) (xs ys : List A) → map f (xs ++ ys) ≡ map f xs ++ map f ys
  map-append f [] ys = refl
  map-append f (x ∷ xs) ys = ap (◌∷◌ (f x)) (map-append f xs ys)

  pub in_order-replace :
      (p : A → Bool) (a : A) (t : Tree A) → in_order (replace p a t) ≡ map (swap p a) (in_order t)
  in_order-replace p a leaf = refl
  in_order-replace p a (node l x r) =
      rw
        (
          in_order-replace p a l,
          in_order-replace p a r,
          map-append (swap p a) (in_order l) (x ∷ in_order r),
        )
        refl

  pub All-swap {κ} :
      (P : A → Type κ) (p : A → Bool) (a : A) (xs : List A)
      → P a
      → All P xs
      → All P (map (swap p a) xs)
  All-swap P p a [] pa h = tt
  All-swap P p a (x ∷ xs) pa h = elim (Bool-cases (p x)) [
    | inl e ↦ (rw e pa, All-swap P p a xs pa h.1)
    | inr e ↦ (rw e h.0, All-swap P p a xs pa h.1)
  ]

module _ {ℓ κ} {K : Type κ} {A : Type ℓ} (o : Order K) (key : A → K) where
  -- The test is for one key.
  abbrev pub IsFor : K → (A → Bool) → Type (ℓ ⊔ κ)
  IsFor k p = (x : A) → (p x ≡ true) ↔ (key x ≡ k)

  swap-key : (p : A → Bool) (a x : A) → IsFor (key a) p → key (swap p a x) ≡ key x
  swap-key p a x h = elim (Bool-cases (p x)) [ inl e ↦ rw e (sym ((h x).0 e)) | inr e ↦ rw e refl ]

  behind-swap :
      (p : A → Bool) (a : A) (k : K) (xs : List A)
      → IsFor (key a) p
      → All (λ y. o.cmp k (key y) ≡ less) xs
      → All (λ y. o.cmp k (key y) ≡ less) (map (swap p a) xs)
  behind-swap p a k [] h b = tt
  behind-swap p a k (x ∷ xs) h b =
      (subst (λ n. o.cmp k n ≡ less) (sym (swap-key p a x h)) b.0, behind-swap p a k xs h b.1)

  pub Sorted-swap :
      (p : A → Bool) (a : A) (xs : List A)
      → IsFor (key a) p
      → Sorted o key xs
      → Sorted o key (map (swap p a) xs)
  Sorted-swap p a [] h s = tt
  Sorted-swap p a (x ∷ xs) h s = (
    subst (λ n. All (λ y. o.cmp n (key y) ≡ less) (map (swap p a) xs)) (sym (swap-key p a x h))
        (behind-swap p a (key x) xs h s.0),
    Sorted-swap p a xs h s.1,
  )

  none_not_some : {b : A} → ◌≢◌ {A = Option A} none (some b)
  none_not_some e = cc

  miss : (p : A → Bool) (a x : A) → IsFor (key a) p → o.cmp (key a) (key x) ≢ same → p x ≡ false
  miss p a x h apart = elim (Bool-cases (p x)) [
    | inl e ↦
        absurd (apart (subst (λ k. o.cmp (key a) k ≡ same) (sym ((h x).0 e)) (o.cmp_refl (key a))))
    | inr e ↦ e
  ]

  less_not_same : {c : Order3} → c ≡ less → c ≢ same
  less_not_same e e' = cc

  more_not_same : {c : Order3} → c ≡ more → c ≢ same
  more_not_same e e' = cc

  total-behind :
      (g : A → ℕ) (p : A → Bool) (a : A) (xs : List A)
      → IsFor (key a) p
      → All (λ y. o.cmp (key a) (key y) ≡ less) xs
      → total g (map (swap p a) xs) ≡ total g xs
  total-behind g p a [] h b = refl
  total-behind g p a (x ∷ xs) h b =
      rw (miss p a x h (less_not_same b.0), total-behind g p a xs h b.1) refl

  -- A sum over the list after the write.
  pub total-swap :
      (g : A → ℕ) (p : A → Bool) (a old : A) (xs : List A)
      → IsFor (key a) p
      → Sorted o key xs
      → lookup o key xs (key a) ≡ some old
      → total g (map (swap p a) xs) + g old ≡ total g xs + g a
  total-swap g p a old [] h s e = absurd (none_not_some e)
  total-swap g p a old (x ∷ xs) h s e = elim (split3 (o.cmp (key a) (key x))) [
    | is_less c ↦ absurd (none_not_some (sym (rw c refl) ∙ e))
    | is_same c ↦
        let k = o.eq_of_same (key a) (key x) c in
        let hit = (h x).1 (sym k) in
        let it = some-injective x old (sym (rw c refl) ∙ e) in
        let rest =
          total-behind g p a xs h (subst (λ n. All (λ y. o.cmp n (key y) ≡ less) xs) (sym k) s.0) in
        rw hit (
          subst (λ m. g a + total g (map (swap p a) xs) + g m ≡ g x + total g xs + g a) it
            (omega (arith, rest)))
    | is_more c ↦
        let passed = miss p a x h (more_not_same c) in
        let rest = total-swap g p a old xs h s.1 (sym (rw c refl) ∙ e) in
        rw passed (omega (arith, rest))
  ]

  pub All-lookup {μ} :
      (P : A → Type μ) (xs : List A) (k : K) (x : A) → All P xs → lookup o key xs k ≡ some x → P x
  All-lookup P [] k x h e = absurd (none_not_some e)
  All-lookup P (y ∷ ys) k x h e = elim (split3 (o.cmp k (key y))) [
    | is_less c ↦ absurd (none_not_some (sym (rw c refl) ∙ e))
    | is_same c ↦ subst P (some-injective _ _ (sym (rw c refl) ∙ e)) h.0
    | is_more c ↦ All-lookup P ys k x h.1 (sym (rw c refl) ∙ e)
  ]

  -- What a lookup finds has the key.
  pub key_of_lookup : (xs : List A) (k : K) (x : A) → lookup o key xs k ≡ some x → key x ≡ k
  key_of_lookup [] k x e = absurd (none_not_some e)
  key_of_lookup (y ∷ ys) k x e = elim (split3 (o.cmp k (key y))) [
    | is_less c ↦ absurd (none_not_some (sym (rw c refl) ∙ e))
    | is_same c ↦
        subst (λ z. key z ≡ k) (some-injective _ _ (sym (rw c refl) ∙ e))
          (sym (o.eq_of_same k (key y) c))
    | is_more c ↦ key_of_lookup ys k x (sym (rw c refl) ∙ e)
  ]

  -- After the write a lookup finds the new value.
  pub lookup-swap :
      (p : A → Bool) (a old : A) (xs : List A)
      → IsFor (key a) p
      → lookup o key xs (key a) ≡ some old
      → lookup o key (map (swap p a) xs) (key a) ≡ some a
  lookup-swap p a old [] h e = absurd (none_not_some e)
  lookup-swap p a old (x ∷ xs) h e = elim (split3 (o.cmp (key a) (key x))) [
    | is_less c ↦ absurd (none_not_some (sym (rw c refl) ∙ e))
    | is_same c ↦ rw ((h x).1 (sym (o.eq_of_same (key a) (key x) c)), o.cmp_refl (key a)) refl
    | is_more c ↦
        rw (miss p a x h (more_not_same c), c) (lookup-swap p a old xs h (sym (rw c refl) ∙ e))
  ]
