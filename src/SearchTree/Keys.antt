-- ===== src/SearchTree/Keys.antt =====
-- A sorted list stays sorted, and is searched alike, under keys that agree on its elements.
use duperemove.Prelude.{◌≡◌, refl, List, [], ◌∷◌, All}
use mathlib.Core.Path.{sym}
use duperemove.Prelude.Order.{Order, less}
use duperemove.SearchTree.{lookup}
use duperemove.SearchTree.Sorted.{Sorted}

module _ {ℓ κ} {K : Type κ} {A : Type ℓ} (o : Order K) (key key' : A → K) where
  abbrev pub Agree : List A → Type κ
  Agree xs = All (λ x. key x ≡ key' x) xs

  behind-keys :
      (x : A) (xs : List A)
      → key x ≡ key' x
      → Agree xs
      → All (λ y. o.cmp (key x) (key y) ≡ less) xs
      → All (λ y. o.cmp (key' x) (key' y) ≡ less) xs
  behind-keys x [] e agree h = tt
  behind-keys x (y ∷ ys) e agree h = (rw (sym e, sym agree.0) h.0, behind-keys x ys e agree.1 h.1)

  pub Sorted-keys : (xs : List A) → Agree xs → Sorted o key xs → Sorted o key' xs
  Sorted-keys [] agree s = tt
  Sorted-keys (x ∷ xs) agree s = (behind-keys x xs agree.0 agree.1 s.0, Sorted-keys xs agree.1 s.1)

  pub lookup-keys : (xs : List A) (k : K) → Agree xs → lookup o key xs k ≡ lookup o key' xs k
  lookup-keys [] k agree = refl
  lookup-keys (x ∷ xs) k agree = rw (agree.0, lookup-keys xs k agree.1) refl
