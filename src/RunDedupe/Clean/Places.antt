-- ===== src/RunDedupe/Clean/Places.antt =====
-- A node in the middle of a record's tree: looked up, taken out, and what lies behind it.
use duperemove.Prelude.{
  ◌≡◌, ◌≢◌, refl, ap, ◌∙◌, true, false, some, List, [], ◌∷◌, ◌++◌, Bool-cases, inl, inr,
}
use mathlib.Core.Path.{sym}
use duperemove.Prelude.Order.{pair_order, less, same}
use duperemove.SearchTree.{lookup, remove_first}
use duperemove.SearchTree.Sorted.{Sorted, Before, Before-middle, lookup-append}
use duperemove.Results.{Extent, place}
use duperemove.Results.Remove.{is_at}
use duperemove.Results.Remove.Drop.{is_at-IsFor}
use duperemove.RunDedupe.Clean.{behind_first}

less_not_same : less ≢ same
less_not_same e = cc

-- No node before one has its place.
pub misses : (x y : Extent) → pair_order.cmp (place x) (place y) ≡ less → is_at (place y) x ≡ false
misses x y before = elim (Bool-cases (is_at (place y) x)) [
  | inl hit ↦ absurd (
      less_not_same (
        sym before
        ∙ ap (λ k. pair_order.cmp k (place y)) ((is_at-IsFor (place y) x).0 hit)
        ∙ pair_order.cmp_refl (place y)))
  | inr miss ↦ miss
]

hits : (y : Extent) → is_at (place y) y ≡ true
hits y = (is_at-IsFor (place y) y).1 refl

take_out-middle :
    (xs : List Extent) (y : Extent) (ys : List Extent)
    → Before pair_order place (place y) xs
    → remove_first (is_at (place y)) (xs ++ y ∷ ys) ≡ xs ++ ys
take_out-middle [] y ys b = rw (hits y) refl
take_out-middle (x ∷ xs) y ys b = rw (misses x y b.0, take_out-middle xs y ys b.1) refl

behind-middle :
    (xs : List Extent) (y : Extent) (ys : List Extent)
    → Before pair_order place (place y) xs
    → behind_first (is_at (place y)) (xs ++ y ∷ ys) ≡ ys
behind-middle [] y ys b = rw (hits y) refl
behind-middle (x ∷ xs) y ys b = rw (misses x y b.0, behind-middle xs y ys b.1) refl

-- A node of a sorted list with what is before and behind it.
pub record Middle (nodes before : List Extent) (y : Extent) (behind : List Extent) : Type 0 where
  pub found : lookup pair_order place nodes (place y) ≡ some y
  pub taken : remove_first (is_at (place y)) nodes ≡ before ++ behind
  pub behind_it : behind_first (is_at (place y)) nodes ≡ behind

pub middle :
    (xs : List Extent) (y : Extent) (ys : List Extent)
    → Sorted pair_order place (xs ++ y ∷ ys)
    → Middle (xs ++ y ∷ ys) xs y ys
middle xs y ys s =
    let b = Before-middle pair_order place xs y ys s in
    record {
      found =
          rw (lookup-append pair_order place xs y ys (place y) b, pair_order.cmp_refl (place y))
            refl;
      taken = take_out-middle xs y ys b;
      behind_it = behind-middle xs y ys b;
    }

-- A node moves from the front of the rest to the end of what is before it.
pub move : (xs : List Extent) (y : Extent) (ys : List Extent) → (xs ++ y ∷ []) ++ ys ≡ xs ++ y ∷ ys
move [] y ys = refl
move (x ∷ xs) y ys = ap (◌∷◌ x) (move xs y ys)

pub nothing_behind : (xs : List Extent) → xs ++ [] ≡ xs
nothing_behind [] = refl
nothing_behind (x ∷ xs) = ap (◌∷◌ x) (nothing_behind xs)

pub append_within :
    (xs : List Extent) (y : Extent) (ys zs : List Extent)
    → (xs ++ y ∷ ys) ++ zs ≡ xs ++ y ∷ (ys ++ zs)
append_within [] y ys zs = refl
append_within (x ∷ xs) y ys zs = ap (◌∷◌ x) (append_within xs y ys zs)
