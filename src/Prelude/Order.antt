-- ===== src/Prelude/Order.antt =====
-- Total orders by comparison, as the search loops of the program use them.
use Prim.Native.Nat.{compare, Ordering}
use duperemove.Prelude.Int.{ℤ, pos_part, neg_part}
use Prim.Native.Nat.{ℕ, ◌+◌}
use mathlib.Core.Path.{◌≡◌, sym}
use native.Mathlib.Omega.{arith}

pub data Order3 : Type 0 where
  less same more : Order3

-- `cmp a b` answers `less` when `a` comes before `b`.
pub record Order {ℓ} (K : Type ℓ) : Type ℓ where
  pub cmp : K → K → Order3
  pub cmp_refl : (a : K) → cmp a a ≡ same
  pub eq_of_same : (a b : K) → cmp a b ≡ same → a ≡ b
  pub cmp_swap : (a b : K) → cmp a b ≡ less → cmp b a ≡ more
  pub cmp_swap' : (a b : K) → cmp a b ≡ more → cmp b a ≡ less
  pub cmp_trans : (a b c : K) → cmp a b ≡ less → cmp b c ≡ less → cmp a c ≡ less

abbrev pub cmp_ℕ : ℕ → ℕ → Order3
cmp_ℕ a b = elim (compare a b) [ Ordering.lt ↦ less | Ordering.eq ↦ same | Ordering.gt ↦ more ]

abbrev pub cmp_ℤ : ℤ → ℤ → Order3
cmp_ℤ a b = cmp_ℕ (pos_part a + neg_part b) (pos_part b + neg_part a)

abbrev pub then_by : Order3 → Order3 → Order3
then_by less o = less
then_by same o = o
then_by more o = more

-- First by the one number, then by the other.
abbrev pub cmp_pair : ℕ × ℕ → ℕ × ℕ → Order3
cmp_pair (a, b) (c, d) = then_by (cmp_ℕ a c) (cmp_ℕ b d)

pub cmp_ℕ_refl : (a : ℕ) → cmp_ℕ a a ≡ same
cmp_ℕ_refl a = ground arith

pub eq_of_cmp_ℕ : (a b : ℕ) → cmp_ℕ a b ≡ same → a ≡ b
eq_of_cmp_ℕ a b h = ground arith

pub cmp_ℕ_swap : (a b : ℕ) → cmp_ℕ a b ≡ less → cmp_ℕ b a ≡ more
cmp_ℕ_swap a b h = ground arith

pub cmp_ℕ_swap' : (a b : ℕ) → cmp_ℕ a b ≡ more → cmp_ℕ b a ≡ less
cmp_ℕ_swap' a b h = ground arith

pub cmp_ℕ_trans : (a b c : ℕ) → cmp_ℕ a b ≡ less → cmp_ℕ b c ≡ less → cmp_ℕ a c ≡ less
cmp_ℕ_trans a b c h k = ground arith

abbrev pub ℕ_order : Order ℕ
ℕ_order = record {
  cmp = cmp_ℕ;
  cmp_refl = cmp_ℕ_refl;
  eq_of_same = eq_of_cmp_ℕ;
  cmp_swap = cmp_ℕ_swap;
  cmp_swap' = cmp_ℕ_swap';
  cmp_trans = cmp_ℕ_trans;
}

-- From large to small.
abbrev pub reversed {ℓ} : {K : Type ℓ} → Order K → Order K
reversed o = record {
  cmp = λ a b. o.cmp b a;
  cmp_refl = o.cmp_refl;
  eq_of_same = λ a b h. sym (o.eq_of_same b a h);
  cmp_swap = λ a b h. o.cmp_swap b a h;
  cmp_swap' = λ a b h. o.cmp_swap' b a h;
  cmp_trans = λ a b c h k. o.cmp_trans c b a k h;
}

pub cmp_ℤ_refl : (a : ℤ) → cmp_ℤ a a ≡ same
cmp_ℤ_refl a = ground arith

pub eq_of_cmp_ℤ : (a b : ℤ) → cmp_ℤ a b ≡ same → a ≡ b
eq_of_cmp_ℤ a b h = ground arith

pub cmp_ℤ_swap : (a b : ℤ) → cmp_ℤ a b ≡ less → cmp_ℤ b a ≡ more
cmp_ℤ_swap a b h = ground arith

pub cmp_ℤ_swap' : (a b : ℤ) → cmp_ℤ a b ≡ more → cmp_ℤ b a ≡ less
cmp_ℤ_swap' a b h = ground arith

pub cmp_ℤ_trans : (a b c : ℤ) → cmp_ℤ a b ≡ less → cmp_ℤ b c ≡ less → cmp_ℤ a c ≡ less
cmp_ℤ_trans a b c h k = ground arith

abbrev pub ℤ_order : Order ℤ
ℤ_order = record {
  cmp = cmp_ℤ;
  cmp_refl = cmp_ℤ_refl;
  eq_of_same = eq_of_cmp_ℤ;
  cmp_swap = cmp_ℤ_swap;
  cmp_swap' = cmp_ℤ_swap';
  cmp_trans = cmp_ℤ_trans;
}

pub cmp_pair_refl : (a : ℕ × ℕ) → cmp_pair a a ≡ same
cmp_pair_refl (a, b) = ground arith

pub eq_of_cmp_pair : (a b : ℕ × ℕ) → cmp_pair a b ≡ same → a ≡ b
eq_of_cmp_pair (a, b) (c, d) h = ground arith

pub cmp_pair_swap : (a b : ℕ × ℕ) → cmp_pair a b ≡ less → cmp_pair b a ≡ more
cmp_pair_swap (a, b) (c, d) h = ground arith

pub cmp_pair_swap' : (a b : ℕ × ℕ) → cmp_pair a b ≡ more → cmp_pair b a ≡ less
cmp_pair_swap' (a, b) (c, d) h = ground arith

pub cmp_pair_trans :
    (a b c : ℕ × ℕ) → cmp_pair a b ≡ less → cmp_pair b c ≡ less → cmp_pair a c ≡ less
cmp_pair_trans (a, b) (c, d) (e, f) h k = ground arith

abbrev pub pair_order : Order (ℕ × ℕ)
pair_order = record {
  cmp = cmp_pair;
  cmp_refl = cmp_pair_refl;
  eq_of_same = eq_of_cmp_pair;
  cmp_swap = cmp_pair_swap;
  cmp_swap' = cmp_pair_swap';
  cmp_trans = cmp_pair_trans;
}
