-- ===== src/Dedupe/Engine/Mask.antt =====
-- The mask of set_aligned_same_length: clearing the low bits of a length.
use Prim.Native.Nat.{min, bit_and, digits, bit_and-bitwise}
use native.Mathlib.Nat.{
  div-one, mul-add-div, div-eq_of_lt, mul-one, one-mul, add-mul-mod_self_left, mod-eq_of_lt, mod-lt,
  div-add-mod, div-div-eq-div-mul,
}
use duperemove.Prelude.{
  ℕ, zero, suc, ◌+◌, ◌-◌, ◌*◌, ◌/◌, ◌%◌, ◌^◌, ◌≤◌, ◌<◌, ◌≡◌, refl, sym, ap, ◌∙◌, arith,
}

-- The digit by digit conjunction for which the native operation stands, on fuel.
abbrev conj : ℕ → ℕ → ℕ → ℕ
conj fuel = digits (λ _. 0) min fuel

conj_one_more : (fuel x y : ℕ) → x ≤ fuel → conj (suc fuel) x y ≡ conj fuel x y
conj_one_more zero zero y le = refl
conj_one_more (suc fuel) zero y le = refl
conj_one_more zero (suc x) y le = elim le [ ]
conj_one_more (suc fuel) (suc x) y le =
    let halves = conj_one_more fuel (suc x / 2) (y / 2) (omega arith) in omega (arith, halves)

conj_enough : (extra fuel x y : ℕ) → fuel ≡ x + extra → conj fuel x y ≡ bit_and x y
conj_enough zero fuel x y e =
    let exact : fuel ≡ x = omega arith in rw (bit_and-bitwise x y) (ap (λ n. conj n x y) exact)
conj_enough (suc extra) zero x y e = absurd (omega arith)
conj_enough (suc extra) (suc fuel) x y e =
    conj_one_more fuel x y (omega arith) ∙ conj_enough extra fuel x y (omega arith)

-- The lowest digit, and the conjunction of the rest.
low_digit : (x y : ℕ) → bit_and x y ≡ 2 * bit_and (x / 2) (y / 2) + min (x % 2) (y % 2)
low_digit zero y = omega (arith, conj_enough 0 0 0 y refl, conj_enough 0 0 0 (y / 2) refl)
low_digit (suc x) y =
    let rest = conj_enough (x - suc x / 2) x (suc x / 2) (y / 2) (omega arith) in
    omega (arith, bit_and-bitwise (suc x) y, rest)

pow_step : (k : ℕ) → 2 ^ suc k ≡ 2 * 2 ^ k
pow_step k = omega arith

nothing : (k x : ℕ) → x < k → bit_and x 0 ≡ 0
nothing zero x lt = elim lt [ ]
nothing (suc k) zero lt = conj_enough 0 0 0 0 refl
nothing (suc k) (suc x) lt = omega (arith, low_digit (suc x) 0, nothing k (suc x / 2) (omega arith))

mod_unique : (m q r : ℕ) → r < m → (r + m * q) % m ≡ r
mod_unique m q r h = add-mul-mod_self_left r m q ∙ mod-eq_of_lt h

pow_pos : (k : ℕ) → 0 < 2 ^ k
pow_pos zero = omega arith
pow_pos (suc k) = omega (arith, pow_step k, pow_pos k)

mod_double : (a p : ℕ) → 0 < p → a % (2 * p) ≡ (a / 2 % p) * 2 + a % 2
mod_double a p h =
    let r : ℕ = (a / 2 % p) * 2 + a % 2 in
    let e : a ≡ r + 2 * p * (a / 2 / p) = grind (arith, div-add-mod (a / 2) p) in
    ap (λ x. x % (2 * p)) e ∙ mod_unique (2 * p) (a / 2 / p) r (omega (arith, mod-lt (a / 2) h))

-- A mask of w ones keeps the low w bits.
bit_and-ones : (w a : ℕ) → bit_and a (2 ^ w - 1) ≡ a % 2 ^ w
bit_and-ones zero a = omega (arith, nothing (suc a) a (omega arith))
bit_and-ones (suc w) a =
    let half : (2 ^ suc w - 1) / 2 ≡ 2 ^ w - 1 = omega (arith, pow_step w, pow_pos w) in
    let odd : (2 ^ suc w - 1) % 2 ≡ 1 = omega (arith, pow_step w, pow_pos w) in
    low_digit a (2 ^ suc w - 1)
    ∙ rw (half, odd, bit_and-ones w (a / 2), pow_step w)
        (omega (arith, mod_double a (2 ^ w) (pow_pos w)))

scaled : (c p q : ℕ) → q ≡ 2 * p → c * q ≡ 2 * (c * p)
scaled c p q e = ap (λ x. c * x) e ∙ omega arith

-- A mask of j ones above k zeros.
bit_and-shifted : (k j a : ℕ) → bit_and a ((2 ^ j - 1) * 2 ^ k) ≡ (a / 2 ^ k % 2 ^ j) * 2 ^ k
bit_and-shifted zero j a =
    rw (div-one a, mul-one (2 ^ j - 1), mul-one (a % 2 ^ j)) (bit_and-ones j a)
bit_and-shifted (suc k) j a =
    let m : ℕ = (2 ^ j - 1) * 2 ^ k in
    let half : 2 * m / 2 ≡ m = omega arith in
    let even : 2 * m % 2 ≡ 0 = omega arith in
    let deeper : a / 2 / 2 ^ k ≡ a / 2 ^ suc k =
      div-div-eq-div-mul a 2 (2 ^ k) ∙ ap (λ x. a / x) (sym (pow_step k)) in
    ap (bit_and a) (scaled (2 ^ j - 1) (2 ^ k) (2 ^ suc k) (pow_step k))
    ∙ low_digit a (2 * m)
    ∙ rw (half, even, bit_and-shifted k j (a / 2), deeper)
        (omega (arith, scaled (a / 2 ^ suc k % 2 ^ j) (2 ^ k) (2 ^ suc k) (pow_step k)))

pow_add : (k j n : ℕ) → k + j ≡ n → 2 ^ k * 2 ^ j ≡ 2 ^ n
pow_add zero j n e = let e' : j ≡ n = omega arith in rw (one-mul (2 ^ j)) (ap (λ x. 2 ^ x) e')
pow_add (suc k) j zero e = absurd (omega arith)
pow_add (suc k) j (suc n) e =
    omega
      (arith, pow_step k, pow_step n, pow_add k j n (omega arith), ap (λ x. x * 2 ^ j) (pow_step k))

-- The value of a word below b * j, counted in blocks of b.
mod_div : (a b j : ℕ) → 0 < b → 0 < j → a % (b * j) / b ≡ a / b % j
mod_div a b j hb hj =
    let s : ℕ = a / b % j in
    let r : ℕ = b * s + a % b in
    let below : r < b * j = grind (arith, mod-lt (a / b) hj, mod-lt a hb) in
    let parts : a ≡ r + b * j * (a / b / j) =
      omega (arith, div-add-mod a b, ap (λ x. b * x) (div-add-mod (a / b) j)) in
    let rest : a % (b * j) ≡ r =
      ap (λ x. x % (b * j)) parts ∙ mod_unique (b * j) (a / b / j) r below in
    rw (rest, mul-add-div hb s (a % b), div-eq_of_lt (mod-lt a hb)) (omega arith)

pred_mul : (j k : ℕ) → 0 < j → (j - 1) * k ≡ k * j - k
pred_mul zero k h = absurd (omega arith)
pred_mul (suc j) k h = let e : suc j - 1 ≡ j = omega arith in rw e (omega arith)

-- `x & ~(b - 1)` in 32 bits, for a block of b = 2 ^ k bytes.
pub bit_and-mask :
    (k j a : ℕ) → k + j ≡ 32 → bit_and a (2 ^ 32 - 2 ^ k) ≡ a % 2 ^ 32 / 2 ^ k * 2 ^ k
bit_and-mask k j a e =
    let whole : 2 ^ k * 2 ^ j ≡ 2 ^ 32 = pow_add k j 32 e in
    let mask : 2 ^ 32 - 2 ^ k ≡ (2 ^ j - 1) * 2 ^ k =
      omega (arith, whole, pred_mul (2 ^ j) (2 ^ k) (pow_pos j)) in
    rw (mask, bit_and-shifted k j a, ← mod_div a (2 ^ k) (2 ^ j) (pow_pos k) (pow_pos j), whole)

pub two_pow_pos : (k : ℕ) → 0 < 2 ^ k
two_pow_pos k = pow_pos k

-- A smaller power of two is at most half of 2 ^ 32.
pub two_pow_lt : (k j : ℕ) → k + j ≡ 32 → 0 < j → 2 ^ k < 2 ^ 32
two_pow_lt k (suc j) e h = grind (arith, pow_add k (suc j) 32 e, pow_pos k, pow_pos j, pow_step j)
two_pow_lt k zero e h = absurd (omega arith)
