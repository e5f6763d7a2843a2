-- ===== src/Dedupe/Engine/Align.antt =====
-- set_aligned_same_length: the length that is asked of the kernel.
use native.Mathlib.Nat.{le-div_iff_mul-le, div-mul-le_self}
use duperemove.Prelude.{
  ◌⊎◌, inl, inr, ◌≤◌, ℕ, ◌-◌, ◌*◌, ◌/◌, ◌%◌, ◌^◌, ◌<◌, ◌≡◌, arith, ltb, if◌then◌else◌,
}
use duperemove.Prelude.Word.{sub32}
use duperemove.Dedupe.{Same}
use duperemove.Dedupe.Engine.{set_aligned_same_length}
use duperemove.Dedupe.Engine.Mask.{bit_and-mask, two_pow_pos, two_pow_lt}

-- With a block size of 2 ^ k bytes, a length above one block is cut to its lowest 32 bits, rounded
-- down to whole blocks; any other length is asked for as it is.
pub src_length-aligned :
    (k len : ℕ) (same : Same)
    → k < 32
    → (set_aligned_same_length (2 ^ k) len same).src_length
      ≡ (if ltb (2 ^ k) len then len % 2 ^ 32 / 2 ^ k * 2 ^ k else len)
unfolding set_aligned_same_length
src_length-aligned k len same h =
    let lt : 2 ^ k < 2 ^ 32 = two_pow_lt k (32 - k) (omega arith) (omega arith) in
    let mask : 2 ^ 32 - 1 - sub32 (2 ^ k) 1 ≡ 2 ^ 32 - 2 ^ k = omega (arith, two_pow_pos k) in
    rw mask (ground (arith, two_pow_pos k, bit_and-mask k (32 - k) len (omega arith)))

-- A block size that the file system may answer.
pub record IsBlock (n : ℕ) : Type 0 where
  pub exponent : ℕ
  pub small : exponent < 32
  pub power : n ≡ 2 ^ exponent

pub IsBlock-pos : {n : ℕ} → IsBlock n → 0 < n
IsBlock-pos b = rw b.power (two_pow_pos b.exponent)

floor_pos : (len b : ℕ) → 0 < b → b < len → 0 < len / b * b
floor_pos len b h lt =
    let one_block : 1 * b ≤ len = omega arith in
    let fits : 1 ≤ len / b = (le-div_iff_mul-le h).1 one_block in grind (arith, fits)

-- Below 4 GiB a length that is not zero asks for something, and for no more than there is.
pub src_length_bounds :
    (n len : ℕ) (same : Same)
    → (n ≡ 0) ⊎ IsBlock n
    → 0 < len
    → len < 2 ^ 32
    → (0 < (set_aligned_same_length n len same).src_length)
      × ((set_aligned_same_length n len same).src_length ≤ len)
src_length_bounds n len same (inl none_yet) pos small =
    unfold set_aligned_same_length in rw none_yet (ground arith)
src_length_bounds n len same (inr b) pos small =
    let p : ℕ = 2 ^ b.exponent in
    let cut : len % 2 ^ 32 ≡ len = omega arith in
    let e = src_length-aligned b.exponent len same b.small in
    rw (b.power, e, cut)
      (ground (arith, floor_pos len p (two_pow_pos b.exponent), div-mul-le_self len p))

-- A block size fits into an unsigned int.
pub IsBlock-word : {n : ℕ} → IsBlock n → n % 2 ^ 32 ≡ n
IsBlock-word {n} b =
    let small : 2 ^ b.exponent < 2 ^ 32 =
      two_pow_lt b.exponent (32 - b.exponent) (let e = b.small in omega arith)
        (let e = b.small in omega arith) in
    let power = b.power in ground arith
