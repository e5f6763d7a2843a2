-- ===== src/FindDupes/Length.antt =====
-- The length of a block of find_dupes.c.
use Prim.Native.Nat.{min}
use native.Mathlib.Nat.{mod-eq_of_lt}
use duperemove.Prelude.{
  false, ℕ, ◌+◌, ◌-◌, ◌^◌, ◌<◌, ◌≡◌, ◌%◌, arith, leb, leb→le, Bool-cases, inl, inr,
}
use duperemove.Prelude.Word.{add64, sub64}
use duperemove.FindDupes.{Block, block_len}

after : (a b : ℕ) → leb a b ≡ false → b < a
after a b h = ground arith

remainder :
    (n at blocksize : ℕ)
    → at < n
    → n < add64 at blocksize
    → at + blocksize < 2 ^ 64
    → n < 2 ^ 64
    → sub64 n at % blocksize ≡ n - at
remainder n at blocksize begun ends small file =
    let short : n - at < blocksize = omega arith in
    let whole : sub64 n at ≡ n - at = omega arith in rw whole (mod-eq_of_lt short)

-- For a block that begins less than 2^64 - blocksize bytes into a file, with blocks that are not
-- empty, `block_len` is what is left of the file, and at most a block.
pub block_len-min :
    (blocksize : ℕ) (size : ℕ → ℕ) (b : Block)
    → 0 < blocksize
    → b.b_loff + blocksize < 2 ^ 64
    → size b.b_file < 2 ^ 64
    → block_len blocksize size b ≡ min blocksize (size b.b_file - b.b_loff)
unfolding block_len
block_len-min blocksize size b positive small file =
    elim (Bool-cases (leb (add64 b.b_loff blocksize) (size b.b_file))) [
      | inl whole ↦ rw (block_len, whole) (let h = leb→le _ _ whole in omega arith)
      | inr tail ↦ elim (Bool-cases (leb (size b.b_file) b.b_loff)) [
        | inl past ↦ rw (block_len, tail, past) (let h = leb→le _ _ past in omega arith)
        | inr inside ↦
            rw
              (
                block_len,
                tail,
                inside,
                remainder (size b.b_file) b.b_loff blocksize (after _ _ inside) (after _ _ tail)
                    small file,
              )
              (let h = after _ _ tail in omega arith)
      ]
    ]
