-- ===== src/Prelude/Word.antt =====
-- Unsigned words: sums and differences modulo 2 ^ w, and a mask of high bits.
use Prim.Native.Nat.{ℕ, ◌+◌, ◌-◌, ◌%◌, ◌^◌, ◌<◌}
use mathlib.Core.Path.{◌≡◌}
use native.Mathlib.Omega.{arith}

abbrev pub add16 : ℕ → ℕ → ℕ
add16 a b = (a + b) % 2 ^ 16

abbrev pub add32 : ℕ → ℕ → ℕ
add32 a b = (a + b) % 2 ^ 32

abbrev pub sub32 : ℕ → ℕ → ℕ
sub32 a b = (a + 2 ^ 32 - b) % 2 ^ 32

abbrev pub add64 : ℕ → ℕ → ℕ
add64 a b = (a + b) % 2 ^ 64

abbrev pub sub64 : ℕ → ℕ → ℕ
sub64 a b = (a + 2 ^ 64 - b) % 2 ^ 64

-- A word keeps its distance from another when the same amount is added to both.
pub sub64-add64 :
    (a b n : ℕ) → a < 2 ^ 64 → b < 2 ^ 64 → n < 2 ^ 64 → sub64 (add64 a n) (add64 b n) ≡ sub64 a b
sub64-add64 a b n ha hb hn = omega arith
