-- ===== src/Util/Tests.antt =====
-- parse_size on "128k", "16e" and "12x".
use duperemove.Prelude.{ℕ, ◌*◌, ◌%◌, ◌^◌, ◌≡◌, refl, false, List, [], ◌∷◌, ◌++◌, arith}
use duperemove.Util.{value, exits, isdigit, strtoull, after_digits, scale, first_digit, parse_size}
use duperemove.Util.Size.{IsSuffix, parse_size-digits}

size_128k : parse_size (49 ∷ 50 ∷ 56 ∷ 107 ∷ []) ≡ value 131072
unfolding parse_size strtoull after_digits scale first_digit
size_128k = refl

-- The product does not fit into 64 bits.
size_16e : parse_size (49 ∷ 54 ∷ 101 ∷ []) ≡ value 0
unfolding parse_size strtoull after_digits scale first_digit
size_16e = refl

size_12x : parse_size (49 ∷ 50 ∷ 120 ∷ []) ≡ exits 1
unfolding parse_size strtoull after_digits scale first_digit
size_12x = refl

parse_size-digits_example :
    (parse_size (49 ∷ (50 ∷ 56 ∷ []) ++ []) ≡ value 128)
    × ((c k : ℕ)
        → IsSuffix c k
        → (parse_size (49 ∷ (50 ∷ 56 ∷ []) ++ c ∷ []) ≡ value ((128 * 1024 ^ k) % 2 ^ 64))
          × ((c' : ℕ) (cs : List ℕ) → parse_size (49 ∷ (50 ∷ 56 ∷ []) ++ c ∷ c' ∷ cs) ≡ exits 51))
    × ((c : ℕ) (cs : List ℕ)
        → isdigit c ≡ false
        → ((k : ℕ) → ¬ IsSuffix c k)
        → parse_size (49 ∷ (50 ∷ 56 ∷ []) ++ c ∷ cs) ≡ exits 1)
parse_size-digits_example =
    parse_size-digits 49 (50 ∷ 56 ∷ []) (refl, (refl, (refl, tt))) (omega arith)
