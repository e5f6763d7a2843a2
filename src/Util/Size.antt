-- ===== src/Util/Size.antt =====
-- Which sizes parse_size reads.
use duperemove.Prelude.{
  ℕ, ◌+◌, ◌-◌, ◌*◌, ◌%◌, ◌^◌, ◌<◌, ◌≤◌, ◌≡◌, ◌⊎◌, inl, inr, refl, ap, ◌∙◌, true, false, none, some,
  List, [], ◌∷◌, ◌++◌, All, arith, ltb, ◌==◌, Bool-cases,
}
use mathlib.Core.Path.{sym, subst}
use duperemove.Util.{
  value, exits, isdigit, tolower, mult, strtoull, after_digits, scale, first_digit, parse_size,
}

-- The number that digits spell after `n`.
abbrev pub decimal : ℕ → List ℕ → ℕ
decimal n [] = n
decimal n (c ∷ cs) = decimal (n * 10 + (c - 48)) cs

abbrev pub AllDigits : List ℕ → Type 0
AllDigits ds = All (λ c. isdigit c ≡ true) ds

after_digits-digits :
    (ds rest : List ℕ) → AllDigits ds → first_digit rest ≡ false → after_digits (ds ++ rest) ≡ rest
unfolding after_digits first_digit
after_digits-digits [] [] h e = refl
after_digits-digits [] (c ∷ cs) h e = rw e refl
after_digits-digits (d ∷ ds) rest h e = rw h.0 (after_digits-digits ds rest h.1 e)

strtoull-digits :
    (n : ℕ) (ds rest : List ℕ)
    → AllDigits ds
    → first_digit rest ≡ false
    → decimal n ds < 2 ^ 64
    → strtoull n (ds ++ rest) ≡ decimal n ds
unfolding strtoull first_digit
strtoull-digits n [] [] h e small = let s : ltb n (2 ^ 64) ≡ true = ground arith in rw s refl
strtoull-digits n [] (c ∷ cs) h e small =
    let s : ltb n (2 ^ 64) ≡ true = ground arith in rw (e, s) refl
strtoull-digits n (d ∷ ds) rest h e small =
    rw h.0 (strtoull-digits (n * 10 + (d - 48)) ds rest h.1 e small)

-- The letters of the suffixes, and the power of 1024 that each stands for: b, k, m, g, t, p and e.
pub data Letter : ℕ → ℕ → Type 0 where
  bytes : Letter 98 0
  kilo : Letter 107 1
  mega : Letter 109 2
  giga : Letter 103 3
  tera : Letter 116 4
  peta : Letter 112 5
  exa : Letter 101 6

-- A character is a suffix when it is one of the letters, or its capital.
abbrev pub IsSuffix : ℕ → ℕ → Type 0
IsSuffix c k = (l : ℕ) × Letter l k × ((c ≡ l) ⊎ (c + 32 ≡ l))

mult-Letter : (l k : ℕ) → Letter l k → mult l ≡ some (1024 ^ k)
mult-Letter l k bytes = refl
mult-Letter l k kilo = refl
mult-Letter l k mega = refl
mult-Letter l k giga = refl
mult-Letter l k tera = refl
mult-Letter l k peta = refl
mult-Letter l k exa = refl

small_letter : (l k : ℕ) → Letter l k → (97 ≤ l) × (l ≤ 122)
small_letter l k bytes = (omega arith, omega arith)
small_letter l k kilo = (omega arith, omega arith)
small_letter l k mega = (omega arith, omega arith)
small_letter l k giga = (omega arith, omega arith)
small_letter l k tera = (omega arith, omega arith)
small_letter l k peta = (omega arith, omega arith)
small_letter l k exa = (omega arith, omega arith)

tolower_of :
    (c l : ℕ) → 97 ≤ l → l ≤ 122 → (c ≡ l) ⊎ (c + 32 ≡ l) → (tolower c ≡ l) × (isdigit c ≡ false)
tolower_of c l low high (inl same) = (ground arith, ground arith)
tolower_of c l low high (inr capital) = (ground arith, ground arith)

of_tolower : (c : ℕ) → (c ≡ tolower c) ⊎ (c + 32 ≡ tolower c)
of_tolower c = ground arith

-- A letter that is none of them has no multiple.
is_letter : (l n : ℕ) → (l == n) ≡ true → l ≡ n
is_letter l n e = ground arith

mult-none : (l : ℕ) → ((k : ℕ) → ¬ Letter l k) → mult l ≡ none
mult-none l other =
    let no : (n k : ℕ) → Letter n k → (l == n) ≡ false = λ n k letter. elim (Bool-cases (l == n)) [
      | inl it ↦ absurd (other k (subst (λ m. Letter m k) (sym (is_letter l n it)) letter))
      | inr miss ↦ miss
    ] in
    rw
      (
        no 101 6 exa,
        no 112 5 peta,
        no 116 4 tera,
        no 103 3 giga,
        no 109 2 mega,
        no 107 1 kilo,
        no 98 0 bytes,
      )
      refl

scale-suffix :
    (n c k : ℕ)
    → IsSuffix c k
    → (scale n (c ∷ []) ≡ value ((n * 1024 ^ k) % 2 ^ 64))
      × ((c' : ℕ) (cs : List ℕ) → scale n (c ∷ c' ∷ cs) ≡ exits 51)
unfolding scale
scale-suffix n c k (l, letter, it) =
    let (low, high) = small_letter l k letter in
    let lower = (tolower_of c l low high it).0 in
    let m : mult (tolower c) ≡ some (1024 ^ k) = ap mult lower ∙ mult-Letter l k letter in
    (rw (scale, m) refl, λ c' cs. rw (scale, m) refl)

scale-other : (n c : ℕ) (cs : List ℕ) → ((k : ℕ) → ¬ IsSuffix c k) → scale n (c ∷ cs) ≡ exits 1
unfolding scale
scale-other n c cs other =
    let m = mult-none (tolower c) (λ k letter. other k (tolower c, letter, of_tolower c)) in
    rw (scale, m) refl

read :
    (d : ℕ) (ds rest : List ℕ)
    → AllDigits (d ∷ ds)
    → first_digit rest ≡ false
    → decimal 0 (d ∷ ds) < 2 ^ 64
    → parse_size (d ∷ ds ++ rest) ≡ scale (decimal 0 (d ∷ ds)) rest
unfolding parse_size first_digit
read d ds rest h e small =
    rw (h.0, after_digits-digits (d ∷ ds) rest h e, strtoull-digits 0 (d ∷ ds) rest h e small) refl

-- For digits that spell a number n below 2^64, at least one of them, `parse_size` is n without a
-- suffix. With one of the letters b, k, m, g, t, p and e, or its capital, it is n times the power
-- of 1024 that the letter stands for, modulo 2^64, and the process exits with 51 when anything
-- follows the letter. With any other character behind the digits it exits with 1.
pub parse_size-digits :
    (d : ℕ) (ds : List ℕ)
    → AllDigits (d ∷ ds)
    → decimal 0 (d ∷ ds) < 2 ^ 64
    → (parse_size (d ∷ ds ++ []) ≡ value (decimal 0 (d ∷ ds)))
      × ((c k : ℕ)
          → IsSuffix c k
          → (parse_size (d ∷ ds ++ c ∷ []) ≡ value ((decimal 0 (d ∷ ds) * 1024 ^ k) % 2 ^ 64))
            × ((c' : ℕ) (cs : List ℕ) → parse_size (d ∷ ds ++ c ∷ c' ∷ cs) ≡ exits 51))
      × ((c : ℕ) (cs : List ℕ)
          → isdigit c ≡ false
          → ((k : ℕ) → ¬ IsSuffix c k)
          → parse_size (d ∷ ds ++ c ∷ cs) ≡ exits 1)
unfolding first_digit scale
parse_size-digits d ds h small = (
  read d ds [] h refl small,
  λ c k suffix.
      let (l, letter, it) = suffix in
      let (low, high) = small_letter l k letter in
      let no_digit = (tolower_of c l low high it).1 in
      let (alone, followed) = scale-suffix (decimal 0 (d ∷ ds)) c k suffix in
      (
        read d ds (c ∷ []) h no_digit small ∙ alone,
        λ c' cs. read d ds (c ∷ c' ∷ cs) h no_digit small ∙ followed c' cs,
      ),
  λ c cs no_digit other.
      read d ds (c ∷ cs) h no_digit small ∙ scale-other (decimal 0 (d ∷ ds)) c cs other,
)
