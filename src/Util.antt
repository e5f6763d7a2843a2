-- ===== src/Util.antt =====
-- util.c: sizes with a suffix. A C string is the list of its characters' codes without the final
-- zero; an `exit` is a result of its own.
pub mod Size
mod Tests
use duperemove.Prelude.{
  ℕ, suc, ◌+◌, ◌-◌, ◌*◌, ◌%◌, ◌^◌, Bool, true, false, ◌&&◌, Option, none, some, List, [], ◌∷◌, ltb,
  leb, ◌==◌, if◌then◌else◌, is_empty,
}

pub data Parsed : Type 0 where
  value : ℕ → Parsed
  exits : ℕ → Parsed

abbrev pub isdigit : ℕ → Bool
isdigit c = leb 48 c && leb c 57

-- The number of the leading digits, as strtoull with base 10 reads them: it stops at the largest
-- 64-bit number.
pub strtoull : ℕ → List ℕ → ℕ
strtoull n [] = if ltb n (2 ^ 64) then n else 2 ^ 64 - 1
strtoull n (c ∷ cs) =
    let rest = strtoull (n * 10 + (c - 48)) cs in
    if isdigit c then rest else (if ltb n (2 ^ 64) then n else 2 ^ 64 - 1)

-- What the loop over digits leaves.
pub after_digits : List ℕ → List ℕ
after_digits [] = []
after_digits (c ∷ cs) = let rest = after_digits cs in if isdigit c then rest else c ∷ cs

abbrev pub tolower : ℕ → ℕ
tolower c = if leb 65 c && leb c 90 then c + 32 else c

-- The switch, with its cases falling through from `e` to `k`.
abbrev pub mult : ℕ → Option ℕ
mult c =
    if c == 101
    then some (1024 ^ 6)
    else if c == 112
    then some (1024 ^ 5)
    else if c == 116
    then some (1024 ^ 4)
    else if c == 103
    then some (1024 ^ 3)
    else if c == 109
    then some (1024 ^ 2)
    else if c == 107
    then some 1024
    else if c == 98
    then some 1
    else none

-- What comes behind the digits, and the number that they spell.
pub scale : ℕ → List ℕ → Parsed
scale n [] = value n
scale n (c ∷ cs) = elim (mult (tolower c)) [
  | none ↦ exits 1
  | some m ↦ if is_empty cs then value ((n * m) % 2 ^ 64) else exits 51
]

pub first_digit : List ℕ → Bool
first_digit [] = false
first_digit (c ∷ cs) = isdigit c

pub parse_size : List ℕ → Parsed
parse_size s = if first_digit s then scale (strtoull 0 s) (after_digits s) else exits 50
