-- ===== src/Dedupe/Valid.antt =====
-- What a dedupe context holds: its requests, seen as a bag of destinations, and the limits that
-- every function of dedupe.c keeps.
use duperemove.Prelude.{
  ℕ, ◌+◌, ◌*◌, ◌^◌, ◌≤◌, ◌<◌, ◌≡◌, Bool, ◌&&◌, List, [], ◌∷◌, ◌++◌, arith, ◌==◌, if◌then◌else◌,
  length, All,
}
use duperemove.Prelude.Word.{add64, sub64}
use duperemove.Dedupe.{DedupeReq, DedupeCtxt, sizeof_same, sizeof_info}

-- The offset at which a request began, whatever has been deduped since.
abbrev pub first_off : DedupeReq → ℕ
first_off r = sub64 r.req_loff r.req_total

abbrev pub is_for : ℕ → ℕ → DedupeReq → Bool
is_for file off r = (r.req_file == file) && (first_off r == off)

-- How many requests of a list are for the range at `off` of `file`.
abbrev pub count : ℕ → ℕ → List DedupeReq → ℕ
count file off [] = 0
count file off (r ∷ rs) = (if is_for file off r then 1 else 0) + count file off rs

pub count-append :
    (file off : ℕ) (xs ys : List DedupeReq)
    → count file off (xs ++ ys) ≡ count file off xs + count file off ys
count-append file off [] ys = omega arith
count-append file off (x ∷ xs) ys = omega (arith, count-append file off xs ys)

-- The requests of a context on its three lists.
unfoldable pub held : DedupeCtxt → ℕ → ℕ → ℕ
held c file off =
    count file off c.queued + count file off c.in_progress + count file off c.completed

unfoldable pub size : DedupeCtxt → ℕ
size c = length c.queued + length c.in_progress + length c.completed

abbrev pub IsWord : DedupeReq → Type 0
IsWord r = r.req_total < 2 ^ 64

-- The request buffer has room for each request that the context may hold.
pub record IsValid (c : DedupeCtxt) : Type 0 where
  pub buffer : c.same_size ≡ sizeof_same + c.max_queable * sizeof_info
  pub few : c.max_queable < 2 ^ 16
  pub room : size c ≤ c.max_queable
  pub queued_words : All IsWord c.queued
  pub in_progress_words : All IsWord c.in_progress
  pub completed_words : All IsWord c.completed

pub first_off-advance : (a b n : ℕ) → b < 2 ^ 64 → sub64 (add64 a n) (add64 b n) ≡ sub64 a b
first_off-advance a b n h = omega arith
