-- ===== src/Fiemap/Shared.antt =====
-- The bytes that fiemap_count_shared counts.
use Prim.Native.Nat.{min, max}
use duperemove.Prelude.{
  ℕ, ◌+◌, ◌-◌, ◌%◌, ◌^◌, ◌<◌, ◌≡◌, refl, ap, Bool, true, false, not, ◌&&◌, some, List, [], ◌∷◌, All,
  arith, ltb, leb, if◌then◌else◌, Bool-cases, inl, inr,
}
use duperemove.Prelude.Word.{add64, sub64}
use duperemove.Prelude.Outcome.{done}
use duperemove.Fiemap.{
  FiemapExtent, shared_part, count_loop, counted, do_fiemap, fiemap_count_shared,
}

-- How many bytes of an extent lie in a range, if it is shared and on disk.
abbrev pub overlap : ℕ → ℕ → FiemapExtent → ℕ
overlap start_off end_off e =
    if not e.fe_delalloc && e.fe_shared
    then min end_off (e.fe_logical + e.fe_length) - max start_off e.fe_logical
    else 0

abbrev pub overlaps : ℕ → ℕ → List FiemapExtent → ℕ
overlaps start_off end_off [] = 0
overlaps start_off end_off (e ∷ es) = overlap start_off end_off e + overlaps start_off end_off es

-- The extent ends below 2^64.
abbrev pub Fits : FiemapExtent → Type 0
Fits e = e.fe_logical + e.fe_length < 2 ^ 64

clip :
    (start_off end_off from size : ℕ)
    → start_off < end_off
    → end_off < 2 ^ 64
    → from + size < 2 ^ 64
    → (if leb start_off (add64 from size) && leb from end_off
        then sub64
            (if ltb end_off (add64 from size) then end_off else add64 from size)
            (if ltb from start_off then start_off else from)
        else 0)
      ≡ min end_off (from + size) - max start_off from
clip start_off end_off from size ordered word fits = ground arith

either : (b : Bool) → ◌≡◌ {A = ℕ} (if b then 0 else 0) 0
either true = refl
either false = refl

shared_part-overlap :
    (start_off end_off : ℕ) (e : FiemapExtent)
    → start_off < end_off
    → end_off < 2 ^ 64
    → Fits e
    → shared_part start_off end_off e ≡ overlap start_off end_off e
shared_part-overlap start_off end_off e ordered word fits =
    elim (Bool-cases (not e.fe_delalloc && e.fe_shared)) [
      | inl counts ↦ rw counts (clip start_off end_off e.fe_logical e.fe_length ordered word fits)
      | inr skipped ↦
          rw skipped
            (either (leb start_off (add64 e.fe_logical e.fe_length) && leb e.fe_logical end_off))
    ]

count_loop-overlaps :
    (start_off end_off shared : ℕ) (es : List FiemapExtent)
    → start_off < end_off
    → end_off < 2 ^ 64
    → All Fits es
    → shared < 2 ^ 64
    → count_loop start_off end_off shared es ≡ (shared + overlaps start_off end_off es) % 2 ^ 64
unfolding count_loop
count_loop-overlaps start_off end_off shared [] ordered word fits small = omega arith
count_loop-overlaps start_off end_off shared (e ∷ es) ordered word fits small =
    let one = shared_part-overlap start_off end_off e ordered word fits.0 in
    let rest =
      count_loop-overlaps start_off end_off (add64 shared (shared_part start_off end_off e)) es
        ordered word fits.1 (omega arith) in
    omega arith

-- For a range that is not empty and extents that end below 2^64, and with memory,
-- `fiemap_count_shared` stores, modulo 2^64, how many bytes of the range lie in shared extents
-- that are on disk.
pub fiemap_count_shared-overlaps :
    (es : List FiemapExtent) (start_off end_off : ℕ)
    → start_off < end_off
    → end_off < 2 ^ 64
    → All Fits es
    → fiemap_count_shared true (some es) start_off end_off
      ≡ done (some (overlaps start_off end_off es % 2 ^ 64))
unfolding fiemap_count_shared do_fiemap counted
fiemap_count_shared-overlaps es start_off end_off ordered word fits =
    let open_range : leb end_off start_off ≡ false = ground arith in
    rw (open_range, count_loop-overlaps start_off end_off 0 es ordered word fits (omega arith))
      (ap (λ n. done (some n)) (omega arith))
