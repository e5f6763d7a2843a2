-- ===== src/Fiemap.antt =====
-- fiemap.c and fiemap_scan_extent of filerec.c: the extents of a file as the file system reports
-- them. What the ioctl FS_IOC_FIEMAP and the allocator answer is an argument.
pub mod Scan
pub mod Shared
mod Tests
use duperemove.Prelude.{
  ℕ, suc, ◌+◌, ◌-◌, ◌^◌, Bool, true, false, not, ◌&&◌, Option, none, some, List, [], ◌∷◌, ltb, leb,
  if◌then◌else◌,
}
use duperemove.Prelude.Int.{ℤ, pos, negsuc, ◌==ℤ◌}
use duperemove.Prelude.Word.{add64, sub64}
use duperemove.Prelude.Outcome.{Outcome, done, aborted, ◌>>=◌}
use duperemove.Results.{Extent}
use duperemove.Filerec.{Globals, Opened, filerec_open, filerec_close}

-- struct fiemap_extent, with the two flags that the code reads.
pub record FiemapExtent : Type 0 where
  pub fe_logical : ℕ
  pub fe_physical : ℕ
  pub fe_length : ℕ
  pub fe_delalloc : Bool
  pub fe_shared : Bool

-- The first extent that does not end before the offset.
pub get_extent : List FiemapExtent → ℕ → Option FiemapExtent
get_extent [] loff = none
get_extent (e ∷ es) loff =
    let rest = get_extent es loff in
    if ltb (sub64 (add64 e.fe_logical e.fe_length) 1) loff then rest else some e

-- The result of `calloc` is used unchecked.
unfoldable pub do_fiemap : Bool → Option (List FiemapExtent) → Outcome (Option (List FiemapExtent))
do_fiemap mem answer = if mem then done answer else aborted

abbrev pub shared_part : ℕ → ℕ → FiemapExtent → ℕ
shared_part start_off end_off e =
    let extent_end = add64 e.fe_logical e.fe_length in
    let extent_loff = e.fe_logical in
    if leb start_off extent_end && leb extent_loff end_off
    then (if not e.fe_delalloc && e.fe_shared
        then sub64 (if ltb end_off extent_end then end_off else extent_end)
            (if ltb extent_loff start_off then start_off else extent_loff)
        else 0)
    else 0

pub count_loop : ℕ → ℕ → ℕ → List FiemapExtent → ℕ
count_loop start_off end_off shared [] = shared
count_loop start_off end_off shared (e ∷ es) =
    count_loop start_off end_off (add64 shared (shared_part start_off end_off e)) es

pub counted : ℕ → ℕ → Option (List FiemapExtent) → Option ℕ
counted start_off end_off none = none
counted start_off end_off (some es) = some (count_loop start_off end_off 0 es)

-- `none` is the return value 1, and the number is what is stored at `shared` when it is 0.
unfoldable pub fiemap_count_shared : Bool → Option (List FiemapExtent) → ℕ → ℕ → Outcome (Option ℕ)
fiemap_count_shared mem answer start_off end_off =
    if leb end_off start_off
    then aborted
    else (do_fiemap mem answer >>= λ fiemap. done (counted start_off end_off fiemap))

-- Each way out of fiemap_scan_extent closes the file itself: when nothing is found at the offset
-- and when an extent is, whose place is kept.
pub located : Globals → Extent → Option FiemapExtent → Outcome (Globals × Extent × ℤ)
located g extent none = filerec_close g extent.e_file >>= λ g'. done (g', extent, negsuc 0)
located g extent (some result) =
    let extent' = record extent { e_poff = result.fe_physical } in
    filerec_close g extent.e_file >>= λ g'. done (g', extent', pos 0)

-- And when the file system does not answer.
pub scanned : Globals → Extent → Option (List FiemapExtent) → Outcome (Globals × Extent × ℤ)
scanned g extent none = filerec_close g extent.e_file >>= λ g'. done (g', extent, negsuc 0)
scanned g extent (some es) = located g extent (get_extent es extent.e_loff)

pub fiemap_scan_extent :
    Opened → Bool → Option (List FiemapExtent) → Globals → Extent → Outcome (Globals × Extent × ℤ)
fiemap_scan_extent opened mem answer g extent = filerec_open opened g extent.e_file >>= λ (g', ret).
    if not (ret ==ℤ pos 0)
    then done (g', extent, ret)
    else (do_fiemap mem answer >>= scanned g' extent)
