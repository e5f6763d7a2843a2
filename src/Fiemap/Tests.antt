-- ===== src/Fiemap/Tests.antt =====
-- fiemap.c on a file of three extents.
use duperemove.Prelude.{
  ℕ, ◌+◌, ◌%◌, ◌^◌, ◌≡◌, refl, true, false, ltb, none, All, ◌++◌, ◌⊎◌, some, List, [], ◌∷◌, arith,
}
use duperemove.Prelude.Int.{pos}
use duperemove.Prelude.Word.{add64, sub64}
use duperemove.Prelude.Outcome.{done}
use duperemove.Results.{Extent}
use duperemove.Filerec.{Globals, new_record}
use duperemove.SearchTree.{leaf}
use duperemove.Fiemap.{
  FiemapExtent, get_extent, count_loop, counted, do_fiemap, fiemap_count_shared,
}
use duperemove.Fiemap.Shared.{overlaps, fiemap_count_shared-overlaps}
use duperemove.Fiemap.Scan.{Before, get_extent-first}

abbrev piece : ℕ → ℕ → FiemapExtent
piece from size = record {
  fe_logical = from;
  fe_physical = from + 1048576;
  fe_length = size;
  fe_delalloc = false;
  fe_shared = true;
}

abbrev pieces : List FiemapExtent
pieces = piece 0 4096 ∷ piece 8192 4096 ∷ piece 16384 8192 ∷ []

three_shared : fiemap_count_shared true (some pieces) 2048 20480 ≡ done (some 10240)
unfolding fiemap_count_shared count_loop counted do_fiemap
three_shared = refl

in_a_hole : get_extent pieces 5000 ≡ some (piece 8192 4096)
unfolding get_extent
in_a_hole = refl

fiemap_count_shared-overlaps_example :
    fiemap_count_shared true (some pieces) 2048 20480
    ≡ done (some (overlaps 2048 20480 pieces % 2 ^ 64))
fiemap_count_shared-overlaps_example =
    fiemap_count_shared-overlaps pieces 2048 20480 (omega arith) (omega arith)
      (omega arith, (omega arith, (omega arith, tt)))

abbrev closed : Globals
closed = record {
  memory = λ a. new_record (97 ∷ []) (pos 3) 24576;
  filerec_head = 7 ∷ [];
  filerec_by_fileid = leaf;
  num_filerecs = 1;
  open_fds = [];
}

abbrev wanted : Extent
wanted = record { e_loff = 5000; e_file = 7; e_poff = 0; e_plen = 0; e_shared_bytes = 0 }

get_extent-first_example :
    ((get_extent pieces 5000 ≡ none) × All (Before 5000) pieces)
    ⊎ ((front : List FiemapExtent) × (e : FiemapExtent) × (back : List FiemapExtent) × (get_extent
            pieces 5000
          ≡ some e)
        × (pieces ≡ front ++ e ∷ back)
        × All (Before 5000) front
        × (ltb (sub64 (add64 e.fe_logical e.fe_length) 1) 5000 ≡ false))
get_extent-first_example = get_extent-first pieces 5000
