-- ===== src/Results/Tests.antt =====
-- results-tree.c at an empty tree and at one record.
use duperemove.Prelude.{ℕ, ◌≡◌, refl, Bool, true, [], ◌∷◌}
use duperemove.Prelude.Int.{pos}
use duperemove.Prelude.Outcome.{done}
use duperemove.SearchTree.{leaf, node}
use duperemove.SearchTree.Plain.{plain}
use duperemove.Results.{Extent, DupeExtents, ResultsTree, Trees, insert_one_result, insert_result}
use duperemove.Results.Valid.{IsValid}
use duperemove.Results.Insert.{Records, insert_one_result-Records}
use duperemove.Results.Pair.{RecordsBoth, insert_result-RecordsBoth}

abbrev trees : Trees
trees = record { extents = plain Extent; dupes = plain DupeExtents }

abbrev ext : ℕ → ℕ → Extent
ext file loff = record { e_loff = loff; e_file = file; e_poff = 0; e_plen = 0; e_shared_bytes = 0 }

-- A record of 4096 bytes under the digest 77, with the start of the file at 3.
abbrev lone : DupeExtents
lone = record {
  de_num_dupes = 1;
  de_len = 4096;
  de_hash = 77;
  de_score = 4096;
  de_extents = ext 3 0 ∷ [];
  de_extents_root = node leaf (ext 3 0) leaf;
}

abbrev one : ResultsTree
one = record { root = node leaf lone leaf; num_dupes = 1; num_extents = 1 }

one-IsValid : IsValid one
one-IsValid = record {
  sorted = (tt, tt);
  dupes = (record { sorted = (tt, tt); same_extents = λ f. refl; counted = refl }, tt);
  dupes_counted = refl;
  extents_counted = refl;
}

insert_one_result-Records_example :
    (res' : ResultsTree) × (kept : Bool) × (insert_one_result trees true true one 77 5 8192 4096
        65536
      ≡ done (res', pos 0))
    × Records one res' 77 4096
        (record { e_loff = 8192; e_file = 5; e_poff = 65536; e_plen = 4096; e_shared_bytes = 0 })
        kept
insert_one_result-Records_example =
    insert_one_result-Records trees one 77 5 8192 4096 65536 one-IsValid

insert_result-RecordsBoth_example :
    (res' : ResultsTree) × (kept0 : Bool) × (kept1 : Bool) × (insert_result trees true true true one
        77
        (3, 5)
        (0, 8192)
        (4095, 12287)
      ≡ done (res', pos 0))
    × RecordsBoth one res' 77 4096 (ext 3 0) (ext 5 8192) kept0 kept1
insert_result-RecordsBoth_example =
    insert_result-RecordsBoth trees one 77 3 5 0 8192 4095 12287 one-IsValid
