-- ===== src/Results/Remove/Tests.antt =====
-- remove_extent and free_results_tree at a record of three extents.
use duperemove.Prelude.{ℕ, ◌≡◌, refl, arith, [], ◌∷◌}
use duperemove.Prelude.Outcome.{done}
use duperemove.SearchTree.{leaf, node, find}
use duperemove.SearchTree.Plain.{plain}
use duperemove.Results.{Extent, DupeExtents, ResultsTree, Trees, store}
use duperemove.Results.Valid.{IsValid}
use duperemove.Results.Remove.{
  Removal, remove_extent, free_results_tree, free_all, dupe_extents_free, free_loop, drop_extent,
  unlink,
}
use duperemove.Results.Remove.Removed.{Removes, remove_extent-Removes}
use duperemove.Results.Remove.Emptied.{IsEmptyTree, free_results_tree-IsEmptyTree}

abbrev trees : Trees
trees = record { extents = plain Extent; dupes = plain DupeExtents }

abbrev ext : ℕ → ℕ → Extent
ext file loff = record { e_loff = loff; e_file = file; e_poff = 0; e_plen = 0; e_shared_bytes = 0 }

-- Three extents under one digest, listed in the order of their insertion.
abbrev three : DupeExtents
three = record {
  de_num_dupes = 3;
  de_len = 4096;
  de_hash = 77;
  de_score = 12288;
  de_extents = ext 3 0 ∷ ext 9 0 ∷ ext 5 8192 ∷ [];
  de_extents_root = node (node leaf (ext 3 0) leaf) (ext 5 8192) (node leaf (ext 9 0) leaf);
}

abbrev full : ResultsTree
full = record { root = node leaf three leaf; num_dupes = 1; num_extents = 3 }

full-IsValid : IsValid full
full-IsValid = record {
  sorted = (tt, tt);
  dupes = (
    record {
      sorted = ((refl, (refl, tt)), ((refl, tt), (tt, tt)));
      same_extents = λ f. omega arith;
      counted = refl;
    },
    tt,
  );
  dupes_counted = refl;
  extents_counted = refl;
}

remove_extent-Removes_example :
    (r : Removal) × (remove_extent trees full three (ext 9 0) ≡ done r)
    × Removes (ext 9 0) three full r
unfolding find
remove_extent-Removes_example =
    remove_extent-Removes trees full three (ext 9 0) full-IsValid refl (omega arith) refl

free_results_tree-IsEmptyTree_example :
    (res' : ResultsTree) × (free_results_tree trees full ≡ done res') × IsEmptyTree res'
free_results_tree-IsEmptyTree_example =
    free_results_tree-IsEmptyTree trees full full-IsValid ((omega arith, omega arith), tt)

emptied :
    free_results_tree trees full ≡ done (record { root = leaf; num_dupes = 0; num_extents = 0 })
unfolding free_results_tree free_all dupe_extents_free free_loop remove_extent drop_extent unlink
    store
emptied = refl
