-- ===== src/RunDedupe/Clean/Tests.antt =====
-- clean_deduped at a record of four extents.
use duperemove.Prelude.{ℕ, refl, arith, [], ◌∷◌}
use duperemove.SearchTree.{leaf, node, find}
use duperemove.SearchTree.Plain.{plain}
use duperemove.Results.{Extent, DupeExtents, ResultsTree, Trees}
use duperemove.Results.Valid.{IsValid}
use duperemove.RunDedupe.Clean.{clean_deduped}
use duperemove.RunDedupe.Clean.Outer.{Cleans, clean_deduped-Cleans}

abbrev trees : Trees
trees = record { extents = plain Extent; dupes = plain DupeExtents }

abbrev ext : ℕ → ℕ → Extent
ext file poff = record {
  e_loff = 0;
  e_file = file;
  e_poff = poff;
  e_plen = 4096;
  e_shared_bytes = 0;
}

-- Two extents lie at 500, one at 900, and the place of one is unknown.
abbrev four : DupeExtents
four = record {
  de_num_dupes = 4;
  de_len = 4096;
  de_hash = 77;
  de_score = 16384;
  de_extents = ext 3 500 ∷ ext 5 0 ∷ ext 7 500 ∷ ext 9 900 ∷ [];
  de_extents_root =
      node (node leaf (ext 3 500) leaf) (ext 5 0)
        (node leaf (ext 7 500) (node leaf (ext 9 900) leaf));
}

abbrev full : ResultsTree
full = record { root = node leaf four leaf; num_dupes = 1; num_extents = 4 }

full-IsValid : IsValid full
full-IsValid = record {
  sorted = (tt, tt);
  dupes = (
    record {
      sorted = ((refl, (refl, (refl, tt))), ((refl, (refl, tt)), ((refl, tt), (tt, tt))));
      same_extents = λ f. omega arith;
      counted = refl;
    },
    tt,
  );
  dupes_counted = refl;
  extents_counted = refl;
}

clean_deduped-Cleans_example : Cleans four full (clean_deduped trees full four)
unfolding find
clean_deduped-Cleans_example =
    clean_deduped-Cleans trees full four
      (record { valid = full-IsValid; here = refl; two = omega arith; word = omega arith })
