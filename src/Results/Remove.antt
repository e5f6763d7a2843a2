-- ===== src/Results/Remove.antt =====
-- results-tree.c: the removal of extents and the end of the tree. The second pass of
-- `remove_extent` is made with one extent left and leaves none, so that its `goto again` is taken
-- once at most.
pub mod Drop
pub mod Removed
pub mod Emptied
mod Tests
use duperemove.Prelude.{
  ℕ, zero, suc, ◌^◌, Bool, true, false, ◌&&◌, Option, none, some, List, [], ◌∷◌, ◌==◌, ltb,
  if◌then◌else◌, length,
}
use duperemove.Prelude.Word.{sub32, sub64}
use duperemove.Prelude.Outcome.{Outcome, done, aborted, ◌>>=◌}
use duperemove.SearchTree.{Tree, Rbtree, in_order, remove_first}
use duperemove.Results.{
  Extent, DupeExtents, ResultsTree, Trees, place, content, is_content, names, store,
}

-- The node of this extent.
abbrev pub is_at : ℕ × ℕ → Extent → Bool
is_at k e = is_content k (place e)

-- One pass over the record of the extent.
pub drop_extent : Rbtree Extent → DupeExtents → Extent → DupeExtents
drop_extent rb p e = record p {
  de_score = sub64 p.de_score p.de_len;
  de_num_dupes = sub32 p.de_num_dupes 1;
  de_extents = remove_first (is_at (place e)) p.de_extents;
  de_extents_root = rb.erase (is_at (place e)) p.de_extents_root;
}

abbrev pub one_less : ResultsTree → ResultsTree
one_less res = record res { num_extents = sub64 res.num_extents 1 }

-- The tree, the record unless it was freed, and the return value.
pub record Removal : Type 0 where
  pub res : ResultsTree
  pub left : Option DupeExtents
  pub result : ℕ

-- A record without extents is freed.
pub unlink : Rbtree DupeExtents → ResultsTree → DupeExtents → Removal
unlink rb res p =
    if p.de_num_dupes == 0
    then record {
      res = record res {
        root = rb.erase (names (content p)) res.root;
        num_dupes = sub32 res.num_dupes 1;
      };
      left = none;
      result = 0;
    }
    else record { res = store p res; left = some p; result = p.de_num_dupes }

pub remove_extent : Trees → ResultsTree → DupeExtents → Extent → Outcome Removal
remove_extent rb res p e =
    let p1 = drop_extent rb.extents p e in
    if p1.de_num_dupes == 1
    then elim (rb.extents.first p1.de_extents_root) [
      | none ↦ aborted
      | some e' ↦ done (unlink rb.dupes (one_less (one_less res)) (drop_extent rb.extents p1 e'))
    ]
    else done (unlink rb.dupes (one_less res) p1)

-- `count > 0` on an int.
abbrev pub is_positive : ℕ → Bool
is_positive n = ltb 0 n && ltb n (2 ^ 31)

-- The loop of `dupe_extents_free`; without fuel, and for the null pointer, `aborted`.
pub free_loop : Trees → ℕ → ResultsTree → DupeExtents → Outcome ResultsTree
free_loop rb zero res p = aborted
free_loop rb (suc fuel) res p = elim (rb.extents.first p.de_extents_root) [
  | none ↦ aborted
  | some e ↦ remove_extent rb res p e >>= λ r. elim r.left [
    | none ↦ done r.res
    | some p' ↦ elim (is_positive r.result) [
      | true ↦ free_loop rb fuel r.res p'
      | false ↦ done r.res
    ]
  ]
]

pub dupe_extents_free : Trees → ResultsTree → DupeExtents → Outcome ResultsTree
dupe_extents_free rb res p = free_loop rb (length p.de_extents) res p

pub free_all : Trees → ℕ → ResultsTree → Outcome ResultsTree
free_all rb zero res = elim (rb.dupes.first res.root) [ none ↦ done res | some p ↦ aborted ]
free_all rb (suc fuel) res = elim (rb.dupes.first res.root) [
  | none ↦ done res
  | some p ↦ dupe_extents_free rb res p >>= free_all rb fuel
]

-- Each round frees a record.
pub free_results_tree : Trees → ResultsTree → Outcome ResultsTree
free_results_tree rb res = free_all rb (length (in_order res.root)) res
