-- ===== src/Results.antt =====
-- results-tree.c and results-tree.h: the duplicates found so far. A `struct dupe_extents` is held by
-- value at its node of the tree, where its length and digest name it; an extent's `e_parent` is the
-- record that it lies in. A digest is the number that its bytes spell, most significant first, so
-- that memcmp compares the numbers. The calls run one after another: the locks are not modelled.
-- What `calloc` answers is a Boolean argument; `aborted` is `abort_on` or the use of a null pointer.
pub mod Valid
pub mod Store
pub mod Insert
pub mod Pair
pub mod Remove
mod Tests
use duperemove.Prelude.{
  ℕ, zero, suc, ◌+◌, ◌^◌, Bool, true, false, ◌&&◌, Option, none, some, List, [], ◌∷◌, ◌++◌, ◌==◌,
  if◌then◌else◌, length,
}
use duperemove.Prelude.Int.{ℤ, pos, enomem}
use duperemove.Prelude.Word.{add32, sub32, add64, sub64}
use duperemove.Prelude.Order.{Order, pair_order}
use duperemove.Prelude.Outcome.{Outcome, done, aborted, ◌>>=◌}
use duperemove.SearchTree.{Tree, leaf, node, Rbtree, replace, find, insert, in_order, remove_first}

pub record Extent : Type 0 where
  pub e_loff : ℕ
  pub e_file : ℕ
  pub e_poff : ℕ
  pub e_plen : ℕ
  pub e_shared_bytes : ℕ

pub record DupeExtents : Type 0 where
  pub de_num_dupes : ℕ
  pub de_len : ℕ
  pub de_hash : ℕ
  pub de_score : ℕ
  pub de_extents : List Extent
  pub de_extents_root : Tree Extent

pub record ResultsTree : Type 0 where
  pub root : Tree DupeExtents
  pub num_dupes : ℕ
  pub num_extents : ℕ

abbrev pub init_results_tree : ResultsTree
init_results_tree = record { root = leaf; num_dupes = 0; num_extents = 0 }

-- The trees of the two kinds of nodes.
pub record Trees : Type 0 where
  pub extents : Rbtree Extent
  pub dupes : Rbtree DupeExtents

pub alloc_extent : Bool → ℕ → ℕ → Option Extent
alloc_extent mem file loff =
    if mem
    then some (record { e_loff = loff; e_file = file; e_poff = 0; e_plen = 0; e_shared_bytes = 0 })
    else none

-- What `extents_rb_cmp` compares: the file's address, then the offset.
abbrev pub place : Extent → ℕ × ℕ
place e = (e.e_file, e.e_loff)

pub insert_extent_rb : Rbtree Extent → DupeExtents → Extent → Option (Tree Extent)
insert_extent_rb rb dext e = insert pair_order place rb e dext.de_extents_root

-- The length, then the digest.
abbrev pub content : DupeExtents → ℕ × ℕ
content d = (d.de_len, d.de_hash)

-- The walk, or `rb_link_node` in an empty tree, goes through the pointer to the new record.
pub insert_dupe_extents :
    Rbtree DupeExtents → ResultsTree → Option DupeExtents → Outcome ResultsTree
insert_dupe_extents rb res none = aborted
insert_dupe_extents rb res (some dext) = elim (insert pair_order content rb dext res.root) [
  | some root' ↦ done (record res { root = root'; num_dupes = add32 res.num_dupes 1 })
  | none ↦ aborted
]

pub find_dupe_extents : ResultsTree → ℕ → ℕ → Option DupeExtents
find_dupe_extents res digest len = find pair_order content res.root (len, digest)

-- `de_num_dupes++` and `list_add_tail`.
abbrev pub keep : DupeExtents → Extent → Tree Extent → DupeExtents
keep dext e root' = record dext {
  de_extents_root = root';
  de_num_dupes = add32 dext.de_num_dupes 1;
  de_extents = dext.de_extents ++ e ∷ [];
}

-- Whether the extent was kept, beside the record.
pub insert_extent_list_free : Rbtree Extent → DupeExtents → Extent → DupeExtents × Bool
insert_extent_list_free rb dext e = elim (insert_extent_rb rb dext e) [
  | some root' ↦ (keep dext e root', true)
  | none ↦ (dext, false)
]

pub dupe_extents_new : Bool → ℕ → ℕ → Option DupeExtents
dupe_extents_new mem digest len =
    if mem
    then some (record {
      de_num_dupes = 0;
      de_len = len;
      de_hash = digest;
      de_score = len;
      de_extents = [];
      de_extents_root = leaf;
    })
    else none

-- The pointer that was inserted.
pub inserted : Option DupeExtents → ResultsTree → Outcome (ResultsTree × DupeExtents × Bool)
inserted none res = aborted
inserted (some new) res = done (res, new, false)

-- The second search, under the lock, and the insertion. What `dupe_extents_new` answers is handed
-- on unchecked.
alloc_dext :
    Rbtree DupeExtents
    → ResultsTree
    → ℕ
    → ℕ
    → Option DupeExtents
    → Outcome (ResultsTree × DupeExtents × Bool)
alloc_dext rb res digest len new = elim (find_dupe_extents res digest len) [
  | some dext ↦ done (res, dext, true)
  | none ↦ insert_dupe_extents rb res new >>= inserted new
]

-- The last component is `add_score`.
pub find_alloc_dext :
    Rbtree DupeExtents → Bool → ResultsTree → ℕ → ℕ → Outcome (ResultsTree × DupeExtents × Bool)
find_alloc_dext rb mem res digest len = elim (find_dupe_extents res digest len) [
  | some dext ↦ done (res, dext, true)
  | none ↦ alloc_dext rb res digest len (dupe_extents_new mem digest len)
]

abbrev pub is_content : ℕ × ℕ → ℕ × ℕ → Bool
is_content (a, b) (c, d) = (a == c) && (b == d)

abbrev pub names : ℕ × ℕ → DupeExtents → Bool
names k d = is_content k (content d)

-- A write through the pointer to the record with these contents.
pub store : DupeExtents → ResultsTree → ResultsTree
store dext res = record res { root = replace (names (content dext)) dext res.root }

abbrev pub count_kept : Bool → ResultsTree → ResultsTree
count_kept kept res = if kept then record res { num_extents = add64 res.num_extents 1 } else res

-- With the record at hand: one extent, and its count.
add_one : Rbtree Extent → ResultsTree → DupeExtents → Extent → ResultsTree
add_one rb res dext e =
    let (dext', kept) = insert_extent_list_free rb dext e in count_kept kept (store dext' res)

with_extent : Trees → Bool → ResultsTree → ℕ → ℕ → Option Extent → ℕ → Outcome (ResultsTree × ℤ)
with_extent rb mem res digest len none poff = done (res, enomem)
with_extent rb mem res digest len (some e) poff =
    let e' = record e { e_poff = poff; e_plen = len; e_shared_bytes = 0 } in
    find_alloc_dext rb.dupes mem res digest len >>= λ found.
    if found.1.de_len == len then done (add_one rb.extents found.0 found.1 e', pos 0) else aborted

pub insert_one_result :
    Trees → Bool → Bool → ResultsTree → ℕ → ℕ → ℕ → ℕ → ℕ → Outcome (ResultsTree × ℤ)
insert_one_result rb mem mem' res digest file startoff len poff =
    with_extent rb mem' res digest len (alloc_extent mem file startoff) poff

-- Two extents that were found equal; both are scored unless the record is new.
abbrev pub add_if : Bool → ℕ → ℕ → ℕ
add_if kept score len = if kept then add64 score len else score

score_both : Bool → Bool → Bool → ℕ → DupeExtents → DupeExtents
score_both add_score kept0 kept1 len d =
    if add_score then record d { de_score = add_if kept1 (add_if kept0 d.de_score len) len } else d

add_both : Rbtree Extent → ResultsTree → DupeExtents → Bool → Extent → Extent → ℕ → ResultsTree
add_both rb res dext add_score e0 e1 len =
    let (dext0, kept0) = insert_extent_list_free rb dext e0 in
    let (dext1, kept1) = insert_extent_list_free rb dext0 e1 in
    count_kept kept1 (count_kept kept0 (store (score_both add_score kept0 kept1 len dext1) res))

with_extents :
    Trees → Bool → ResultsTree → ℕ → ℕ → Option Extent → Option Extent → Outcome (ResultsTree × ℤ)
with_extents rb mem res digest len none e1 = done (res, enomem)
with_extents rb mem res digest len (some e0) none = done (res, enomem)
with_extents rb mem res digest len (some e0) (some e1) =
    find_alloc_dext rb.dupes mem res digest len >>= λ found.
    if found.1.de_len == len
    then done (add_both rb.extents found.0 found.1 found.2 e0 e1 len, pos 0)
    else aborted

-- The length is that of the first range.
pub insert_result :
    Trees → Bool → Bool → Bool → ResultsTree → ℕ → ℕ × ℕ → ℕ × ℕ → ℕ × ℕ → Outcome (ResultsTree × ℤ)
insert_result rb mem0 mem1 mem' res digest (rec0, rec1) (start0, start1) (end0, end1) =
    let len = add64 (sub64 end0 start0) 1 in
    with_extents rb mem' res digest len (alloc_extent mem0 rec0 start0)
      (alloc_extent mem1 rec1 start1)
