-- ===== src/FindDupes/SearchExtent.antt =====
-- find_dupes.c: the extents of a file that have no duplicate yet are compared with every block that
-- has the digest of their first one. What dbfile.c answers is `load_extent`, an error or 0 for a file and an
-- offset, and the list of extents. The threads are not modelled: the comparisons run one after another.
pub mod Candidates
pub mod Sound
use duperemove.Prelude.{
  ℕ, zero, suc, Bool, true, false, not, ◌&&◌, Option, none, some, List, [], ◌∷◌, ◌==◌,
  if◌then◌else◌,
}
use duperemove.Prelude.Int.{ℤ, pos, ◌==ℤ◌}
use duperemove.Prelude.Outcome.{Outcome, done, aborted, ◌>>=◌}
use duperemove.SearchTree.{Tree, in_order}
use duperemove.HashTree.{
  Block, DupeBlocksList, HashTree, State, is_block, find_block_list, find_filerec_block,
}
use duperemove.FindDupes.{Cursor, cursor, Match, compare_extents}

-- struct file_extent
pub record FileExtent : Type 0 where
  pub poff : ℕ
  pub loff : ℕ
  pub len : ℕ

-- The block in the tree of its file, with those behind it.
pub cursor_at : Block → List Block → Option Cursor
cursor_at x [] = none
cursor_at x (b ∷ bs) = if is_block x b then some (cursor b bs) else cursor_at x bs

abbrev pub cursor_of : State → Block → Option Cursor
cursor_of t b = cursor_at b (in_order (t.block_tree b.b_file))

-- The block itself, and blocks of its file unless `--dedupe-options` asks for them.
abbrev pub passed_over : Bool → ℕ → Block → Block → Bool
passed_over dedupe_same_file file block found =
    if is_block block found then true else not dedupe_same_file && (file == found.b_file)

module _ {S : Type 0} (blocksize : ℕ) (size hash : ℕ → ℕ) (finish : List ℕ → ℕ)
    (insert_result : S → Match → Outcome S) (dedupe_same_file : Bool) (load_extent : ℕ → ℕ → ℤ)
    (t : State) where
  -- One comparison, from the cursors of both blocks.
  pub compare_at : ℕ → Option Cursor → ℕ → Option Cursor → ℕ → S → Outcome S
  compare_at file none walk b len s = aborted
  compare_at file (some o) walk none len s = aborted
  compare_at file (some o) walk (some b) len s =
      compare_extents blocksize size hash finish insert_result file o walk b len s

  -- The loop over the blocks with the digest of `block`.
  pub search_loop : ℕ → Block → ℕ → List Block → S → Outcome (S × ℤ)
  search_loop file block len [] s = done (s, pos 0)
  search_loop file block len (found ∷ more_blocks) s =
      elim (passed_over dedupe_same_file file block found) [
        | true ↦ search_loop file block len more_blocks s
        | false ↦ elim (load_extent found.b_file found.b_loff ==ℤ pos 0) [
          | false ↦ done (s, load_extent found.b_file found.b_loff)
          | true ↦
              compare_at file (cursor_of t block) found.b_file (cursor_of t found) len s
              >>= search_loop file block len more_blocks
        ]
      ]

  pub search_extent : ℕ → FileExtent → S → Outcome (S × ℤ)
  search_extent file extent s = elim (find_filerec_block t.block_tree file extent.loff) [
    | none ↦ done (s, pos 0)
    | some block ↦ elim (find_block_list t.tree block.b_parent) [
      | none ↦ aborted
      | some blocklist ↦ search_loop file block extent.len blocklist.dl_list s
    ]
  ]

  -- An error ends the loop.
  pub next_extent : (S → Outcome S) → S × ℤ → Outcome S
  next_extent again (s, ret) = elim (ret ==ℤ pos 0) [ true ↦ again s | false ↦ done s ]

  -- The extents that the data base answers, or an error of it.
  pub search_file_extents : ℕ → Option (List FileExtent) → S → Outcome S
  search_file_extents file none s = done s
  search_file_extents file (some []) s = done s
  search_file_extents file (some (extent ∷ extents)) s =
      search_extent file extent s >>= next_extent (search_file_extents file (some extents))
