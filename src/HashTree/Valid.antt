-- ===== src/HashTree/Valid.antt =====
-- What the hash tree keeps: sorted trees, each block once in the list of its digest, once under the
-- head of its file there and once in the tree of its file, and counters that count.
use duperemove.Prelude.{
  ℕ, ◌%◌, ◌^◌, ◌<◌, ◌≤◌, ◌≡◌, Bool, List, All, ◌&&◌, ◌==◌, if◌then◌else◌, length, is_empty,
}
use duperemove.Prelude.Order.{ℕ_order}
use duperemove.SearchTree.{Tree, in_order}
use duperemove.SearchTree.Bag.{total}
use duperemove.SearchTree.Write.{SortedTree}
use duperemove.HashTree.{
  Block, FileHashHead, DupeBlocksList, HashTree, State, loff, file_order, h_key, hash,
}

abbrev pub one_if : Bool → ℕ
one_if b = if b then 1 else 0

abbrev pub same_block : Block → Block → Bool
same_block x y = (x.b_file == y.b_file) && (x.b_loff == y.b_loff) && (x.b_parent == y.b_parent)

-- How often the block occurs.
abbrev pub exactly : Block → Block → ℕ
exactly e b = one_if (same_block b e)

abbrev pub in_heads : (Block → ℕ) → Tree FileHashHead → ℕ
in_heads f heads = total (λ h. total f h.h_blocks) (in_order heads)

-- A head has blocks, all of its file and of one digest.
abbrev pub IsHead : ℕ → FileHashHead → Type 0
IsHead digest h =
    (0 < length h.h_blocks) × All (λ b. (b.b_file ≡ h.h_file) × (b.b_parent ≡ digest)) h.h_blocks

-- The heads hold the blocks of the list.
pub record Heads (digest : ℕ) (heads : Tree FileHashHead) (blocks : List Block) : Type 0 where
  pub sorted : SortedTree file_order h_key heads
  pub each : All (IsHead digest) (in_order heads)
  pub same_blocks : (f : Block → ℕ) → in_heads f heads ≡ total f blocks

pub record ListValid (d : DupeBlocksList) : Type 0 where
  pub heads : Heads d.dl_hash d.dl_files_root d.dl_list
  pub own : All (λ b. b.b_parent ≡ d.dl_hash) d.dl_list
  pub counted : d.dl_num_elem ≡ length d.dl_list % 2 ^ 64

-- The blocks of all lists, as a bag.
abbrev pub blocks_in : (Block → ℕ) → HashTree → ℕ
blocks_in f tree = total (λ d. total f d.dl_list) (in_order tree.root)

-- The lists without blocks.
abbrev pub empties : HashTree → ℕ
empties tree = total (λ d. one_if (is_empty d.dl_list)) (in_order tree.root)

abbrev pub of_file : ℕ → (Block → ℕ) → Block → ℕ
of_file file f b = if b.b_file == file then f b else 0

abbrev pub count : ℕ → List ℕ → ℕ
count k xs = total (λ x. one_if (x == k)) xs

-- The tree of each file holds the file's blocks.
pub record FilesValid (tree : HashTree) (trees : ℕ → Tree Block) : Type 0 where
  pub sorted : (file : ℕ) → SortedTree ℕ_order loff (trees file)
  pub own : (file : ℕ) → All (λ b. b.b_file ≡ file) (in_order (trees file))
  pub same_blocks :
      (file : ℕ) (f : Block → ℕ) → total f (in_order (trees file)) ≡ blocks_in (of_file file f) tree

-- A digest is at most once on the list by size, and only while it has a list.
pub record TreeValid (tree : HashTree) : Type 0 where
  pub sorted : SortedTree ℕ_order hash tree.root
  pub lists : All ListValid (in_order tree.root)
  pub hashes_counted : tree.num_hashes ≡ length (in_order tree.root) % 2 ^ 64
  pub blocks_counted : tree.num_blocks ≡ blocks_in (λ b. 1) tree % 2 ^ 64
  pub sizes :
      (k : ℕ) → count k tree.size_list ≤ total (λ d. one_if (d.dl_hash == k)) (in_order tree.root)

pub record IsValid (s : State) : Type 0 where
  pub tree : TreeValid s.tree
  pub files : FilesValid s.tree s.block_tree
