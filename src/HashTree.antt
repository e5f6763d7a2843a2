-- ===== src/HashTree.antt =====
-- hash-tree.c and hash-tree.h: the blocks of the scanned files by digest. A block's place, its file
-- and its offset, stands for its address, and its digest for the address of the list it lies in:
-- there is one list for each digest. `State` has the tree and the block_tree of each
-- `struct filerec`, where a file is the address of its record. A digest is the number that its
-- bytes spell. What the allocators answer is an argument; `aborted` is `abort_on`, `abort_lineno` or
-- the use of a list that is not there.
pub mod Valid
pub mod Heads
pub mod Leave
pub mod Files
pub mod Enlist
pub mod Inserted
pub mod Refused
pub mod Withdraw
pub mod Removed
pub mod Listed
pub mod Sort
pub mod Samples
mod Tests
pub mod Emptied
use duperemove.Prelude.{
  ℕ, zero, suc, ◌^◌, Bool, true, false, not, ◌&&◌, Option, none, some, List, [], ◌∷◌, ◌++◌, ◌==◌,
  ltb, if◌then◌else◌, length, is_empty,
}
use duperemove.Prelude.Int.{ℤ, pos, enomem}
use duperemove.Prelude.Word.{add32, add64, sub64}
use duperemove.Prelude.Order.{Order, ℕ_order, reversed}
use duperemove.Prelude.Outcome.{Outcome, done, aborted, ◌>>=◌}
use duperemove.SearchTree.{Tree, leaf, Rbtree, in_order, find, insert, replace, remove_first}

-- struct file_block
pub record Block : Type 0 where
  pub b_parent : ℕ
  pub b_file : ℕ
  pub b_loff : ℕ

pub record FileHashHead : Type 0 where
  pub h_file : ℕ
  pub h_blocks : List Block

-- Whether a list is on the list by size is asked of the latter.
pub record DupeBlocksList : Type 0 where
  pub dl_num_elem : ℕ
  pub dl_list : List Block
  pub dl_num_files : ℕ
  pub dl_files_root : Tree FileHashHead
  pub dl_hash : ℕ

-- The list by size holds digests.
pub record HashTree : Type 0 where
  pub root : Tree DupeBlocksList
  pub size_list : List ℕ
  pub num_blocks : ℕ
  pub num_hashes : ℕ

pub record State : Type 0 where
  pub tree : HashTree
  pub block_tree : ℕ → Tree Block

pub record Trees : Type 0 where
  pub blocks : Rbtree Block
  pub heads : Rbtree FileHashHead
  pub lists : Rbtree DupeBlocksList

abbrev pub loff : Block → ℕ
loff b = b.b_loff

abbrev pub set_tree : (ℕ → Tree Block) → ℕ → Tree Block → ℕ → Tree Block
set_tree trees file t other = if file == other then t else trees other

pub insert_block_into_filerec :
    Rbtree Block → (ℕ → Tree Block) → ℕ → Block → Outcome (ℕ → Tree Block)
insert_block_into_filerec rb trees file block = elim (insert ℕ_order loff rb block (trees file)) [
  | some t ↦ done (set_tree trees file t)
  | none ↦ aborted
]

unfoldable pub find_filerec_block : (ℕ → Tree Block) → ℕ → ℕ → Option Block
find_filerec_block trees file off = find ℕ_order loff (trees file) off

-- A head with a smaller address sends the walk left.
abbrev pub file_order : Order ℕ
file_order = reversed ℕ_order

abbrev pub h_key : FileHashHead → ℕ
h_key h = h.h_file

pub find_file_hash_head : DupeBlocksList → ℕ → Option FileHashHead
find_file_hash_head dups file = find file_order h_key dups.dl_files_root file

pub insert_file_hash_head :
    Rbtree FileHashHead → DupeBlocksList → FileHashHead → Outcome DupeBlocksList
insert_file_hash_head rb dups head = elim (insert file_order h_key rb head dups.dl_files_root) [
  | some root ↦ done (record dups { dl_files_root = root })
  | none ↦ aborted
]

abbrev pub is_head : ℕ → FileHashHead → Bool
is_head file h = h.h_file == file

-- A write through the pointer to a head.
abbrev pub store_head : FileHashHead → DupeBlocksList → DupeBlocksList
store_head head dups = record dups {
  dl_files_root = replace (is_head head.h_file) head dups.dl_files_root;
}

-- `none` is ENOMEM. A new head enters the tree together with its first block.
pub add_file_hash_head :
    Rbtree FileHashHead → Bool → DupeBlocksList → Block → Outcome (Option DupeBlocksList)
add_file_hash_head rb mem dups block = elim (find_file_hash_head dups block.b_file) [
  | some head ↦
      done (some (store_head (record head { h_blocks = head.h_blocks ++ block ∷ [] }) dups))
  | none ↦
      if mem
      then (insert_file_hash_head rb dups (record { h_file = block.b_file; h_blocks = block ∷ [] })
          >>= λ d. done (some (record d { dl_num_files = add32 d.dl_num_files 1 })))
      else done none
]

pub free_one_hash_head : Rbtree FileHashHead → DupeBlocksList → FileHashHead → DupeBlocksList
free_one_hash_head rb dups head = record dups {
  dl_files_root = rb.erase (is_head head.h_file) dups.dl_files_root;
}

abbrev pub hash : DupeBlocksList → ℕ
hash d = d.dl_hash

pub insert_block_list : Rbtree DupeBlocksList → HashTree → DupeBlocksList → Outcome HashTree
insert_block_list rb tree list = elim (insert ℕ_order hash rb list tree.root) [
  | some root ↦ done (record tree { root = root; num_hashes = add64 tree.num_hashes 1 })
  | none ↦ aborted
]

unfoldable pub find_block_list : HashTree → ℕ → Option DupeBlocksList
find_block_list tree digest = find ℕ_order hash tree.root digest

abbrev pub new_list : ℕ → DupeBlocksList
new_list digest = record {
  dl_num_elem = 0;
  dl_list = [];
  dl_num_files = 0;
  dl_files_root = leaf;
  dl_hash = digest;
}

abbrev pub is_listed : ℕ → List ℕ → Bool
is_listed k [] = false
is_listed k (x ∷ xs) = if x == k then true else is_listed k xs

abbrev pub is_list : ℕ → DupeBlocksList → Bool
is_list digest d = d.dl_hash == digest

-- The counters and lists behind the last early return.
pub enlist : HashTree → DupeBlocksList → Block → HashTree
enlist tree d block =
    let n = add64 d.dl_num_elem 1 in
    record tree {
      root =
          replace (is_list d.dl_hash)
            (record d { dl_num_elem = n; dl_list = d.dl_list ++ block ∷ [] }) tree.root;
      size_list =
          if ltb 1 n && not (is_listed d.dl_hash tree.size_list)
          then d.dl_hash ∷ tree.size_list
          else tree.size_list;
      num_blocks = add64 tree.num_blocks 1;
    }

-- With the list of the digest at hand.
pub insert_into_list : Trees → Bool → State → DupeBlocksList → Block → Outcome (State × ℤ)
insert_into_list rb mem s d e = add_file_hash_head rb.heads mem d e >>= λ added. elim added [
  | none ↦ done (s, enomem)
  | some d' ↦ insert_block_into_filerec rb.blocks s.block_tree e.b_file e >>= λ trees.
      done (record { tree = enlist s.tree d' e; block_tree = trees }, pos 0)
]

-- The three allocations are of the block, of a list and of a head.
pub insert_hashed_block : Trees → Bool → Bool → Bool → State → ℕ → ℕ → ℕ → Outcome (State × ℤ)
insert_hashed_block rb mem mem' mem'' s digest file off =
    let e : Block = record { b_parent = digest; b_file = file; b_loff = off } in
    if mem
    then elim (find_block_list s.tree digest) [
      | some d ↦ insert_into_list rb mem'' s d e
      | none ↦
          if mem'
          then (insert_block_list rb.lists s.tree (new_list digest) >>= λ tree.
              insert_into_list rb mem'' (record s { tree = tree }) (new_list digest) e)
          else done (s, enomem)
    ]
    else done (s, enomem)

abbrev pub is_block : Block → Block → Bool
is_block b x = (x.b_file == b.b_file) && (x.b_loff == b.b_loff)

-- The node of a block in the tree of its file.
abbrev pub is_at : ℕ → Block → Bool
is_at off x = x.b_loff == off

pub drop_from_head : Rbtree FileHashHead → DupeBlocksList → Block → DupeBlocksList
drop_from_head rb d block = elim (find_file_hash_head d block.b_file) [
  | none ↦ d
  | some head ↦
      let rest = remove_first (is_block block) head.h_blocks in
      if is_empty rest
      then free_one_hash_head rb d head
      else store_head (record head { h_blocks = rest }) d
]

-- The block leaves the tree of its file, the list and its head, and the list counts one less.
pub take_out : Trees → DupeBlocksList → Block → DupeBlocksList
take_out rb d block =
    let d' = drop_from_head rb.heads d block in
    record d' {
      dl_num_elem = sub64 d.dl_num_elem 1;
      dl_list = remove_first (is_block block) d.dl_list;
    }

-- A list without elements is freed.
pub put_back : Trees → HashTree → DupeBlocksList → HashTree × ℕ
put_back rb tree d =
    if d.dl_num_elem == 0
    then (
      record tree {
        root = rb.lists.erase (is_list d.dl_hash) tree.root;
        size_list = remove_first (λ k. k == d.dl_hash) tree.size_list;
        num_hashes = sub64 tree.num_hashes 1;
      },
      1,
    )
    else (record tree { root = replace (is_list d.dl_hash) d tree.root }, 0)

pub remove_hashed_block : Trees → State → Block → Outcome (State × ℕ)
remove_hashed_block rb s block = elim (find_block_list s.tree block.b_parent) [
  | none ↦ aborted
  | some d ↦
      let (tree, ret) = put_back rb s.tree (take_out rb d block) in
      if d.dl_num_elem == 0
      then aborted
      else done (
        record {
          tree = record tree { num_blocks = sub64 tree.num_blocks 1 };
          block_tree =
              set_tree s.block_tree block.b_file
                (rb.blocks.erase (is_at block.b_loff) (s.block_tree block.b_file));
        },
        ret,
      )
]

abbrev pub init_hash_tree : HashTree
init_hash_tree = record { root = leaf; size_list = []; num_blocks = 0; num_hashes = 0 }

-- The inner loop; each block's successor is read before the block is removed.
pub free_blocks : Trees → State → List Block → Outcome State
free_blocks rb s [] = done s
free_blocks rb s (b ∷ bs) = remove_hashed_block rb s b >>= λ r. elim (r.1 == 0) [
  | true ↦ free_blocks rb r.0 bs
  | false ↦ done r.0
]

-- One round of the loop `while (n)` for the list at the first node.
pub free_round : Trees → State → DupeBlocksList → Outcome State
free_round rb s dups = free_blocks rb s dups.dl_list

-- `none` when the loop is still running after so many rounds.
pub free_rounds : Trees → ℕ → State → Outcome (Option State)
free_rounds rb zero s = elim (rb.lists.first s.tree.root) [
  | none ↦ done (some s)
  | some d ↦ done none
]
free_rounds rb (suc fuel) s = elim (rb.lists.first s.tree.root) [
  | none ↦ done (some s)
  | some d ↦ free_round rb s d >>= free_rounds rb fuel
]

pub free_hash_tree : Trees → State → Outcome (Option State)
free_hash_tree rb s = free_rounds rb (length (in_order s.tree.root)) s
