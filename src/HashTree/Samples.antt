-- ===== src/HashTree/Samples.antt =====
-- The state of hash-tree.c after no, one and two insertions, of one digest in two files.
use duperemove.Prelude.{ℕ, refl, ap, arith, true}
use mathlib.Core.Path.{sym, subst}
use duperemove.Prelude.Int.{ℤ}
use duperemove.Prelude.Outcome.{Outcome, done, aborted}
use duperemove.SearchTree.{leaf, find, link, insert}
use duperemove.SearchTree.Plain.{plain}
use duperemove.HashTree.{
  Block, FileHashHead, DupeBlocksList, State, Trees, find_filerec_block, find_block_list,
  init_hash_tree, insert_hashed_block, insert_into_list, insert_block_list,
  insert_block_into_filerec, add_file_hash_head, find_file_hash_head, insert_file_hash_head, enlist,
}
use duperemove.HashTree.Valid.{IsValid}
use duperemove.HashTree.Inserted.{insert_hashed_block-Inserts}

abbrev pub trees : Trees
trees = record { blocks = plain Block; heads = plain FileHashHead; lists = plain DupeBlocksList }

abbrev pub blk : ℕ → ℕ → ℕ → Block
blk parent file loff = record { b_parent = parent; b_file = file; b_loff = loff }

abbrev pub no_blocks : State
no_blocks = record { tree = init_hash_tree; block_tree = λ file. leaf }

pub no_blocks-IsValid : IsValid no_blocks
no_blocks-IsValid = record {
  tree = record {
    sorted = tt;
    lists = tt;
    hashes_counted = refl;
    blocks_counted = refl;
    sizes = λ k. omega arith;
  };
  files = record { sorted = λ file. tt; own = λ file. tt; same_blocks = λ file f. refl };
}

abbrev pub state_of : Outcome (State × ℤ) → State
state_of (done r) = r.0
state_of aborted = no_blocks

abbrev pub one_block : State
one_block = state_of (insert_hashed_block trees true true true no_blocks 70 1 4096)

abbrev pub two_blocks : State
two_blocks = state_of (insert_hashed_block trees true true true one_block 70 2 0)

pub one_block-IsValid : IsValid one_block
unfolding find find_filerec_block
one_block-IsValid =
    let (s, run, i) =
      insert_hashed_block-Inserts trees no_blocks 70 1 4096 no_blocks-IsValid refl in
    subst IsValid (sym (ap state_of run)) i.valid

-- The steps of an insertion, so that it computes.
pub two_blocks-IsValid : IsValid two_blocks
unfolding find find_filerec_block insert_hashed_block find_block_list insert_block_list insert link
    insert_into_list add_file_hash_head find_file_hash_head insert_file_hash_head
    insert_block_into_filerec enlist
two_blocks-IsValid =
    let (s, run, i) = insert_hashed_block-Inserts trees one_block 70 2 0 one_block-IsValid refl in
    subst IsValid (sym (ap state_of run)) i.valid
