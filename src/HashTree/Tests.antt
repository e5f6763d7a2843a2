-- ===== src/HashTree/Tests.antt =====
-- hash-tree.c with two blocks of one digest in two files.
use duperemove.Prelude.{ℕ, ◌≡◌, refl, arith, true, false, none, some}
use duperemove.Prelude.Int.{pos, enomem}
use duperemove.Prelude.Outcome.{done, aborted}
use duperemove.SearchTree.{find, link, insert}
use duperemove.HashTree.{
  Block, State, find_filerec_block, find_block_list, insert_hashed_block, insert_into_list,
  insert_block_list, insert_block_into_filerec, add_file_hash_head, find_file_hash_head,
  insert_file_hash_head, enlist, remove_hashed_block, free_rounds, free_hash_tree,
}
use duperemove.HashTree.Valid.{blocks_in, IsValid}
use duperemove.HashTree.Inserted.{Inserts, insert_hashed_block-Inserts}
use duperemove.HashTree.Refused.{insert_hashed_block-aborts, insert_hashed_block-runs_on}
use duperemove.HashTree.Removed.{Removes, remove_hashed_block-Removes}
use duperemove.HashTree.Emptied.{IsEmptied, free_hash_tree-IsEmptied}
use duperemove.HashTree.Sort.Insertion.{insertion_sort}
use duperemove.HashTree.Sort.{sort_file_hash_heads, AllAscending, sort_file_hash_heads-AllAscending}
use duperemove.HashTree.Samples.{
  trees, blk, no_blocks, one_block, two_blocks, no_blocks-IsValid, one_block-IsValid,
  two_blocks-IsValid,
}

insert_hashed_block-Inserts_example :
    (s' : State) × (insert_hashed_block trees true true true no_blocks 70 1 4096 ≡ done (s', pos 0))
    × Inserts no_blocks s' (blk 70 1 4096)
unfolding find find_filerec_block
insert_hashed_block-Inserts_example =
    insert_hashed_block-Inserts trees no_blocks 70 1 4096 no_blocks-IsValid refl

insert_hashed_block-aborts_example :
    insert_hashed_block trees true true true one_block 71 1 4096 ≡ aborted
unfolding find find_filerec_block insert_hashed_block find_block_list insert_block_list insert link
    insert_into_list add_file_hash_head find_file_hash_head insert_file_hash_head
    insert_block_into_filerec enlist
insert_hashed_block-aborts_example =
    insert_hashed_block-aborts trees one_block 71 1 4096 (blk 70 1 4096) one_block-IsValid refl

insert_hashed_block-runs_on_example :
    (s' : State) × (insert_hashed_block trees true true false no_blocks 70 1 4096
      ≡ done (s', enomem))
    × ((n : ℕ) → free_rounds trees n s' ≡ done none)
insert_hashed_block-runs_on_example = insert_hashed_block-runs_on trees no_blocks 70 1 4096 refl

remove_hashed_block-Removes_example :
    (s' : State) × (ret : ℕ) × (remove_hashed_block trees two_blocks (blk 70 1 4096)
      ≡ done (s', ret))
    × Removes two_blocks s' (blk 70 1 4096) ret
unfolding find find_filerec_block insert_hashed_block find_block_list insert_block_list insert link
    insert_into_list add_file_hash_head find_file_hash_head insert_file_hash_head
    insert_block_into_filerec enlist
remove_hashed_block-Removes_example =
    remove_hashed_block-Removes trees two_blocks (blk 70 1 4096) two_blocks-IsValid refl
      (omega arith)

free_hash_tree-IsEmptied_example :
    (s' : State) × (free_hash_tree trees two_blocks ≡ done (some s')) × IsEmptied s'
unfolding find find_filerec_block insert_hashed_block find_block_list insert_block_list insert link
    insert_into_list add_file_hash_head find_file_hash_head insert_file_hash_head
    insert_block_into_filerec enlist
free_hash_tree-IsEmptied_example =
    free_hash_tree-IsEmptied trees two_blocks two_blocks-IsValid (omega arith) refl

sort_file_hash_heads-AllAscending_example :
    IsValid (record two_blocks { tree = sort_file_hash_heads insertion_sort two_blocks.tree })
    × AllAscending (sort_file_hash_heads insertion_sort two_blocks.tree)
    × ((f : Block → ℕ)
        → blocks_in f (sort_file_hash_heads insertion_sort two_blocks.tree)
          ≡ blocks_in f two_blocks.tree)
sort_file_hash_heads-AllAscending_example =
    sort_file_hash_heads-AllAscending insertion_sort two_blocks two_blocks-IsValid
