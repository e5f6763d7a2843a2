-- ===== src/HashTree/Refused.antt =====
-- insert_hashed_block: a second block at one place, and the allocation of a head that fails.
use duperemove.Prelude.{
  ℕ, zero, suc, ◌≡◌, refl, ap, ◌∙◌, true, false, none, some, List, [], ◌∷◌, All, arith, length,
  Option-cases, inl, inr,
}
use mathlib.Core.Path.{sym}
use duperemove.Prelude.Int.{enomem}
use duperemove.Prelude.Word.{add64}
use duperemove.Prelude.Order.{ℕ_order}
use duperemove.Prelude.Outcome.{done, aborted}
use duperemove.SearchTree.{head?, leaf, in_order, find}
use duperemove.SearchTree.Sorted.{find-lookup}
use duperemove.SearchTree.Bag.{total-one}
use duperemove.SearchTree.Insert.{insert_of_present}
use duperemove.SearchTree.Write.{SortedTree, All-find, insert-Added}
use duperemove.HashTree.{
  insert_block_list, find_file_hash_head, Block, DupeBlocksList, HashTree, State, Trees, loff, hash,
  insert_block_into_filerec, find_filerec_block, find_block_list, new_list, insert_into_list,
  insert_hashed_block, add_file_hash_head, free_blocks, free_round, free_rounds,
}
use duperemove.HashTree.Valid.{Heads, ListValid, IsValid}
use duperemove.HashTree.Heads.{add_file_hash_head-Joined}
use duperemove.HashTree.Inserted.{with_new_list, hash_of_found}

insert_into_list-aborts :
    (rb : Trees) (s : State) (d : DupeBlocksList) (e b : Block)
    → SortedTree ℕ_order loff (s.block_tree e.b_file)
    → Heads d.dl_hash d.dl_files_root d.dl_list
    → e.b_parent ≡ d.dl_hash
    → find_filerec_block s.block_tree e.b_file e.b_loff ≡ some b
    → insert_into_list rb true s d e ≡ aborted
unfolding insert_into_list find_filerec_block insert_block_into_filerec
insert_into_list-aborts rb s d e b v heads own present =
    let (d', joined, j) = add_file_hash_head-Joined rb.heads d e heads own in
    let refused = insert_of_present ℕ_order loff rb.blocks e b (s.block_tree e.b_file) v present in
    rw (insert_into_list, joined) (rw (insert_block_into_filerec, refused) refl)

-- A second block at the same offset of a file aborts the program, whatever its digest.
pub insert_hashed_block-aborts :
    (rb : Trees) (s : State) (digest file off : ℕ) (b : Block)
    → IsValid s
    → find_filerec_block s.block_tree file off ≡ some b
    → insert_hashed_block rb true true true s digest file off ≡ aborted
unfolding insert_hashed_block find_block_list
insert_hashed_block-aborts rb s digest file off b v present =
    let e : Block = record { b_parent = digest; b_file = file; b_loff = off } in
    let no_heads : Heads digest leaf [] = record {
      sorted = tt;
      each = tt;
      same_blocks = λ f. refl;
    } in
    elim (Option-cases (find_block_list s.tree digest)) [
      | inl new ↦
          let (tree, made, valid, found, same_bag, one_empty) =
            with_new_list rb s.tree digest v.tree new in
          rw (insert_hashed_block, new, made)
            (let s1 : State = record s { tree = tree } in
              insert_into_list-aborts rb s1 (new_list digest) e b (v.files.sorted file) no_heads
                refl present)
      | inr (d, found) ↦
          let same_digest = hash_of_found s.tree digest d v.tree found in
          rw (insert_hashed_block, found)
            (insert_into_list-aborts rb s d e b (v.files.sorted file)
              (All-find ℕ_order hash ListValid s.tree.root digest d v.tree.sorted v.tree.lists
                found).heads
              (sym same_digest) present)
    ]

abbrev IsEmptyList : DupeBlocksList → Type 0
IsEmptyList d = d.dl_list ≡ []

runs_on :
    (rb : Trees) (n : ℕ) (s : State) (d : DupeBlocksList)
    → rb.lists.first s.tree.root ≡ some d
    → IsEmptyList d
    → free_rounds rb n s ≡ done none
unfolding free_rounds free_round free_blocks
runs_on rb zero s d first empty = rw (free_rounds, first) refl
runs_on rb (suc n) s d first empty =
    rw (free_rounds, first) (rw (free_round, empty) (runs_on rb n s d first empty))

first_empty :
    (xs : List DupeBlocksList)
    → All IsEmptyList xs
    → length xs ≡ 1
    → (d : DupeBlocksList) × (head? xs ≡ some d) × IsEmptyList d
first_empty [] h one = absurd (omega arith)
first_empty (x ∷ xs) h one = (x, refl, h.0)

head_fails :
    (rb : Trees) (s : State) (tree : HashTree) (digest file off : ℕ)
    → find_block_list s.tree digest ≡ none
    → insert_block_list rb.lists s.tree (new_list digest) ≡ done tree
    → insert_hashed_block rb true true false s digest file off
      ≡ done (record s { tree = tree }, enomem)
unfolding insert_hashed_block insert_into_list add_file_hash_head find_file_hash_head find
head_fails rb s tree digest file off absent made = rw (insert_hashed_block, absent, made) refl

-- When the head of the first block of all cannot be allocated, ENOMEM leaves a list without blocks
-- in the tree, and free_hash_tree then goes round and round: it is still running after any number
-- of rounds.
pub insert_hashed_block-runs_on :
    (rb : Trees) (s : State) (digest file off : ℕ)
    → in_order s.tree.root ≡ []
    → (s' : State) × (insert_hashed_block rb true true false s digest file off ≡ done (s', enomem))
      × ((n : ℕ) → free_rounds rb n s' ≡ done none)
unfolding insert_block_list find_block_list
insert_hashed_block-runs_on rb s digest file off none_there =
    let sorted : SortedTree ℕ_order hash s.tree.root = rw none_there tt in
    let absent = find-lookup ℕ_order hash s.tree.root digest sorted ∙ rw none_there refl in
    let (root, made, a) =
      insert-Added ℕ_order hash rb.lists (new_list digest) s.tree.root sorted absent in
    let one : length (in_order root) ≡ 1 =
      let sum = a.sum (λ d. 1) in
      let n = total-one (in_order root) in
      let n' = total-one (in_order s.tree.root) in
      let before = ap length none_there in omega arith in
    let (d, first, empty) =
      first_empty (in_order root) (a.keeps IsEmptyList refl (rw none_there tt)) one in
    (
      record s { tree = record s.tree { root = root; num_hashes = add64 s.tree.num_hashes 1 } },
      head_fails rb s _ digest file off absent (rw (insert_block_list, made) refl),
      λ n. runs_on rb n _ d (rb.lists.first_lem root ∙ first) empty,
    )
