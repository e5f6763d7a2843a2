-- ===== src/HashTree/Removed.antt =====
-- remove_hashed_block: the block is gone from its list, its head and its file.
use duperemove.Prelude.{
  nil_of_length, ℕ, ◌+◌, ◌%◌, ◌^◌, ◌<◌, ◌≤◌, ◌≡◌, ◌⊎◌, refl, ap, ◌∙◌, false, none, some, List, [],
  ◌∷◌, arith, ◌==◌, ==_iff, length, is_empty, Bool-cases, inl, inr,
}
use mathlib.Core.Path.{sym, subst}
use duperemove.Prelude.Order.{ℕ_order}
use duperemove.Prelude.Word.{sub64}
use duperemove.Prelude.Outcome.{done}
use duperemove.SearchTree.{in_order, find, replace, remove_first}
use duperemove.SearchTree.Bag.{total, total-one}
use duperemove.SearchTree.Replace.{IsFor}
use duperemove.SearchTree.Write.{All-find, replace-Written, erase-Taken}
use duperemove.SearchTree.Member.{total_of_find, total_mono}
use duperemove.HashTree.{
  Block, DupeBlocksList, HashTree, State, Trees, loff, hash, is_list, is_block, is_at, set_tree,
  find_block_list, find_filerec_block, take_out, put_back, remove_hashed_block,
}
use duperemove.HashTree.Valid.{one_if, exactly, ListValid, blocks_in, empties, TreeValid, IsValid}
use duperemove.HashTree.Files.{Taken-FilesValid}
use duperemove.HashTree.Enlist.{is_list-IsFor, list_of, list_of-some}
use duperemove.HashTree.Inserted.{hash_of_found}
use duperemove.HashTree.Withdraw.{list_with, count-remove, take_out-ListValid}

-- The return value says whether this was the last block of its digest.
abbrev pub Answers : HashTree → HashTree → Block → ℕ → Type 0
Answers tree tree' e ret =
    ((ret ≡ 1) × (length (list_of tree e.b_parent) ≡ 1) × (find_block_list tree' e.b_parent ≡ none))
    ⊎ ((ret ≡ 0)
        × (1 < length (list_of tree e.b_parent))
        × (list_of tree' e.b_parent ≡ remove_first (is_block e) (list_of tree e.b_parent)))

-- The tree without the block, before the count of all blocks.
record Withdrawn (tree : HashTree) (r : HashTree × ℕ) (e : Block) : Type 0 where
  valid : TreeValid (record r.0 { num_blocks = sub64 r.0.num_blocks 1 })
  bag : (f : Block → ℕ) → f e + blocks_in f r.0 ≡ blocks_in f tree
  answers : Answers tree r.0 e r.1
  lists : r.1 + length (in_order r.0.root) ≡ length (in_order tree.root)
  filled : empties r.0 ≤ empties tree

free_list-Withdrawn :
    (rb : Trees) (tree : HashTree) (d new : DupeBlocksList) (e : Block)
    → TreeValid tree
    → find_block_list tree e.b_parent ≡ some d
    → d.dl_hash ≡ e.b_parent
    → new.dl_hash ≡ d.dl_hash
    → ((f : Block → ℕ) → f e ≡ total f d.dl_list)
    → new.dl_num_elem ≡ 0
    → Withdrawn tree (put_back rb tree new) e
unfolding put_back find_block_list
free_list-Withdrawn rb tree d new e v found own same_hash lone empty =
    let found' = subst (λ k. find ℕ_order hash tree.root k ≡ some d) (sym own) found in
    let t =
      erase-Taken ℕ_order hash rb.lists (is_list d.dl_hash) d tree.root (is_list-IsFor d.dl_hash)
        v.sorted found' in
    let bag : (f : Block → ℕ)
        → f e
            + total (λ d. total f d.dl_list)
                (in_order (rb.lists.erase (is_list d.dl_hash) tree.root))
          ≡ blocks_in f tree =
      λ f. let sum = t.sum (λ d. total f d.dl_list) in let one = lone f in omega arith in
    rw (empty, same_hash)
      (record {
        valid = record {
          sorted = t.sorted;
          lists = t.keeps ListValid v.lists;
          hashes_counted =
              let sum = t.sum (λ d. 1) in
              let a = total-one (in_order tree.root) in
              let b = total-one (in_order (rb.lists.erase (is_list d.dl_hash) tree.root)) in
              let old = v.hashes_counted in omega arith;
          blocks_counted = let one = bag (λ b. 1) in let old = v.blocks_counted in omega arith;
          sizes = λ k.
              let sum = t.sum (λ x. one_if (x.dl_hash == k)) in
              let less = count-remove k d.dl_hash tree.size_list in
              let old = v.sizes k in omega arith;
        };
        bag = bag;
        answers = inl (
          refl,
          ap length (list_of-some tree e.b_parent d found)
              ∙ (sym (total-one d.dl_list) ∙ sym (lone (λ b. 1))),
          subst (λ k. find ℕ_order hash (rb.lists.erase (is_list d.dl_hash) tree.root) k ≡ none) own
              t.gone,
        );
        lists =
            let sum = t.sum (λ d. 1) in
            let a = total-one (in_order tree.root) in
            let b = total-one (in_order (rb.lists.erase (is_list d.dl_hash) tree.root)) in
            omega arith;
        filled = let sum = t.sum (λ d. one_if (is_empty d.dl_list)) in omega arith;
      })

not_nil : (bs : List Block) → 0 < length bs → is_empty bs ≡ false
not_nil [] h = absurd (omega arith)
not_nil (b ∷ bs) h = refl

keep_list-Withdrawn :
    (rb : Trees) (tree : HashTree) (d new : DupeBlocksList) (e : Block)
    → TreeValid tree
    → find_block_list tree e.b_parent ≡ some d
    → d.dl_hash ≡ e.b_parent
    → ListValid new
    → new.dl_hash ≡ d.dl_hash
    → new.dl_list ≡ remove_first (is_block e) d.dl_list
    → ((f : Block → ℕ) → f e + total f new.dl_list ≡ total f d.dl_list)
    → 0 < length new.dl_list
    → (new.dl_num_elem == 0) ≡ false
    → Withdrawn tree (put_back rb tree new) e
unfolding put_back find_block_list
keep_list-Withdrawn rb tree d new e v found own new_valid same_hash same_list less some_left
      not_empty =
    let found' =
      subst (λ k. find ℕ_order hash tree.root k ≡ some d) (sym (same_hash ∙ own)) found in
    let w =
      replace-Written ℕ_order hash (is_list new.dl_hash) d new tree.root (is_list-IsFor new.dl_hash)
        v.sorted found' in
    let root' = replace (is_list new.dl_hash) new tree.root in
    let bag : (f : Block → ℕ)
        → f e + total (λ d. total f d.dl_list) (in_order root') ≡ blocks_in f tree =
      λ f. let sum = w.sum (λ d. total f d.dl_list) in let one = less f in omega arith in
    rw not_empty (record {
      valid = record {
        sorted = w.sorted;
        lists = w.keeps ListValid new_valid v.lists;
        hashes_counted =
            let sum = w.sum (λ d. 1) in
            let a = total-one (in_order tree.root) in
            let b = total-one (in_order root') in let old = v.hashes_counted in omega arith;
        blocks_counted = let one = bag (λ b. 1) in let old = v.blocks_counted in omega arith;
        sizes = λ k.
            let sum = w.sum (λ x. one_if (x.dl_hash == k)) in
            let same_key = ap (λ h. one_if (h == k)) same_hash in
            let old = v.sizes k in omega arith;
      };
      bag = bag;
      answers = inr (
        refl,
        let one = less (λ b. 1) in
            let n = total-one d.dl_list in
            let n' = total-one new.dl_list in
            let list = ap length (list_of-some tree e.b_parent d found) in omega arith,
        list_of-some (record tree { root = root' }) e.b_parent new
              (subst (λ k. find ℕ_order hash root' k ≡ some new) (same_hash ∙ own) w.there)
            ∙ (same_list
                ∙ ap (remove_first (is_block e)) (sym (list_of-some tree e.b_parent d found))),
      );
      lists =
          let sum = w.sum (λ d. 1) in
          let a = total-one (in_order tree.root) in
          let b = total-one (in_order root') in omega arith;
      filled =
          let sum = w.sum (λ d. one_if (is_empty d.dl_list)) in
          let none_new = ap one_if (not_nil new.dl_list some_left) in omega arith;
    })

-- What a removal changes.
pub record Removes (s s' : State) (e : Block) (ret : ℕ) : Type 0 where
  pub valid : IsValid s'
  pub bag : (f : Block → ℕ) → f e + blocks_in f s'.tree ≡ blocks_in f s.tree
  pub gone : find_filerec_block s'.block_tree e.b_file e.b_loff ≡ none
  pub answers : Answers s.tree s'.tree e ret
  pub lists : ret + length (in_order s'.tree.root) ≡ length (in_order s.tree.root)
  pub filled : empties s'.tree ≤ empties s.tree

is_at-IsFor : (off : ℕ) → IsFor ℕ_order loff off (is_at off)
is_at-IsFor off b = ground arith

counts_some : (n m : ℕ) → n ≡ m % 2 ^ 64 → (n == 0) ≡ false → 0 < m
counts_some n m h not_zero = ground arith

counts_not_zero : (n m : ℕ) → n ≡ m % 2 ^ 64 → 0 < m → m < 2 ^ 64 → (n == 0) ≡ false
counts_not_zero n m h some_there few = ground arith

exactly_le : (e b : Block) → exactly e b ≤ 1
exactly_le e b = ground arith

put_back-Withdrawn :
    (rb : Trees) (tree : HashTree) (d : DupeBlocksList) (e : Block)
    → TreeValid tree
    → find_block_list tree e.b_parent ≡ some d
    → d.dl_hash ≡ e.b_parent
    → ListValid d
    → 0 < total (exactly e) d.dl_list
    → length d.dl_list < 2 ^ 64
    → Withdrawn tree (put_back rb tree (take_out rb d e)) e
unfolding take_out
put_back-Withdrawn rb tree d e v found own d_valid there small =
    let (new_valid, same_hash, less) = take_out-ListValid rb d e d_valid (sym own) there in
    let new = take_out rb d e in
    let one = less (λ b. 1) in
    let n = total-one d.dl_list in
    let n' = total-one new.dl_list in
    let as_counted = new_valid.counted in
    elim (Bool-cases (new.dl_num_elem == 0)) [
      | inl it ↦
          let empty = (==_iff new.dl_num_elem 0).0 it in
          let none_left = nil_of_length new.dl_list (omega arith) in
          free_list-Withdrawn rb tree d new e v found own same_hash
            (λ f. let sum = less f in let none_of_it = ap (total f) none_left in omega arith) empty
      | inr not_empty ↦
          let some_left : 0 < length new.dl_list =
            counts_some new.dl_num_elem (length new.dl_list) as_counted not_empty in
          keep_list-Withdrawn rb tree d new e v found own new_valid same_hash refl less some_left
            not_empty
    ]

-- A block that its file has is removed from its list, its head and its file, while there are less
-- than 2 ^ 64 blocks; the return value tells whether its list was freed with it.
pub remove_hashed_block-Removes :
    (rb : Trees) (s : State) (e : Block)
    → IsValid s
    → find_filerec_block s.block_tree e.b_file e.b_loff ≡ some e
    → blocks_in (λ b. 1) s.tree < 2 ^ 64
    → (s' : State) × (ret : ℕ) × (remove_hashed_block rb s e ≡ done (s', ret)) × Removes s s' e ret
unfolding remove_hashed_block find_block_list find_filerec_block
remove_hashed_block-Removes rb s e v present small =
    let (d, found, there) = list_with s e v present in
    let own = hash_of_found s.tree e.b_parent d v.tree found in
    let d_valid =
      All-find ℕ_order hash ListValid s.tree.root e.b_parent d v.tree.sorted v.tree.lists found in
    let part =
      total_of_find ℕ_order hash (λ d. total (λ b. 1) d.dl_list) e.b_parent s.tree.root d
        v.tree.sorted found in
    let n = total-one d.dl_list in
    let few : length d.dl_list < 2 ^ 64 = omega arith in
    let w = put_back-Withdrawn rb s.tree d e v.tree found own d_valid there few in
    let r = put_back rb s.tree (take_out rb d e) in
    let t =
      erase-Taken ℕ_order loff rb.blocks (is_at e.b_loff) e (s.block_tree e.b_file)
        (is_at-IsFor e.b_loff) (v.files.sorted e.b_file) present in
    let tree' : HashTree = record r.0 { num_blocks = sub64 r.0.num_blocks 1 } in
    let not_zero : (d.dl_num_elem == 0) ≡ false =
      let some_there = total_mono (exactly e) (λ b. 1) d.dl_list (exactly_le e) in
      counts_not_zero d.dl_num_elem (length d.dl_list) d_valid.counted (omega arith) few in
    (
      record {
        tree = tree';
        block_tree =
            set_tree s.block_tree e.b_file
              (rb.blocks.erase (is_at e.b_loff) (s.block_tree e.b_file));
      },
      r.1,
      rw (remove_hashed_block, found, not_zero) refl,
      record {
        valid = record {
          tree = w.valid;
          files = Taken-FilesValid s.tree tree' s.block_tree e _ v.files t w.bag;
        };
        bag = w.bag;
        gone = rw ((==_iff e.b_file e.b_file).1 refl) t.gone;
        answers = w.answers;
        lists = w.lists;
        filled = w.filled;
      },
    )
