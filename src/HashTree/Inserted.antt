-- ===== src/HashTree/Inserted.antt =====
-- insert_hashed_block: what a new block changes, when it is refused, and what a failed allocation leaves.
use duperemove.Prelude.{
  ℕ, ◌+◌, ◌≤◌, ◌≡◌, refl, ap, ◌∙◌, true, none, some, [], ◌∷◌, ◌++◌, arith, ◌==◌, ==_iff,
  Option-cases, inl, inr, is_empty,
}
use mathlib.Core.Path.{sym, subst}
use duperemove.Prelude.Int.{pos}
use duperemove.Prelude.Word.{add64}
use duperemove.Prelude.Order.{ℕ_order}
use duperemove.Prelude.Outcome.{done}
use duperemove.SearchTree.{in_order}
use duperemove.SearchTree.Sorted.{find-lookup}
use duperemove.SearchTree.Bag.{total, total-one}
use duperemove.SearchTree.Replace.{key_of_lookup}
use duperemove.SearchTree.Write.{All-find, insert-Added}
use duperemove.HashTree.{
  Block, DupeBlocksList, HashTree, State, Trees, loff, hash, set_tree, insert_block_into_filerec,
  find_filerec_block, insert_block_list, find_block_list, new_list, enlist, insert_into_list,
  insert_hashed_block,
}
use duperemove.HashTree.Valid.{
  one_if, ListValid, blocks_in, empties, TreeValid, FilesValid, IsValid,
}
use duperemove.HashTree.Heads.{add_file_hash_head-Joined}
use duperemove.HashTree.Files.{Added-FilesValid}
use duperemove.HashTree.Enlist.{list_of, list_of-some, enlist-Enlisted}

-- The block is in: in the bag of all blocks, last among those of its digest, and found in its file.
pub record Inserts (s s' : State) (e : Block) : Type 0 where
  pub valid : IsValid s'
  pub bag : (f : Block → ℕ) → blocks_in f s'.tree ≡ f e + blocks_in f s.tree
  pub filled : empties s'.tree ≤ empties s.tree
  pub last : list_of s'.tree e.b_parent ≡ list_of s.tree e.b_parent ++ e ∷ []
  pub found : find_filerec_block s'.block_tree e.b_file e.b_loff ≡ some e

-- An empty list for a digest that has none leaves all claims true.
pub with_new_list :
    (rb : Trees) (tree : HashTree) (digest : ℕ)
    → TreeValid tree
    → find_block_list tree digest ≡ none
    → (tree' : HashTree) × (insert_block_list rb.lists tree (new_list digest) ≡ done tree')
      × TreeValid tree'
      × (find_block_list tree' digest ≡ some (new_list digest))
      × ((f : Block → ℕ) → blocks_in f tree' ≡ blocks_in f tree)
      × (empties tree' ≡ 1 + empties tree)
unfolding insert_block_list find_block_list
with_new_list rb tree digest v absent =
    let (root, made, a) =
      insert-Added ℕ_order hash rb.lists (new_list digest) tree.root v.sorted absent in
    (
      record tree { root = root; num_hashes = add64 tree.num_hashes 1 },
      rw (insert_block_list, made) refl,
      record {
        sorted = a.sorted;
        lists =
            a.keeps ListValid
              (record {
                heads = record { sorted = tt; each = tt; same_blocks = λ f. refl };
                own = tt;
                counted = refl;
              })
              v.lists;
        hashes_counted =
            let sum = a.sum (λ d. 1) in
            let n = total-one (in_order tree.root) in
            let n' = total-one (in_order root) in let old = v.hashes_counted in omega arith;
        blocks_counted =
            let sum = a.sum (λ d. total (λ b. 1) d.dl_list) in
            let old = v.blocks_counted in omega arith;
        sizes = λ k.
            let sum = a.sum (λ d. one_if (d.dl_hash == k)) in let old = v.sizes k in omega arith;
      },
      a.there,
      λ f. let sum = a.sum (λ d. total f d.dl_list) in omega arith,
      a.sum (λ d. one_if (is_empty d.dl_list)),
    )

insert_into_list-Inserts :
    (rb : Trees) (s : State) (d : DupeBlocksList) (e : Block)
    → IsValid s
    → find_block_list s.tree d.dl_hash ≡ some d
    → e.b_parent ≡ d.dl_hash
    → find_filerec_block s.block_tree e.b_file e.b_loff ≡ none
    → (s' : State) × (insert_into_list rb true s d e ≡ done (s', pos 0))
      × Inserts s s' e
      × (one_if (is_empty (list_of s.tree e.b_parent)) + empties s'.tree ≡ empties s.tree)
unfolding insert_into_list find_block_list find_filerec_block insert_block_into_filerec
insert_into_list-Inserts rb s d e v found own absent =
    let d_valid =
      All-find ℕ_order hash ListValid s.tree.root d.dl_hash d v.tree.sorted v.tree.lists found in
    let (d', joined, j) = add_file_hash_head-Joined rb.heads d e d_valid.heads own in
    let (t, made, a) =
      insert-Added ℕ_order loff rb.blocks e (s.block_tree e.b_file) (v.files.sorted e.b_file)
        absent in
    let l = enlist-Enlisted s.tree d d' e v.tree found j own in
    (
      record { tree = enlist s.tree d' e; block_tree = set_tree s.block_tree e.b_file t },
      rw (insert_into_list, joined) (rw (insert_block_into_filerec, made) refl),
      record {
        valid = record {
          tree = l.valid;
          files = Added-FilesValid s.tree (enlist s.tree d' e) s.block_tree e t v.files a l.bag;
        };
        bag = l.bag;
        filled = let sum = l.filled in omega arith;
        last = l.last;
        found = rw ((==_iff e.b_file e.b_file).1 refl) a.there;
      },
      l.filled,
    )

pub hash_of_found :
    (tree : HashTree) (digest : ℕ) (d : DupeBlocksList)
    → TreeValid tree
    → find_block_list tree digest ≡ some d
    → d.dl_hash ≡ digest
unfolding find_block_list
hash_of_found tree digest d v found =
    key_of_lookup ℕ_order hash (in_order tree.root) digest d
      (sym (find-lookup ℕ_order hash tree.root digest v.sorted) ∙ found)

pub list_of-none :
    (tree : HashTree) (digest : ℕ) → find_block_list tree digest ≡ none → list_of tree digest ≡ []
list_of-none tree digest absent = rw (list_of, absent) refl

-- With memory, a block that its file does not have yet is inserted.
pub insert_hashed_block-Inserts :
    (rb : Trees) (s : State) (digest file off : ℕ)
    → IsValid s
    → find_filerec_block s.block_tree file off ≡ none
    → (s' : State) × (insert_hashed_block rb true true true s digest file off ≡ done (s', pos 0))
      × Inserts s s' (record { b_parent = digest; b_file = file; b_loff = off })
unfolding insert_hashed_block
insert_hashed_block-Inserts rb s digest file off v absent =
    let e : Block = record { b_parent = digest; b_file = file; b_loff = off } in
    elim (Option-cases (find_block_list s.tree digest)) [
      | inl new ↦
          let (tree, made, valid, found, same_bag, one_empty) =
            with_new_list rb s.tree digest v.tree new in
          let s1 : State = record s { tree = tree } in
          let files : FilesValid tree s.block_tree = record {
            sorted = v.files.sorted;
            own = v.files.own;
            same_blocks = λ file f. v.files.same_blocks file f ∙ sym (same_bag _);
          } in
          let (s', run, i, filled) =
            insert_into_list-Inserts rb s1 (new_list digest) e
              (record { tree = valid; files = files }) found refl absent in
          (
            s',
            rw (insert_hashed_block, new, made) run,
            record {
              valid = i.valid;
              bag = λ f. i.bag f ∙ ap (λ n. f e + n) (same_bag f);
              filled =
                  let was_empty =
                    ap (λ l. one_if (is_empty l))
                      (list_of-some tree digest (new_list digest) found) in
                  omega arith;
              last =
                  i.last
                  ∙ ap (λ l. l ++ e ∷ [])
                      (list_of-some tree digest (new_list digest) found
                        ∙ sym (list_of-none s.tree digest new));
              found = i.found;
            },
          )
      | inr (d, found) ↦
          let same_digest = hash_of_found s.tree digest d v.tree found in
          let (s', run, i, filled) =
            insert_into_list-Inserts rb s d e v
              (subst (λ k. find_block_list s.tree k ≡ some d) (sym same_digest) found)
              (sym same_digest) absent in
          (s', rw (insert_hashed_block, found) run, i)
    ]
