-- ===== src/HashTree/Heads.antt =====
-- The heads of one list: a block joins the head of its file, or leaves it.
use duperemove.Prelude.{
  ℕ, ◌≡◌, refl, ◌∙◌, true, none, some, [], ◌∷◌, ◌++◌, arith, length-append, All-append,
  Option-cases, inl, inr,
}
use mathlib.Core.Path.{sym, subst}
use duperemove.Prelude.Word.{add32}
use duperemove.Prelude.Outcome.{done}
use duperemove.SearchTree.{Rbtree, in_order, find}
use duperemove.SearchTree.Sorted.{find-lookup}
use duperemove.SearchTree.Bag.{total, total-append}
use duperemove.SearchTree.Replace.{IsFor, key_of_lookup}
use duperemove.SearchTree.Write.{All-find, insert-Added, replace-Written}
use duperemove.HashTree.{
  Block, FileHashHead, DupeBlocksList, file_order, h_key, find_file_hash_head,
  insert_file_hash_head, is_head, store_head, add_file_hash_head,
}
use duperemove.HashTree.Valid.{IsHead, Heads}

pub is_head-IsFor : (file : ℕ) → IsFor file_order h_key file (is_head file)
is_head-IsFor file h = ground arith

-- What a block adds to the heads of a list.
pub record Joined (d d' : DupeBlocksList) (e : Block) : Type 0 where
  pub heads : Heads d.dl_hash d'.dl_files_root (d.dl_list ++ e ∷ [])
  pub same_hash : d'.dl_hash ≡ d.dl_hash
  pub same_elems : (d'.dl_num_elem ≡ d.dl_num_elem) × (d'.dl_list ≡ d.dl_list)

-- A head that the walk finds is of the file, and valid.
pub found-IsHead :
    (d : DupeBlocksList) (file : ℕ) (head : FileHashHead)
    → Heads d.dl_hash d.dl_files_root d.dl_list
    → find_file_hash_head d file ≡ some head
    → (head.h_file ≡ file) × IsHead d.dl_hash head
unfolding find_file_hash_head
found-IsHead d file head v found =
    let listed = sym (find-lookup file_order h_key d.dl_files_root file v.sorted) ∙ found in
    (
      key_of_lookup file_order h_key (in_order d.dl_files_root) file head listed,
      All-find file_order h_key (IsHead d.dl_hash) d.dl_files_root file head v.sorted v.each found,
    )

join_head :
    (d : DupeBlocksList) (e : Block) (head : FileHashHead)
    → Heads d.dl_hash d.dl_files_root d.dl_list
    → e.b_parent ≡ d.dl_hash
    → find_file_hash_head d e.b_file ≡ some head
    → Joined d (store_head (record head { h_blocks = head.h_blocks ++ e ∷ [] }) d) e
unfolding find_file_hash_head
join_head d e head v own found =
    let new : FileHashHead = record head { h_blocks = head.h_blocks ++ e ∷ [] } in
    let (of_file, is_valid) = found-IsHead d e.b_file head v found in
    let w =
      replace-Written file_order h_key (is_head head.h_file) head new d.dl_files_root
        (is_head-IsFor head.h_file) v.sorted
        (subst (λ file. find file_order h_key d.dl_files_root file ≡ some head) (sym of_file)
          found) in
    record {
      heads = record {
        sorted = w.sorted;
        each =
            w.keeps (IsHead d.dl_hash)
              (
                let n = length-append head.h_blocks (e ∷ []) in omega arith,
                All-append _ head.h_blocks (e ∷ []) is_valid.1 ((sym of_file, own), tt),
              )
              v.each;
        same_blocks = λ f.
            let sum = w.sum (λ h. total f h.h_blocks) in
            let old = v.same_blocks f in
            let list = total-append f d.dl_list (e ∷ []) in
            let head_list = total-append f head.h_blocks (e ∷ []) in omega arith;
      };
      same_hash = refl;
      same_elems = (refl, refl);
    }

join_new :
    (rb : Rbtree FileHashHead) (d : DupeBlocksList) (e : Block)
    → Heads d.dl_hash d.dl_files_root d.dl_list
    → e.b_parent ≡ d.dl_hash
    → find_file_hash_head d e.b_file ≡ none
    → (d' : DupeBlocksList) × (insert_file_hash_head rb d
          (record { h_file = e.b_file; h_blocks = e ∷ [] })
        ≡ done d')
      × Joined d d' e
unfolding find_file_hash_head insert_file_hash_head
join_new rb d e v own absent =
    let head : FileHashHead = record { h_file = e.b_file; h_blocks = e ∷ [] } in
    let (root, made, a) = insert-Added file_order h_key rb head d.dl_files_root v.sorted absent in
    (
      record d { dl_files_root = root },
      rw (insert_file_hash_head, made) refl,
      record {
        heads = record {
          sorted = a.sorted;
          each = a.keeps (IsHead d.dl_hash) (omega arith, ((refl, own), tt)) v.each;
          same_blocks = λ f.
              let sum = a.sum (λ h. total f h.h_blocks) in
              let old = v.same_blocks f in
              let list = total-append f d.dl_list (e ∷ []) in omega arith;
        };
        same_hash = refl;
        same_elems = (refl, refl);
      },
    )

-- Without memory a block joins only a head that is there.
pub add_file_hash_head-Joined :
    (rb : Rbtree FileHashHead) (d : DupeBlocksList) (e : Block)
    → Heads d.dl_hash d.dl_files_root d.dl_list
    → e.b_parent ≡ d.dl_hash
    → (d' : DupeBlocksList) × (add_file_hash_head rb true d e ≡ done (some d')) × Joined d d' e
unfolding add_file_hash_head
add_file_hash_head-Joined rb d e v own = elim (Option-cases (find_file_hash_head d e.b_file)) [
  | inl absent ↦
      let (d', made, j) = join_new rb d e v own absent in
      (
        record d' { dl_num_files = add32 d'.dl_num_files 1 },
        rw (add_file_hash_head, absent, made) refl,
        record { heads = j.heads; same_hash = j.same_hash; same_elems = j.same_elems },
      )
  | inr (head, found) ↦ (_, rw (add_file_hash_head, found) refl, join_head d e head v own found)
]
