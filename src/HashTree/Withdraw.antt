-- ===== src/HashTree/Withdraw.antt =====
-- A block leaves the list of its digest, and a list without blocks the tree.
use duperemove.Prelude.{
  ℕ, ◌+◌, ◌-◌, ◌<◌, ◌≤◌, ◌≡◌, refl, ap, ◌∙◌, some, List, [], ◌∷◌, All, All-mono, arith, ◌==◌,
  ==_iff, Bool-cases, inl, inr,
}
use mathlib.Core.Path.{sym, subst}
use duperemove.Prelude.Order.{ℕ_order}
use duperemove.SearchTree.{in_order, remove_first}
use duperemove.SearchTree.Bag.{total, total-one, All-remove}
use duperemove.SearchTree.Member.{find_of_total, total_of_find, total_mono}
use duperemove.HashTree.{
  Block, DupeBlocksList, State, Trees, loff, hash, is_block, find_block_list, find_filerec_block,
  drop_from_head, take_out,
}
use duperemove.HashTree.Valid.{
  one_if, exactly, Heads, ListValid, blocks_in, of_file, count, IsValid,
}
use duperemove.HashTree.Leave.{same_block_iff, All-exactly, total-leave, drop_from_head-Left}

of_file_le : (file : ℕ) (f : Block → ℕ) (b : Block) → of_file file f b ≤ f b
of_file_le file f b = elim (Bool-cases (b.b_file == file)) [
  | inl it ↦ rw it (omega arith)
  | inr other ↦ rw other (omega arith)
]

-- The list that has the block.
pub list_with :
    (s : State) (e : Block)
    → IsValid s
    → find_filerec_block s.block_tree e.b_file e.b_loff ≡ some e
    → (d : DupeBlocksList) × (find_block_list s.tree e.b_parent ≡ some d)
      × (0 < total (exactly e) d.dl_list)
unfolding find_filerec_block find_block_list
list_with s e v present =
    let one : exactly e e ≡ 1 = rw ((same_block_iff e e).1 refl) refl in
    let in_file =
      total_of_find ℕ_order loff (exactly e) e.b_loff (s.block_tree e.b_file) e
        (v.files.sorted e.b_file) present in
    let in_tree = v.files.same_blocks e.b_file (exactly e) in
    let bound : blocks_in (of_file e.b_file (exactly e)) s.tree ≤ blocks_in (exactly e) s.tree =
      total_mono _ _ (in_order s.tree.root) (λ d.
        total_mono (of_file e.b_file (exactly e)) (exactly e) d.dl_list
          (λ b. of_file_le e.b_file (exactly e) b)) in
    find_of_total ℕ_order hash (λ d. total (exactly e) d.dl_list) e.b_parent s.tree.root
      v.tree.sorted
      (All-mono ListValid _ (λ d dv it. sym (All-exactly _ e d.dl_list dv.own it))
        (in_order s.tree.root) v.tree.lists)
      (omega arith)

pub count-remove :
    (k h : ℕ) (xs : List ℕ) → count k (remove_first (λ x. x == h) xs) ≤ count k xs - one_if (h == k)
count-remove k h [] = omega arith
count-remove k h (x ∷ xs) = elim (Bool-cases (x == h)) [
  | inl it ↦ let same_count = ap (λ n. one_if (n == k)) ((==_iff x h).0 it) in rw it (omega arith)
  | inr other ↦
      let rest = count-remove k h xs in
      elim (Bool-cases (h == k)) [
        | inl at_k ↦
            let apart : one_if (x == k) ≡ 0 =
              subst (λ n. one_if (x == n) ≡ 0) ((==_iff h k).0 at_k) (rw other refl) in
            rw other (omega arith)
        | inr apart ↦ let none_of_it : one_if (h == k) ≡ 0 = rw apart refl in rw other (omega arith)
      ]
]

-- The list without the block.
pub take_out-ListValid :
    (rb : Trees) (d : DupeBlocksList) (e : Block)
    → ListValid d
    → e.b_parent ≡ d.dl_hash
    → 0 < total (exactly e) d.dl_list
    → ListValid (take_out rb d e)
      × ((take_out rb d e).dl_hash ≡ d.dl_hash)
      × ((f : Block → ℕ) → f e + total f (take_out rb d e).dl_list ≡ total f d.dl_list)
unfolding take_out
take_out-ListValid rb d e v own there =
    let all_own = All-mono _ _ (λ b h. h ∙ sym own) d.dl_list v.own in
    let l = drop_from_head-Left rb.heads d e v.heads all_own there in
    let less : (f : Block → ℕ)
        → f e + total f (remove_first (is_block e) d.dl_list) ≡ total f d.dl_list =
      λ f. total-leave e d.dl_list f all_own there in
    let d' = drop_from_head rb.heads d e in
    let rest = remove_first (is_block e) d.dl_list in
    (
      record {
        heads = subst (λ h. Heads h d'.dl_files_root rest) (sym l.same_hash) l.heads;
        own =
            subst (λ h. All (λ b. b.b_parent ≡ h) rest) (sym l.same_hash)
              (All-remove _ (is_block e) d.dl_list v.own);
        counted =
            let one = less (λ b. 1) in
            let n = total-one d.dl_list in
            let n' = total-one rest in let old = v.counted in omega arith;
      },
      l.same_hash,
      less,
    )
