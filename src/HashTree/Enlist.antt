-- ===== src/HashTree/Enlist.antt =====
-- A block joins the list of its digest.
use duperemove.Prelude.{
  ℕ, ◌+◌, ◌≤◌, ◌≡◌, ◌≢◌, refl, ap, ◌∙◌, Bool, true, false, not, ◌&&◌, none, some, List, [], ◌∷◌,
  ◌++◌, All, arith, ◌==◌, ==_iff, ltb, length, length-append, All-append, Bool-cases, inl, inr,
  is_empty, if◌then◌else◌,
}
use mathlib.Core.Path.{sym, subst}
use duperemove.Prelude.Order.{ℕ_order}
use duperemove.Prelude.Word.{add64}
use duperemove.SearchTree.{in_order, find}
use duperemove.SearchTree.Bag.{total, total-one, total-append}
use duperemove.SearchTree.Replace.{IsFor}
use duperemove.SearchTree.Write.{All-find, replace-Written}
use duperemove.SearchTree.Member.{total_of_find}
use duperemove.HashTree.{
  Block, DupeBlocksList, HashTree, hash, is_listed, is_list, find_block_list, enlist,
}
use duperemove.HashTree.Valid.{one_if, Heads, ListValid, blocks_in, empties, count, TreeValid}
use duperemove.HashTree.Heads.{Joined}

pub is_list-IsFor : (digest : ℕ) → IsFor ℕ_order hash digest (is_list digest)
is_list-IsFor digest d = ground arith

-- The blocks with a digest, in the order of their insertion.
abbrev pub list_of : HashTree → ℕ → List Block
list_of tree digest = elim (find_block_list tree digest) [ none ↦ [] | some d ↦ d.dl_list ]

pub list_of-some :
    (tree : HashTree) (digest : ℕ) (d : DupeBlocksList)
    → find_block_list tree digest ≡ some d
    → list_of tree digest ≡ d.dl_list
list_of-some tree digest d found = rw (list_of, found) refl

pub record Enlisted (tree tree' : HashTree) (e : Block) : Type 0 where
  pub valid : TreeValid tree'
  pub bag : (f : Block → ℕ) → blocks_in f tree' ≡ f e + blocks_in f tree
  pub filled : one_if (is_empty (list_of tree e.b_parent)) + empties tree' ≡ empties tree
  pub last : list_of tree' e.b_parent ≡ list_of tree e.b_parent ++ e ∷ []

true_not_false : true ≢ false
true_not_false e = cc

count_of_unlisted : (k : ℕ) (xs : List ℕ) → is_listed k xs ≡ false → count k xs ≡ 0
count_of_unlisted k [] h = refl
count_of_unlisted k (x ∷ xs) h = elim (Bool-cases (x == k)) [
  | inl it ↦ absurd (true_not_false (sym (rw it refl) ∙ h))
  | inr other ↦ rw other (omega (arith, count_of_unlisted k xs (sym (rw other refl) ∙ h)))
]

abbrev with_block : DupeBlocksList → Block → DupeBlocksList
with_block d e = record d { dl_num_elem = add64 d.dl_num_elem 1; dl_list = d.dl_list ++ e ∷ [] }

with_block-ListValid :
    (d d' : DupeBlocksList) (e : Block)
    → ListValid d
    → Joined d d' e
    → e.b_parent ≡ d.dl_hash
    → ListValid (with_block d' e)
with_block-ListValid d d' e v j own = record {
  heads =
      subst (λ h. Heads h d'.dl_files_root (d'.dl_list ++ e ∷ [])) (sym j.same_hash)
        (subst (λ l. Heads d.dl_hash d'.dl_files_root (l ++ e ∷ [])) (sym j.same_elems.1) j.heads);
  own =
      subst (λ h. All (λ b. b.b_parent ≡ h) (d'.dl_list ++ e ∷ [])) (sym j.same_hash)
        (subst (λ l. All (λ b. b.b_parent ≡ d.dl_hash) (l ++ e ∷ [])) (sym j.same_elems.1)
          (All-append _ d.dl_list (e ∷ []) v.own (own, tt)));
  counted =
      let n = length-append d'.dl_list (e ∷ []) in
      let same_elem = j.same_elems.0 in
      let same_length = ap length j.same_elems.1 in let old = v.counted in omega arith;
}

sizes_with :
    (tree : HashTree) (d : DupeBlocksList)
    → TreeValid tree
    → find ℕ_order hash tree.root d.dl_hash ≡ some d
    → (k : ℕ) → is_listed d.dl_hash tree.size_list ≡ false
    → count k (d.dl_hash ∷ tree.size_list)
      ≤ total (λ x. one_if (x.dl_hash == k)) (in_order tree.root)
sizes_with tree d v found k unlisted = elim (Bool-cases (d.dl_hash == k)) [
  | inl it ↦
      let at_k = (==_iff d.dl_hash k).0 it in
      let no_other : count k tree.size_list ≡ 0 =
        subst (λ n. count n tree.size_list ≡ 0) at_k
          (count_of_unlisted d.dl_hash tree.size_list unlisted) in
      let there =
        total_of_find ℕ_order hash (λ x. one_if (x.dl_hash == k)) d.dl_hash tree.root d v.sorted
          found in
      let one : one_if (d.dl_hash == k) ≡ 1 = rw it refl in omega arith
  | inr other ↦ let old = v.sizes k in rw other (omega (arith, old))
]

-- The list by size after the block: the digest joins it at most once.
sizes_after :
    (tree : HashTree) (d : DupeBlocksList) (more_than_one : Bool)
    → TreeValid tree
    → find ℕ_order hash tree.root d.dl_hash ≡ some d
    → (k : ℕ)
    → count k (
        if more_than_one && not (is_listed d.dl_hash tree.size_list)
        then d.dl_hash ∷ tree.size_list
        else tree.size_list)
      ≤ total (λ x. one_if (x.dl_hash == k)) (in_order tree.root)
sizes_after tree d false v found k = v.sizes k
sizes_after tree d true v found k = elim (Bool-cases (is_listed d.dl_hash tree.size_list)) [
  | inl listed ↦ rw listed (v.sizes k)
  | inr unlisted ↦ rw unlisted (sizes_with tree d v found k unlisted)
]

not_empty : (bs : List Block) (e : Block) → is_empty (bs ++ e ∷ []) ≡ false
not_empty [] e = refl
not_empty (b ∷ bs) e = refl

pub enlist-Enlisted :
    (tree : HashTree) (d d' : DupeBlocksList) (e : Block)
    → TreeValid tree
    → find ℕ_order hash tree.root d.dl_hash ≡ some d
    → Joined d d' e
    → e.b_parent ≡ d.dl_hash
    → Enlisted tree (enlist tree d' e) e
unfolding enlist find_block_list
enlist-Enlisted tree d d' e v found j own =
    let new = with_block d' e in
    let at_new = subst (λ k. find ℕ_order hash tree.root k ≡ some d) (sym j.same_hash) found in
    let w =
      replace-Written ℕ_order hash (is_list d'.dl_hash) d new tree.root (is_list-IsFor d'.dl_hash)
        v.sorted at_new in
    let d_valid = All-find ℕ_order hash ListValid tree.root d.dl_hash d v.sorted v.lists found in
    let bag : (f : Block → ℕ) → blocks_in f (enlist tree d' e) ≡ f e + blocks_in f tree = λ f.
      let sum = w.sum (λ d. total f d.dl_list) in
      let its = total-append f d'.dl_list (e ∷ []) in
      let same_list = ap (total f) j.same_elems.1 in omega arith in
    let there =
      subst (λ k. find ℕ_order hash (enlist tree d' e).root k ≡ some new) j.same_hash w.there in
    record {
      valid = record {
        sorted = w.sorted;
        lists = w.keeps ListValid (with_block-ListValid d d' e d_valid j own) v.lists;
        hashes_counted =
            let sum = w.sum (λ d. 1) in
            let a = total-one (in_order tree.root) in
            let b = total-one (in_order (enlist tree d' e).root) in
            let old = v.hashes_counted in omega arith;
        blocks_counted = let one = bag (λ b. 1) in let old = v.blocks_counted in omega arith;
        sizes = λ k.
            let same_hash = ap (λ h. one_if (h == k)) j.same_hash in
            let sum = w.sum (λ x. one_if (x.dl_hash == k)) in
            let sizes =
              subst
                (λ h.
                  count k (
                    if ltb 1 (add64 d'.dl_num_elem 1) && not (is_listed h tree.size_list)
                    then h ∷ tree.size_list
                    else tree.size_list)
                  ≤ total (λ x. one_if (x.dl_hash == k)) (in_order tree.root))
                (sym j.same_hash) (sizes_after tree d (ltb 1 (add64 d'.dl_num_elem 1)) v found k) in
            omega arith;
      };
      bag = bag;
      filled =
          let sum = w.sum (λ d. one_if (is_empty d.dl_list)) in
          let none_new = ap one_if (not_empty d'.dl_list e) in
          let its =
            ap (λ l. one_if (is_empty l))
              (list_of-some tree e.b_parent d
                (subst (λ k. find ℕ_order hash tree.root k ≡ some d) (sym own) found)) in
          omega arith;
      last =
          list_of-some (enlist tree d' e) e.b_parent new
            (subst (λ k. find ℕ_order hash (enlist tree d' e).root k ≡ some new) (sym own) there)
          ∙ ap (λ l. l ++ e ∷ [])
              (j.same_elems.1
                ∙ sym (
                    list_of-some tree e.b_parent d
                      (subst (λ k. find ℕ_order hash tree.root k ≡ some d) (sym own) found)));
    }
