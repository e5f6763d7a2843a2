-- ===== src/Filerec/Free.antt =====
-- The end of the records of filerec.c: `free_all_filerecs` unlinks each one from the list and from
-- the tree.
use duperemove.Prelude.{
  ℕ, ◌%◌, ◌^◌, ◌<◌, ◌≡◌, refl, ap, ◌∙◌, true, List, [], ◌∷◌, arith, ◌==◌, ==_iff, if◌then◌else◌,
  length,
}
use mathlib.Core.Path.{sym, subst}
use duperemove.SearchTree.{Rbtree, in_order, remove_first}
use duperemove.SearchTree.Bag.{total, total-remove}
use duperemove.Filerec.{Globals, filerec_free, free_each, free_all_filerecs}
use duperemove.Filerec.Find.{Indexed}

-- The records that are left: the same in the list and in the tree, and counted.
record Left (files : List ℕ) (g : Globals) : Type 0 where
  listed : g.filerec_head ≡ files
  same_records : (f : ℕ → ℕ) → total f (in_order g.filerec_by_fileid) ≡ total f files
  counted : g.num_filerecs ≡ length files % 2 ^ 64

==_refl : (n : ℕ) → (n == n) ≡ true
==_refl n = ground arith

head_counts :
    (file : ℕ) (files : List ℕ) → 0 < total (λ a. if a == file then 1 else 0) (file ∷ files)
head_counts file files = rw (==_refl file) (omega arith)

free_head :
    (rb : Rbtree ℕ) (g : Globals) (file : ℕ) (files : List ℕ)
    → Left (file ∷ files) g
    → Left files (filerec_free rb g file)
unfolding filerec_free
free_head rb g file files x = record {
  listed = ap (remove_first (λ a. a == file)) x.listed ∙ rw (==_refl file) refl;
  same_records = λ f.
      let present = x.same_records (λ a. if a == file then 1 else 0) in
      let there = subst (λ n. 0 < n) (sym present) (head_counts file files) in
      let gone =
        total-remove f (λ a. a == file) file (in_order g.filerec_by_fileid)
          (λ a e. (==_iff a file).0 e) there in
      let tree = ap (total f) (rb.erase_lem (λ a. a == file) g.filerec_by_fileid) in
      let both = x.same_records f in omega arith;
  counted = let n = x.counted in omega arith;
}

free_each-Left :
    (rb : Rbtree ℕ) (files : List ℕ) (g : Globals) → Left files g → Left [] (free_each rb g files)
unfolding free_each
free_each-Left rb [] g x = x
free_each-Left rb (file ∷ files) g x =
    free_each-Left rb files (filerec_free rb g file) (free_head rb g file files x)

-- No record is left in the list or in the tree, and none is counted.
pub record Empty (g : Globals) : Type 0 where
  pub no_list : g.filerec_head ≡ []
  pub no_tree : in_order g.filerec_by_fileid ≡ []
  pub no_count : g.num_filerecs ≡ 0

nil_of_total : (xs : List ℕ) → total (λ a. 1) xs ≡ 0 → xs ≡ []
nil_of_total [] e = refl
nil_of_total (x ∷ xs) e = ground arith

-- When the tree and the list hold the same records, and these are counted, `free_all_filerecs`
-- leaves both empty and the counter at 0.
pub free_all_filerecs-Empty :
    (rb : Rbtree ℕ) (g : Globals) → Indexed g → Empty (free_all_filerecs rb g)
unfolding free_all_filerecs
free_all_filerecs-Empty rb g x =
    let left =
      free_each-Left rb g.filerec_head g
        (record { listed = refl; same_records = x.same_records; counted = x.counted }) in
    record {
      no_list = left.listed;
      no_tree = nil_of_total _ (left.same_records (λ a. 1));
      no_count = left.counted;
    }
