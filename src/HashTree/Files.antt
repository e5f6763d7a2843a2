-- ===== src/HashTree/Files.antt =====
-- The trees of blocks that the files have, when a block comes or goes.
use duperemove.Prelude.{
  ℕ, ◌+◌, ◌≡◌, refl, ◌∙◌, false, All, arith, ◌==◌, ==_iff, Bool-cases, inl, inr,
}
use mathlib.Core.Path.{sym, subst}
use duperemove.Prelude.Order.{ℕ_order}
use duperemove.SearchTree.{Tree, in_order}
use duperemove.SearchTree.Bag.{total}
use duperemove.SearchTree.Write.{SortedTree, Added, Taken}
use duperemove.HashTree.{Block, HashTree, loff, set_tree}
use duperemove.HashTree.Valid.{blocks_in, of_file, FilesValid}

-- A claim about each file holds after a change of one.
set_tree-each :
    (P : ℕ → Tree Block → Type 0) (trees : ℕ → Tree Block) (file : ℕ) (t : Tree Block)
    → ((other : ℕ) → P other (trees other))
    → P file t
    → (other : ℕ) → P other (set_tree trees file t other)
set_tree-each P trees file t h new other = elim (Bool-cases (file == other)) [
  | inl it ↦ rw it (subst (λ n. P n t) ((==_iff file other).0 it) new)
  | inr apart ↦ rw apart (h other)
]

of_file_self : (e : Block) (f : Block → ℕ) → of_file e.b_file f e ≡ f e
of_file_self e f = rw ((==_iff e.b_file e.b_file).1 refl) refl

of_file_other :
    (e : Block) (f : Block → ℕ) (other : ℕ) → (e.b_file == other) ≡ false → of_file other f e ≡ 0
of_file_other e f other apart = rw apart refl

changed-FilesValid :
    (tree tree' : HashTree) (trees : ℕ → Tree Block) (file : ℕ) (t : Tree Block)
    → FilesValid tree trees
    → SortedTree ℕ_order loff t
    → All (λ b. b.b_file ≡ file) (in_order t)
    → ((f : Block → ℕ) → total f (in_order t) ≡ blocks_in (of_file file f) tree')
    → ((other : ℕ) (f : Block → ℕ)
        → (file == other) ≡ false
        → blocks_in (of_file other f) tree' ≡ blocks_in (of_file other f) tree)
    → FilesValid tree' (set_tree trees file t)
changed-FilesValid tree tree' trees file t v sorted own here elsewhere = record {
  sorted = set_tree-each (λ n. SortedTree ℕ_order loff) trees file t v.sorted sorted;
  own = set_tree-each (λ n s. All (λ b. b.b_file ≡ n) (in_order s)) trees file t v.own own;
  same_blocks = λ other f. elim (Bool-cases (file == other)) [
    | inl it ↦ rw it (
        subst (λ n. total f (in_order t) ≡ blocks_in (of_file n f) tree') ((==_iff file other).0 it)
          (here f))
    | inr apart ↦ rw apart (v.same_blocks other f ∙ sym (elsewhere other f apart))
  ];
}

pub Added-FilesValid :
    (tree tree' : HashTree) (trees : ℕ → Tree Block) (e : Block) (t : Tree Block)
    → FilesValid tree trees
    → Added ℕ_order loff e (trees e.b_file) t
    → ((f : Block → ℕ) → blocks_in f tree' ≡ f e + blocks_in f tree)
    → FilesValid tree' (set_tree trees e.b_file t)
Added-FilesValid tree tree' trees e t v a bag =
    changed-FilesValid tree tree' trees e.b_file t v a.sorted
      (a.keeps (λ b. b.b_file ≡ e.b_file) refl (v.own e.b_file))
      (λ f.
        let sum = a.sum f in
        let old = v.same_blocks e.b_file f in
        let its = of_file_self e f in let all = bag (of_file e.b_file f) in omega arith)
      (λ other f apart.
        let none_of_it = of_file_other e f other apart in
        let all = bag (of_file other f) in omega arith)

pub Taken-FilesValid :
    (tree tree' : HashTree) (trees : ℕ → Tree Block) (e : Block) (t : Tree Block)
    → FilesValid tree trees
    → Taken ℕ_order loff e (trees e.b_file) t
    → ((f : Block → ℕ) → f e + blocks_in f tree' ≡ blocks_in f tree)
    → FilesValid tree' (set_tree trees e.b_file t)
Taken-FilesValid tree tree' trees e t v a bag =
    changed-FilesValid tree tree' trees e.b_file t v a.sorted
      (a.keeps (λ b. b.b_file ≡ e.b_file) (v.own e.b_file))
      (λ f.
        let sum = a.sum f in
        let old = v.same_blocks e.b_file f in
        let its = of_file_self e f in let all = bag (of_file e.b_file f) in omega arith)
      (λ other f apart.
        let none_of_it = of_file_other e f other apart in
        let all = bag (of_file other f) in omega arith)
