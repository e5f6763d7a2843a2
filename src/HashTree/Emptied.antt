-- ===== src/HashTree/Emptied.antt =====
-- free_hash_tree: every list is emptied in one round, and freed with its last block.
use duperemove.Prelude.{
  nil_of_length, ℕ, zero, suc, ◌+◌, ◌^◌, ◌<◌, ◌≤◌, ◌≡◌, ◌≢◌, Option-cases, refl, ap, ◌∙◌, some,
  List, [], ◌∷◌, All, arith, ==_iff, length, is_empty, inl, inr, ◌⊎◌, List-cases,
}
use mathlib.Core.Path.{sym, subst}
use duperemove.Prelude.Order.{ℕ_order}
use duperemove.Prelude.Outcome.{done}
use duperemove.SearchTree.{head?, in_order, lookup, remove_first}
use duperemove.SearchTree.Sorted.{find-lookup}
use duperemove.SearchTree.Bag.{total, total-one}
use duperemove.SearchTree.Erase.{lookup-head}
use duperemove.HashTree.{
  Block, DupeBlocksList, HashTree, State, Trees, hash, is_block, find_block_list,
  remove_hashed_block, free_blocks, free_round, free_rounds, free_hash_tree,
}
use duperemove.HashTree.Valid.{
  one_if, exactly, ListValid, blocks_in, empties, of_file, TreeValid, IsValid,
}
use duperemove.HashTree.Enlist.{list_of, list_of-some}
use duperemove.HashTree.Listed.{exactly_one, listed_in_file}
use duperemove.HashTree.Inserted.{list_of-none}
use duperemove.HashTree.Removed.{Removes, remove_hashed_block-Removes}

nil_not_cons : {e : Block} {es : List Block} → ◌≢◌ {A = List Block} [] (e ∷ es)
nil_not_cons h = cc

first_listed :
    (d : DupeBlocksList) (e : Block) (es : List Block)
    → d.dl_list ≡ e ∷ es
    → 0 < total (exactly e) d.dl_list
first_listed d e es listed =
    let sum = ap (total (exactly e)) listed in let one = exactly_one e in omega arith

-- What one round leaves.
record Round (s s' : State) : Type 0 where
  valid : IsValid s'
  few : blocks_in (λ b. 1) s'.tree ≤ blocks_in (λ b. 1) s.tree
  filled : empties s'.tree ≤ empties s.tree
  fewer : 1 + length (in_order s'.tree.root) ≡ length (in_order s.tree.root)

blocks_stop :
    (rb : Trees) (s s' : State) (ret : ℕ) (e : Block) (es : List Block)
    → remove_hashed_block rb s e ≡ done (s', ret)
    → ret ≡ 1
    → free_blocks rb s (e ∷ es) ≡ done s'
unfolding free_blocks
blocks_stop rb s s' ret e es run one = rw (free_blocks, run, one) refl

blocks_go_on :
    (rb : Trees) (s s' : State) (ret : ℕ) (e : Block) (es : List Block)
    → remove_hashed_block rb s e ≡ done (s', ret)
    → ret ≡ 0
    → free_blocks rb s (e ∷ es) ≡ free_blocks rb s' es
unfolding free_blocks
blocks_go_on rb s s' ret e es run zero_left = rw (free_blocks, run, zero_left) refl

list_of_cons :
    (tree : HashTree) (digest : ℕ) (e : Block) (es : List Block)
    → list_of tree digest ≡ e ∷ es
    → (d : DupeBlocksList) × (find_block_list tree digest ≡ some d) × (d.dl_list ≡ e ∷ es)
list_of_cons tree digest e es h = elim (Option-cases (find_block_list tree digest)) [
  | inl absent ↦ absurd (nil_not_cons (sym (list_of-none tree digest absent) ∙ h))
  | inr (d, found) ↦ (d, found, sym (list_of-some tree digest d found) ∙ h)
]

first_gone : (e : Block) (es : List Block) → remove_first (is_block e) (e ∷ es) ≡ es
first_gone e es = rw ((==_iff e.b_file e.b_file).1 refl, (==_iff e.b_loff e.b_loff).1 refl) refl

-- After its last block a list is freed.
last_block-Round : (s s' : State) (e : Block) → Removes s s' e 1 → Round s s'
last_block-Round s s' e r = record {
  valid = r.valid;
  few = let one = r.bag (λ b. 1) in omega arith;
  filled = r.filled;
  fewer = r.lists;
}

after_block-Round : (s s' s'' : State) (e : Block) → Removes s s' e 0 → Round s' s'' → Round s s''
after_block-Round s s' s'' e r m = record {
  valid = m.valid;
  few = let one = r.bag (λ b. 1) in let rest = m.few in omega arith;
  filled = let first = r.filled in let rest = m.filled in omega arith;
  fewer = let same = r.lists in let rest = m.fewer in omega arith;
}

-- The first block is the last one of its digest, or the others follow it.
one_block :
    (rb : Trees) (s : State) (d : DupeBlocksList) (e : Block) (es : List Block)
    → IsValid s
    → blocks_in (λ b. 1) s.tree < 2 ^ 64
    → find_block_list s.tree e.b_parent ≡ some d
    → d.dl_list ≡ e ∷ es
    → (s' : State) × (((free_blocks rb s (e ∷ es) ≡ done s') × Round s s')
        ⊎ ((free_blocks rb s (e ∷ es) ≡ free_blocks rb s' es)
            × Removes s s' e 0
            × (list_of s'.tree e.b_parent ≡ es)
            × (0 < length es)))
one_block rb s d e es v few found listed =
    let (s', ret, run, r) =
      remove_hashed_block-Removes rb s e v
        (listed_in_file s d e v found (first_listed d e es listed)) few in
    let list = list_of-some s.tree e.b_parent d found ∙ listed in
    (
      s',
      elim r.answers [
        | inl (one, alone, freed) ↦ inl (
          blocks_stop rb s s' ret e es run one,
          last_block-Round s s' e (subst (Removes s s' e) one r),
        )
        | inr (none_freed, more_there, list') ↦ inr (
          blocks_go_on rb s s' ret e es run none_freed,
          subst (Removes s s' e) none_freed r,
          list' ∙ (ap (remove_first (is_block e)) list ∙ first_gone e es),
          let n = ap length list in omega arith,
        )
      ],
    )

free_blocks-Round :
    (rb : Trees) (s : State) (d : DupeBlocksList) (digest : ℕ) (e : Block) (es : List Block)
    → IsValid s
    → blocks_in (λ b. 1) s.tree < 2 ^ 64
    → find_block_list s.tree digest ≡ some d
    → d.dl_list ≡ e ∷ es
    → All (λ b. b.b_parent ≡ digest) (e ∷ es)
    → (s' : State) × (free_blocks rb s (e ∷ es) ≡ done s') × Round s s'
free_blocks-Round rb s d digest e [] v few found listed own =
    let found' = subst (λ k. find_block_list s.tree k ≡ some d) (sym own.0) found in
    let (s', shape) = one_block rb s d e [] v few found' listed in
    elim shape [
      | inl (run, m) ↦ (s', run, m)
      | inr (run, r, left, some_left) ↦ absurd (omega arith)
    ]
free_blocks-Round rb s d digest e (b ∷ bs) v few found listed own =
    let found' = subst (λ k. find_block_list s.tree k ≡ some d) (sym own.0) found in
    let (s', shape) = one_block rb s d e (b ∷ bs) v few found' listed in
    elim shape [
      | inl (run, m) ↦ (s', run, m)
      | inr (run, r, left, some_left) ↦
          let (d', there, listed') =
            list_of_cons s'.tree digest b bs (subst (λ k. list_of s'.tree k ≡ b ∷ bs) own.0 left) in
          let (s'', rest, m) =
            free_blocks-Round rb s' d' digest b bs r.valid (let one = r.bag (λ b. 1) in omega arith)
              there listed' own.1 in
          (s'', run ∙ rest, after_block-Round s s' s'' e r m)
    ]

-- The first list of a tree without empty lists.
first_list :
    (xs : List DupeBlocksList)
    → All ListValid xs
    → total (λ d. one_if (is_empty d.dl_list)) xs ≡ 0
    → 0 < length xs
    → (d : DupeBlocksList) × (e : Block) × (es : List Block) × (head? xs ≡ some d)
      × (lookup ℕ_order hash xs d.dl_hash ≡ some d)
      × (d.dl_list ≡ e ∷ es)
      × ListValid d
first_list [] h filled some_there = absurd (omega arith)
first_list (d ∷ ds) h filled some_there = elim (List-cases d.dl_list) [
  | inl none_there ↦ absurd (let one = ap (λ l. one_if (is_empty l)) none_there in omega arith)
  | inr (e, es, listed) ↦ (d, e, es, refl, lookup-head ℕ_order hash d ds, listed, h.0)
]

find_of_lookup :
    (tree : HashTree) (d : DupeBlocksList)
    → TreeValid tree
    → lookup ℕ_order hash (in_order tree.root) d.dl_hash ≡ some d
    → find_block_list tree d.dl_hash ≡ some d
unfolding find_block_list
find_of_lookup tree d v there = find-lookup ℕ_order hash tree.root d.dl_hash v.sorted ∙ there

rounds_go_on :
    (rb : Trees) (fuel : ℕ) (s s' : State) (d : DupeBlocksList) (e : Block) (es : List Block)
    → rb.lists.first s.tree.root ≡ some d
    → d.dl_list ≡ e ∷ es
    → free_blocks rb s (e ∷ es) ≡ done s'
    → free_rounds rb (suc fuel) s ≡ free_rounds rb fuel s'
unfolding free_rounds free_round
rounds_go_on rb fuel s s' d e es first listed run =
    rw (free_rounds, first) (rw (free_round, listed, run) refl)

-- Nothing is left in the tree, in its counters and in the trees of the files.
pub record IsEmptied (s : State) : Type 0 where
  pub no_lists : in_order s.tree.root ≡ []
  pub no_counts : (s.tree.num_blocks ≡ 0) × (s.tree.num_hashes ≡ 0)
  pub no_blocks : (file : ℕ) → in_order (s.block_tree file) ≡ []

free_rounds-IsEmptied :
    (rb : Trees) (fuel : ℕ) (s : State)
    → IsValid s
    → blocks_in (λ b. 1) s.tree < 2 ^ 64
    → empties s.tree ≡ 0
    → length (in_order s.tree.root) ≡ fuel
    → (s' : State) × (free_rounds rb fuel s ≡ done (some s')) × IsEmptied s'
unfolding free_rounds
free_rounds-IsEmptied rb zero s v few filled enough =
    let none_left = nil_of_length (in_order s.tree.root) enough in
    (
      s,
      rw (free_rounds, rb.lists.first_lem s.tree.root, none_left) refl,
      record {
        no_lists = none_left;
        no_counts =
            (v.tree.blocks_counted ∙ rw none_left refl, v.tree.hashes_counted ∙ rw enough refl);
        no_blocks = λ file.
            let all = v.files.same_blocks file (λ b. 1) in
            let none_of_them : blocks_in (of_file file (λ b. 1)) s.tree ≡ 0 = rw none_left refl in
            let n = total-one (in_order (s.block_tree file)) in
            nil_of_length (in_order (s.block_tree file)) (omega arith);
      },
    )
free_rounds-IsEmptied rb (suc fuel) s v few filled enough =
    let (d, e, es, head, there, listed, d_valid) =
      first_list (in_order s.tree.root) v.tree.lists filled (omega arith) in
    let first = rb.lists.first_lem s.tree.root ∙ head in
    let (s', run, m) =
      free_blocks-Round rb s d d.dl_hash e es v few (find_of_lookup s.tree d v.tree there) listed
        (subst (All (λ b. b.b_parent ≡ d.dl_hash)) listed d_valid.own) in
    let (s'', rest, empty) =
      free_rounds-IsEmptied rb fuel s' m.valid (let less = m.few in omega arith)
        (let kept = m.filled in omega arith) (let less = m.fewer in omega arith) in
    (s'', rounds_go_on rb fuel s s' d e es first listed run ∙ rest, empty)

-- From a valid tree of less than 2 ^ 64 blocks in which no list is empty, free_hash_tree returns, in
-- as many rounds as there are lists, and leaves no list, no block in any file and zero counters.
pub free_hash_tree-IsEmptied :
    (rb : Trees) (s : State)
    → IsValid s
    → blocks_in (λ b. 1) s.tree < 2 ^ 64
    → empties s.tree ≡ 0
    → (s' : State) × (free_hash_tree rb s ≡ done (some s')) × IsEmptied s'
unfolding free_hash_tree
free_hash_tree-IsEmptied rb s v few filled =
    free_rounds-IsEmptied rb (length (in_order s.tree.root)) s v few filled refl
