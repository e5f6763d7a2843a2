-- ===== src/FindDupes/SearchExtent/Candidates.antt =====
-- The blocks that a search compares: each has a place in the tree of its file.
use duperemove.Prelude.{
  ℕ, ◌<◌, ◌≡◌, refl, ◌∙◌, true, false, some, List, [], ◌∷◌, All, All-mono, arith, Bool-cases, inl,
  inr,
}
use mathlib.Core.Path.{sym, subst}
use duperemove.Prelude.Order.{ℕ_order}
use duperemove.SearchTree.{in_order, find}
use duperemove.SearchTree.Bag.{total}
use duperemove.SearchTree.Sorted.{find-lookup}
use duperemove.SearchTree.Replace.{key_of_lookup}
use duperemove.SearchTree.Write.{All-find}
use duperemove.SearchTree.Member.{total_of_find}
use duperemove.HashTree.{
  Block, DupeBlocksList, State, loff, hash, is_block, find_block_list, find_filerec_block,
}
use duperemove.HashTree.Valid.{exactly, ListValid, IsValid}
use duperemove.HashTree.Leave.{All-exactly}
use duperemove.HashTree.Listed.{exactly_one, listed_total, All-listed}
use duperemove.HashTree.Inserted.{hash_of_found}
use duperemove.FindDupes.{Cursor, cursor}
use duperemove.FindDupes.Search.{OfFile}
use duperemove.FindDupes.SearchExtent.{cursor_at, cursor_of}

exactly-is_block : (x b : Block) → is_block x b ≡ false → exactly x b ≡ 0
exactly-is_block x b other = ground arith

same_place : (x b : Block) → is_block x b ≡ true → b.b_loff ≡ x.b_loff
same_place x b it = ground arith

-- A block that occurs in a file's tree has a cursor there.
pub cursor_at-OfFile :
    (file : ℕ) (x : Block) (bs : List Block)
    → All (λ b. b.b_file ≡ file) bs
    → 0 < total (exactly x) bs
    → (c : Cursor) × (cursor_at x bs ≡ some c) × OfFile file c × (c.at.b_loff ≡ x.b_loff)
unfolding cursor_at
cursor_at-OfFile file x [] own there = absurd (omega arith)
cursor_at-OfFile file x (b ∷ bs) own there = elim (Bool-cases (is_block x b)) [
  | inl it ↦ (cursor b bs, rw it refl, own, same_place x b it)
  | inr other ↦
      let none_here = exactly-is_block x b other in
      let (c, found, of_file, place) = cursor_at-OfFile file x bs own.1 (omega arith) in
      (c, rw other found, of_file, place)
]

-- A place to start a comparison from.
abbrev pub HasCursor : State → Block → Type 0
HasCursor t b =
    (c : Cursor) × (cursor_of t b ≡ some c) × OfFile b.b_file c × (c.at.b_loff ≡ b.b_loff)

-- A block that is compared with one of the same digest.
pub record Candidate (t : State) (digest : ℕ) (b : Block) : Type 0 where
  pub start : HasCursor t b
  pub own : b.b_parent ≡ digest
  pub held : 0 < total (exactly b) (in_order (t.block_tree b.b_file))

pub listed-Candidate :
    (t : State) (d : DupeBlocksList) (digest : ℕ)
    → IsValid t
    → find_block_list t.tree digest ≡ some d
    → All (Candidate t digest) d.dl_list
unfolding find_block_list
listed-Candidate t d digest v found =
    let d_valid =
      All-find ℕ_order hash ListValid t.tree.root digest d v.tree.sorted v.tree.lists found in
    let same_digest = hash_of_found t.tree digest d v.tree found in
    All-mono _ _
      (λ b there.
        let own = All-exactly _ b d.dl_list d_valid.own there in
        let at_b = subst (λ k. find_block_list t.tree k ≡ some d) (sym (own ∙ same_digest)) found in
        let held = listed_total t d b v at_b there in
        record {
          start =
              cursor_at-OfFile b.b_file b (in_order (t.block_tree b.b_file)) (v.files.own b.b_file)
                held;
          own = own ∙ same_digest;
          held = held;
        })
      d.dl_list (All-listed d.dl_list)

pub found-HasCursor :
    (t : State) (file off : ℕ) (b : Block)
    → IsValid t
    → find_filerec_block t.block_tree file off ≡ some b
    → (b.b_file ≡ file) × HasCursor t b
unfolding find_filerec_block
found-HasCursor t file off b v found =
    let own =
      All-find ℕ_order loff (λ b. b.b_file ≡ file) (t.block_tree file) off b (v.files.sorted file)
        (v.files.own file) found in
    let one = exactly_one b in
    let there =
      total_of_find ℕ_order loff (exactly b) off (t.block_tree file) b (v.files.sorted file)
        found in
    (
      own,
      cursor_at-OfFile b.b_file b (in_order (t.block_tree b.b_file)) (v.files.own b.b_file)
          (subst (λ n. 0 < total (exactly b) (in_order (t.block_tree n))) (sym own) (omega arith)),
    )

-- What a walk finds at an offset is found at its own place.
pub at_its_place :
    (t : State) (file off : ℕ) (b : Block)
    → IsValid t
    → find_filerec_block t.block_tree file off ≡ some b
    → find_filerec_block t.block_tree b.b_file b.b_loff ≡ some b
unfolding find_filerec_block
at_its_place t file off b v found =
    let own =
      All-find ℕ_order loff (λ b. b.b_file ≡ file) (t.block_tree file) off b (v.files.sorted file)
        (v.files.own file) found in
    let at_off =
      key_of_lookup ℕ_order loff (in_order (t.block_tree file)) off b
        (sym (find-lookup ℕ_order loff (t.block_tree file) off (v.files.sorted file)) ∙ found) in
    subst (λ n. find ℕ_order loff (t.block_tree n) b.b_loff ≡ some b) (sym own)
      (subst (λ n. find ℕ_order loff (t.block_tree file) n ≡ some b) (sym at_off) found)
