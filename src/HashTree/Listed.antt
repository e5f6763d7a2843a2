-- ===== src/HashTree/Listed.antt =====
-- The blocks of a list are in their files.
use duperemove.Prelude.{
  ◌<◌, ◌≤◌, ◌≡◌, refl, ap, ◌∙◌, some, List, [], ◌∷◌, All, All-mono, arith, ==_iff,
}
use duperemove.Prelude.Order.{ℕ_order}
use duperemove.SearchTree.{in_order}
use duperemove.SearchTree.Bag.{total}
use duperemove.SearchTree.Member.{find_of_total, total_of_find, total_mono, All-of_every}
use duperemove.HashTree.{
  Block, DupeBlocksList, State, loff, hash, find_block_list, find_filerec_block,
}
use duperemove.HashTree.Valid.{exactly, of_file, IsValid}
use duperemove.HashTree.Leave.{exactly_self}

pub exactly_one : (e : Block) → exactly e e ≡ 1
exactly_one e =
    rw
      (
        (==_iff e.b_file e.b_file).1 refl,
        (==_iff e.b_loff e.b_loff).1 refl,
        (==_iff e.b_parent e.b_parent).1 refl,
      )
      refl

exactly-of_file : (e b : Block) → exactly e b ≤ of_file e.b_file (exactly e) b
exactly-of_file e b = ground arith

pub listed_total :
    (s : State) (d : DupeBlocksList) (e : Block)
    → IsValid s
    → find_block_list s.tree e.b_parent ≡ some d
    → 0 < total (exactly e) d.dl_list
    → 0 < total (exactly e) (in_order (s.block_tree e.b_file))
unfolding find_block_list
listed_total s d e v found there =
    let of_e = of_file e.b_file (exactly e) in
    let bound = total_mono (exactly e) of_e d.dl_list (exactly-of_file e) in
    let part =
      total_of_find ℕ_order hash (λ d. total of_e d.dl_list) e.b_parent s.tree.root d v.tree.sorted
        found in
    let same = v.files.same_blocks e.b_file (exactly e) in omega arith

-- A block in a list is found in its file.
pub listed_in_file :
    (s : State) (d : DupeBlocksList) (e : Block)
    → IsValid s
    → find_block_list s.tree e.b_parent ≡ some d
    → 0 < total (exactly e) d.dl_list
    → find_filerec_block s.block_tree e.b_file e.b_loff ≡ some e
unfolding find_filerec_block
listed_in_file s d e v found there =
    let (a, at, it) =
      find_of_total ℕ_order loff (exactly e) e.b_loff (s.block_tree e.b_file)
        (v.files.sorted e.b_file)
        (All-of_every _ (λ x h. ap loff (exactly_self e x h)) (in_order (s.block_tree e.b_file)))
        (listed_total s d e v found there) in
    at ∙ ap some (exactly_self e a it)

-- Each element of a list occurs in it.
pub All-listed : (bs : List Block) → All (λ b. 0 < total (exactly b) bs) bs
All-listed [] = tt
All-listed (b ∷ bs) =
    (let one = exactly_one b in omega arith, All-mono _ _ (λ x h. omega arith) bs (All-listed bs))
