-- ===== src/HashTree/Leave.antt =====
-- A block leaves the head of its file in the list of its digest.
use duperemove.Prelude.{
  ℕ, ◌+◌, ◌<◌, ◌≤◌, ◌≡◌, ◌≢◌, nil_of_is_empty, ◌↔◌, refl, ◌∙◌, true, false, some, List, [], ◌∷◌,
  All, All-mono, arith, length, Bool-cases, inl, inr, is_empty, if◌then◌else◌,
}
use mathlib.Core.Path.{sym, subst}
use duperemove.SearchTree.{Rbtree, in_order, find, remove_first}
use duperemove.SearchTree.Bag.{total, All-remove}
use duperemove.SearchTree.Erase.{total-remove_only}
use duperemove.SearchTree.Write.{replace-Written, erase-Taken}
use duperemove.SearchTree.Member.{find_of_total, total_mono}
use duperemove.HashTree.{
  Block, FileHashHead, DupeBlocksList, file_order, h_key, find_file_hash_head, is_head, store_head,
  free_one_hash_head, is_block, drop_from_head,
}
use duperemove.HashTree.Valid.{one_if, same_block, exactly, IsHead, Heads}
use duperemove.HashTree.Heads.{is_head-IsFor, found-IsHead}

pub same_block_iff : (x y : Block) → (same_block x y ≡ true) ↔ (x ≡ y)
same_block_iff x y = ground arith

pub exactly_self : (e x : Block) → 0 < exactly e x → x ≡ e
exactly_self e x there = elim (Bool-cases (same_block x e)) [
  | inl it ↦ (same_block_iff x e).0 it
  | inr other ↦ absurd (let no : 0 < 0 = subst (λ b. 0 < one_if b) other there in omega arith)
]

-- A list that has the block says of it what it says of all.
pub All-exactly :
    (P : Block → Type 0) (e : Block) (bs : List Block) → All P bs → 0 < total (exactly e) bs → P e
All-exactly P e [] h there = absurd (omega arith)
All-exactly P e (b ∷ bs) h there = elim (Bool-cases (same_block b e)) [
  | inl it ↦ subst P ((same_block_iff b e).0 it) h.0
  | inr other ↦
      let passed : 0 < 0 + total (exactly e) bs =
        subst (λ t. 0 < one_if t + total (exactly e) bs) other there in
      All-exactly P e bs h.1 (omega arith)
]

at_place : (e x : Block) → x.b_parent ≡ e.b_parent → is_block e x ≡ true → x ≡ e
at_place e x own hit = ground arith

exactly-is_block : (e x : Block) → exactly e x ≤ (if is_block e x then 1 else 0)
exactly-is_block e x = ground arith

-- In a list of one digest the test for the place picks the block and no other one.
pub total-leave :
    (e : Block) (bs : List Block) (f : Block → ℕ)
    → All (λ b. b.b_parent ≡ e.b_parent) bs
    → 0 < total (exactly e) bs
    → f e + total f (remove_first (is_block e) bs) ≡ total f bs
total-leave e bs f own there =
    let some_there =
      total_mono (exactly e) (λ x. if is_block e x then 1 else 0) bs (exactly-is_block e) in
    total-remove_only f (is_block e) e bs (All-mono _ _ (at_place e) bs own) (omega arith)

pub record Left (d d' : DupeBlocksList) (e : Block) : Type 0 where
  pub heads : Heads d.dl_hash d'.dl_files_root (remove_first (is_block e) d.dl_list)
  pub same_hash : d'.dl_hash ≡ d.dl_hash

-- The head that holds the block.
head_of :
    (d : DupeBlocksList) (e : Block)
    → Heads d.dl_hash d.dl_files_root d.dl_list
    → 0 < total (exactly e) d.dl_list
    → (head : FileHashHead) × (find_file_hash_head d e.b_file ≡ some head)
      × (0 < total (exactly e) head.h_blocks)
unfolding find_file_hash_head
head_of d e v there =
    find_of_total file_order h_key (λ h. total (exactly e) h.h_blocks) e.b_file d.dl_files_root
      v.sorted
      (All-mono (IsHead d.dl_hash) _
        (λ h is_valid it. sym (All-exactly _ e h.h_blocks is_valid.1 it).0)
        (in_order d.dl_files_root) v.each)
      (subst (λ n. 0 < n) (sym (v.same_blocks (exactly e))) there)

Loses : Block → List Block → List Block → Type 0
Loses e bs bs' = (f : Block → ℕ) → f e + total f bs' ≡ total f bs

free_head-Left :
    (rb : Rbtree FileHashHead) (d : DupeBlocksList) (e : Block) (head : FileHashHead)
    → Heads d.dl_hash d.dl_files_root d.dl_list
    → find file_order h_key d.dl_files_root head.h_file ≡ some head
    → Loses e head.h_blocks []
    → Loses e d.dl_list (remove_first (is_block e) d.dl_list)
    → Left d (free_one_hash_head rb d head) e
unfolding free_one_hash_head Loses
free_head-Left rb d e head v found lone list_less =
    let t =
      erase-Taken file_order h_key rb (is_head head.h_file) head d.dl_files_root
        (is_head-IsFor head.h_file) v.sorted found in
    record {
      heads = record {
        sorted = t.sorted;
        each = t.keeps (IsHead d.dl_hash) v.each;
        same_blocks = λ f.
            let sum = t.sum (λ h. total f h.h_blocks) in
            let old = v.same_blocks f in
            let less_list = list_less f in let one = lone f in omega arith;
      };
      same_hash = refl;
    }

shrink_head-Left :
    (d : DupeBlocksList) (e : Block) (head : FileHashHead) (rest : List Block)
    → Heads d.dl_hash d.dl_files_root d.dl_list
    → find file_order h_key d.dl_files_root head.h_file ≡ some head
    → IsHead d.dl_hash (record head { h_blocks = rest })
    → Loses e head.h_blocks rest
    → Loses e d.dl_list (remove_first (is_block e) d.dl_list)
    → Left d (store_head (record head { h_blocks = rest }) d) e
unfolding Loses
shrink_head-Left d e head rest v found is_valid head_less list_less =
    let w =
      replace-Written file_order h_key (is_head head.h_file) head (record head { h_blocks = rest })
        d.dl_files_root (is_head-IsFor head.h_file) v.sorted found in
    record {
      heads = record {
        sorted = w.sorted;
        each = w.keeps (IsHead d.dl_hash) is_valid v.each;
        same_blocks = λ f.
            let sum = w.sum (λ h. total f h.h_blocks) in
            let old = v.same_blocks f in
            let less_list = list_less f in let less_head = head_less f in omega arith;
      };
      same_hash = refl;
    }

some_left : (bs : List Block) → is_empty bs ≡ false → 0 < length bs
some_left [] h = absurd (let no : true ≢ false = λ e. cc in no h)
some_left (b ∷ bs) h = omega arith

pub drop_from_head-Left :
    (rb : Rbtree FileHashHead) (d : DupeBlocksList) (e : Block)
    → Heads d.dl_hash d.dl_files_root d.dl_list
    → All (λ b. b.b_parent ≡ e.b_parent) d.dl_list
    → 0 < total (exactly e) d.dl_list
    → Left d (drop_from_head rb d e) e
unfolding drop_from_head find_file_hash_head Loses
drop_from_head-Left rb d e v own there =
    let (head, found, it) = head_of d e v there in
    let (of_file, is_valid) = found-IsHead d e.b_file head v found in
    let same_digest = (All-exactly _ e head.h_blocks is_valid.1 it).1 in
    let rest = remove_first (is_block e) head.h_blocks in
    let found' =
      subst (λ file. find file_order h_key d.dl_files_root file ≡ some head) (sym of_file) found in
    let head_less : Loses e head.h_blocks rest = λ f.
      total-leave e head.h_blocks f
        (All-mono _ _ (λ b h. h.1 ∙ sym same_digest) head.h_blocks is_valid.1) it in
    let list_less : Loses e d.dl_list (remove_first (is_block e) d.dl_list) =
      λ f. total-leave e d.dl_list f own there in
    elim (Bool-cases (is_empty rest)) [
      | inl gone ↦
          let lone = subst (Loses e head.h_blocks) (nil_of_is_empty rest gone) head_less in
          rw (drop_from_head, found, gone) (free_head-Left rb d e head v found' lone list_less)
      | inr more_there ↦
          rw (drop_from_head, found, more_there)
            (shrink_head-Left d e head rest v found'
              (some_left rest more_there, All-remove _ (is_block e) head.h_blocks is_valid.1)
              head_less list_less)
    ]
