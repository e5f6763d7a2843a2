-- ===== src/FindDupes.antt =====
-- find_dupes.c: the search for equal blocks from two starting points of two files. A pointer to a
-- block is a `Cursor`, the block with those behind it in its file's tree; `rb_next` is the next
-- one. A block's `b_parent` is the address of the list of all blocks with its digest, and `hash`
-- gives the digest. The running checksum is the list of what was added to it, and `finish` is what
-- csum.c makes of that. The recording of a match is a parameter, as are the files' sizes.
pub mod Length
pub mod Sound
pub mod Search
pub mod Late
pub mod Record
pub mod SearchExtent
mod Tests
use duperemove.Prelude.{
  ℕ, zero, suc, ◌+◌, ◌-◌, ◌%◌, ◌^◌, Bool, true, false, not, ◌&&◌, ◌||◌, Option, none, some, List,
  [], ◌∷◌, ltb, leb, ◌==◌, if◌then◌else◌, length, is_empty,
}
use duperemove.Prelude.Word.{add64, sub64}
pub use duperemove.HashTree.{Block}
use duperemove.Prelude.Outcome.{Outcome, done, aborted, ◌>>=◌}

pub record Cursor : Type 0 where
  pub at : Block
  pub behind : List Block

abbrev pub cursor : Block → List Block → Cursor
cursor b bs = record { at = b; behind = bs }

-- The arguments of `insert_result`: two files, two first and two last bytes, and the digest.
pub record Match : Type 0 where
  pub digest : ℕ
  pub recs : ℕ × ℕ
  pub soff : ℕ × ℕ
  pub eoff : ℕ × ℕ

-- What the second loop leaves in `end`, `orig` and `block`, the checksum and `matchmore`.
pub record Matched : Type 0 where
  pub ends : Option (Cursor × Cursor)
  pub orig : Cursor
  pub block : Cursor
  pub added : List ℕ
  pub matchmore : Bool

module _ (blocksize : ℕ) (size : ℕ → ℕ) where
  pub block_len : Block → ℕ
  block_len b =
      let file_size = size b.b_file in
      if leb (add64 b.b_loff blocksize) file_size
      then blocksize
      else if leb file_size b.b_loff
      then 0
      else (sub64 file_size b.b_loff) % blocksize

  -- The last byte of a block.
  abbrev pub last_byte : Block → ℕ
  last_byte b = sub64 (add64 (block_len b) b.b_loff) 1

abbrev pub same_parent : Block → Block → Bool
same_parent a b = a.b_parent == b.b_parent

-- The first loop; `none` when it walks off a tree.
pub fast_forward : ℕ → Block → List Block → Block → List Block → Option (Cursor × Cursor)
fast_forward extent_end o [] b bs =
    if not (same_parent b o) && ltb b.b_loff extent_end
    then none
    else some (cursor o [], cursor b bs)
fast_forward extent_end o (o' ∷ os) b [] =
    if not (same_parent b o) && ltb b.b_loff extent_end
    then none
    else some (cursor o (o' ∷ os), cursor b [])
fast_forward extent_end o (o' ∷ os) b (b' ∷ bs) =
    let rest = fast_forward extent_end o' os b' bs in
    if not (same_parent b o) && ltb b.b_loff extent_end
    then rest
    else some (cursor o (o' ∷ os), cursor b (b' ∷ bs))

-- The last pair in `end`.
abbrev pub last_of : Option (Cursor × Cursor) → Cursor × Cursor → Cursor × Cursor
last_of none p = p
last_of (some e) p = e

abbrev pub contiguous : ℕ → Block → Block → Bool
contiguous blocksize b next = next.b_loff == add64 b.b_loff blocksize

module _ (blocksize : ℕ) (hash : ℕ → ℕ) where
  -- The loop is left before its body.
  abbrev pub stopped : Cursor → Cursor → Bool → Matched
  stopped o b more = record { ends = none; orig = o; block = b; added = []; matchmore = more }

  -- The body for one pair, when the rest of the loop leaves `m`.
  abbrev pub matched : Cursor → Cursor → Matched → Matched
  matched o b m = record m {
    ends = some (last_of m.ends (o, b));
    added = hash b.at.b_parent ∷ m.added;
  }

  abbrev pub visit : Bool → Cursor → Cursor → Matched → Matched
  visit in_run o b m = if in_run then matched o b m else stopped o b true

  pub match_blocks : ℕ → Block → List Block → Block → List Block → Matched
  match_blocks extent_end o [] b bs =
      visit (same_parent b o && ltb b.b_loff extent_end) (cursor o []) (cursor b bs)
        (stopped (cursor o []) (cursor b bs) false)
  match_blocks extent_end o (o' ∷ os) b [] =
      visit (same_parent b o && ltb b.b_loff extent_end) (cursor o (o' ∷ os)) (cursor b [])
        (stopped (cursor o (o' ∷ os)) (cursor b []) false)
  match_blocks extent_end o (o' ∷ os) b (b' ∷ bs) =
      let rest = match_blocks extent_end o' os b' bs in
      visit (same_parent b o && ltb b.b_loff extent_end) (cursor o (o' ∷ os)) (cursor b (b' ∷ bs)) (
        if contiguous blocksize o o' && contiguous blocksize b b'
        then rest
        else stopped (cursor o' os) (cursor b' bs) false)

-- `get_next_block` on both, unless one is at the end of its tree.
pub next_of : List Block → List Block → Option (Cursor × Cursor)
next_of [] bs = none
next_of (o' ∷ os) [] = none
next_of (o' ∷ os) (b' ∷ bs) = some (cursor o' os, cursor b' bs)

abbrev pub next_pair : Cursor → Cursor → Option (Cursor × Cursor)
next_pair o b = next_of o.behind b.behind

-- `insert_result` over a state of its own; `aborted` is the exit when it has no memory. `finish` is
-- the digest of a running checksum.
module _ {S : Type 0} (blocksize : ℕ) (size hash : ℕ → ℕ) (finish : List ℕ → ℕ)
    (insert_result : S → Match → Outcome S) where
  pub record_match : S → ℕ → ℕ → ℕ → Cursor × Cursor → Cursor × Cursor → Outcome S
  record_match s digest orig walk (start0, start1) (end0, end1) =
      if not (start0.at.b_file == orig) || not (start1.at.b_file == walk)
      then aborted
      else insert_result s (record {
        digest = digest;
        recs = (start0.at.b_file, start1.at.b_file);
        soff = (start0.at.b_loff, start1.at.b_loff);
        eoff = (last_byte blocksize size end0.at, last_byte blocksize size end1.at);
      })

  -- After a match: the next search begins behind it, unless there is nothing to search.
  pub continue : ℕ → (Cursor → Cursor → S → Outcome S) → Matched → Cursor × Cursor → S → Outcome S
  continue extent_end again m (end0, end1) s =
      if not m.matchmore || ltb extent_end m.block.at.b_loff
      then done s
      else elim (next_pair end0 end1) [ none ↦ done s | some (o, b) ↦ again o b s ]

  -- A match that reaches beyond the extent ends the search.
  pub finish_match :
      ℕ → ℕ → ℕ → (Cursor → Cursor → S → Outcome S) → Cursor × Cursor → Matched → S → Outcome S
  finish_match extent_end orig walk again start m s = elim m.ends [
    | none ↦ done s
    | some ends ↦
        if leb (last_byte blocksize size ends.1.at) extent_end
        then (record_match s (finish m.added) orig walk start ends
            >>= continue extent_end again m ends)
        else done s
  ]

  -- From the label `next_match`, on fuel; without fuel the outcome is `aborted`.
  pub next_match : ℕ → ℕ → ℕ → ℕ → Cursor → Cursor → S → Outcome S
  next_match extent_end orig walk zero o b s = aborted
  next_match extent_end orig walk (suc fuel) o b s =
      elim (fast_forward extent_end o.at o.behind b.at b.behind) [
        | none ↦ done s
        | some (o', b') ↦
            finish_match extent_end orig walk (next_match extent_end orig walk fuel) (o, b)
              (match_blocks blocksize hash extent_end o'.at o'.behind b'.at b'.behind) s
      ]

  -- Each search takes at least one block of the walked file.
  pub compare_extents : ℕ → Cursor → ℕ → Cursor → ℕ → S → Outcome S
  compare_extents orig_file o walk_file b search_len s =
      let extent_end = sub64 (add64 b.at.b_loff search_len) 1 in
      next_match extent_end orig_file walk_file (suc (length b.behind)) o b s
