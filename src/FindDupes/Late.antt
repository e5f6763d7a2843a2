-- ===== src/FindDupes/Late.antt =====
-- Where the range of a second match of compare_extents begins.
use duperemove.Prelude.{ℕ, suc, ◌≡◌, refl, true, false, some, List, [], ◌∷◌, ltb, leb, ◌==◌}
use duperemove.Prelude.Outcome.{Outcome, done}
use duperemove.FindDupes.{
  block_len, Block, cursor, Match, last_byte, same_parent, block_len, matched, stopped,
  fast_forward, match_blocks, next_of, record_match, continue, finish_match, next_match,
}

-- The matches in a list, the latest first.
abbrev pub collect : List Match → Match → Outcome (List Match)
collect s m = done (m ∷ s)

one_skip :
    (extent_end : ℕ) (o o' b b' : Block)
    → same_parent b o ≡ false
    → ltb b.b_loff extent_end ≡ true
    → same_parent b' o' ≡ true
    → fast_forward extent_end o (o' ∷ []) b (b' ∷ []) ≡ some (cursor o' [], cursor b' [])
unfolding fast_forward
one_skip extent_end o o' b b' differ inside equal = rw (differ, inside, equal) refl

one_match :
    (blocksize : ℕ) (hash : ℕ → ℕ) (extent_end : ℕ) (o b : Block)
    → same_parent b o ≡ true
    → ltb b.b_loff extent_end ≡ true
    → match_blocks blocksize hash extent_end o [] b []
      ≡ matched blocksize hash
          (cursor o [])
          (cursor b [])
          (stopped blocksize hash (cursor o []) (cursor b []) false)
unfolding match_blocks
one_match blocksize hash extent_end o b equal inside = rw (equal, inside) refl

-- When a search begins at two blocks that differ, and the blocks behind them are equal, inside the
-- extent and the last of their files, the range that is recorded begins at the blocks that differ,
-- though its digest is that of the equal ones alone.
pub next_match-late :
    (blocksize : ℕ) (size hash : ℕ → ℕ) (finish : List ℕ → ℕ) (extent_end orig walk fuel : ℕ)
    (o o' b b' : Block) (s : List Match)
    → same_parent b o ≡ false
    → ltb b.b_loff extent_end ≡ true
    → same_parent b' o' ≡ true
    → ltb b'.b_loff extent_end ≡ true
    → leb (last_byte blocksize size b') extent_end ≡ true
    → (o.b_file == orig) ≡ true
    → (b.b_file == walk) ≡ true
    → next_match blocksize size hash finish collect extent_end orig walk
        (suc fuel)
        (cursor o (o' ∷ []))
        (cursor b (b' ∷ []))
        s
      ≡ done (
          record {
            digest = finish (hash b'.b_parent ∷ []);
            recs = (o.b_file, b.b_file);
            soff = (o.b_loff, b.b_loff);
            eoff = (last_byte blocksize size o', last_byte blocksize size b');
          }
          ∷ s)
unfolding next_match continue next_of finish_match block_len record_match
next_match-late blocksize size hash finish extent_end orig walk fuel o o' b b' s differ inside equal
      inside' fits of_orig of_walk =
    rw
      (
        next_match,
        one_skip extent_end o o' b b' differ inside equal,
        one_match blocksize hash extent_end o' b' equal inside',
      )
      (rw (finish_match, fits, record_match, of_orig, of_walk) refl)
