-- ===== src/FindDupes/Tests.antt =====
-- find_dupes.c on two files of three blocks of 4096 bytes, of which the middle ones differ.
use duperemove.Prelude.{true, false, some, ℕ, ◌+◌, ◌≡◌, refl, List, [], ◌∷◌, arith}
use duperemove.Prelude.Int.{pos}
use duperemove.Prelude.Outcome.{done}
use Prim.Native.Nat.{min, ◌-◌}
use duperemove.FindDupes.{
  Block, Cursor, cursor, Match, last_byte, block_len, fast_forward, match_blocks, next_of,
  record_match, continue, finish_match, next_match, compare_extents,
}
use duperemove.SearchTree.{leaf}
use duperemove.SearchTree.Plain.{plain}
use duperemove.Results.{Extent, DupeExtents, ResultsTree, Trees}
use duperemove.Results.Valid.{IsValid}
use duperemove.HashTree.Samples.{two_blocks, two_blocks-IsValid}
use duperemove.FindDupes.SearchExtent.{FileExtent, search_file_extents}
use duperemove.FindDupes.SearchExtent.Sound.{Searches, search_file_extents-Returns}
use duperemove.FindDupes.Record.{insert_match, compare_extents-IsValid}
use duperemove.FindDupes.Length.{block_len-min}
use duperemove.FindDupes.Search.{IsSound, compare_extents-IsSound}
use duperemove.FindDupes.Late.{collect, next_match-late}

abbrev blk : ℕ → ℕ → ℕ → Block
blk parent file loff = record { b_parent = parent; b_file = file; b_loff = loff }

abbrev sizes : ℕ → ℕ
sizes file = 12288

abbrev sum : List ℕ → ℕ
sum [] = 0
sum (x ∷ xs) = x + sum xs

abbrev itself : ℕ → ℕ
itself n = n

abbrev left_file : Cursor
left_file = cursor (blk 70 1 0) (blk 71 1 4096 ∷ blk 72 1 8192 ∷ [])

abbrev right_file : Cursor
right_file = cursor (blk 70 2 0) (blk 75 2 4096 ∷ blk 72 2 8192 ∷ [])

-- The second range begins at 4096, where the files differ.
two_matches :
    compare_extents 4096 sizes itself sum collect 1 left_file 2 right_file 12288 []
    ≡ done (
        record { digest = 72; recs = (1, 2); soff = (4096, 4096); eoff = (12287, 12287) }
        ∷ record { digest = 70; recs = (1, 2); soff = (0, 0); eoff = (4095, 4095) }
        ∷ [])
unfolding compare_extents next_match fast_forward match_blocks finish_match record_match continue
    next_of block_len
two_matches = refl

next_match-late_example :
    next_match 4096 sizes itself sum collect 12287 1 2 1
      (cursor (blk 71 1 4096) (blk 72 1 8192 ∷ []))
      (cursor (blk 75 2 4096) (blk 72 2 8192 ∷ []))
      []
    ≡ done (
        record {
          digest = sum (72 ∷ []);
          recs = (1, 2);
          soff = (4096, 4096);
          eoff = (last_byte 4096 sizes (blk 72 1 8192), last_byte 4096 sizes (blk 72 2 8192));
        }
        ∷ [])
unfolding block_len
next_match-late_example =
    next_match-late 4096 sizes itself sum 12287 1 2 0 (blk 71 1 4096) (blk 72 1 8192)
      (blk 75 2 4096) (blk 72 2 8192) [] refl refl refl refl refl refl refl

block_len-min_example : block_len 4096 sizes (blk 72 1 8192) ≡ min 4096 (12288 - 8192)
block_len-min_example =
    block_len-min 4096 sizes (blk 72 1 8192) (omega arith) (omega arith) (omega arith)

-- All matches so far are sound.
AllSound : List Match → Type 0
AllSound [] = Unit
AllSound (m ∷ ms) = IsSound 4096 sizes itself sum 12287 1 2 m × AllSound ms

collect-AllSound :
    (s : List Match) (m : Match)
    → AllSound s
    → IsSound 4096 sizes itself sum 12287 1 2 m
    → (s' : List Match) × (collect s m ≡ done s') × AllSound s'
unfolding AllSound
collect-AllSound s m h sound = (m ∷ s, refl, (sound, h))

nothing-AllSound : AllSound []
unfolding AllSound
nothing-AllSound = tt

compare_extents-IsSound_example :
    (s' : List Match) × (compare_extents 4096 sizes itself sum collect 1 left_file 2 right_file
        12288 []
      ≡ done s')
    × AllSound s'
compare_extents-IsSound_example =
    compare_extents-IsSound 4096 sizes itself sum 12287 1 2 collect AllSound collect-AllSound
      left_file right_file 12288 [] refl nothing-AllSound (refl, (refl, (refl, tt)))
      (refl, (refl, (refl, tt)))

abbrev no_results : ResultsTree
no_results = record { root = leaf; num_dupes = 0; num_extents = 0 }

no_results-IsValid : IsValid no_results
no_results-IsValid = record {
  sorted = tt;
  dupes = tt;
  dupes_counted = refl;
  extents_counted = refl;
}

abbrev trees : Trees
trees = record { extents = plain Extent; dupes = plain DupeExtents }

compare_extents-IsValid_example :
    (res' : ResultsTree) × (compare_extents 4096 sizes itself sum
        (insert_match trees true)
        1
        left_file
        2
        right_file
        12288
        no_results
      ≡ done res')
    × IsValid res'
compare_extents-IsValid_example =
    compare_extents-IsValid 4096 sizes itself sum trees 1 2 left_file right_file 12288 no_results
      no_results-IsValid (refl, (refl, (refl, tt))) (refl, (refl, (refl, tt)))

-- The search of the file 1 in a tree with two blocks of the digest 70, in the files 1 and 2.
abbrev wanted : List FileExtent
wanted = record { poff = 65536; loff = 4096; len = 4096 } ∷ []

-- Every match is sound, and one that the search may make.
AllSearched : List Match → Type 0
AllSearched [] = Unit
AllSearched (m ∷ ms) =
    ((walk : ℕ) × (extent_end : ℕ) × Searches false (λ file off. pos 0) two_blocks 1 wanted walk
        extent_end
      × IsSound 4096 sizes itself sum extent_end 1 walk m)
    × AllSearched ms

collect-AllSearched :
    (walk extent_end : ℕ) (s : List Match) (m : Match)
    → AllSearched s
    → Searches false (λ file off. pos 0) two_blocks 1 wanted walk extent_end
    → IsSound 4096 sizes itself sum extent_end 1 walk m
    → (s' : List Match) × (collect s m ≡ done s') × AllSearched s'
unfolding AllSearched
collect-AllSearched walk extent_end s m h searched sound =
    (m ∷ s, refl, ((walk, extent_end, searched, sound), h))

nothing-AllSearched : AllSearched []
unfolding AllSearched
nothing-AllSearched = tt

search_file_extents-Returns_example :
    (s' : List Match) × (search_file_extents 4096 sizes itself sum collect false
        (λ file off. pos 0)
        two_blocks
        1
        (some wanted)
        []
      ≡ done s')
    × AllSearched s'
search_file_extents-Returns_example =
    search_file_extents-Returns 4096 sizes itself sum collect false (λ file off. pos 0) two_blocks 1
      (some wanted) AllSearched collect-AllSearched [] two_blocks-IsValid nothing-AllSearched
