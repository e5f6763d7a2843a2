-- ===== src/FindDupes/SearchExtent/Sound.antt =====
-- The search of a file's extents: it returns, and records sound matches only.
use duperemove.Prelude.{
  ℕ, ◌<◌, ◌≡◌, ◌⊎◌, ◌≢◌, refl, ap, ◌∙◌, Bool, true, false, not, ◌&&◌, Option, none, some, List, [],
  ◌∷◌, All, All-mono, ◌==◌, if◌then◌else◌, Bool-cases, Option-cases, inl, inr,
}
use mathlib.Core.Path.{sym, subst}
use duperemove.Prelude.Int.{ℤ, pos, ◌==ℤ◌}
use duperemove.Prelude.Word.{add64, sub64}
use duperemove.Prelude.Outcome.{Outcome, done}
use duperemove.SearchTree.{in_order}
use duperemove.SearchTree.Bag.{total}
use duperemove.HashTree.Withdraw.{list_with}
use duperemove.HashTree.{Block, State, hash, is_block, find_filerec_block}
use duperemove.HashTree.Valid.{exactly, IsValid}
use duperemove.FindDupes.{Match}
use duperemove.FindDupes.Search.{OfFile, IsSound, compare_extents-IsSound}
use duperemove.FindDupes.SearchExtent.{
  FileExtent, cursor_of, compare_at, passed_over, search_loop, search_extent, search_file_extents,
  next_extent,
}
use duperemove.FindDupes.SearchExtent.Candidates.{
  HasCursor, Candidate, listed-Candidate, found-HasCursor, at_its_place,
}

abbrev pub Among : FileExtent → List FileExtent → Type 0
Among e [] = ⊥
Among e (x ∷ xs) = (e ≡ x) ⊎ Among e xs

-- A comparison that the search of a file's extents makes: from the block where one of the extents
-- begins, with another block of its digest, in the file `walk` and up to `extent_end`, the length of
-- the extent behind that block; the data base knows that block, and its file is another one unless
-- the options allow the same.
pub record Searches (dedupe_same_file : Bool) (load_extent : ℕ → ℕ → ℤ) (t : State) (file : ℕ)
    (extents : List FileExtent) (walk extent_end : ℕ) : Type 0 where
  pub extent : FileExtent
  pub among : Among extent extents
  pub block : Block
  pub begins : find_filerec_block t.block_tree file extent.loff ≡ some block
  pub found : Block
  pub same_digest : found.b_parent ≡ block.b_parent
  pub held : 0 < total (exactly found) (in_order (t.block_tree found.b_file))
  pub another : is_block block found ≡ false
  pub pair : (dedupe_same_file ≡ true) ⊎ ((file == found.b_file) ≡ false)
  pub loaded : (load_extent found.b_file found.b_loff ==ℤ pos 0) ≡ true
  pub walks : walk ≡ found.b_file
  pub ends : extent_end ≡ sub64 (add64 found.b_loff extent.len) 1

other_block : (itself other : Bool) → (if itself then true else other) ≡ false → itself ≡ false
other_block true other h = h
other_block false other h = refl

two_files :
    (itself same other : Bool)
    → (if itself then true else not same && other) ≡ false
    → (same ≡ true) ⊎ (other ≡ false)
two_files true same other h = absurd (let no : true ≢ false = λ e. cc in no h)
two_files false true other h = inl refl
two_files false false other h = inr h

module _ {S : Type 0} (blocksize : ℕ) (size hash : ℕ → ℕ) (finish : List ℕ → ℕ)
    (insert_result : S → Match → Outcome S) (dedupe_same_file : Bool) (load_extent : ℕ → ℕ → ℤ)
    (t : State) (file : ℕ) (all : List FileExtent) (Inv : S → Type 0)
    (insert-Inv : (walk extent_end : ℕ) (s : S) (m : Match)
      → Inv s
      → Searches dedupe_same_file load_extent t file all walk extent_end
      → IsSound blocksize size hash finish extent_end file walk m
      → (s' : S) × (insert_result s m ≡ done s') × Inv s') where
  compare_at-Returns :
      (block found : Block) (len : ℕ) (s : S)
      → Inv s
      → block.b_file ≡ file
      → HasCursor t block
      → HasCursor t found
      → Searches dedupe_same_file load_extent t file all found.b_file
          (sub64 (add64 found.b_loff len) 1)
      → (s' : S) × (compare_at blocksize size hash finish insert_result dedupe_same_file load_extent
            t file
            (cursor_of t block)
            found.b_file
            (cursor_of t found)
            len
            s
          ≡ done s')
        × Inv s'
  unfolding compare_at
  compare_at-Returns block found len s i own (o, at_o, of_o, place_o) (b, at_b, of_b, place_b) h =
      let extent_end = sub64 (add64 found.b_loff len) 1 in
      let (s', run, i') =
        compare_extents-IsSound blocksize size hash finish extent_end file found.b_file
          insert_result Inv (λ r m j sound. insert-Inv found.b_file extent_end r m j h sound) o b
          len s (ap (λ n. sub64 (add64 n len) 1) (sym place_b)) i (subst (λ n. OfFile n o) own of_o)
          of_b in
      (s', rw (at_o, at_b) run, i')

  module _ (extent : FileExtent) (among : Among extent all) (block : Block)
      (begins : find_filerec_block t.block_tree file extent.loff ≡ some block)
      (own : block.b_file ≡ file) (start : HasCursor t block) where
    -- The comparison that is made with a block that is not passed over.
    makes-Searches :
        (found : Block)
        → Candidate t block.b_parent found
        → passed_over dedupe_same_file file block found ≡ false
        → (load_extent found.b_file found.b_loff ==ℤ pos 0) ≡ true
        → Searches dedupe_same_file load_extent t file all found.b_file
            (sub64 (add64 found.b_loff extent.len) 1)
    makes-Searches found c take loaded = record {
      extent = extent;
      among = among;
      block = block;
      begins = begins;
      found = found;
      same_digest = c.own;
      held = c.held;
      another = other_block (is_block block found) _ take;
      pair = two_files (is_block block found) dedupe_same_file (file == found.b_file) take;
      loaded = loaded;
      walks = refl;
      ends = refl;
    }

    search_loop-Returns :
        (bs : List Block) (s : S)
        → Inv s
        → All (Candidate t block.b_parent) bs
        → (s' : S) × (ret : ℤ) × (search_loop blocksize size hash finish insert_result
              dedupe_same_file load_extent t file block extent.len bs s
            ≡ done (s', ret))
          × Inv s'
    unfolding search_loop
    search_loop-Returns [] s i candidates = (s, pos 0, refl, i)
    search_loop-Returns (found ∷ bs) s i candidates =
        elim (Bool-cases (passed_over dedupe_same_file file block found)) [
          | inl skip ↦
              let (s', ret, run, i') = search_loop-Returns bs s i candidates.1 in
              (s', ret, rw (search_loop, skip) run, i')
          | inr take ↦ elim (Bool-cases (load_extent found.b_file found.b_loff ==ℤ pos 0)) [
            | inl loaded ↦
                let c = candidates.0 in
                let (s1, one, i1) =
                  compare_at-Returns block found extent.len s i own start c.start
                    (makes-Searches found c take loaded) in
                let (s', ret, run, i') = search_loop-Returns bs s1 i1 candidates.1 in
                (s', ret, rw (search_loop, take, loaded, one) run, i')
            | inr failed ↦
                (s, load_extent found.b_file found.b_loff, rw (search_loop, take, failed) refl, i)
          ]
        ]

  search_extent-Returns :
      (extent : FileExtent) (s : S)
      → IsValid t
      → Among extent all
      → Inv s
      → (s' : S) × (ret : ℤ) × (search_extent blocksize size hash finish insert_result
            dedupe_same_file load_extent t file extent s
          ≡ done (s', ret))
        × Inv s'
  unfolding search_extent
  search_extent-Returns extent s v among i =
      elim (Option-cases (find_filerec_block t.block_tree file extent.loff)) [
        | inl absent ↦ (s, pos 0, rw (search_extent, absent) refl, i)
        | inr (block, begins) ↦
            let (own, start) = found-HasCursor t file extent.loff block v begins in
            let (d, listed, there) =
              list_with t block v (at_its_place t file extent.loff block v begins) in
            let (s', ret, run, i') =
              search_loop-Returns extent among block begins own start d.dl_list s i
                (listed-Candidate t d block.b_parent v listed) in
            (s', ret, rw (search_extent, begins, listed) run, i')
      ]

  first_searched :
      (extent : FileExtent) (extents : List FileExtent) (s s1 : S) (ret : ℤ)
      → search_extent blocksize size hash finish insert_result dedupe_same_file load_extent t file
          extent s
        ≡ done (s1, ret)
      → (ret ==ℤ pos 0) ≡ true
      → search_file_extents blocksize size hash finish insert_result dedupe_same_file load_extent t
          file
          (some (extent ∷ extents))
          s
        ≡ search_file_extents blocksize size hash finish insert_result dedupe_same_file load_extent
            t file
            (some extents)
            s1
  unfolding search_file_extents next_extent
  first_searched extent extents s s1 ret one good =
      rw (search_file_extents, one) (rw (next_extent, good) refl)

  first_fails :
      (extent : FileExtent) (extents : List FileExtent) (s s1 : S) (ret : ℤ)
      → search_extent blocksize size hash finish insert_result dedupe_same_file load_extent t file
          extent s
        ≡ done (s1, ret)
      → (ret ==ℤ pos 0) ≡ false
      → search_file_extents blocksize size hash finish insert_result dedupe_same_file load_extent t
          file
          (some (extent ∷ extents))
          s
        ≡ done s1
  unfolding search_file_extents next_extent
  first_fails extent extents s s1 ret one bad =
      rw (search_file_extents, one) (rw (next_extent, bad) refl)

  searches-All :
      (extents : List FileExtent) (s : S)
      → IsValid t
      → All (λ e. Among e all) extents
      → Inv s
      → (s' : S) × (search_file_extents blocksize size hash finish insert_result dedupe_same_file
            load_extent t file
            (some extents)
            s
          ≡ done s')
        × Inv s'
  unfolding search_file_extents
  searches-All [] s v among i = (s, refl, i)
  searches-All (extent ∷ extents) s v among i =
      let (s1, ret, one, i1) = search_extent-Returns extent s v among.0 i in
      elim (Bool-cases (ret ==ℤ pos 0)) [
        | inl good ↦
            let (s', run, i') = searches-All extents s1 v among.1 i1 in
            (s', first_searched extent extents s s1 ret one good ∙ run, i')
        | inr bad ↦ (s1, first_fails extent extents s s1 ret one bad, i1)
      ]

-- No extents on an error of the data base.
abbrev pub answered : Option (List FileExtent) → List FileExtent
answered none = []
answered (some extents) = extents

every-Among : (extents : List FileExtent) → All (λ e. Among e extents) extents
every-Among [] = tt
every-Among (e ∷ es) = (inl refl, All-mono _ _ (λ x there. inr there) es (every-Among es))

-- In a valid hash tree the search of a file's extents returns, for every list of extents, and so it
-- does on an error of the data base, when recording a match succeeds and keeps an invariant for each
-- sound match of the file with a file that the search comes to: from a block where one of the
-- extents begins, with another block of its digest which the data base knows, up to the extent's
-- length behind that block, and of the file with itself only if that is asked for. The invariant
-- is kept.
pub search_file_extents-Returns :
    {S : Type 0} (blocksize : ℕ) (size hash : ℕ → ℕ) (finish : List ℕ → ℕ)
    (insert_result : S → Match → Outcome S) (dedupe_same_file : Bool) (load_extent : ℕ → ℕ → ℤ)
    (t : State) (file : ℕ) (answer : Option (List FileExtent)) (Inv : S → Type 0)
    → ((walk extent_end : ℕ) (s : S) (m : Match)
        → Inv s
        → Searches dedupe_same_file load_extent t file (answered answer) walk extent_end
        → IsSound blocksize size hash finish extent_end file walk m
        → (s' : S) × (insert_result s m ≡ done s') × Inv s')
    → (s : S) → IsValid t
    → Inv s
    → (s' : S) × (search_file_extents blocksize size hash finish insert_result dedupe_same_file
          load_extent t file answer s
        ≡ done s')
      × Inv s'
unfolding search_file_extents
search_file_extents-Returns blocksize size hash finish insert_result dedupe_same_file load_extent t
      file none Inv insert-Inv s v i =
    (s, refl, i)
search_file_extents-Returns blocksize size hash finish insert_result dedupe_same_file load_extent t
      file (some extents) Inv insert-Inv s v i =
    searches-All blocksize size hash finish insert_result dedupe_same_file load_extent t file
      extents Inv insert-Inv extents s v (every-Among extents) i
