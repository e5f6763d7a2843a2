-- ===== src/FindDupes/Search.antt =====
-- compare_extents as a whole: it returns, and every match that it records is sound.
use duperemove.Prelude.{
  ℕ, zero, suc, ◌<◌, ◌≤◌, ◌≡◌, refl, ap, ◌∙◌, true, not, ◌||◌, some, List, [], ◌∷◌, All, arith,
  leb→le, ltb, leb, ◌==◌, length, Bool-cases, Option-cases, inl, inr,
}
use mathlib.Core.Path.{sym, subst}
use mathlib.Core.Option.{some-injective}
use duperemove.Prelude.Word.{add64, sub64}
use duperemove.Prelude.Outcome.{Outcome, done}
use duperemove.FindDupes.{
  next_of, Block, Cursor, cursor, Match, Matched, last_byte, fast_forward, match_blocks, next_pair,
  record_match, continue, finish_match, next_match, compare_extents,
}
use duperemove.FindDupes.Sound.{
  none_not_some, Skips, at_once, skip, EqualRun, one_pair, next, fast_forward-Skips, HasRun,
  match_blocks-HasRun,
}

-- The block and those behind it are of the file.
abbrev pub OfFile : ℕ → Cursor → Type 0
OfFile file c = (c.at.b_file ≡ file) × All (λ b. b.b_file ≡ file) c.behind

is_file : (a b : ℕ) → a ≡ b → (a == b) ≡ true
is_file a b e = ground arith

-- A pair of cursors that lies no further from the ends of the two trees.
pub record Behind (orig walk : ℕ) (b o' b' : Cursor) : Type 0 where
  pub of_orig : OfFile orig o'
  pub of_walk : OfFile walk b'
  pub left : length b'.behind ≤ length b.behind

Skips-Behind :
    (extent_end orig walk : ℕ) {o b o' b' : Cursor}
    → OfFile orig o
    → OfFile walk b
    → Skips extent_end o b o' b'
    → Behind orig walk b o' b'
Skips-Behind extent_end orig walk ho hb (at_once o b) = record {
  of_orig = ho;
  of_walk = hb;
  left = omega arith;
}
Skips-Behind extent_end orig walk ho hb (skip o o' b b' os bs eo eb d s) =
    let rest = Skips-Behind extent_end orig walk ho.1 hb.1 s in
    record {
      of_orig = rest.of_orig;
      of_walk = rest.of_walk;
      left = (let l = rest.left in omega arith);
    }

EqualRun-Behind :
    (blocksize : ℕ) (hash : ℕ → ℕ) (extent_end orig walk : ℕ) {o b o' b' : Cursor}
    {digests : List ℕ}
    → OfFile orig o
    → OfFile walk b
    → EqualRun blocksize hash extent_end o b o' b' digests
    → Behind orig walk b o' b'
EqualRun-Behind blocksize hash extent_end orig walk ho hb (one_pair o b s t) = record {
  of_orig = ho;
  of_walk = hb;
  left = omega arith;
}
EqualRun-Behind blocksize hash extent_end orig walk ho hb
      (next o o' b b' os bs eo eb digests s t near_o near_b r) =
    let rest = EqualRun-Behind blocksize hash extent_end orig walk ho.1 hb.1 r in
    record {
      of_orig = rest.of_orig;
      of_walk = rest.of_walk;
      left = (let l = rest.left in omega arith);
    }

next_of-Behind :
    (orig walk : ℕ) (os bs : List Block) (o' b' : Cursor)
    → All (λ b. b.b_file ≡ orig) os
    → All (λ b. b.b_file ≡ walk) bs
    → next_of os bs ≡ some (o', b')
    → OfFile orig o' × OfFile walk b' × (length b'.behind < length bs)
unfolding next_of
next_of-Behind orig walk [] bs o' b' ho hb e = absurd (none_not_some e)
next_of-Behind orig walk (o ∷ os) [] o' b' ho hb e = absurd (none_not_some e)
next_of-Behind orig walk (o ∷ os) (b ∷ bs) o' b' ho hb e =
    subst (λ p. OfFile orig p.0 × OfFile walk p.1 × (length p.1.behind < suc (length bs)))
      (some-injective (cursor o os, cursor b bs) (o', b') e) (ho, hb, omega arith)

module _ (blocksize : ℕ) (size hash : ℕ → ℕ) (finish : List ℕ → ℕ) (extent_end orig walk : ℕ) where
  -- A recorded match: pairs that differ, then a run of equal pairs that ends inside the extent. Its
  -- range begins at the first pair that was looked at; the digest is that of the run.
  pub record IsSound (m : Match) : Type 0 where
    pub start_orig : Cursor
    pub start_walk : Cursor
    pub first_orig : Cursor
    pub first_walk : Cursor
    pub last_orig : Cursor
    pub last_walk : Cursor
    pub digests : List ℕ
    pub skipped : Skips extent_end start_orig start_walk first_orig first_walk
    pub run : EqualRun blocksize hash extent_end first_orig first_walk last_orig last_walk digests
    pub inside : last_byte blocksize size last_walk.at ≤ extent_end
    pub range : m ≡ record {
      digest = finish digests;
      recs = (orig, walk);
      soff = (start_orig.at.b_loff, start_walk.at.b_loff);
      eoff = (last_byte blocksize size last_orig.at, last_byte blocksize size last_walk.at);
    }

  module _ {S : Type 0} (insert_result : S → Match → Outcome S) (Inv : S → Type 0)
      (insert-Inv : (s : S) (m : Match)
        → Inv s
        → IsSound m
        → (s' : S) × (insert_result s m ≡ done s') × Inv s') where
    abbrev Returns : Outcome S → Type 0
    Returns r = (s' : S) × (r ≡ done s') × Inv s'

    record_match-Returns :
        (s : S) (o b o1 b1 o2 b2 : Cursor) (digests : List ℕ)
        → Inv s
        → OfFile orig o
        → OfFile walk b
        → Skips extent_end o b o1 b1
        → EqualRun blocksize hash extent_end o1 b1 o2 b2 digests
        → last_byte blocksize size b2.at ≤ extent_end
        → Returns (
            record_match blocksize size hash finish insert_result s
              (finish digests)
              orig
              walk
              (o, b)
              (o2, b2))
    unfolding record_match
    record_match-Returns s o b o1 b1 o2 b2 digests i ho hb skipped run inside =
        let m : Match = record {
          digest = finish digests;
          recs = (o.at.b_file, b.at.b_file);
          soff = (o.at.b_loff, b.at.b_loff);
          eoff = (last_byte blocksize size o2.at, last_byte blocksize size b2.at);
        } in
        let sound : IsSound m = record {
          start_orig = o;
          start_walk = b;
          first_orig = o1;
          first_walk = b1;
          last_orig = o2;
          last_walk = b2;
          digests = digests;
          skipped = skipped;
          run = run;
          inside = inside;
          range = rw (ho.0, hb.0) refl;
        } in
        let (s', eq, i') = insert-Inv s m i sound in
        (s', rw (is_file o.at.b_file orig ho.0, is_file b.at.b_file walk hb.0) eq, i')

    -- What the loop does behind a match, when a search from further on returns.
    continue-Returns :
        (again : Cursor → Cursor → S → Outcome S) (m : Matched) (o b : Cursor) (s : S)
        → Inv s
        → OfFile orig o
        → OfFile walk b
        → ((o' b' : Cursor) (s' : S)
            → Inv s'
            → OfFile orig o'
            → OfFile walk b'
            → length b'.behind < length b.behind
            → Returns (again o' b' s'))
        → Returns (continue blocksize size hash finish insert_result extent_end again m (o, b) s)
    unfolding continue
    continue-Returns again m o b s i ho hb next_search =
        elim (Bool-cases (not m.matchmore || ltb extent_end m.block.at.b_loff)) [
          | inl e ↦ (s, rw (continue, e) refl, i)
          | inr e ↦ elim (Option-cases (next_pair o b)) [
            | inl none_left ↦ (s, rw (continue, e, none_left) refl, i)
            | inr ((o', b'), found) ↦
                let (po, pb, less_left) =
                  next_of-Behind orig walk o.behind b.behind o' b' ho.1 hb.1 found in
                let (s', eq, i') = next_search o' b' s i po pb less_left in
                (s', rw (continue, e, found) eq, i')
          ]
        ]

    finish_match-Returns :
        (again : Cursor → Cursor → S → Outcome S) (o b o1 b1 : Cursor) (m : Matched) (s : S)
        → Inv s
        → OfFile orig o
        → OfFile walk b
        → OfFile orig o1
        → OfFile walk b1
        → Skips extent_end o b o1 b1
        → HasRun blocksize hash extent_end o1 b1 m
        → ((o' b' : Cursor) (s' : S)
            → Inv s'
            → OfFile orig o'
            → OfFile walk b'
            → length b'.behind < length b1.behind
            → Returns (again o' b' s'))
        → Returns (
            finish_match blocksize size hash finish insert_result extent_end orig walk again
              (o, b)
              m
              s)
    unfolding finish_match continue-Returns
    finish_match-Returns again o b o1 b1 m s i ho hb ho1 hb1 skipped h next_search =
        elim (Option-cases m.ends) [
          | inl no_match ↦ (s, rw (finish_match, no_match) refl, i)
          | inr ((o2, b2), found) ↦
              let run = h.run o2 b2 found in
              elim (Bool-cases (leb (last_byte blocksize size b2.at) extent_end)) [
                | inr beyond ↦ (s, rw (finish_match, found, beyond) refl, i)
                | inl fits ↦
                    let behind = EqualRun-Behind blocksize hash extent_end orig walk ho1 hb1 run in
                    let (s1, eq1, i1) =
                      record_match-Returns s o b o1 b1 o2 b2 m.added i ho hb skipped run
                        (leb→le _ _ fits) in
                    let (s2, eq2, i2) =
                      continue-Returns again m o2 b2 s1 i1 behind.of_orig behind.of_walk
                        (λ o' b' s' i' ho' hb' l.
                          next_search o' b' s' i' ho' hb'
                            (let bound = behind.left in omega arith)) in
                    (s2, rw (finish_match, found, fits, eq1) eq2, i2)
              ]
        ]

    next_match-Returns :
        (fuel : ℕ) (o b : Cursor) (s : S)
        → Inv s
        → OfFile orig o
        → OfFile walk b
        → length b.behind < fuel
        → Returns
            (next_match blocksize size hash finish insert_result extent_end orig walk fuel o b s)
    unfolding next_match
    next_match-Returns zero o b s i ho hb enough = absurd (omega arith)
    next_match-Returns (suc fuel) o b s i ho hb enough =
        elim (Option-cases (fast_forward extent_end o.at o.behind b.at b.behind)) [
          | inl off ↦ (s, rw (next_match, off) refl, i)
          | inr ((o1, b1), found) ↦
              let skipped = fast_forward-Skips extent_end o.at o.behind b.at b.behind o1 b1 found in
              let at1 = Skips-Behind extent_end orig walk ho hb skipped in
              let (s', eq, i') =
                finish_match-Returns
                  (next_match blocksize size hash finish insert_result extent_end orig walk fuel) o
                  b o1 b1 (match_blocks blocksize hash extent_end o1.at o1.behind b1.at b1.behind) s
                  i ho hb at1.of_orig at1.of_walk skipped
                  (match_blocks-HasRun blocksize hash extent_end o1.at o1.behind b1.at b1.behind)
                  (λ o' b' s1 i1 ho' hb' l.
                    next_match-Returns fuel o' b' s1 i1 ho' hb'
                      (let bound = at1.left in omega arith)) in
              (s', rw (next_match, found) eq, i')
        ]

    -- When the blocks from both starting points on are of the two files, and when recording a
    -- sound match always succeeds and keeps an invariant, `compare_extents` returns and keeps
    -- it. A sound match is a number of pairs of blocks that differ, from which its range begins,
    -- and then a run of pairs that are equal and follow one another in both files, each
    -- beginning before the end of the extent; the last byte of the run is inside the extent and
    -- the digest is that of the run.
    pub compare_extents-IsSound :
        (o b : Cursor) (search_len : ℕ) (s : S)
        → extent_end ≡ sub64 (add64 b.at.b_loff search_len) 1
        → Inv s
        → OfFile orig o
        → OfFile walk b
        → (s' : S) × (compare_extents blocksize size hash finish insert_result orig o walk b
              search_len s
            ≡ done s')
          × Inv s'
    unfolding compare_extents
    compare_extents-IsSound o b search_len s e i ho hb =
        let (s', eq, i') = next_match-Returns (suc (length b.behind)) o b s i ho hb (omega arith) in
        (
          s',
          ap
                (λ n.
                  next_match blocksize size hash finish insert_result n orig walk
                    (suc (length b.behind)) o b s)
                (sym e)
              ∙ eq,
          i',
        )
