-- ===== src/RunDedupe/Worker.antt =====
-- run_dedupe.c: what a thread does with a record of the tree of results. The data base is not modelled, so
-- that of a file that is deduped as a whole nothing remains of the loop over the extents.
pub mod Pass
pub mod Rescan
pub mod Ends
mod Tests
use duperemove.Prelude.{
  ℕ, ◌^◌, Bool, true, false, not, Option, none, some, List, [], ◌∷◌, ltb, leb, ◌==◌, if◌then◌else◌,
  is_empty, map,
}
use duperemove.Prelude.Int.{ℤ, pos, negsuc, ◌==ℤ◌}
use duperemove.Prelude.Word.{add64}
use duperemove.Prelude.Outcome.{Outcome, done, aborted, ◌>>=◌}
use duperemove.SearchTree.{Rbtree, replace}
use duperemove.SearchTree.Replace.{swap}
use duperemove.Filerec.{Token, Globals}
use duperemove.Fiemap.{fiemap_scan_extent}
use duperemove.Results.{Extent, DupeExtents, ResultsTree, Trees, place, store}
use duperemove.Results.Remove.{is_at, dupe_extents_free}
use duperemove.Dedupe.Engine.{Kernel}
use duperemove.RunDedupe.{Answers, PostAnswers, Deduped, dedupe_cleaned}
use duperemove.RunDedupe.Requests.{Session, run_requests}
use duperemove.RunDedupe.Clean.{Cleaned, clean_deduped}

-- DEDUPE_EXTENTS_CLEANED.
abbrev pub dedupe_extents_cleaned : ℤ
dedupe_extents_cleaned = negsuc 0

-- The tree after a pass, with the record if it was not freed.
pub record Passed (S : Type 0) : Type 0 where
  pub res : ResultsTree
  pub left : Option DupeExtents
  pub deduped : Deduped S

-- What is outside of the program: the trees, the kernel and the system's answers.
pub record World (W : Type 0) : Type 0 where
  pub trees : Trees
  pub tokens : Rbtree Token
  pub kernel : Kernel W
  pub answers : Extent → Answers
  pub post : Extent → PostAnswers
  pub rescan : Extent → PostAnswers

module _ {W : Type 0} (w : World W) where
  pub passed : ResultsTree → DupeExtents → Deduped (Session W) → Outcome (Passed (Session W))
  passed res p d = done (record { res = res; left = some p; deduped = d })

  -- dedupe_extent_list from the test of `dext` on.
  pub behind_clean : Globals → Session W → ℕ → ℕ → Cleaned → Outcome (Passed (Session W))
  behind_clean g s fiemap_bytes kern_bytes (res, none) = done (record {
    res = res;
    left = none;
    deduped = record {
      globals = g;
      session = s;
      fiemap_bytes = fiemap_bytes;
      kern_bytes = kern_bytes;
      ret = dedupe_extents_cleaned;
    };
  })
  behind_clean g s fiemap_bytes kern_bytes (res, some p) =
      dedupe_cleaned w.tokens (run_requests w.kernel) w.answers w.post g s p fiemap_bytes kern_bytes
      >>= passed res p

  pub dedupe_extent_list :
      Globals → Session W → ResultsTree → DupeExtents → ℕ → ℕ → Outcome (Passed (Session W))
  dedupe_extent_list g s res p fiemap_bytes kern_bytes =
      if ltb p.de_num_dupes 2
      then aborted
      else (clean_deduped w.trees res p >>= behind_clean g s fiemap_bytes kern_bytes)

-- A write to the node of the extent, which lies in the list and in the tree.
pub write_extent : Extent → DupeExtents → DupeExtents
write_extent e p = record p {
  de_extents = map (swap (is_at (place e)) e) p.de_extents;
  de_extents_root = replace (is_at (place e)) e p.de_extents_root;
}

pub rescanned :
    (Globals → DupeExtents → Outcome (Globals × DupeExtents))
    → DupeExtents
    → Globals × Extent × ℤ
    → Outcome (Globals × DupeExtents)
rescanned again p (g, e, ret) = again g (write_extent e p)

-- The loop over the extents, whose places on disk are looked up again.
pub rescan_loop :
    (Extent → PostAnswers) → List Extent → Globals → DupeExtents → Outcome (Globals × DupeExtents)
rescan_loop answers [] g p = done (g, p)
rescan_loop answers (e ∷ es) g p =
    fiemap_scan_extent (answers e).opened (answers e).mem (answers e).fiemap g e
    >>= rescanned (rescan_loop answers es) p

-- What a thread leaves.
pub record Worked (S : Type 0) : Type 0 where
  pub res : ResultsTree
  pub deduped : Deduped S

module _ {W : Type 0} (w : World W) where
  pub freed : Deduped (Session W) → ResultsTree → Outcome (Worked (Session W))
  freed d res = done (record { res = res; deduped = record d { ret = pos 0 } })

  pub free_record :
      ResultsTree → Deduped (Session W) → Globals × DupeExtents → Outcome (Worked (Session W))
  free_record res d (g, p) =
      let d' : Deduped (Session W) = record d { globals = g } in
      if is_empty p.de_extents
      then freed d' (store p res)
      else (dupe_extents_free w.trees (store p res) p >>= freed d')

  pub when_deduped :
      Bool → ResultsTree → DupeExtents → Deduped (Session W) → Outcome (Worked (Session W))
  when_deduped whole_file_dedup res p d =
      if whole_file_dedup
      then free_record res d (d.globals, p)
      else (rescan_loop w.rescan p.de_extents d.globals p >>= free_record res d)

  -- Behind dedupe_extent_list; a record that is left is one that was not freed.
  pub worked : Bool → Passed (Session W) → Outcome (Worked (Session W))
  worked whole_file_dedup r =
      let d = r.deduped in
      if d.ret ==ℤ dedupe_extents_cleaned
      then freed d r.res
      else (if d.ret ==ℤ pos 0
          then elim r.left [ none ↦ aborted | some p ↦ when_deduped whole_file_dedup r.res p d ]
          else done (record { res = r.res; deduped = d }))

  pub extent_dedupe_worker :
      Bool → Globals → Session W → ResultsTree → DupeExtents → ℕ → ℕ → Outcome (Worked (Session W))
  extent_dedupe_worker whole_file_dedup g s res p fiemap_bytes kern_bytes =
      dedupe_extent_list w g s res p fiemap_bytes kern_bytes >>= worked whole_file_dedup
