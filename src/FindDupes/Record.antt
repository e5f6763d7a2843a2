-- ===== src/FindDupes/Record.antt =====
-- compare_extents and the tree of results: what it records goes through insert_result.
use duperemove.Prelude.{ℕ, List, ◌≡◌, refl, true, Bool, if◌then◌else◌}
use duperemove.Prelude.Int.{pos, ◌==ℤ◌}
use duperemove.Prelude.Word.{add64, sub64}
use duperemove.Prelude.Outcome.{Outcome, done, aborted, ◌>>=◌}
use duperemove.Results.{ResultsTree, Trees, insert_result}
use duperemove.Results.Valid.{IsValid}
use duperemove.Results.Pair.{insert_result-RecordsBoth}
use duperemove.FindDupes.{Cursor, Match, compare_extents}
use duperemove.FindDupes.Search.{OfFile, compare_extents-IsSound}

-- The end of record_match: an error of `insert_result` ends the process. `mem` says whether the
-- allocator has memory.
pub insert_match : Trees → Bool → ResultsTree → Match → Outcome ResultsTree
insert_match rb mem res m = insert_result rb mem mem mem res m.digest m.recs m.soff m.eoff >>= λ r.
    if r.1 ==ℤ pos 0 then done r.0 else aborted

insert_match-IsValid :
    (rb : Trees) (res : ResultsTree) (m : Match)
    → IsValid res
    → (res' : ResultsTree) × (insert_match rb true res m ≡ done res') × IsValid res'
unfolding insert_match
insert_match-IsValid rb res m v =
    let (res', kept0, kept1, eq, r) =
      insert_result-RecordsBoth rb res m.digest m.recs.0 m.recs.1 m.soff.0 m.soff.1 m.eoff.0
        m.eoff.1 v in
    (res', rw eq refl, r.valid)

-- With memory, `compare_extents` from blocks of the two files returns, and the tree of results is
-- valid afterwards if it was before.
pub compare_extents-IsValid :
    (blocksize : ℕ) (size hash : ℕ → ℕ) (finish : List ℕ → ℕ) (rb : Trees) (orig walk : ℕ)
    (o b : Cursor) (search_len : ℕ) (res : ResultsTree)
    → IsValid res
    → OfFile orig o
    → OfFile walk b
    → (res' : ResultsTree) × (compare_extents blocksize size hash finish
          (insert_match rb true)
          orig
          o
          walk
          b
          search_len
          res
        ≡ done res')
      × IsValid res'
compare_extents-IsValid blocksize size hash finish rb orig walk o b search_len res v ho hb =
    compare_extents-IsSound blocksize size hash finish (sub64 (add64 b.at.b_loff search_len) 1) orig
      walk (insert_match rb true) IsValid (λ r m i sound. insert_match-IsValid rb r m i) o b
      search_len res refl v ho hb
