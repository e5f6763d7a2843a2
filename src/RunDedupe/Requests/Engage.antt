-- ===== src/RunDedupe/Requests/Engage.antt =====
-- The requests of a context are made, and their results are processed.
use duperemove.Prelude.{
  ℕ, ◌+◌, ◌^◌, ◌<◌, ◌≡◌, ◌≢◌, refl, ap, ◌∙◌, true, [], arith, length, Bool-cases, List-cases, inl,
  inr,
}
use duperemove.Prelude.Int.{ℤ, pos, ◌==ℤ◌, ==ℤ_iff}
use duperemove.Prelude.Outcome.{done, ◌>>=◌, bind-done}
use duperemove.Dedupe.{DedupeCtxt}
use duperemove.Dedupe.Valid.{size}
use duperemove.Dedupe.Queue.{Filling-Lockstep}
use duperemove.Dedupe.Engine.{Kernel, Engine, Run, finished, crashed, out_of_fuel, dedupe_extents}
use duperemove.Dedupe.Engine.Process.{Keeps}
use duperemove.Dedupe.Engine.Extents.{Ends, dedupe_extents-Ends}
use duperemove.Dedupe.Engine.Finish.{Complies, IsBlocksize}
use duperemove.Dedupe.Engine.Total.{Returns, dedupe_extents_total}
use duperemove.Dedupe.Engine.Blocksize.{KeepsBlocksize, dedupe_extents-KeepsBlocksize}
use duperemove.RunDedupe.Ready.{Engages}
use duperemove.RunDedupe.Report.{process_dedupe_results}
use duperemove.RunDedupe.Report.Counted.{process_dedupe_results-Counts}
use duperemove.RunDedupe.Requests.{Session, session_of, add_counted, after_extents, run_requests}

-- The block size is not known, or is one of a file system.
abbrev pub IsSound : {W : Type 0} → Session W → Type 0
IsSound s = IsBlocksize s.fs_blocksize

-- When all requests are over, at least one is completed.
some_completed :
    (c d : DedupeCtxt)
    → c.queued ≢ []
    → Keeps c d
    → d.queued ≡ []
    → d.in_progress ≡ []
    → d.completed ≢ []
unfolding size
some_completed c d some_queued keeps none_queued none_under e =
    let same = keeps.size in
    elim (List-cases c.queued) [
      | inl none_there ↦ some_queued none_there
      | inr (r, rs, there) ↦
          let many = ap length there in
          let a = ap length none_queued in
          let b = ap length none_under in let z = ap length e in absurd (omega arith)
    ]

when_good :
    {W : Type 0} (ret : ℤ) (e : Engine W)
    → (ret ==ℤ pos 0) ≡ true
    → after_extents (finished ret e) ≡ (process_dedupe_results e.ctxt 0 >>= add_counted e)
unfolding after_extents
when_good ret e good = rw good refl

module _ {W : Type 0} (k : Kernel W) (fds : ℕ → ℤ) (c : DedupeCtxt)
    (some_queued : c.queued ≢ []) where
  after_extents_total :
      (r : Run W)
      → Returns c.orig_len r
      → Ends k fds c r
      → KeepsBlocksize r
      → (s' : Session W) × (bytes : ℕ) × (after_extents r ≡ done (s', bytes)) × IsSound s'
  unfolding after_extents add_counted
  after_extents_total (finished ret e) returns (keeps, valid, ends) sound =
      elim (Bool-cases (ret ==ℤ pos 0)) [
        | inl good ↦
            let (none_queued, none_under) = ends ((==ℤ_iff ret (pos 0)).0 good) in
            let counts =
              process_dedupe_results-Counts e.ctxt 0
                (some_completed c e.ctxt some_queued keeps none_queued none_under) in
            (
              session_of e,
              _,
              when_good ret e good ∙ bind-done _ _ (add_counted e) counts.run,
              sound,
            )
        | inr bad ↦ (session_of e, 0, rw bad refl, sound)
      ]
  after_extents_total crashed returns ends sound = absurd returns
  after_extents_total out_of_fuel returns ends sound = absurd returns

-- Over a kernel that complies, the program's own engine and its results.
pub run_requests-Engages :
    {W : Type 0} (k : Kernel W) (limit len : ℕ)
    → Complies k limit
    → 0 < len
    → len < 2 ^ 32
    → Engages (IsSound {W = W}) len (run_requests k)
unfolding run_requests
run_requests-Engages k limit len ok some_len word fds s c sound (filling, named) some_queued =
    let e : Engine _ = record { ctxt = c; fs_blocksize = s.fs_blocksize; world = s.world } in
    let v = filling.valid in
    let idle = filling.idle in
    after_extents_total k fds c some_queued (dedupe_extents k fds (c.len + 2) e)
      (dedupe_extents_total k fds ok c.orig_len (c.len + 2) e v idle sound
        (Filling-Lockstep filling (omega arith) (omega arith) s.fs_blocksize) refl (omega arith))
      (dedupe_extents-Ends k fds (c.len + 2) e v idle)
      (dedupe_extents-KeepsBlocksize k fds ok (c.len + 2) e sound)
