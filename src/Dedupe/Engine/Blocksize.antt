-- ===== src/Dedupe/Engine/Blocksize.antt =====
-- The file's static `fs_blocksize` is 0 or a block size of the file system, whatever a run does.
use duperemove.Prelude.{ℕ, zero, suc, is_empty, Bool-cases, inl, inr}
use duperemove.Prelude.Int.{ℤ}
use duperemove.Dedupe.{DedupeCtxt, Outcome, done, aborted}
use duperemove.Dedupe.Engine.{
  Kernel, Engine, Submitted, answered, failed, stuck, Run, finished, crashed, out_of_fuel, call,
  realign, submit, dedupe_round, dedupe_extents, populate_dedupe_request, process_dedupes,
}
use duperemove.Dedupe.Engine.Extents.{Leaves, answers, fails, runs_out, submit_inv}
use duperemove.Dedupe.Engine.Finish.{Complies, IsBlocksize, get_fs_blocksize-IsBlock}

abbrev pub KeepsBlocksize : {W : Type 0} → Run W → Type 0
KeepsBlocksize (finished ret e) = IsBlocksize e.fs_blocksize
KeepsBlocksize crashed = Unit
KeepsBlocksize out_of_fuel = Unit

module _ {W : Type 0} (k : Kernel W) (fds : ℕ → ℤ) {limit : ℕ} (ok : Complies k limit) where
  realigned :
      (e : Engine W) → IsBlocksize e.fs_blocksize → IsBlocksize (realign k fds e).fs_blocksize
  unfolding realign
  realigned e b = inr (get_fs_blocksize-IsBlock k fds ok e.world (fds e.ctxt.ioctl_file))

  called : (e : Engine W) → IsBlocksize e.fs_blocksize → IsBlocksize (call k fds e).1.fs_blocksize
  unfolding call
  called e b = b

  submitted :
      (next : Engine W → Run W)
      → ((e : Engine W) → IsBlocksize e.fs_blocksize → KeepsBlocksize (next e))
      → (s : Submitted W) → Leaves k fds (λ e. IsBlocksize e.fs_blocksize) s
      → KeepsBlocksize (elim s [
        | answered e' ↦ next (record e' { ctxt = process_dedupes e'.fs_blocksize e'.ctxt })
        | failed ret e' ↦ finished ret e'
        | stuck ↦ out_of_fuel
      ])
  submitted next more (answered e') (answers b) = more _ b
  submitted next more (failed ret e') (fails bad b) = b
  submitted next more stuck runs_out = tt

  round-KeepsBlocksize :
      (next : Engine W → Run W)
      → ((e : Engine W) → IsBlocksize e.fs_blocksize → KeepsBlocksize (next e))
      → (fuel : ℕ) (e : Engine W) (c : DedupeCtxt) → IsBlocksize e.fs_blocksize
      → KeepsBlocksize (dedupe_round k fds next fuel e c)
  unfolding dedupe_round
  round-KeepsBlocksize next more fuel e c b =
      submitted next more (submit k fds fuel (record e { ctxt = c })) (
        submit_inv k fds (λ e. IsBlocksize e.fs_blocksize) called realigned fuel
          (record e { ctxt = c }) b)

  pub dedupe_extents-KeepsBlocksize :
      (fuel : ℕ) (e : Engine W)
      → IsBlocksize e.fs_blocksize
      → KeepsBlocksize (dedupe_extents k fds fuel e)
  unfolding dedupe_extents
  dedupe_extents-KeepsBlocksize zero e b = tt
  dedupe_extents-KeepsBlocksize (suc fuel) e b = elim (Bool-cases (is_empty e.ctxt.queued)) [
    | inl none_left ↦ rw (dedupe_extents, none_left) b
    | inr some_left ↦
        rw (dedupe_extents, some_left)
          (populated (dedupe_extents-KeepsBlocksize fuel)
            (populate_dedupe_request fds e.fs_blocksize e.ctxt))
  ]
    where
      populated :
          ((e : Engine W)
            → IsBlocksize e.fs_blocksize
            → KeepsBlocksize (dedupe_extents k fds fuel e))
          → (r : Outcome DedupeCtxt)
          → KeepsBlocksize (elim r [
            | aborted ↦ crashed
            | done c ↦ dedupe_round k fds (dedupe_extents k fds fuel) (suc fuel) e c
          ])
      populated more aborted = tt
      populated more (done c) =
          round-KeepsBlocksize (dedupe_extents k fds fuel) more (suc fuel) e c b
