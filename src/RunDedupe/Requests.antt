-- ===== src/RunDedupe/Requests.antt =====
-- run_dedupe.c: what is done with a context that has requests, dedupe_extents and then
-- process_dedupe_results. The file's static `fs_blocksize` of dedupe.c lives on between calls.
pub mod Engage
use duperemove.Prelude.{ℕ, ◌+◌, Bool, true, false, List, if◌then◌else◌}
use duperemove.Prelude.Int.{ℤ, pos, ◌==ℤ◌}
use duperemove.Prelude.Outcome.{Outcome, done, aborted, ◌>>=◌}
use duperemove.Dedupe.{DedupeCtxt}
use duperemove.Dedupe.Engine.{
  Kernel, Engine, Run, finished, crashed, out_of_fuel, Popped, dedupe_extents,
}
use duperemove.RunDedupe.Report.{process_dedupe_results}

-- The static variable, and the world behind the kernel.
pub record Session (W : Type 0) : Type 0 where
  pub fs_blocksize : ℕ
  pub world : W

abbrev pub session_of : {W : Type 0} → Engine W → Session W
session_of e = record { fs_blocksize = e.fs_blocksize; world = e.world }

-- The bytes that are added to `*kern_bytes`.
pub add_counted : {W : Type 0} → Engine W → DedupeCtxt × ℕ × List Popped → Outcome (Session W × ℕ)
add_counted e (c, bytes, printed) = done (session_of e, bytes)

-- An error of the ioctl is printed, and nothing is counted. Without fuel `aborted`.
pub after_extents : {W : Type 0} → Run W → Outcome (Session W × ℕ)
after_extents (finished ret e) =
    if ret ==ℤ pos 0
    then (process_dedupe_results e.ctxt 0 >>= add_counted e)
    else done (session_of e, 0)
after_extents crashed = aborted
after_extents out_of_fuel = aborted

-- Each round shortens the length or ends.
pub run_requests :
    {W : Type 0} → Kernel W → (ℕ → ℤ) → Session W → DedupeCtxt → Outcome (Session W × ℕ)
run_requests k fds s c = after_extents (
    dedupe_extents k fds (c.len + 2)
      (record { ctxt = c; fs_blocksize = s.fs_blocksize; world = s.world }))
