-- ===== src/RunDedupe/Report.antt =====
-- run_dedupe.c, process_dedupe_results: the bytes of the completed requests are counted, and those that
-- failed are printed; what is printed is returned as the list of their results.
pub mod Counted
use duperemove.Prelude.{
  ℕ, zero, suc, Bool, true, false, ◌&&◌, ◌||◌, List, [], ◌∷◌, ◌++◌, ◌==◌, length, if◌then◌else◌,
}
use duperemove.Prelude.Int.{ℤ, pos, ◌==ℤ◌}
use duperemove.Prelude.Word.{add64}
use duperemove.Dedupe.{DedupeCtxt, Outcome, done, aborted, ◌>>=◌, minus_einval}
use duperemove.Dedupe.Engine.{Popped, pop_one_dedupe_result}

-- A request on the target itself may fail with -EINVAL.
pub is_silent : DedupeCtxt → Popped → Bool
is_silent c p = p.status ==ℤ pos 0 || (p.status ==ℤ minus_einval && p.file == c.ioctl_file)

pub report : DedupeCtxt → Popped → List Popped → List Popped
report c p printed = if is_silent c p then printed else printed ++ p ∷ []

pub popped_one :
    (DedupeCtxt → ℕ → List Popped → Outcome (DedupeCtxt × ℕ × List Popped))
    → ℕ
    → List Popped
    → DedupeCtxt × Popped
    → Outcome (DedupeCtxt × ℕ × List Popped)
popped_one again kern_bytes printed (c, p) =
    let bytes = add64 kern_bytes p.bytes_deduped in
    if p.last then done (c, bytes, report c p printed) else again c bytes (report c p printed)

-- The loop `while (!done)`; without fuel `aborted`.
pub result_loop : ℕ → DedupeCtxt → ℕ → List Popped → Outcome (DedupeCtxt × ℕ × List Popped)
result_loop zero c kern_bytes printed = aborted
result_loop (suc fuel) c kern_bytes printed =
    pop_one_dedupe_result c >>= popped_one (result_loop fuel) kern_bytes printed

-- Each round takes a completed request.
pub process_dedupe_results : DedupeCtxt → ℕ → Outcome (DedupeCtxt × ℕ × List Popped)
process_dedupe_results c kern_bytes = result_loop (suc (length c.completed)) c kern_bytes []
