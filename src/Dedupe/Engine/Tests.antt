-- ===== src/Dedupe/Engine/Tests.antt =====
-- dedupe.c at work: a context for two extents beside the target, over a kernel that caps a request
-- at 16 MiB and one that refuses unaligned lengths, and the theorems at these.
use duperemove.Prelude.{
  ℕ, ◌+◌, ◌-◌, ◌*◌, ◌/◌, ◌%◌, ◌^◌, ◌≡◌, refl, true, false, some, none, [], ◌∷◌, arith, ltb, ◌==◌,
  if◌then◌else◌, length, inl,
}
use duperemove.Prelude.Int.{ℤ, pos, negsuc}
use duperemove.Dedupe.{
  Info, zero_info, zero_same, DedupeReq, DedupeCtxt, done, aborted, new_dedupe_ctxt,
  add_extent_to_dedupe, ◌>>=◌,
}
use duperemove.Dedupe.Valid.{IsValid, size, held}
use duperemove.Dedupe.Queue.{
  Filling, NewFor, new_dedupe_ctxt-Filling, add_extent_to_dedupe-Filling, Filling-Lockstep,
}
use duperemove.Dedupe.Engine.{
  Engine, Run, finished, dedupe_extents, add_dedupe_request, set_aligned_same_length,
  populate_dedupe_request, process_dedupes, Popped, pop_one_dedupe_result,
}
use duperemove.Dedupe.Engine.Align.{src_length-aligned}
use duperemove.Dedupe.Engine.Populate.{request, populate_dedupe_request_lem}
use duperemove.Dedupe.Engine.Process.{Settled, process_dedupes-Settled}
use duperemove.Dedupe.Engine.Extents.{Ends, dedupe_extents-Ends}
use duperemove.Dedupe.Engine.Comply.{Lockstep}
use duperemove.Dedupe.Engine.Capped.{capped, capped-Complies}
use duperemove.Dedupe.Engine.Total.{Returns, dedupe_extents_total}
use duperemove.Dedupe.Engine.Pop.{Pops, pop_one_dedupe_result-Pops}

abbrev req : ℕ → ℕ → DedupeReq
req file loff = record {
  req_file = file;
  req_loff = loff;
  req_total = 0;
  req_status = pos 0;
  req_idx = 0;
}

-- 40 MiB at offset 0 of file 1, to be shared by files 2 and 3.
abbrev job : DedupeCtxt
job = record {
  orig_len = 41_943_040;
  orig_file_off = 0;
  len = 41_943_040;
  ioctl_file = 1;
  ioctl_file_off = 0;
  max_queable = 2;
  num_queued = 2;
  same_size = 88;
  queued = req 2 4096 ∷ req 3 8192 ∷ [];
  in_progress = [];
  completed = [];
  same = zero_same 88;
}

abbrev fds : ℕ → ℤ
fds file = pos (file + 2)

-- The requests of `job`, added one by one.
job_is_made :
    (elim (new_dedupe_ctxt true true 3 0 41_943_040 1) [
      | none ↦ aborted
      | some c ↦
          add_extent_to_dedupe true c 4096 2 >>= λ (c', left). add_extent_to_dedupe true c' 8192 3
    ])
    ≡ done (job, pos 0)
unfolding new_dedupe_ctxt add_extent_to_dedupe
job_is_made = refl

job-IsValid : IsValid job
unfolding size
job-IsValid = record {
  buffer = refl;
  few = omega arith;
  room = omega arith;
  queued_words = (omega arith, (omega arith, tt));
  in_progress_words = tt;
  completed_words = tt;
}

job-Filling : Filling job
job-Filling = record {
  valid = job-IsValid;
  counted = refl;
  idle = refl;
  none_done = refl;
  whole = refl;
  fresh = (refl, (refl, tt));
}

abbrev start : Engine ℕ
start = record { ctxt = job; fs_blocksize = 0; world = 0 }

calls : Run ℕ → ℕ
calls (finished ret e) = e.world
calls _ = 0

-- 40 MiB take three calls of 16 MiB at most.
three_calls : calls (dedupe_extents capped fds 10 start) ≡ 3
unfolding calls dedupe_extents add_dedupe_request populate_dedupe_request process_dedupes
    set_aligned_same_length
three_calls = refl

job-Lockstep : Lockstep 0 job
job-Lockstep = Filling-Lockstep job-Filling (omega arith) (omega arith) 0

dedupe_extents_total_example : Returns 41_943_040 (dedupe_extents capped fds 41_943_042 start)
dedupe_extents_total_example =
    dedupe_extents_total capped fds capped-Complies 41_943_040 41_943_042 start job-IsValid refl
      (inl refl) job-Lockstep refl (omega arith)

dedupe_extents-Ends_example : Ends capped fds job (dedupe_extents capped fds 10 start)
dedupe_extents-Ends_example = dedupe_extents-Ends capped fds 10 start job-IsValid refl

-- Both requests of `job` are under way; one was deduped in part, the other was refused.
abbrev answered : Info → Info → DedupeCtxt
answered i j = record job {
  queued = [];
  in_progress = req 2 4096 ∷ record (req 3 8192) { req_idx = 1 } ∷ [];
  same = record job.same { info = i ∷ j ∷ [] };
}

abbrev under_way : DedupeCtxt
under_way =
    answered (record zero_info { bytes_deduped = 16_777_216 }) (record zero_info { status = pos 1 })

under_way-IsValid : IsValid under_way
unfolding size
under_way-IsValid = record {
  buffer = refl;
  few = omega arith;
  room = omega arith;
  queued_words = tt;
  in_progress_words = (omega arith, (omega arith, tt));
  completed_words = tt;
}

process_dedupes-Settled_example : Settled under_way (process_dedupes 4096 under_way)
process_dedupes-Settled_example = process_dedupes-Settled 4096 under_way under_way-IsValid

populate_dedupe_request_lem_example :
    populate_dedupe_request fds 4096 job ≡ done (request fds 4096 job)
populate_dedupe_request_lem_example = populate_dedupe_request_lem fds 4096 job job-IsValid refl

src_length-aligned_example :
    (set_aligned_same_length (2 ^ 12) 10_000 (zero_same 88)).src_length
    ≡ (if ltb (2 ^ 12) 10_000 then 10_000 % 2 ^ 32 / 2 ^ 12 * 2 ^ 12 else 10_000)
src_length-aligned_example = src_length-aligned 12 10_000 (zero_same 88) (omega arith)

abbrev blank : DedupeCtxt
blank = record job { queued = []; num_queued = 0 }

blank-Filling : Filling blank
unfolding size
blank-Filling = record {
  valid = record {
    buffer = refl;
    few = omega arith;
    room = omega arith;
    queued_words = tt;
    in_progress_words = tt;
    completed_words = tt;
  };
  counted = refl;
  idle = refl;
  none_done = refl;
  whole = refl;
  fresh = tt;
}

new_dedupe_ctxt-Filling_example : NewFor 3 0 41_943_040 1 blank
unfolding new_dedupe_ctxt
new_dedupe_ctxt-Filling_example = new_dedupe_ctxt-Filling 3 0 41_943_040 1 (omega arith) blank refl

add_extent_to_dedupe-Filling_example :
    (add_extent_to_dedupe false blank 4096 2 ≡ done (blank, negsuc 0))
    × ((d : DedupeCtxt) × (add_extent_to_dedupe true blank 4096 2
          ≡ done (d, pos (blank.max_queable - length d.queued)))
        × Filling d
        × (length d.queued ≡ length blank.queued + 1)
        × ((f o : ℕ)
            → held d f o ≡ held blank f o + (if 2 == f then (if 4096 == o then 1 else 0) else 0)))
add_extent_to_dedupe-Filling_example =
    add_extent_to_dedupe-Filling blank 4096 2 blank-Filling (omega arith) (omega arith)

-- A request that was deduped by 4 KiB.
abbrev halfway : DedupeCtxt
halfway = record blank {
  completed =
      record { req_file = 2; req_loff = 8192; req_total = 4096; req_status = pos 0; req_idx = 0 }
      ∷ [];
}

halfway-IsValid : IsValid halfway
unfolding size
halfway-IsValid = record {
  buffer = refl;
  few = omega arith;
  room = omega arith;
  queued_words = tt;
  in_progress_words = tt;
  completed_words = (omega arith, tt);
}

pop_one_dedupe_result-Pops_example :
    (d : DedupeCtxt) × (p : Popped) × (pop_one_dedupe_result halfway ≡ done (d, p))
    × Pops halfway d p
pop_one_dedupe_result-Pops_example = pop_one_dedupe_result-Pops halfway (λ e. cc) halfway-IsValid
