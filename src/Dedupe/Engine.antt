-- ===== src/Dedupe/Engine.antt =====
-- dedupe.c: a round of requests, from `populate_dedupe_request` to `pop_one_dedupe_result`.
-- `fds` gives the open descriptor of a `struct filerec *`; `fs_blocksize` is the file's static
-- variable.
mod Mask
pub mod Align
pub mod Populate
pub mod Process
pub mod Extents
pub mod Comply
pub mod Finish
pub mod Total
pub mod Blocksize
pub mod Capped
pub mod Pop
mod Tests
use Prim.Native.Nat.{bit_and}
use duperemove.Prelude.{
  ℕ, zero, suc, ◌-◌, ◌%◌, ◌^◌, Bool, true, false, not, ◌&&◌, ◌||◌, Option, none, some, List, [],
  ◌∷◌, ◌++◌, ltb, leb, ◌==◌, if◌then◌else◌, is_empty, get_or, set,
}
use duperemove.Prelude.Int.{ℤ, pos, ◌==ℤ◌}
use duperemove.Prelude.Word.{add16, add32, sub32, add64, sub64}
use duperemove.Dedupe.{
  zero_info, Same, zero_same, DedupeReq, DedupeCtxt, Outcome, done, aborted, ◌>>=◌, minus_einval,
}

-- `~(fs_blocksize - 1)` is an `unsigned int`, so the mask has no bit above the lowest 32.
pub set_aligned_same_length : ℕ → ℕ → Same → Same
set_aligned_same_length fs_blocksize len same =
    if not (fs_blocksize == 0) && ltb fs_blocksize len
    then record same { src_length = bit_and len (2 ^ 32 - 1 - sub32 fs_blocksize 1) }
    else record same { src_length = len }

pub add_dedupe_request : (ℕ → ℤ) → ℕ → Same → DedupeReq → Outcome (Same × DedupeReq)
add_dedupe_request fds max_queable same req =
    let idx = same.dest_count in
    let info = record (get_or same.info idx zero_info) {
      dest_fd = fds req.req_file;
      dest_offset = req.req_loff;
      bytes_deduped = 0;
    } in
    if leb max_queable idx
    then aborted
    else done (
      record same { info = set same.info idx info; dest_count = add16 idx 1 },
      record req { req_idx = idx },
    )

-- The argument is what is left of `queued`.
populate_loop : (ℕ → ℤ) → DedupeCtxt → List DedupeReq → Outcome DedupeCtxt
populate_loop fds c [] = done c
populate_loop fds c (req ∷ rest) =
    add_dedupe_request fds c.max_queable c.same req >>= λ (same, req').
    populate_loop fds
      (record c {
        same = same;
        queued = rest;
        in_progress = c.in_progress ++ req' ∷ [];
        num_queued = sub32 c.num_queued 1;
      })
      rest

pub populate_dedupe_request : (ℕ → ℤ) → ℕ → DedupeCtxt → Outcome DedupeCtxt
unfolding populate_loop
populate_dedupe_request fds fs_blocksize c =
    let same = set_aligned_same_length fs_blocksize c.len (zero_same c.same_size) in
    populate_loop fds (record c { same = record same { src_offset = c.ioctl_file_off } }) c.queued

-- `req` after the kernel deduped `n` more bytes of it.
advance : DedupeReq → ℕ → DedupeReq
advance req n = record req { req_loff = add64 req.req_loff n; req_total = add64 req.req_total n }

-- `list_move_tail` to `completed` and to `queued`; `rest` is what is left of `in_progress`.
retire : DedupeCtxt → DedupeReq → ℤ → List DedupeReq → DedupeCtxt
retire c req status rest = record c {
  in_progress = rest;
  completed = c.completed ++ record req { req_status = status } ∷ [];
}

requeue : DedupeCtxt → DedupeReq → List DedupeReq → DedupeCtxt
requeue c req rest = record c {
  in_progress = rest;
  queued = c.queued ++ req ∷ [];
  num_queued = add32 c.num_queued 1;
}

-- The body of the loop over `in_progress`.
settle : DedupeCtxt → DedupeReq → List DedupeReq → DedupeCtxt
unfolding advance retire requeue
settle c req rest =
    let info = get_or c.same.info req.req_idx zero_info in
    let req' = advance req info.bytes_deduped in
    if not (info.status ==ℤ pos 0) || leb c.orig_len req'.req_total
    then retire c req' info.status rest
    else requeue c req' rest

process_loop : DedupeCtxt → ℕ → List DedupeReq → DedupeCtxt × ℕ
process_loop c max_deduped [] = (c, max_deduped)
process_loop c max_deduped (req ∷ rest) =
    let n = (get_or c.same.info req.req_idx zero_info).bytes_deduped in
    process_loop (settle c req rest) (if ltb max_deduped n then n else max_deduped) rest

-- The file pointers move by the most that any request had deduped.
move_pointers : DedupeCtxt → ℕ → DedupeCtxt
move_pointers c m = record c { len = sub64 c.len m; ioctl_file_off = add64 c.ioctl_file_off m }

-- `list_splice_init(&ctxt->queued, &ctxt->completed)`; `num_queued` stays.
give_up : DedupeCtxt → DedupeCtxt
give_up c = record c { queued = []; completed = c.queued ++ c.completed }

-- A tail below one block is given up.
finish_round : ℕ → DedupeCtxt → ℕ → DedupeCtxt
unfolding move_pointers give_up
finish_round fs_blocksize c max_deduped =
    let c' = move_pointers c max_deduped in
    if not (fs_blocksize == 0) && ltb c'.len fs_blocksize then give_up c' else c'

pub process_dedupes : ℕ → DedupeCtxt → DedupeCtxt
unfolding process_loop settle finish_round
process_dedupes fs_blocksize c =
    let (c', max_deduped) = process_loop c 0 c.in_progress in
    finish_round fs_blocksize c' max_deduped

-- The kernel: FIDEDUPERANGE, which answers a return value and the request as it leaves it, and
-- `fstatfs`, which answers the block size or fails.
pub record Kernel (W : Type 0) : Type 0 where
  pub dedupe_range : W → ℤ → Same → ℤ × Same × W
  pub fstatfs : W → ℤ → Option ℕ × W

pub record Engine (W : Type 0) : Type 0 where
  pub ctxt : DedupeCtxt
  pub fs_blocksize : ℕ
  pub world : W

pub data Submitted (W : Type 0) : Type 0 where
  answered : Engine W → Submitted W
  failed : ℤ → Engine W → Submitted W
  stuck : Submitted W

pub data Run (W : Type 0) : Type 0 where
  finished : ℤ → Engine W → Run W
  crashed : Run W
  out_of_fuel : Run W

module _ {W : Type 0} (k : Kernel W) (fds : ℕ → ℤ) where
  -- The `f_bsize` of the answer, a long, becomes an unsigned int.
  pub get_fs_blocksize : W → ℤ → ℕ × W
  get_fs_blocksize w fd =
      let (found, w') = k.fstatfs w fd in
      elim found [ none ↦ (4096, w') | some n ↦ (n % 2 ^ 32, w') ]

  -- What the code does before `goto retry`.
  pub realign : Engine W → Engine W
  unfolding get_fs_blocksize
  realign e =
      let (n, w) = get_fs_blocksize e.world (fds e.ctxt.ioctl_file) in
      let c = e.ctxt in
      record {
        ctxt = record c { same = set_aligned_same_length n c.len c.same };
        fs_blocksize = n;
        world = w;
      }

  -- The ioctl on the request that the context's buffer holds: its return value, and what it leaves.
  pub call : Engine W → ℤ × Engine W
  call e =
      let c = e.ctxt in
      let (ret, same, w) = k.dedupe_range e.world (fds c.ioctl_file) c.same in
      (ret, record e { ctxt = record c { same = same }; world = w })

  -- From the label `retry`, on fuel.
  pub submit : ℕ → Engine W → Submitted W
  unfolding realign call
  submit zero e = stuck
  submit (suc fuel) e =
      let (ret, e') = call e in
      let again = submit fuel (realign e') in
      if not (ret ==ℤ pos 0)
      then failed ret e'
      else if (get_or e'.ctxt.same.info 0 zero_info).status ==ℤ minus_einval && e.fs_blocksize == 0
      then again
      else answered e'

  -- The rest of the loop's body, once the request is made up.
  dedupe_round : (Engine W → Run W) → ℕ → Engine W → DedupeCtxt → Run W
  unfolding submit
  dedupe_round next fuel e c = elim (submit fuel (record e { ctxt = c })) [
    | answered e' ↦ next (record e' { ctxt = process_dedupes e'.fs_blocksize e'.ctxt })
    | failed ret e' ↦ finished ret e'
    | stuck ↦ out_of_fuel
  ]

  pub dedupe_extents : ℕ → Engine W → Run W
  unfolding dedupe_round
  dedupe_extents zero e = out_of_fuel
  dedupe_extents (suc fuel) e = elim (is_empty e.ctxt.queued) [
    | true ↦ finished (pos 0) e
    | false ↦ elim (populate_dedupe_request fds e.fs_blocksize e.ctxt) [
      | aborted ↦ crashed
      | done c ↦ dedupe_round (dedupe_extents fuel) (suc fuel) e c
    ]
  ]

-- What `pop_one_dedupe_result` hands back through its pointers, and its return value.
pub record Popped : Type 0 where
  pub status : ℤ
  pub off : ℕ
  pub bytes_deduped : ℕ
  pub file : ℕ
  pub last : Bool

popped : DedupeReq → List DedupeReq → Popped
popped req rest = record {
  status = req.req_status;
  off = sub64 req.req_loff req.req_total;
  bytes_deduped = req.req_total;
  file = req.req_file;
  last = is_empty rest;
}

pop_head : DedupeCtxt → List DedupeReq → Outcome (DedupeCtxt × Popped)
unfolding popped
pop_head c [] = aborted
pop_head c (req ∷ rest) = done (record c { completed = rest }, popped req rest)

pub pop_one_dedupe_result : DedupeCtxt → Outcome (DedupeCtxt × Popped)
unfolding pop_head
pop_one_dedupe_result c = pop_head c c.completed
