-- ===== src/Dedupe.antt =====
-- dedupe.c and dedupe.h: one request to the kernel's FIDEDUPERANGE for up to 120 extents. A
-- `struct filerec *` is its address; a request lies on exactly one of the three lists, so a list
-- holds the requests themselves. What `calloc` answers is a Boolean argument, and the kernel is a
-- parameter (`Kernel`). `abort_on` is the outcome `aborted`.
pub mod Engine
pub mod Valid
pub mod Queue
use duperemove.Prelude.{
  ℕ, ◌+◌, ◌-◌, ◌*◌, ◌/◌, ◌%◌, ◌^◌, Bool, ◌&&◌, Option, none, some, List, [], ◌∷◌, ◌++◌, ltb, leb,
  ◌==◌, if◌then◌else◌, replicate,
}
pub use duperemove.Prelude.Outcome.{Outcome, done, aborted, ◌>>=◌}
use duperemove.Prelude.Int.{ℤ, pos, negsuc}
use duperemove.Prelude.Word.{add32, sub32}

abbrev pub max_dedupes_per_ioctl : ℕ
max_dedupes_per_ioctl = 120

-- -EINVAL
abbrev pub minus_einval : ℤ
minus_einval = negsuc 21

-- struct file_dedupe_range_info
pub record Info : Type 0 where
  pub dest_fd : ℤ
  pub dest_offset : ℕ
  pub bytes_deduped : ℕ
  pub status : ℤ

abbrev pub zero_info : Info
zero_info = record { dest_fd = pos 0; dest_offset = 0; bytes_deduped = 0; status = pos 0 }

-- struct file_dedupe_range
pub record Same : Type 0 where
  pub src_offset : ℕ
  pub src_length : ℕ
  pub dest_count : ℕ
  pub info : List Info

pub record DedupeReq : Type 0 where
  pub req_file : ℕ
  pub req_loff : ℕ
  pub req_total : ℕ
  pub req_status : ℤ
  pub req_idx : ℕ

pub record DedupeCtxt : Type 0 where
  pub orig_len : ℕ
  pub orig_file_off : ℕ
  pub len : ℕ
  pub ioctl_file : ℕ
  pub ioctl_file_off : ℕ
  pub max_queable : ℕ
  pub num_queued : ℕ
  pub same_size : ℕ
  pub queued : List DedupeReq
  pub in_progress : List DedupeReq
  pub completed : List DedupeReq
  pub same : Same

-- sizeof(struct file_dedupe_range) and sizeof(struct file_dedupe_range_info)
abbrev pub sizeof_same : ℕ
sizeof_same = 24

abbrev pub sizeof_info : ℕ
sizeof_info = 32

abbrev pub zero_same : ℕ → Same
zero_same same_size = record {
  src_offset = 0;
  src_length = 0;
  dest_count = 0;
  info = replicate ((same_size - sizeof_same) / sizeof_info) zero_info;
}

unfoldable pub new_dedupe_req : Bool → ℕ → ℕ → Option DedupeReq
new_dedupe_req mem file loff =
    if mem
    then some (record {
      req_file = file;
      req_loff = loff;
      req_total = 0;
      req_status = pos 0;
      req_idx = 0;
    })
    else none

find_idx : List DedupeReq → ℕ → Option DedupeReq
find_idx [] idx = none
find_idx (r ∷ rs) idx = if r.req_idx == idx then some r else find_idx rs idx

unfoldable pub same_idx_to_request : DedupeCtxt → ℕ → Option DedupeReq
unfolding find_idx
same_idx_to_request c idx = find_idx (c.queued ++ (c.in_progress ++ c.completed)) idx

abbrev pub clear_lists : DedupeCtxt → DedupeCtxt
clear_lists c = record c { queued = []; in_progress = []; completed = [] }

-- What `calloc` and the assignments of `new_dedupe_ctxt` leave.
empty_ctxt : ℕ → ℕ → ℕ → ℕ → ℕ → DedupeCtxt
empty_ctxt max_dest_files same_size loff elen ioctl_file = record {
  orig_len = elen;
  orig_file_off = loff;
  len = elen;
  ioctl_file = ioctl_file;
  ioctl_file_off = loff;
  max_queable = max_dest_files;
  num_queued = 0;
  same_size = same_size;
  queued = [];
  in_progress = [];
  completed = [];
  same = zero_same same_size;
}

-- `mem` and `mem'` are what the two calls of `calloc` find.
unfoldable pub new_dedupe_ctxt : Bool → Bool → ℕ → ℕ → ℕ → ℕ → Option DedupeCtxt
unfolding empty_ctxt
new_dedupe_ctxt mem mem' max_extents loff elen ioctl_file =
    let max_extents' =
      if ltb max_dedupes_per_ioctl max_extents then max_dedupes_per_ioctl else max_extents in
    let max_dest_files = sub32 max_extents' 1 in
    let same_size = (sizeof_same + max_dest_files * sizeof_info) % 2 ^ 32 in
    if mem && mem' then some (empty_ctxt max_dest_files same_size loff elen ioctl_file) else none

-- `list_add_tail` to `queued`.
enqueue : DedupeCtxt → DedupeReq → DedupeCtxt
enqueue c req = record c { queued = c.queued ++ req ∷ []; num_queued = add32 c.num_queued 1 }

-- The result is the context and the number that the function returns.
unfoldable pub add_extent_to_dedupe : Bool → DedupeCtxt → ℕ → ℕ → Outcome (DedupeCtxt × ℤ)
unfolding new_dedupe_req enqueue
add_extent_to_dedupe mem c loff file =
    if leb c.max_queable c.num_queued then aborted else elim (new_dedupe_req mem file loff) [
      | none ↦ done (c, negsuc 0)
      | some req ↦ let c' = enqueue c req in done (c', pos (sub32 c'.max_queable c'.num_queued))
    ]
