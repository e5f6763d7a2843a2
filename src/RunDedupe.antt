-- ===== src/RunDedupe.antt =====
-- run_dedupe.c: the dedupe of one record of the tree of results. What the allocators and open(2) answer for an extent is
-- the function `answers`; `dedupe` is dedupe_extents and then process_dedupe_results (Requests.run_requests), with the
-- descriptors of the files, a session of the kernel, and the bytes that were deduped. The data base and
-- the messages are not modelled. `aborted` is `abort_on` or the use of a null pointer.
pub mod Ready
pub mod Close
pub mod Extents
pub mod Post
pub mod Clean
pub mod Whole
pub mod Worker
pub mod Report
pub mod Requests
pub mod Abort
mod Tests
use duperemove.Prelude.{
  ℕ, zero, suc, ◌^◌, Bool, true, false, not, ◌&&◌, ◌||◌, Option, none, some, List, [], ◌∷◌, ◌==◌,
  ltb, leb, if◌then◌else◌, is_empty, length,
}
use duperemove.Prelude.Int.{ℤ, pos, negsuc, enomem, ◌==ℤ◌}
use duperemove.Prelude.Word.{add64, sub64}
use duperemove.Prelude.Outcome.{Outcome, done, aborted, ◌>>=◌}
use duperemove.SearchTree.{Tree, leaf, Rbtree, in_order}
use duperemove.Filerec.{
  Token, Globals, Opened, filerec_open, filerec_close, filerec_open_once, filerec_close_open_list,
}
use duperemove.Fiemap.{FiemapExtent, fiemap_count_shared}
use duperemove.Results.{Extent, DupeExtents}
use duperemove.Dedupe.{DedupeCtxt, new_dedupe_ctxt, add_extent_to_dedupe}

pub add_shared : ℕ → List Extent → ℕ
add_shared shared [] = shared
add_shared shared (e ∷ es) = add_shared (add64 shared e.e_shared_bytes) es

pub add_shared_extents : DupeExtents → ℕ → ℕ
add_shared_extents dext shared = add_shared shared dext.de_extents

-- What open(2), the allocator and the file system answer for an extent.
pub record PostAnswers : Type 0 where
  pub opened : Opened
  pub mem : Bool
  pub fiemap : Option (List FiemapExtent)

-- `bytes` keeps its value when an extent cannot be counted.
pub stored : ℕ → Option ℕ → ℕ
stored bytes none = bytes
stored bytes (some n) = n

pub post_counted :
    (ℕ → Globals → ℕ → Outcome (Globals × ℕ))
    → Globals
    → Extent
    → ℕ
    → ℕ
    → Option ℕ
    → Outcome (Globals × ℕ)
post_counted again g e bytes shared found =
    let shared' = add64 shared (stored bytes found) in
    filerec_close g e.e_file >>= λ g'. elim found [
      | none ↦ done (g', shared')
      | some n ↦ again n g' shared'
    ]

pub post_opened :
    (ℕ → Globals → ℕ → Outcome (Globals × ℕ))
    → PostAnswers
    → ℕ
    → Extent
    → ℕ
    → ℕ
    → Globals × ℤ
    → Outcome (Globals × ℕ)
post_opened again a len e bytes shared (g, ret) = elim (ret ==ℤ pos 0) [
  | false ↦ done (g, shared)
  | true ↦
      fiemap_count_shared a.mem a.fiemap e.e_loff (add64 e.e_loff len)
      >>= post_counted again g e bytes shared
]

-- The numbers are `bytes` and `*shared`.
pub post_loop : (Extent → PostAnswers) → ℕ → List Extent → ℕ → Globals → ℕ → Outcome (Globals × ℕ)
post_loop answers len [] bytes g shared = done (g, shared)
post_loop answers len (e ∷ es) bytes g shared =
    filerec_open (answers e).opened g e.e_file
    >>= post_opened (post_loop answers len es) (answers e) len e bytes shared

pub add_shared_extents_post :
    (Extent → PostAnswers) → Globals → DupeExtents → ℕ → Outcome (Globals × ℕ)
add_shared_extents_post answers g dext shared =
    post_loop answers dext.de_len dext.de_extents 0 g shared

pub disk_extent_grew : DupeExtents → Extent → Bool
disk_extent_grew dext e = ltb e.e_plen dext.de_len

-- The two `filerec_open_once` of a step, with `calloc` of their tokens, and the allocations of a
-- context and of a request.
pub record Answers : Type 0 where
  pub token_mem : Bool
  pub opened : Opened
  pub ctxt_mem : Bool
  pub same_mem : Bool
  pub req_mem : Bool
  pub token_mem' : Bool
  pub reopened : Opened

-- The variables of the loop.
pub record Loop (S : Type 0) : Type 0 where
  pub globals : Globals
  pub open_files : Tree Token
  pub ctxt : Option DedupeCtxt
  pub tgt_extent : Option Extent
  pub session : S
  pub kern_bytes : ℕ

-- Where the loop is left to: the code behind it, or the label `out` with a return value.
pub data Left (S : Type 0) : Type 0 where
  behind : Loop S → Left S
  out : ℤ → Loop S → Left S

abbrev pub is_some : {A : Type 0} → Option A → Bool
is_some none = false
is_some (some a) = true

module _ {S : Type 0} (rb : Rbtree Token) (dedupe : (ℕ → ℤ) → S → DedupeCtxt → Outcome (S × ℕ))
    (num_dupes len : ℕ) where
  -- The target is open again, or it is not.
  pub reopened : (Loop S → Outcome (Left S)) → Loop S → Globals × Tree Token × ℤ → Outcome (Left S)
  reopened again st (g, root, ret) =
      let st' : Loop S = record st { globals = g; open_files = root } in
      elim (ret ==ℤ pos 0) [ true ↦ again st' | false ↦ done (behind st') ]

  pub reopen : Answers → (Loop S → Outcome (Left S)) → Loop S → Outcome (Left S)
  reopen a again st = elim st.tgt_extent [
    | none ↦ aborted
    | some tgt ↦
        filerec_open_once rb a.token_mem' a.reopened st.globals st.open_files tgt.e_file
        >>= reopened again st
  ]

  pub closed :
      Bool
      → Answers
      → (Loop S → Outcome (Left S))
      → Loop S
      → Globals × Tree Token
      → Outcome (Left S)
  closed last a again st (g, root) =
      let st' : Loop S = record st { globals = g; open_files = root; ctxt = none } in
      elim last [ true ↦ again st' | false ↦ reopen a again st' ]

  -- From the label `close_files`.
  pub close_files : Bool → Answers → (Loop S → Outcome (Left S)) → Loop S → Outcome (Left S)
  close_files last a again st =
      filerec_close_open_list rb st.globals st.open_files >>= closed last a again st

  abbrev pub count_bytes : Loop S → S × ℕ → Loop S
  count_bytes st (s, bytes) = record st { session = s; kern_bytes = add64 st.kern_bytes bytes }

  -- From the label `run_dedupe`.
  pub run_dedupe :
      Bool → Answers → (Loop S → Outcome (Left S)) → Loop S → DedupeCtxt → Outcome (Left S)
  run_dedupe last a again st c = elim (c.num_queued == 0) [
    | true ↦ close_files last a again st
    | false ↦ dedupe (λ file. (st.globals.memory file).fd) st.session c >>= λ r.
        close_files last a again (count_bytes st r)
  ]

  -- `rc` is negative without memory, and otherwise how many more requests fit.
  pub queued_extent :
      Bool → Answers → (Loop S → Outcome (Left S)) → Loop S → DedupeCtxt × ℤ → Outcome (Left S)
  queued_extent last a again st (c, negsuc n) = done (out enomem (record st { ctxt = some c }))
  queued_extent last a again st (c, pos room) = elim ((room == 0) || last) [
    | true ↦ run_dedupe last a again (record st { ctxt = some c }) c
    | false ↦ again (record st { ctxt = some c })
  ]

  pub queue_extent :
      Bool → Answers → (Loop S → Outcome (Left S)) → Loop S → DedupeCtxt → Extent → Outcome (Left S)
  queue_extent last a again st c e =
      add_extent_to_dedupe a.req_mem c e.e_loff e.e_file >>= queued_extent last a again st

  -- A context for the target, and what is done with it.
  pub with_ctxt :
      Answers → Loop S → Extent → (Loop S → DedupeCtxt → Outcome (Left S)) → Outcome (Left S)
  with_ctxt a st tgt use_it =
      elim (new_dedupe_ctxt a.ctxt_mem a.same_mem num_dupes tgt.e_loff len tgt.e_file) [
        | none ↦ done (out enomem st)
        | some c ↦ use_it (record st { ctxt = some c }) c
      ]

  -- The rest of the body for an extent whose file is open.
  pub take_extent :
      Bool → Answers → (Loop S → Outcome (Left S)) → Loop S → Extent → Outcome (Left S)
  take_extent last a again st e = elim st.ctxt [
    | some c ↦ queue_extent last a again st c e
    | none ↦ elim st.tgt_extent [
      | some tgt ↦ with_ctxt a st tgt (λ st' c. queue_extent last a again st' c e)
      | none ↦ elim last [
        | true ↦ close_files true a again st
        | false ↦ with_ctxt a (record st { tgt_extent = some e }) e (λ st' c. again st')
      ]
    ]
  ]

  -- An extent whose file cannot be opened is left out.
  pub skip_extent : Bool → Answers → (Loop S → Outcome (Left S)) → Loop S → Outcome (Left S)
  skip_extent last a again st = elim st.ctxt [
    | none ↦ again st
    | some c ↦ elim last [ true ↦ run_dedupe true a again st c | false ↦ again st ]
  ]

  pub opened_extent :
      Bool
      → Answers
      → (Loop S → Outcome (Left S))
      → Loop S
      → Extent
      → Globals × Tree Token × ℤ
      → Outcome (Left S)
  opened_extent last a again st e (g, root, ret) =
      let st' : Loop S = record st { globals = g; open_files = root } in
      elim (ret ==ℤ pos 0) [
        | true ↦ take_extent last a again st' e
        | false ↦ skip_extent last a again st'
      ]

  pub step : Bool → Answers → (Loop S → Outcome (Left S)) → Loop S → Extent → Outcome (Left S)
  step last a again st e =
      filerec_open_once rb a.token_mem a.opened st.globals st.open_files e.e_file
      >>= opened_extent last a again st e

  pub extent_loop : (Extent → Answers) → List Extent → Loop S → Outcome (Left S)
  extent_loop answers [] st = done (behind st)
  extent_loop answers (e ∷ es) st = step (is_empty es) (answers e) (extent_loop answers es) st e

-- What the dedupe of a record leaves, with its return value.
pub record Deduped (S : Type 0) : Type 0 where
  pub globals : Globals
  pub session : S
  pub fiemap_bytes : ℕ
  pub kern_bytes : ℕ
  pub ret : ℤ

-- No file may be open any more.
pub all_closed : {S : Type 0} → ℤ → ℕ → Loop S → Globals × Tree Token → Outcome (Deduped S)
all_closed ret fiemap_bytes st (g, root) =
    if is_empty (in_order root)
    then done (record {
      globals = g;
      session = st.session;
      fiemap_bytes = fiemap_bytes;
      kern_bytes = st.kern_bytes;
      ret = ret;
    })
    else aborted

-- From the label `out`.
pub at_out : {S : Type 0} → Rbtree Token → ℤ → ℕ → Loop S → Outcome (Deduped S)
at_out rb ret fiemap_bytes st =
    filerec_close_open_list rb st.globals st.open_files >>= all_closed ret fiemap_bytes st

-- The bytes that are shared now and were not before.
pub newly_shared : ℕ → ℕ → ℕ → ℕ
newly_shared fiemap_bytes shared_prev shared_post =
    if ltb shared_prev shared_post
    then add64 fiemap_bytes (sub64 shared_post shared_prev)
    else fiemap_bytes

pub shared_counted :
    {S : Type 0} → Rbtree Token → ℕ → ℕ → Loop S → Globals × ℕ → Outcome (Deduped S)
shared_counted rb shared_prev fiemap_bytes st (g, shared_post) =
    at_out rb (pos 0) (newly_shared fiemap_bytes shared_prev shared_post)
      (record st { globals = g })

-- Behind the loop.
pub finish :
    {S : Type 0}
    → Rbtree Token
    → (Extent → PostAnswers)
    → DupeExtents
    → ℕ
    → ℕ
    → Left S
    → Outcome (Deduped S)
finish rb post dext shared_prev fiemap_bytes (out ret st) = at_out rb ret fiemap_bytes st
finish rb post dext shared_prev fiemap_bytes (behind st) =
    if is_some st.ctxt || not (is_empty (in_order st.open_files))
    then aborted
    else (add_shared_extents_post post st.globals dext 0
        >>= shared_counted rb shared_prev fiemap_bytes st)

-- dedupe_extent_list behind clean_deduped.
pub dedupe_cleaned :
    {S : Type 0}
    → Rbtree Token
    → ((ℕ → ℤ) → S → DedupeCtxt → Outcome (S × ℕ))
    → (Extent → Answers)
    → (Extent → PostAnswers)
    → Globals
    → S
    → DupeExtents
    → ℕ
    → ℕ
    → Outcome (Deduped S)
dedupe_cleaned rb dedupe answers post g s dext fiemap_bytes kern_bytes =
    extent_loop rb dedupe dext.de_num_dupes dext.de_len answers dext.de_extents (record {
      globals = g;
      open_files = leaf;
      ctxt = none;
      tgt_extent = none;
      session = s;
      kern_bytes = kern_bytes;
    })
    >>= finish rb post dext (add_shared_extents dext 0) fiemap_bytes
