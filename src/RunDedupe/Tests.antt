-- ===== src/RunDedupe/Tests.antt =====
-- run_dedupe.c at a record of three extents.
use duperemove.Prelude.{ℕ, suc, ◌≡◌, refl, true, false, none, some, [], ◌∷◌, if◌then◌else◌, ◌==◌}
use duperemove.Prelude.Int.{ℤ, pos, enomem}
use duperemove.Prelude.Outcome.{Outcome, done, aborted, ◌>>=◌}
use duperemove.SearchTree.{leaf, node, find}
use duperemove.SearchTree.Plain.{plain}
use duperemove.Filerec.{Token, Globals, Opened, descriptor, errno, new_record}
use duperemove.Filerec.Once.{filerec_open_once_no_memory}
use duperemove.Results.{Extent, DupeExtents}
use duperemove.Dedupe.{DedupeCtxt}
use duperemove.RunDedupe.{Answers, PostAnswers, Loop, extent_loop, finish}
use duperemove.RunDedupe.Abort.{unopened_last_aborts}

abbrev files : Globals
files = record {
  memory = λ a. new_record (97 ∷ []) (pos 3) 10;
  filerec_head = 7 ∷ [];
  filerec_by_fileid = node leaf 7 leaf;
  num_filerecs = 1;
  open_fds = [];
}

abbrev ext : ℕ → Extent
ext file = record { e_loff = 0; e_file = file; e_poff = 0; e_plen = 4096; e_shared_bytes = 0 }

-- The target, a file that does not open, and one that does.
abbrev three : DupeExtents
three = record {
  de_num_dupes = 3;
  de_len = 4096;
  de_hash = 77;
  de_score = 12288;
  de_extents = ext 3 ∷ ext 9 ∷ ext 5 ∷ [];
  de_extents_root = node (node leaf (ext 3) leaf) (ext 5) (node leaf (ext 9) leaf);
}

abbrev opens : ℕ → Opened
opens file = if file == 9 then errno 2 else descriptor file

abbrev answer : Extent → Answers
answer e = record {
  token_mem = true;
  opened = opens e.e_file;
  ctxt_mem = true;
  same_mem = true;
  req_mem = true;
  token_mem' = true;
  reopened = opens e.e_file;
}

abbrev post_answer : Extent → PostAnswers
post_answer e = record { opened = opens e.e_file; mem = true; fiemap = none }

-- The engine as a counter of its calls.
abbrev call : (ℕ → ℤ) → ℕ → DedupeCtxt → Outcome (ℕ × ℕ)
call fds n c = done (suc n, 4096)

-- Between two contexts, with the target open.
abbrev between : Loop ℕ
between = record {
  globals = record files {
    memory = λ a. record (new_record (97 ∷ []) (pos 3) 10) { fd = pos 3; fd_refs = 1 };
    open_fds = 3 ∷ [];
  };
  open_files = node leaf (record { t_file = 3 }) leaf;
  ctxt = none;
  tgt_extent = some (ext 3);
  session = 1;
  kern_bytes = 4096;
}

abbrev no_memory : Extent → Answers
no_memory e = record (answer e) { token_mem = false }

unopened_last_aborts_example :
    (extent_loop (plain Token) call 3 4096 no_memory (ext 9 ∷ []) between
      >>= finish (plain Token) post_answer three 0 0)
    ≡ aborted
unfolding find
unopened_last_aborts_example =
    unopened_last_aborts (plain Token) call no_memory post_answer three 0 0 between (ext 9) enomem
      refl (λ e. cc)
      (filerec_open_once_no_memory (plain Token) (opens 9) between.globals between.open_files 9
        refl)
      refl
