-- ===== src/RunDedupe/Worker/Tests.antt =====
-- A thread's work on a record of three extents.
use duperemove.Prelude.{ℕ, refl, arith, true, false, inl, none, some, List, [], ◌∷◌}
use duperemove.Prelude.Int.{pos}
use duperemove.SearchTree.{leaf, node, find}
use duperemove.SearchTree.Plain.{plain}
use duperemove.Filerec.{Token, Globals, descriptor, new_record}
use duperemove.Results.{Extent, DupeExtents, ResultsTree}
use duperemove.Results.Valid.{IsValid}
use duperemove.Dedupe.Engine.Capped.{cap, capped, capped-Complies}
use duperemove.RunDedupe.Whole.{LastOpens}
use duperemove.RunDedupe.Clean.Trims.{Stands}
use duperemove.RunDedupe.Requests.{Session}
use duperemove.RunDedupe.Worker.{World, extent_dedupe_worker}
use duperemove.RunDedupe.Worker.Pass.{Serves}
use duperemove.RunDedupe.Worker.Ends.{EndsOff, extent_dedupe_worker-EndsOff}

abbrev files : Globals
files = record {
  memory = λ a. new_record (97 ∷ []) (pos 3) 10;
  filerec_head = 7 ∷ [];
  filerec_by_fileid = node leaf 7 leaf;
  num_filerecs = 1;
  open_fds = [];
}

-- Two of the extents lie at the same place.
abbrev ext : ℕ → ℕ → Extent
ext file poff = record {
  e_loff = 0;
  e_file = file;
  e_poff = poff;
  e_plen = 4096;
  e_shared_bytes = 0;
}

abbrev three : DupeExtents
three = record {
  de_num_dupes = 3;
  de_len = 4096;
  de_hash = 77;
  de_score = 12288;
  de_extents = ext 3 500 ∷ ext 9 900 ∷ ext 5 500 ∷ [];
  de_extents_root = node (node leaf (ext 3 500) leaf) (ext 5 500) (node leaf (ext 9 900) leaf);
}

abbrev full : ResultsTree
full = record { root = node leaf three leaf; num_dupes = 1; num_extents = 3 }

full-IsValid : IsValid full
full-IsValid = record {
  sorted = (tt, tt);
  dupes = (
    record {
      sorted = ((refl, (refl, tt)), ((refl, tt), (tt, tt)));
      same_extents = λ f. omega arith;
      counted = refl;
    },
    tt,
  );
  dupes_counted = refl;
  extents_counted = refl;
}

three-Stands : Stands three full
unfolding find
three-Stands = record { valid = full-IsValid; here = refl; two = omega arith; word = omega arith }

abbrev session : Session ℕ
session = record { fs_blocksize = 0; world = 0 }

abbrev world : World ℕ
world = record {
  trees = record { extents = plain Extent; dupes = plain DupeExtents };
  tokens = plain Token;
  kernel = capped;
  answers = λ e. record {
    token_mem = true;
    opened = descriptor e.e_file;
    ctxt_mem = true;
    same_mem = true;
    req_mem = true;
    token_mem' = true;
    reopened = descriptor e.e_file;
  };
  post = λ e. record { opened = descriptor e.e_file; mem = true; fiemap = none };
  rescan = λ e. record { opened = descriptor e.e_file; mem = true; fiemap = some [] };
}

all_open : (es : List Extent) → LastOpens world.answers es
all_open [] = tt
all_open (e ∷ []) = (refl, e.e_file, refl)
all_open (e ∷ e' ∷ es) = all_open (e' ∷ es)

world-Serves : Serves world files session full three
world-Serves = record {
  limit = cap;
  complies = capped-Complies;
  block = inl refl;
  some_len = omega arith;
  word = omega arith;
  can_count = ((omega arith, refl), ((omega arith, refl), ((omega arith, refl), tt)));
  last_opens = λ res' p' run. all_open p'.de_extents;
  tidy = λ a. (refl, omega arith);
  few = λ a. omega arith;
}

extent_dedupe_worker-EndsOff_example :
    EndsOff files full three (extent_dedupe_worker world false files session full three 0 0)
extent_dedupe_worker-EndsOff_example =
    extent_dedupe_worker-EndsOff world false files session full three 0 0 three-Stands (omega arith)
      world-Serves (λ e. refl)
