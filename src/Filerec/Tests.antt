-- ===== src/Filerec/Tests.antt =====
-- filerec.c at one and two records, over a tree that does not balance.
use duperemove.Prelude.{ℕ, ◌≡◌, ◌≢◌, refl, true, none, some, [], ◌∷◌, arith}
use duperemove.Prelude.Int.{ℤ, pos}
use duperemove.Prelude.Outcome.{done, aborted}
use duperemove.SearchTree.{Tree, leaf, node, find}
use duperemove.SearchTree.Plain.{plain}
use duperemove.Filerec.{
  Token, Globals, descriptor, new_record, filerec_find, filerec_new, filerec_open_once,
  filerec_close_open_list, free_all_filerecs,
}
use duperemove.Filerec.Open.{Holds}
use duperemove.Filerec.Once.{
  OpensOnce, filerec_open_once-OpensOnce, ClosesAll, filerec_close_open_list-ClosesAll,
}
use duperemove.Filerec.Find.{Indexed, Adds, filerec_new-Adds, filerec_new-aborts}
use duperemove.Filerec.Free.{Empty, free_all_filerecs-Empty}

abbrev one : Globals
one = record {
  memory = λ a. new_record (97 ∷ []) (pos 3) 10;
  filerec_head = 7 ∷ [];
  filerec_by_fileid = node leaf 7 leaf;
  num_filerecs = 1;
  open_fds = [];
}

one-Indexed : Indexed one
one-Indexed = record { sorted = (tt, tt); same_records = λ f. refl; counted = refl }

apart : ◌≢◌ {A = ℕ} 9 7
apart = λ e. omega arith

new_number : filerec_find one (pos 4) ≡ none
unfolding filerec_find find
new_number = refl

old_number : filerec_find one (pos 3) ≡ some 7
unfolding filerec_find find
old_number = refl

filerec_new-Adds_example :
    (g' : Globals) × (filerec_new (plain ℕ) (some 9) true one (98 ∷ []) (pos 4) 20
      ≡ done (g', some 9))
    × Adds 9 (new_record (98 ∷ []) (pos 4) 20) one g'
filerec_new-Adds_example =
    filerec_new-Adds (plain ℕ) one 9 (98 ∷ []) (pos 4) 20 one-Indexed (apart, tt) new_number

filerec_new-aborts_example : filerec_new (plain ℕ) (some 9) true one (98 ∷ []) (pos 3) 20 ≡ aborted
filerec_new-aborts_example =
    filerec_new-aborts (plain ℕ) one 9 7 (98 ∷ []) (pos 3) 20 one-Indexed (apart, tt) old_number

free_all_filerecs-Empty_example : Empty (free_all_filerecs (plain ℕ) one)
free_all_filerecs-Empty_example = free_all_filerecs-Empty (plain ℕ) one one-Indexed

one-Holds : Holds one leaf
one-Holds = record { sorted = tt; tidy = λ a. (refl, omega arith); covered = λ a. omega arith }

filerec_open_once-OpensOnce_example :
    (g' : Globals) × (root' : Tree Token) × (ret : ℤ) × (filerec_open_once
        (plain Token)
        true
        (descriptor 5)
        one
        leaf
        7
      ≡ done (g', root', ret))
    × OpensOnce 7 one g' leaf root' ret
filerec_open_once-OpensOnce_example =
    filerec_open_once-OpensOnce (plain Token) true (descriptor 5) one leaf 7 one-Holds (omega arith)

-- Each record in memory is open once.
abbrev opened : Globals
opened = record one {
  memory = λ a. record (new_record (97 ∷ []) (pos 3) 10) { fd = pos 5; fd_refs = 1 };
  open_fds = 5 ∷ [];
}

abbrev token_tree : Tree Token
token_tree = node leaf (record { t_file = 7 }) leaf

opened-Holds : Holds opened token_tree
opened-Holds = record {
  sorted = (tt, tt);
  tidy = λ a. (refl, omega arith);
  covered = λ a. ground arith;
}

filerec_close_open_list-ClosesAll_example :
    (g' : Globals) × (root' : Tree Token) × (filerec_close_open_list (plain Token) opened token_tree
      ≡ done (g', root'))
    × ClosesAll opened g' token_tree root'
filerec_close_open_list-ClosesAll_example =
    filerec_close_open_list-ClosesAll (plain Token) opened token_tree opened-Holds
