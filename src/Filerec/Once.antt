-- ===== src/Filerec/Once.antt =====
-- The files that a dedupe run holds open: what opening one more, and closing all of them, does to
-- the references.
use duperemove.Prelude.{
  ℕ, zero, suc, ◌+◌, ◌^◌, ◌<◌, ◌≤◌, ◌≡◌, ◌⊎◌, inl, inr, refl, ap, ◌∙◌, Bool, true, false, none,
  some, List, [], ◌∷◌, arith, ◌==◌, length, Option-cases, Bool-cases, List-cases,
}
use mathlib.Core.Path.{sym}
use duperemove.Prelude.Int.{ℤ, pos, negsuc, ◌==ℤ◌}
use duperemove.Prelude.Order.{ℕ_order, cmp_ℕ, eq_of_cmp_ℕ}
use duperemove.Prelude.Outcome.{Outcome, done, aborted, ◌>>=◌}
use duperemove.SearchTree.{Tree, Rbtree, find, lookup, in_order, remove_first, head?}
use duperemove.SearchTree.Sorted.{split3, is_less, is_same, is_more, find-lookup}
use duperemove.SearchTree.Put.{Put, Put-Sorted}
use duperemove.SearchTree.Bag.{total, total-Put}
use duperemove.SearchTree.Insert.{insert_of_absent}
use duperemove.Filerec.{
  Token, Globals, Opened, descriptor, filerec_open, open_file, enomem, filerec_open_once,
  filerec_close_open_list, open_token, close_loop, drop_ref, filerec_token_new,
  find_filerec_token_rb, insert_filerec_token_rb,
}
use duperemove.Filerec.Open.{
  same_file, refs, tokens, IsTidy, Holds, filerec_open-Opens, filerec_close_lem, drop_ref-IsTidy,
  drop_ref-refs,
}

abbrev pub by_file : Token → ℕ
by_file t = t.t_file

-- The references and tokens after `filerec_open_once`: one more of each for a file that was not
-- held, the same for one that was, and no change on an error.
pub record OpensOnce (file : ℕ) (g g' : Globals) (root root' : Tree Token) (ret : ℤ) : Type 0 where
  pub held : Holds g' root'
  pub account : (a : ℕ) → refs g' a + tokens root a ≡ refs g a + tokens root' a
  pub outcome :
      ((ret ≡ pos 0) × (0 < tokens root' file))
      ⊎ (((ret ==ℤ pos 0) ≡ false) × (g' ≡ g) × (root' ≡ root))

same_file_refl : (n : ℕ) → same_file n n ≡ 1
same_file_refl n = ground arith

none_some : {t : Token} {C : Type 0} → none ≡ some t → C
none_some e = cc

lookup-tokens :
    (ts : List Token) (file : ℕ) (t : Token)
    → lookup ℕ_order by_file ts file ≡ some t
    → 0 < total (λ t. same_file t.t_file file) ts
lookup-tokens [] file t e = cc
lookup-tokens (t' ∷ ts) file t e = elim (split3 (cmp_ℕ file t'.t_file)) [
  | is_less c ↦ none_some (sym (rw c refl) ∙ e)
  | is_same c ↦ let k = eq_of_cmp_ℕ _ _ c in ground arith
  | is_more c ↦ let rest = lookup-tokens ts file t (sym (rw c refl) ∙ e) in omega arith
]

still_held :
    (g : Globals) (root : Tree Token) (file : ℕ) (t : Token)
    → Holds g root
    → find_filerec_token_rb root file ≡ some t
    → OpensOnce file g g root root (pos 0)
unfolding find_filerec_token_rb
still_held g root file t h e = record {
  held = h;
  account = λ a. refl;
  outcome = inl (
    refl,
    lookup-tokens (in_order root) file t (sym (find-lookup ℕ_order by_file root file h.sorted) ∙ e),
  );
}

no_change :
    (g : Globals) (root : Tree Token) (file : ℕ) (ret : ℤ)
    → Holds g root
    → (ret ==ℤ pos 0) ≡ false
    → OpensOnce file g g root root ret
no_change g root file ret h e = record {
  held = h;
  account = λ a. refl;
  outcome = inr (e, refl, refl);
}

one_more :
    (g g' : Globals) (root root' : Tree Token) (file : ℕ)
    → Holds g root
    → ((a : ℕ) → IsTidy (g'.memory a))
    → ((a : ℕ) → refs g' a ≡ same_file file a + refs g a)
    → Put ℕ_order by_file (record { t_file = file }) (in_order root) (in_order root')
    → OpensOnce file g g' root root' (pos 0)
one_more g g' root root' file h tidy risen p =
    let new : (a : ℕ) → tokens root' a ≡ same_file file a + tokens root a =
      λ a. total-Put ℕ_order by_file (λ t. same_file t.t_file a) _ p in
    record {
      held = record {
        sorted = Put-Sorted ℕ_order by_file _ h.sorted p;
        tidy = tidy;
        covered = λ a. let had = h.covered a in let n = new a in let m = risen a in omega arith;
      };
      account = λ a. let n = new a in let m = risen a in omega arith;
      outcome = inl (refl, let n = new file in let one = same_file_refl file in omega arith);
    }

-- What opening leaves, when the file is not held and there is memory for a token.
with_token :
    (rb : Rbtree Token) (answer : Opened) (g : Globals) (root : Tree Token) (file : ℕ)
    → Holds g root
    → refs g file + 1 < 2 ^ 32
    → find_filerec_token_rb root file ≡ none
    → (g' : Globals) × (root' : Tree Token) × (ret : ℤ) × (open_token rb answer g root file
          (some (record { t_file = file }))
        ≡ done (g', root', ret))
      × OpensOnce file g g' root root' ret
unfolding open_token find_filerec_token_rb insert_filerec_token_rb
with_token rb answer g root file h few e =
    let (g', ret, eq, opens) = filerec_open-Opens answer g file h.tidy few in
    elim opens.outcome [
      | inl (ok, risen) ↦
          let (root', made, p) =
            insert_of_absent ℕ_order by_file rb (record { t_file = file }) root h.sorted e in
          (
            g',
            root',
            pos 0,
            rw (eq, ok) (rw (insert_filerec_token_rb, made) refl),
            one_more g g' root root' file h opens.tidy risen p,
          )
      | inr (failed, kept) ↦
          (g, root, ret, rw (eq, kept, failed) refl, no_change g root file ret h failed)
    ]

absent :
    (rb : Rbtree Token) (mem : Bool) (answer : Opened) (g : Globals) (root : Tree Token) (file : ℕ)
    → Holds g root
    → refs g file + 1 < 2 ^ 32
    → find_filerec_token_rb root file ≡ none
    → (g' : Globals) × (root' : Tree Token) × (ret : ℤ) × (open_token rb answer g root file
          (filerec_token_new mem file)
        ≡ done (g', root', ret))
      × OpensOnce file g g' root root' ret
unfolding open_token filerec_token_new
absent rb true answer g root file h few e = with_token rb answer g root file h few e
absent rb false answer g root file h few e =
    (g, root, enomem, refl, no_change g root file enomem h refl)

-- When the tree of open files is sorted, a file has a descriptor exactly while it is referred
-- to, and every token stands for a reference, `filerec_open_once` of a file with fewer than 2^32
-- - 1 references returns, whatever open(2) and the allocator answer. All this holds again
-- afterwards. A file gains as many references as it gains tokens; the result is 0 and the file
-- has a token, or it is an error and nothing has changed.
pub filerec_open_once-OpensOnce :
    (rb : Rbtree Token) (mem : Bool) (answer : Opened) (g : Globals) (root : Tree Token) (file : ℕ)
    → Holds g root
    → refs g file + 1 < 2 ^ 32
    → (g' : Globals) × (root' : Tree Token) × (ret : ℤ) × (filerec_open_once rb mem answer g root
          file
        ≡ done (g', root', ret))
      × OpensOnce file g g' root root' ret
unfolding filerec_open_once
filerec_open_once-OpensOnce rb mem answer g root file h few =
    elim (Option-cases (find_filerec_token_rb root file)) [
      | inl e ↦
          let (g', root', ret, eq, opens) = absent rb mem answer g root file h few e in
          (g', root', ret, rw (filerec_open_once, e) eq, opens)
      | inr (t, e) ↦ (g, root, pos 0, rw (filerec_open_once, e) refl, still_held g root file t h e)
    ]

-- Every reference that a token stood for is gone, and so are the tokens.
pub record ClosesAll (g g' : Globals) (root root' : Tree Token) : Type 0 where
  pub empty : in_order root' ≡ []
  pub tidy : (a : ℕ) → IsTidy (g'.memory a)
  pub account : (a : ℕ) → refs g' a + tokens root a ≡ refs g a

tokens_of :
    (root : Tree Token) (ts : List Token)
    → in_order root ≡ ts
    → (a : ℕ) → tokens root a ≡ total (λ t. same_file t.t_file a) ts
tokens_of root ts e a = ap (total (λ t. same_file t.t_file a)) e

nil_of_length : (ts : List Token) → length ts ≡ 0 → ts ≡ []
nil_of_length [] e = refl
nil_of_length (t ∷ ts) e = ground arith

==_refl : (n : ℕ) → (n == n) ≡ true
==_refl n = ground arith

nothing_to_close :
    (g : Globals) (root : Tree Token)
    → ((a : ℕ) → IsTidy (g.memory a))
    → in_order root ≡ []
    → ClosesAll g g root root
nothing_to_close g root tidy e = record {
  empty = e;
  tidy = tidy;
  account = λ a. let n = tokens_of root [] e a in omega (arith, n);
}

erase_head :
    (rb : Rbtree Token) (root : Tree Token) (t : Token) (ts : List Token)
    → in_order root ≡ t ∷ ts
    → in_order (rb.erase (λ t'. t'.t_file == t.t_file) root) ≡ ts
erase_head rb root t ts e =
    rb.erase_lem (λ t'. t'.t_file == t.t_file) root
    ∙ ap (remove_first (λ t'. t'.t_file == t.t_file)) e
    ∙ rw (==_refl t.t_file) refl

some_ref :
    (g : Globals) (root : Tree Token) (t : Token) (ts : List Token)
    → in_order root ≡ t ∷ ts
    → tokens root t.t_file ≤ refs g t.t_file
    → 0 < refs g t.t_file
some_ref g root t ts e covered =
    let n = tokens_of root (t ∷ ts) e t.t_file in
    let one = same_file_refl t.t_file in omega (arith, n, one)

close_loop-ClosesAll :
    (rb : Rbtree Token) (fuel : ℕ) (g : Globals) (root : Tree Token)
    → ((a : ℕ) → IsTidy (g.memory a))
    → ((a : ℕ) → tokens root a ≤ refs g a)
    → length (in_order root) ≡ fuel
    → (g' : Globals) × (root' : Tree Token) × (close_loop rb fuel g root ≡ done (g', root'))
      × ClosesAll g g' root root'
unfolding close_loop
close_loop-ClosesAll rb zero g root tidy covered enough =
    (g, root, refl, nothing_to_close g root tidy (nil_of_length (in_order root) enough))
close_loop-ClosesAll rb (suc fuel) g root tidy covered enough = elim (List-cases (in_order root)) [
  | inl e ↦ (
    g,
    root,
    rw (close_loop, rb.first_lem root ∙ ap head? e) refl,
    nothing_to_close g root tidy e,
  )
  | inr (t, ts, e) ↦
      let root1 = rb.erase (λ t'. t'.t_file == t.t_file) root in
      let g1 = drop_ref g t.t_file in
      let used = some_ref g root t ts e (covered t.t_file) in
      let one_less = drop_ref-refs g t.t_file used (tidy t.t_file).1 in
      let kept = erase_head rb root t ts e in
      let covered1 : (a : ℕ) → tokens root1 a ≤ refs g1 a = λ a.
        let all = tokens_of root (t ∷ ts) e a in
        let left = tokens_of root1 ts kept a in
        let had = covered a in let now = one_less a in omega arith in
      let rest =
        close_loop-ClosesAll rb fuel g1 root1 (drop_ref-IsTidy g t.t_file tidy used) covered1
          (let n = ap length (sym e) in let m = ap length kept in omega arith) in
      let step : close_loop rb (suc fuel) g root ≡ close_loop rb fuel g1 root1 =
        rw (close_loop, rb.first_lem root ∙ ap head? e, filerec_close_lem g t.t_file tidy used)
          refl in
      (
        rest.0,
        rest.1,
        step ∙ rest.2,
        record {
          empty = rest.3.empty;
          tidy = rest.3.tidy;
          account = λ a.
              let all = tokens_of root (t ∷ ts) e a in
              let left = tokens_of root1 ts kept a in
              let now = one_less a in let later = rest.3.account a in omega arith;
        },
      )
]

-- Under the same conditions `filerec_close_open_list` returns without an abort. No token is
-- left, each file has lost as many references as it had tokens, and it has a descriptor exactly
-- while references remain.
pub filerec_close_open_list-ClosesAll :
    (rb : Rbtree Token) (g : Globals) (root : Tree Token)
    → Holds g root
    → (g' : Globals) × (root' : Tree Token) × (filerec_close_open_list rb g root ≡ done (g', root'))
      × ClosesAll g g' root root'
unfolding filerec_close_open_list
filerec_close_open_list-ClosesAll rb g root h =
    close_loop-ClosesAll rb (length (in_order root)) g root h.tidy h.covered refl

abbrev pub ret_of : Outcome (Globals × Tree Token × ℤ) → ℤ
ret_of (done (g, root, ret)) = ret
ret_of aborted = pos 0

insert-ret_of :
    (g : Globals) (m : Outcome (Tree Token)) → ret_of (m >>= λ root. done (g, root, pos 0)) ≡ pos 0
insert-ret_of g (done root) = refl
insert-ret_of g aborted = refl

-- With a descriptor and memory for a token the result is 0, if there is one.
pub filerec_open_once-ret_of :
    (rb : Rbtree Token) (d : ℕ) (g : Globals) (root : Tree Token) (file : ℕ)
    → ret_of (filerec_open_once rb true (descriptor d) g root file) ≡ pos 0
unfolding filerec_open_once open_token filerec_open open_file filerec_token_new
filerec_open_once-ret_of rb d g root file = elim (Option-cases (find_filerec_token_rb root file)) [
  | inl absent ↦ elim (Bool-cases (refs g file == 0)) [
    | inl unused ↦ elim (Bool-cases ((g.memory file).fd ==ℤ negsuc 0)) [
      | inl no_fd ↦ rw (filerec_open_once, absent, unused, no_fd) (insert-ret_of _ _)
      | inr fd ↦ rw (filerec_open_once, absent, unused, fd) refl
    ]
    | inr in_use ↦ rw (filerec_open_once, absent, in_use) (insert-ret_of _ _)
  ]
  | inr (t, found) ↦ rw (filerec_open_once, found) refl
]

-- Without memory for a token, a file that is not held is not opened.
pub filerec_open_once_no_memory :
    (rb : Rbtree Token) (answer : Opened) (g : Globals) (root : Tree Token) (file : ℕ)
    → find ℕ_order by_file root file ≡ none
    → filerec_open_once rb false answer g root file ≡ done (g, root, enomem)
unfolding filerec_open_once open_token filerec_token_new find_filerec_token_rb
filerec_open_once_no_memory rb answer g root file not_held = rw (filerec_open_once, not_held) refl
