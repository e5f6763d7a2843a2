-- ===== src/RunDedupe/Whole.antt =====
-- dedupe_extent_list behind clean_deduped: no reference to a file is leaked.
use duperemove.Prelude.{
  ℕ, ◌^◌, ◌<◌, ◌≡◌, ◌≢◌, ◌⊎◌, refl, ap, ◌∙◌, Bool, true, false, none, List, [], ◌∷◌, All, arith,
  inl, inr,
}
use mathlib.Core.Path.{sym}
use duperemove.Prelude.Int.{ℤ, pos, enomem}
use duperemove.Prelude.Outcome.{Outcome, done, ◌>>=◌, bind-done}
use duperemove.SearchTree.{Tree, leaf, Rbtree, in_order}
use duperemove.SearchTree.Bag.{total}
use duperemove.Filerec.{Token, Globals, descriptor}
use duperemove.Filerec.Open.{same_file, refs, tokens, IsTidy}
use duperemove.Filerec.Once.{ret_of, filerec_open_once-ret_of}
use duperemove.Results.{Extent, DupeExtents}
use duperemove.Dedupe.{DedupeCtxt}
use duperemove.RunDedupe.{
  Answers, PostAnswers, Loop, Left, behind, out, step, opened_extent, extent_loop, Deduped, at_out,
  finish, dedupe_cleaned, all_closed, newly_shared, shared_counted, add_shared_extents,
}
use duperemove.RunDedupe.Ready.{
  Accounted, IsReady, IsClosed, LeftReady, Leaves, GoesOn, FewRefs, Engages, open_once-Accounted,
  close_list-Accounted, after,
}
use duperemove.RunDedupe.Extents.{opened_extent-Leaves}
use duperemove.RunDedupe.Post.{IsTame, CanCount, add_shared_extents_post-KeepsRefs}

-- There is memory for the token of the file, and it opens.
abbrev pub OpensWell : Answers → Type 0
OpensWell a = (a.token_mem ≡ true) × (d : ℕ) × (a.opened ≡ descriptor d)

-- The file of the last extent opens.
abbrev pub LastOpens : (Extent → Answers) → List Extent → Type 0
LastOpens answers [] = Unit
LastOpens answers (e ∷ []) = OpensWell (answers e)
LastOpens answers (e ∷ e' ∷ es) = LastOpens answers (e' ∷ es)

abbrev pub IsWord : Extent → Type 0
IsWord e = e.e_loff < 2 ^ 64

can_words :
    (post : Extent → PostAnswers) (len : ℕ) (es : List Extent)
    → All (CanCount post len) es
    → All IsWord es
can_words post len [] can = tt
can_words post len (e ∷ es) can = (let ends = can.0.0 in omega arith, can_words post len es can.1)

not_nil : {e : Extent} {es : List Extent} → (e ∷ es) ≢ []
not_nil e = cc

module _ {S : Type 0} (rb : Rbtree Token) (dedupe : (ℕ → ℤ) → S → DedupeCtxt → Outcome (S × ℕ))
    (num_dupes len : ℕ) (g0 : Globals) (Sound : S → Type 0) (few : FewRefs g0)
    (enough : 1 < num_dupes) (dedupe-returns : Engages Sound len dedupe) where
  step-Leaves :
      (last : Bool) (a : Answers) (again : Loop S → Outcome (Left S)) (st : Loop S) (e : Extent)
      → GoesOn g0 Sound len last again
      → IsReady g0 Sound len st
      → (last ≡ true → OpensWell a)
      → IsWord e
      → Leaves g0 (step rb dedupe num_dupes len last a again st e)
  unfolding step
  step-Leaves last a again st e h ready opens word =
      let (g, root, ret, run, v, shape) =
        open_once-Accounted rb a.token_mem a.opened g0 st.globals st.open_files e.e_file few
          ready.files.0 in
      after _ (g, root, ret) (opened_extent rb dedupe num_dupes len last a again st e) run
        (opened_extent-Leaves rb dedupe num_dupes len g0 Sound few enough dedupe-returns last a
          again st e g root ret h ready (v, ready.files.1) shape
          (λ q.
            let (mem, d, opened) = opens q in
            sym (ap ret_of run)
            ∙ rw (mem, opened) (filerec_open_once-ret_of rb d st.globals st.open_files e.e_file))
          word)

  extent_loop-Leaves :
      (answers : Extent → Answers) (es : List Extent) (st : Loop S)
      → IsReady g0 Sound len st
      → (es ≡ [] → IsClosed st)
      → All IsWord es
      → LastOpens answers es
      → Leaves g0 (extent_loop rb dedupe num_dupes len answers es st)
  unfolding extent_loop
  extent_loop-Leaves answers [] st ready closed words opens =
      (behind st, refl, (ready.files.0, closed refl))
  extent_loop-Leaves answers (e ∷ []) st ready closed words opens =
      step-Leaves true (answers e) (extent_loop rb dedupe num_dupes len answers []) st e
        (λ st' ready' closed'. extent_loop-Leaves answers [] st' ready' (λ q. closed' refl) tt tt)
        ready (λ q. opens) words.0
  extent_loop-Leaves answers (e ∷ e' ∷ es) st ready closed words opens =
      step-Leaves false (answers e) (extent_loop rb dedupe num_dupes len answers (e' ∷ es)) st e
        (λ st' ready' closed'.
          extent_loop-Leaves answers (e' ∷ es) st' ready' (λ q. absurd (not_nil q)) words.1 opens)
        ready (λ q. cc) words.0

-- A record is left with the references that there were before it.
pub record ClosesFiles {S : Type 0} (g : Globals) (d : Deduped S) : Type 0 where
  pub tidy : (a : ℕ) → IsTidy (d.globals.memory a)
  pub same_refs : (a : ℕ) → refs d.globals a ≡ refs g a
  pub result : (d.ret ≡ pos 0) ⊎ (d.ret ≡ enomem)

abbrev pub EndsWell : {S : Type 0} → Globals → Outcome (Deduped S) → Type 0
EndsWell {S} g r = (d : Deduped S) × (r ≡ done d) × ClosesFiles g d

bound :
    {S A : Type 0} {g0 : Globals} (m : Outcome A) (x : A) (f : A → Outcome (Deduped S))
    → m ≡ done x
    → EndsWell g0 (f x)
    → EndsWell g0 (m >>= f)
bound m x f e (d, run, closes) = (d, bind-done m x f e ∙ run, closes)

no_tokens : (root : Tree Token) → in_order root ≡ [] → (a : ℕ) → tokens root a ≡ 0
no_tokens root e a = ap (total (λ t. same_file t.t_file a)) e

at_out-ClosesFiles :
    {S : Type 0} (rb : Rbtree Token) (g0 : Globals) (ret : ℤ) (fiemap_bytes : ℕ) (st : Loop S)
    → Accounted g0 st.globals st.open_files
    → (ret ≡ pos 0) ⊎ (ret ≡ enomem)
    → EndsWell g0 (at_out rb ret fiemap_bytes st)
unfolding at_out all_closed
at_out-ClosesFiles rb g0 ret fiemap_bytes st v result =
    let (g, root, run, v', no_files) = close_list-Accounted rb g0 st.globals st.open_files v in
    bound _ (g, root) (all_closed ret fiemap_bytes st) run
      (
        record {
          globals = g;
          session = st.session;
          fiemap_bytes = fiemap_bytes;
          kern_bytes = st.kern_bytes;
          ret = ret;
        },
        rw (all_closed, no_files) refl,
        record {
          tidy = v'.held.tidy;
          same_refs = λ a.
              let none_left = no_tokens root no_files a in let now = v'.account a in omega arith;
          result = result;
        },
      )

finish-ClosesFiles :
    {S : Type 0} (rb : Rbtree Token) (post : Extent → PostAnswers) (g0 : Globals)
    (dext : DupeExtents) (shared_prev fiemap_bytes : ℕ) (l : Left S)
    → FewRefs g0
    → 0 < dext.de_len
    → All (CanCount post dext.de_len) dext.de_extents
    → LeftReady g0 l
    → EndsWell g0 (finish rb post dext shared_prev fiemap_bytes l)
unfolding finish shared_counted at_out all_closed
finish-ClosesFiles rb post g0 dext shared_prev fiemap_bytes (out ret st) few some_len can
      (v, no_mem) =
    at_out-ClosesFiles rb g0 ret fiemap_bytes st v (inr no_mem)
finish-ClosesFiles rb post g0 dext shared_prev fiemap_bytes (behind st) few some_len can
      (v, closed) =
    let left = no_tokens st.open_files closed.no_files in
    let tame : IsTame st.globals = record {
      tidy = v.held.tidy;
      few = λ a. let none_left = left a in let now = v.account a in let room = few a in omega arith;
    } in
    let (g, shared, run, tidy, same) =
      add_shared_extents_post-KeepsRefs post st.globals dext 0 some_len can tame in
    rw (finish, closed.no_ctxt, closed.no_files)
      (bound _ (g, shared) (shared_counted rb shared_prev fiemap_bytes st) run
        (at_out-ClosesFiles rb g0 (pos 0) (newly_shared fiemap_bytes shared_prev shared)
          (record st { globals = g })
          (record {
            held = record {
              sorted = v.held.sorted;
              tidy = tidy;
              covered = λ a. let none_left = left a in omega arith;
            };
            account = λ a. same a ∙ v.account a;
          })
          (inl refl)))

-- A record of two extents or more of `de_len` bytes, which is not 0, is deduped behind clean_deduped with an
-- engine that returns for each context of this length with a request. No extent ends at 2^64 or above, there is
-- memory to look at each afterwards, and the file of the last one opens. A file has a descriptor exactly
-- while it is referred to, with room for two more references. Then, whatever open(2), the allocator and
-- the file system answer otherwise, the call returns 0 or ENOMEM without an abort, and leaves every
-- file with as many references as it had, and a descriptor exactly while there are any.
pub dedupe_cleaned-ClosesFiles :
    {S : Type 0} (rb : Rbtree Token) (dedupe : (ℕ → ℤ) → S → DedupeCtxt → Outcome (S × ℕ))
    (answers : Extent → Answers) (post : Extent → PostAnswers) (g : Globals) (s : S)
    (dext : DupeExtents) (fiemap_bytes kern_bytes : ℕ) (Sound : S → Type 0)
    → Sound s
    → Engages Sound dext.de_len dedupe
    → 1 < dext.de_num_dupes
    → dext.de_extents ≢ []
    → 0 < dext.de_len
    → All (CanCount post dext.de_len) dext.de_extents
    → LastOpens answers dext.de_extents
    → ((a : ℕ) → IsTidy (g.memory a))
    → FewRefs g
    → EndsWell g (dedupe_cleaned rb dedupe answers post g s dext fiemap_bytes kern_bytes)
unfolding dedupe_cleaned
dedupe_cleaned-ClosesFiles rb dedupe answers post g s dext fiemap_bytes kern_bytes Sound sound
      returns enough some_extents some_len can opens tidy few =
    let start : Loop _ = record {
      globals = g;
      open_files = leaf;
      ctxt = none;
      tgt_extent = none;
      session = s;
      kern_bytes = kern_bytes;
    } in
    let ready : IsReady g Sound dext.de_len start = record {
      files = (
        record {
          held = record { sorted = tt; tidy = tidy; covered = λ a. omega arith };
          account = λ a. omega arith;
        },
        sound,
      );
      filling = tt;
      no_target = λ q. (refl, refl);
    } in
    let (l, run, left) =
      extent_loop-Leaves rb dedupe dext.de_num_dupes dext.de_len g Sound few enough returns answers
        dext.de_extents start ready (λ q. absurd (some_extents q))
        (can_words post dext.de_len dext.de_extents can) opens in
    bound _ l (finish rb post dext (add_shared_extents dext 0) fiemap_bytes) run (
      finish-ClosesFiles rb post g dext (add_shared_extents dext 0) fiemap_bytes l few some_len can
        left)
