-- ===== src/RunDedupe/Post.antt =====
-- The count of shared bytes after a dedupe gives back every reference.
use duperemove.Prelude.{
  ℕ, ◌+◌, ◌^◌, ◌<◌, ◌≡◌, refl, ap, ◌∙◌, Bool, true, false, Option, none, some, List, [], ◌∷◌, All,
  arith, leb, inl, inr,
}
use duperemove.Prelude.Word.{add64}
use duperemove.Prelude.Outcome.{Outcome, done, bind-done}
use duperemove.Filerec.{Globals, drop_ref}
use duperemove.Filerec.Open.{
  refs, same_file, IsTidy, filerec_open-Opens, filerec_close_lem, drop_ref-IsTidy, drop_ref-refs,
}
use duperemove.Fiemap.{FiemapExtent, fiemap_count_shared, do_fiemap, counted}
use duperemove.Results.{Extent, DupeExtents}
use duperemove.RunDedupe.{
  PostAnswers, stored, post_counted, post_opened, post_loop, add_shared_extents_post,
}

-- Every file has a descriptor exactly while it is referred to, and room for another reference.
pub record IsTame (g : Globals) : Type 0 where
  pub tidy : (a : ℕ) → IsTidy (g.memory a)
  pub few : (a : ℕ) → refs g a + 1 < 2 ^ 32

-- The result of a call that keeps the references.
abbrev pub KeepsRefs : Globals → Outcome (Globals × ℕ) → Type 0
KeepsRefs g r =
    (g' : Globals) × (shared : ℕ) × (r ≡ done (g', shared))
    × ((a : ℕ) → IsTidy (g'.memory a))
    × ((a : ℕ) → refs g' a ≡ refs g a)

-- The extent is not empty and ends below 2 ^ 64, and there is memory to look at it.
abbrev pub CanCount : (Extent → PostAnswers) → ℕ → Extent → Type 0
CanCount answers len e = (e.e_loff + len < 2 ^ 64) × ((answers e).mem ≡ true)

counts :
    (mem : Bool) (answer : Option (List FiemapExtent)) (loff len : ℕ)
    → 0 < len
    → loff + len < 2 ^ 64
    → mem ≡ true
    → fiemap_count_shared mem answer loff (add64 loff len)
      ≡ done (counted loff (add64 loff len) answer)
unfolding fiemap_count_shared do_fiemap
counts mem answer loff len some_len word has_mem =
    let ends : leb (add64 loff len) loff ≡ false = ground arith in
    rw (fiemap_count_shared, do_fiemap, ends, has_mem) refl

kept :
    (g g' : Globals) (r r' : Outcome (Globals × ℕ))
    → r ≡ r'
    → ((a : ℕ) → refs g' a ≡ refs g a)
    → KeepsRefs g' r'
    → KeepsRefs g r
kept g g' r r' e same (h, shared, run, tidy, account) =
    (h, shared, e ∙ run, tidy, λ a. account a ∙ same a)

-- What an extent whose file is open leaves.
counted-KeepsRefs :
    (again : ℕ → Globals → ℕ → Outcome (Globals × ℕ)) (g : Globals) (e : Extent) (bytes shared : ℕ)
    (found : Option ℕ)
    → 0 < refs g e.e_file
    → refs g e.e_file < 2 ^ 32
    → ((a : ℕ) → IsTidy (g.memory a))
    → ((n : ℕ) (shared' : ℕ)
        → KeepsRefs (drop_ref g e.e_file) (again n (drop_ref g e.e_file) shared'))
    → KeepsRefs (drop_ref g e.e_file) (post_counted again g e bytes shared found)
unfolding post_counted stored
counted-KeepsRefs again g e bytes shared none used few tidy h =
    rw (post_counted, filerec_close_lem g e.e_file tidy used)
      (
        drop_ref g e.e_file,
        add64 shared bytes,
        refl,
        drop_ref-IsTidy g e.e_file tidy used,
        λ a. refl,
      )
counted-KeepsRefs again g e bytes shared (some n) used few tidy h =
    rw (post_counted, filerec_close_lem g e.e_file tidy used) (h n (add64 shared n))

-- A file that was opened and closed has its references again.
opened_and_closed :
    (g g1 : Globals) (file : ℕ)
    → IsTame g
    → ((a : ℕ) → IsTidy (g1.memory a))
    → ((a : ℕ) → refs g1 a ≡ same_file file a + refs g a)
    → (0 < refs g1 file)
      × (refs g1 file < 2 ^ 32)
      × ((a : ℕ) → refs (drop_ref g1 file) a ≡ refs g a)
opened_and_closed g g1 file tame tidy risen =
    let one : same_file file file ≡ 1 = ground arith in
    let now = risen file in
    let room = tame.few file in
    let used : 0 < refs g1 file = omega arith in
    let word : refs g1 file < 2 ^ 32 = omega arith in
    (
      used,
      word,
      λ a. let back = drop_ref-refs g1 file used word a in let up = risen a in omega arith,
    )

post_loop-KeepsRefs :
    (answers : Extent → PostAnswers) (len : ℕ) (es : List Extent) (bytes : ℕ) (g : Globals)
    (shared : ℕ)
    → 0 < len
    → All (CanCount answers len) es
    → IsTame g
    → KeepsRefs g (post_loop answers len es bytes g shared)
unfolding post_loop post_opened
post_loop-KeepsRefs answers len [] bytes g shared some_len can tame =
    (g, shared, refl, tame.tidy, λ a. refl)
post_loop-KeepsRefs answers len (e ∷ es) bytes g shared some_len can tame =
    let a = answers e in
    let again = post_loop answers len es in
    let (g1, ret, run, o) = filerec_open-Opens a.opened g e.e_file tame.tidy (tame.few e.e_file) in
    let opened = bind-done _ (g1, ret) (post_opened again a len e bytes shared) run in
    elim o.outcome [
      | inl (good, risen) ↦
          let (used, word, same) = opened_and_closed g g1 e.e_file tame o.tidy risen in
          let tidy = drop_ref-IsTidy g1 e.e_file o.tidy used in
          let tame' : IsTame (drop_ref g1 e.e_file) = record {
            tidy = tidy;
            few = λ b. let now = same b in let room = tame.few b in omega arith;
          } in
          let found = counted e.e_loff (add64 e.e_loff len) a.fiemap in
          let step : post_opened again a len e bytes shared (g1, ret)
              ≡ post_counted again g1 e bytes shared found =
            rw (post_opened, good)
              (bind-done _ found (post_counted again g1 e bytes shared)
                (counts a.mem a.fiemap e.e_loff len some_len can.0.0 can.0.1)) in
          kept g (drop_ref g1 e.e_file) _ _ (opened ∙ step) same (
            counted-KeepsRefs again g1 e bytes shared found used word o.tidy (λ n shared'.
              post_loop-KeepsRefs answers len es n (drop_ref g1 e.e_file) shared' some_len can.1
                tame'))
      | inr (bad, same) ↦
          kept g g1 _ _ (opened ∙ rw (post_opened, bad) refl) (λ b. ap (λ h. refs h b) same)
            (g1, shared, refl, o.tidy, λ b. refl)
    ]

-- When no extent is empty or ends at 2^64 or above, there is memory for the requests, and every file has a
-- descriptor exactly while it is referred to and room for another reference,
-- `add_shared_extents_post` returns, whatever open(2) and the file system answer, and every file has
-- as many references as before.
pub add_shared_extents_post-KeepsRefs :
    (answers : Extent → PostAnswers) (g : Globals) (dext : DupeExtents) (shared : ℕ)
    → 0 < dext.de_len
    → All (CanCount answers dext.de_len) dext.de_extents
    → IsTame g
    → KeepsRefs g (add_shared_extents_post answers g dext shared)
unfolding add_shared_extents_post
add_shared_extents_post-KeepsRefs answers g dext shared some_len can tame =
    post_loop-KeepsRefs answers dext.de_len dext.de_extents 0 g shared some_len can tame
