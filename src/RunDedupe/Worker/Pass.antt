-- ===== src/RunDedupe/Worker/Pass.antt =====
-- The whole of dedupe_extent_list.
use duperemove.Prelude.{
  ℕ, ◌^◌, ◌<◌, ◌≤◌, ◌≡◌, ◌≢◌, ◌⊎◌, refl, ap, ◌∙◌, false, none, some, List, [], ◌∷◌, All, arith, ltb,
  Bool-cases, inl, inr, if◌then◌else◌, length,
}
use mathlib.Core.Path.{sym, subst}
use duperemove.Prelude.Int.{pos, enomem}
use duperemove.Prelude.Outcome.{done, bind-done}
use duperemove.SearchTree.Bag.{total}
use duperemove.Filerec.{Globals}
use duperemove.Filerec.Open.{refs, IsTidy}
use duperemove.Results.{Extent, DupeExtents, ResultsTree}
use duperemove.Results.Valid.{extents_of}
use duperemove.Results.Remove.Drop.{same_extent, same_extent_iff}
use duperemove.Dedupe.Engine.Finish.{Complies}
use duperemove.RunDedupe.Ready.{FewRefs, Engages}
use duperemove.RunDedupe.Requests.{Session, run_requests}
use duperemove.RunDedupe.Requests.Engage.{IsSound, run_requests-Engages}
use duperemove.RunDedupe.Post.{CanCount}
use duperemove.RunDedupe.Whole.{LastOpens, dedupe_cleaned-ClosesFiles}
use duperemove.RunDedupe.Clean.{Cleaned, clean_deduped}
use duperemove.RunDedupe.Clean.Trims.{Stands, Trims, Frees, len_of}
use duperemove.RunDedupe.Clean.Inner.{valid_record}
use duperemove.RunDedupe.Clean.Outer.{CleanedWell, clean_deduped-Cleans}
use duperemove.RunDedupe.Worker.{
  World, Passed, passed, behind_clean, dedupe_extents_cleaned, dedupe_extent_list,
}

abbrev is_this : Extent → Extent → ℕ
is_this e x = if same_extent x e then 1 else 0

of_bag :
    (P : Extent → Type 0) (e : Extent) (es : List Extent)
    → All P es
    → 0 < total (is_this e) es
    → P e
of_bag P e [] h there = absurd (omega (arith, there))
of_bag P e (x ∷ xs) h there = elim (Bool-cases (same_extent x e)) [
  | inl it ↦ subst P ((same_extent_iff x e).0 it) h.0
  | inr other ↦
      let not_here : is_this e x ≡ 0 = rw other refl in
      of_bag P e xs h.1 (omega (arith, there, not_here))
]

-- What holds of a bag of extents holds of a part of it.
All-within :
    (P : Extent → Type 0) (es es' : List Extent)
    → ((f : Extent → ℕ) → total f es' ≤ total f es)
    → All P es
    → All P es'
All-within P es [] part h = tt
All-within P es (e ∷ es') part h =
    let here : is_this e e ≡ 1 = rw ((same_extent_iff e e).1 refl) refl in
    let one = part (is_this e) in
    (
      of_bag P e es h (omega (arith, here, one)),
      All-within P es es' (λ f. let all = part f in omega arith) h,
    )

not_empty : (p : DupeExtents) → 2 ≤ extents_of p → p.de_extents ≢ []
not_empty p two e = let none_there = ap length e in absurd (omega arith)

-- What the system answers for a record.
pub record Serves {W : Type 0} (w : World W) (g : Globals) (s : Session W) (res : ResultsTree)
    (p : DupeExtents) : Type 0 where
  pub limit : ℕ
  pub complies : Complies w.kernel limit
  pub block : IsSound s
  pub some_len : 0 < p.de_len
  pub word : p.de_len < 2 ^ 32
  pub can_count : All (CanCount w.post p.de_len) p.de_extents
  pub last_opens :
      (res' : ResultsTree) (p' : DupeExtents)
      → clean_deduped w.trees res p ≡ done (res', some p')
      → LastOpens w.answers p'.de_extents
  pub tidy : (a : ℕ) → IsTidy (g.memory a)
  pub few : FewRefs g

-- The record is freed because nothing of it is left to dedupe, or it is deduped.
pub record Passes {S : Type 0} (g : Globals) (res : ResultsTree) (p : DupeExtents) (r : Passed S)
    : Type 0 where
  pub tidy : (a : ℕ) → IsTidy (r.deduped.globals.memory a)
  pub same_refs : (a : ℕ) → refs r.deduped.globals a ≡ refs g a
  pub outcome :
      ((r.deduped.ret ≡ dedupe_extents_cleaned) × (r.left ≡ none) × Frees p res r.res)
      ⊎ ((p' : DupeExtents) × (r.left ≡ some p')
          × Trims p res p' r.res
          × ((r.deduped.ret ≡ pos 0) ⊎ (r.deduped.ret ≡ enomem)))

behind_clean-Passes :
    {W : Type 0} (w : World W) (g : Globals) (s : Session W) (res : ResultsTree) (p : DupeExtents)
    (fiemap_bytes kern_bytes : ℕ) (c : Cleaned)
    → Stands p res
    → Serves w g s res p
    → clean_deduped w.trees res p ≡ done c
    → CleanedWell p res c
    → (r : Passed (Session W)) × (behind_clean w g s fiemap_bytes kern_bytes c ≡ done r)
      × Passes g res p r
unfolding behind_clean passed
behind_clean-Passes w g s res p fiemap_bytes kern_bytes (res', none) h serves run well = (
  _,
  refl,
  record { tidy = serves.tidy; same_refs = λ a. refl; outcome = inl (refl, refl, well) },
)
behind_clean-Passes w g s res p fiemap_bytes kern_bytes (res', some p') h serves run t =
    let two = t.stands.two in
    let word = t.stands.word in
    let counted = (valid_record p' res' t.stands).counted in
    let len = len_of p p' t.same_content in
    let can =
      subst (λ n. All (CanCount w.post n) p'.de_extents) (sym len)
        (All-within (CanCount w.post p.de_len) p.de_extents p'.de_extents t.within
          serves.can_count) in
    let (d, run', closes) =
      dedupe_cleaned-ClosesFiles w.tokens (run_requests w.kernel) w.answers w.post g s p'
        fiemap_bytes kern_bytes IsSound serves.block
        (subst (λ n. Engages IsSound n (run_requests w.kernel)) (sym len)
          (run_requests-Engages w.kernel serves.limit p.de_len serves.complies serves.some_len
            serves.word))
        (omega arith) (not_empty p' two) (subst (λ n. 0 < n) (sym len) serves.some_len) can
        (serves.last_opens res' p' run) serves.tidy serves.few in
    (
      record { res = res'; left = some p'; deduped = d },
      bind-done _ d (passed w res' p') run',
      record {
        tidy = closes.tidy;
        same_refs = closes.same_refs;
        outcome = inr (p', refl, t, closes.result);
      },
    )

-- On a record of at least two extents in a valid tree, dedupe_extent_list returns when: the kernel
-- complies, and the block size is not known or one of a file system; the record's length is neither
-- 0 nor 4 GiB or more; no extent ends at 2^64 or above; there is memory to
-- look at each extent afterwards; the last extent that clean_deduped leaves opens; and each file has a
-- descriptor exactly while it is referred to, with room for two more references. Every file then
-- has its references as before, and a descriptor exactly while there are any. Either the result
-- is DEDUPE_EXTENTS_CLEANED and the record is freed with its extents, or it is 0 or ENOMEM and
-- the record keeps at least two extents, with those that clean_deduped is to keep.
pub dedupe_extent_list-Passes :
    {W : Type 0} (w : World W) (g : Globals) (s : Session W) (res : ResultsTree) (p : DupeExtents)
    (fiemap_bytes kern_bytes : ℕ)
    → Stands p res
    → Serves w g s res p
    → (r : Passed (Session W)) × (dedupe_extent_list w g s res p fiemap_bytes kern_bytes ≡ done r)
      × Passes g res p r
unfolding dedupe_extent_list
dedupe_extent_list-Passes w g s res p fiemap_bytes kern_bytes h serves =
    let two = h.two in
    let word = h.word in
    let counted = (valid_record p res h).counted in
    let many : ltb p.de_num_dupes 2 ≡ false = ground arith in
    let (c, run, well) = clean_deduped-Cleans w.trees res p h in
    let (r, run', passes) =
      behind_clean-Passes w g s res p fiemap_bytes kern_bytes c h serves run well in
    (r, rw many (bind-done _ c (behind_clean w g s fiemap_bytes kern_bytes) run ∙ run'), passes)
