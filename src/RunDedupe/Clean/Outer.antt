-- ===== src/RunDedupe/Clean/Outer.antt =====
-- The outer loop of clean_deduped, and the whole of it.
use duperemove.Prelude.{
  ℕ, zero, suc, ◌+◌, ◌≤◌, ◌≡◌, refl, ap, ◌∙◌, Bool, true, false, ◌||◌, none, some, List, [], ◌∷◌,
  ◌++◌, arith, ◌==◌, length, Bool-cases, inl, inr, if◌then◌else◌,
}
use mathlib.Core.Path.{sym, subst}
use duperemove.Prelude.Order.{pair_order}
use duperemove.Prelude.Outcome.{Outcome, done, bind-done}
use duperemove.SearchTree.{in_order}
use duperemove.SearchTree.Sorted.{Sorted}
use duperemove.SearchTree.Bag.{total, total-append}
use duperemove.Results.{Extent, DupeExtents, ResultsTree, Trees, place}
use duperemove.RunDedupe.{disk_extent_grew}
use duperemove.RunDedupe.Clean.{
  Cleaned, Walk, returned, walks, nodes_behind, next_outer, count_first, outer_loop, clean_deduped,
}
use duperemove.RunDedupe.Clean.Places.{middle, move, nothing_behind}
use duperemove.RunDedupe.Clean.Trims.{
  stays, Stands, Trims, Frees, untouched, Trims-trans, Trims-Frees,
}
use duperemove.RunDedupe.Clean.Inner.{valid_record, NoneKept, Walked, inner_loop-Walks}

abbrev pub CleanedWell : DupeExtents → ResultsTree → Cleaned → Type 0
CleanedWell p res (res', none) = Frees p res res'
CleanedWell p res (res', some p') = Trims p res p' res'

abbrev pub Cleans : DupeExtents → ResultsTree → Outcome Cleaned → Type 0
Cleans p res r = (c : Cleaned) × (r ≡ done c) × CleanedWell p res c

abbrev NoneSeen : Bool → DupeExtents → List Extent → ℕ → Type 0
NoneSeen first p nodes kept =
    kept ≡ 0
    → total (stays p.de_len) p.de_extents ≡ (if first then total (stays p.de_len) nodes else 0)

later :
    (p : DupeExtents) (res : ResultsTree) (p1 : DupeExtents) (res1 : ResultsTree) (c : Cleaned)
    → Trims p res p1 res1
    → CleanedWell p1 res1 c
    → CleanedWell p res c
later p res p1 res1 (res', none) t w = Trims-Frees p res p1 res1 res' t w
later p res p1 res1 (res', some p') t w = Trims-trans p res p1 res1 p' res' t w

stays_for :
    (p : DupeExtents) (e : Extent) (b : Bool)
    → (e.e_poff == 0 || disk_extent_grew p e) ≡ b
    → stays p.de_len e ≡ (if b then 1 else 0)
unfolding disk_extent_grew
stays_for p e b h = rw h refl

-- After the first extent was looked at.
counted-NoneKept :
    (first : Bool) (p : DupeExtents) (res : ResultsTree) (pre : List Extent) (outer : Extent)
    (xs : List Extent) (kept : ℕ)
    → Stands p res
    → in_order p.de_extents_root ≡ pre ++ outer ∷ xs
    → NoneSeen first p (outer ∷ xs) kept
    → NoneKept p xs (count_first first p outer kept)
unfolding count_first
counted-NoneKept true p res pre outer xs kept h nodes none_seen =
    elim (Bool-cases (outer.e_poff == 0 || disk_extent_grew p outer)) [
      | inl stay ↦ rw (count_first, stay) (λ e. absurd (omega arith))
      | inr go ↦
          rw (count_first, go)
            (λ e.
              let seen = none_seen e in
              let no : stays p.de_len outer ≡ 0 = stays_for p outer false go in
              omega (arith, seen, no))
    ]
counted-NoneKept false p res pre outer xs kept h nodes none_seen = λ e.
    let v = valid_record p res h in
    let nothing = none_seen e in
    let same = v.same_extents (stays p.de_len) in
    let all : total (stays p.de_len) (in_order p.de_extents_root)
        ≡ total (stays p.de_len) pre + total (stays p.de_len) (outer ∷ xs) =
      ap (total (stays p.de_len)) nodes ∙ total-append (stays p.de_len) pre (outer ∷ xs) in
    omega (arith, nothing, same, all)

-- The rest of the outer loop behind a walk of the inner one.
next_outer-Cleans :
    (again : List Extent → ResultsTree → DupeExtents → ℕ → Outcome Cleaned) (pre : List Extent)
    (outer : Extent) (limit : ℕ) (res : ResultsTree) (p : DupeExtents) (w : Walk)
    → Walked p res pre outer limit w
    → ((nodes : List Extent) (res' : ResultsTree) (p' : DupeExtents) (kept : ℕ)
        → Stands p' res'
        → in_order p'.de_extents_root ≡ (pre ++ outer ∷ []) ++ nodes
        → length nodes ≤ limit
        → NoneSeen false p' nodes kept
        → Cleans p' res' (again nodes res' p' kept))
    → Cleans p res (next_outer again outer w)
unfolding next_outer
next_outer-Cleans again pre outer limit res p (returned res' none) walked h =
    ((res', none), refl, walked)
next_outer-Cleans again pre outer limit res p (returned res' (some p')) walked h =
    ((res', some p'), refl, walked)
next_outer-Cleans again pre outer limit res p (walks res' p' kept) (t, mid, nodes, short, none_kept)
      h =
    let v = valid_record p' res' t.stands in
    let form : in_order p'.de_extents_root ≡ pre ++ outer ∷ mid =
      nodes ∙ nothing_behind (pre ++ outer ∷ mid) in
    let m = middle pre outer mid (subst (Sorted pair_order place) form v.sorted) in
    let behind_it : nodes_behind outer p' ≡ mid = rw form m.behind_it in
    let (c, run, well) =
      h mid res' p' kept t.stands (form ∙ sym (move pre outer mid)) short none_kept in
    (c, ap (λ ns. again ns res' p' kept) behind_it ∙ run, later p res p' res' c t well)

outer_loop-Cleans :
    (rb : Trees) (fuel : ℕ) (first : Bool) (pre nodes : List Extent) (res : ResultsTree)
    (p : DupeExtents) (kept : ℕ)
    → Stands p res
    → in_order p.de_extents_root ≡ pre ++ nodes
    → length nodes ≤ fuel
    → NoneSeen first p nodes kept
    → Cleans p res (outer_loop rb fuel first nodes res p kept)
unfolding outer_loop
outer_loop-Cleans rb zero first pre [] res p kept h form enough none_seen =
    ((res, some p), refl, untouched p res h)
outer_loop-Cleans rb (suc fuel) first pre [] res p kept h form enough none_seen =
    ((res, some p), refl, untouched p res h)
outer_loop-Cleans rb zero first pre (outer ∷ xs) res p kept h form enough none_seen =
    absurd (omega arith)
outer_loop-Cleans rb (suc fuel) first pre (outer ∷ xs) res p kept h form enough none_seen =
    let (w, run, walked) =
      inner_loop-Walks rb pre outer [] xs res p (count_first first p outer kept) h
        (form ∙ sym (move pre outer xs))
        (counted-NoneKept first p res pre outer xs kept h form none_seen) in
    let again = outer_loop rb fuel false in
    let (c, run', well) =
      next_outer-Cleans again pre outer (0 + length xs) res p w walked
        (λ nodes res' p' kept' h' form' short none_seen'.
          outer_loop-Cleans rb fuel false (pre ++ outer ∷ []) nodes res' p' kept' h' form'
            (omega arith) none_seen') in
    (c, bind-done _ w (next_outer again outer) run ∙ run', well)

-- On a record of at least two extents in a valid tree clean_deduped returns. Either the record is freed with
-- all its extents, none of which had an unknown place on disk or was shorter there than the
-- record's length; or at least two extents stay, those with an unknown place or a shorter one
-- among them, and for each place where extents lay one stays. The tree is valid and counts what is left.
pub clean_deduped-Cleans :
    (rb : Trees) (res : ResultsTree) (p : DupeExtents)
    → Stands p res
    → Cleans p res (clean_deduped rb res p)
unfolding clean_deduped
clean_deduped-Cleans rb res p h =
    let v = valid_record p res h in
    let two = h.two in
    let word = h.word in
    let counted = v.counted in
    let some_dupes : (p.de_num_dupes == 0) ≡ false = ground arith in
    rw some_dupes (
      outer_loop-Cleans rb (length (in_order p.de_extents_root)) true []
        (in_order p.de_extents_root) res p 0 h refl (omega arith)
        (λ e. sym (v.same_extents (stays p.de_len))))
