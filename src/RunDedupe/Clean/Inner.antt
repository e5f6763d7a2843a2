-- ===== src/RunDedupe/Clean/Inner.antt =====
-- The inner loop of clean_deduped.
use duperemove.Prelude.{
  ℕ, ◌+◌, ◌≤◌, ◌≡◌, refl, ap, ◌∙◌, true, false, not, ◌&&◌, none, some, List, [], ◌∷◌, ◌++◌, arith,
  ◌==◌, length, length-append, nil_of_length, Bool-cases, inl, inr,
}
use mathlib.Core.Path.{sym, subst}
use duperemove.Prelude.Order.{pair_order}
use duperemove.Prelude.Outcome.{Outcome, done, ◌>>=◌, bind-done}
use duperemove.SearchTree.{in_order}
use duperemove.SearchTree.Sorted.{Sorted, find-lookup}
use duperemove.SearchTree.Bag.{total, total-one, total-append}
use duperemove.SearchTree.Replace.{All-lookup}
use duperemove.Results.{Extent, DupeExtents, ResultsTree, Trees, place, content}
use duperemove.Results.Valid.{DextValid, extents_of, extent_at}
use duperemove.Results.Remove.{Removal, remove_extent}
use duperemove.Results.Remove.Removed.{Kept, Freed, remove_extent-Removes}
use duperemove.RunDedupe.Clean.{Walk, returned, walks, removed, is_deduped, inner_loop}
use duperemove.RunDedupe.Clean.Places.{middle, move, append_within}
use duperemove.RunDedupe.Clean.Trims.{
  stays, Stands, Trims, Frees, untouched, Trims-trans, Trims-Frees, Kept-Trims, is_deduped-stays,
  len_of,
}

pub valid_record : (p : DupeExtents) (res : ResultsTree) → Stands p res → DextValid p
valid_record p res h =
    All-lookup pair_order content DextValid (in_order res.root) (content p) p h.valid.dupes
      (sym (find-lookup pair_order content res.root (content p) h.valid.sorted) ∙ h.here)

abbrev pub before : List Extent → Extent → List Extent → List Extent
before pre outer mid = pre ++ outer ∷ mid

-- The nodes of a record, up to where the inner walk is, and behind.
abbrev pub Nodes : DupeExtents → List Extent → Extent → List Extent → List Extent → Type 0
Nodes p pre outer mid rest = in_order p.de_extents_root ≡ before pre outer mid ++ rest

-- Until an extent is kept, those that stay lie ahead.
abbrev pub NoneKept : DupeExtents → List Extent → ℕ → Type 0
NoneKept p rest kept = kept ≡ 0 → total (stays p.de_len) p.de_extents ≡ total (stays p.de_len) rest

abbrev pub Walked : DupeExtents → ResultsTree → List Extent → Extent → ℕ → Walk → Type 0
Walked p res pre outer limit (returned res' none) = Frees p res res'
Walked p res pre outer limit (returned res' (some p')) = Trims p res p' res'
Walked p res pre outer limit (walks res' p' kept) =
    Trims p res p' res'
    × (mid : List Extent) × Nodes p' pre outer mid []
    × (length mid ≤ limit)
    × NoneKept p' [] kept

abbrev pub Walks : DupeExtents → ResultsTree → List Extent → Extent → ℕ → Outcome Walk → Type 0
Walks p res pre outer limit r = (w : Walk) × (r ≡ done w) × Walked p res pre outer limit w

later :
    (p : DupeExtents) (res : ResultsTree) (p1 : DupeExtents) (res1 : ResultsTree)
    (pre : List Extent) (outer : Extent) (limit limit' : ℕ) (w : Walk)
    → Trims p res p1 res1
    → limit ≤ limit'
    → Walked p1 res1 pre outer limit w
    → Walked p res pre outer limit' w
later p res p1 res1 pre outer limit limit' (returned res' none) t le w =
    Trims-Frees p res p1 res1 res' t w
later p res p1 res1 pre outer limit limit' (returned res' (some p')) t le w =
    Trims-trans p res p1 res1 p' res' t w
later p res p1 res1 pre outer limit limit' (walks res' p' kept) t le
      (t', mid, nodes, short, none_kept) =
    (Trims-trans p res p1 res1 p' res' t t', mid, nodes, omega arith, none_kept)

-- The bag of a record is that of what is before and behind.
pub split :
    (p : DupeExtents) (pre : List Extent) (outer : Extent) (mid rest : List Extent) (f : Extent → ℕ)
    → DextValid p
    → Nodes p pre outer mid rest
    → total f p.de_extents ≡ total f (before pre outer mid) + total f rest
split p pre outer mid rest f v nodes =
    sym (v.same_extents f) ∙ ap (total f) nodes ∙ total-append f (before pre outer mid) rest

outer_counts :
    (pre : List Extent) (outer : Extent) (mid : List Extent) (f : Extent → ℕ)
    → f outer ≤ total f (before pre outer mid)
outer_counts pre outer mid f = let all = total-append f pre (outer ∷ mid) in omega arith

-- The record without the extent at the walk.
taken-Nodes :
    (p p' : DupeExtents) (res : ResultsTree) (pre : List Extent) (outer : Extent)
    (mid : List Extent) (x : Extent) (xs : List Extent) (r : Removal)
    → DextValid p
    → Nodes p pre outer mid (x ∷ xs)
    → Kept x p p' res r
    → Nodes p' pre outer mid xs
taken-Nodes p p' res pre outer mid x xs r v nodes k =
    let m = middle (before pre outer mid) x xs (subst (Sorted pair_order place) nodes v.sorted) in
    k.drops.nodes ∙ rw nodes m.taken

-- The last two extents, none of which was kept, are freed.
last_two-Frees :
    (p : DupeExtents) (res : ResultsTree) (pre : List Extent) (outer : Extent) (mid : List Extent)
    (x : Extent) (xs : List Extent) (kept : ℕ) (r : Removal)
    → Stands p res
    → Nodes p pre outer mid (x ∷ xs)
    → NoneKept p (x ∷ xs) kept
    → (p.de_num_dupes == 2 && not (kept == 0)) ≡ false
    → is_deduped p outer x ≡ true
    → extents_of p ≤ 2
    → Freed p res r
    → Frees p res r.res
last_two-Frees p res pre outer mid x xs kept r h nodes none_kept go e few f =
    let v = valid_record p res h in
    let counted = v.counted in
    let two = h.two in
    let many : p.de_num_dupes ≡ 2 = omega arith in
    let zero_kept : kept ≡ 0 = ground arith in
    let all = split p pre outer mid (x ∷ xs) (λ y. 1) v nodes in
    let one = outer_counts pre outer mid (λ y. 1) in
    let number = total-one p.de_extents in
    let rest = total-one xs in
    let no_more : xs ≡ [] = nil_of_length xs (omega arith) in
    let gone = (is_deduped-stays p outer x e).0 in
    record {
      valid = f.valid;
      absent = f.absent;
      none_stays =
          none_kept zero_kept
          ∙ let nothing : total (stays p.de_len) xs ≡ 0 = ap (total (stays p.de_len)) no_more in
            omega (arith, gone, nothing);
      bag = f.bag;
      others = f.others;
    }

removed-none :
    (again : ResultsTree → DupeExtents → Outcome Walk) (r : Removal)
    → r.result ≡ 0
    → removed again r ≡ done (returned r.res none)
unfolding removed
removed-none again r e = rw (removed, e) refl

removed-some :
    (again : ResultsTree → DupeExtents → Outcome Walk) (r : Removal) (p : DupeExtents)
    → 2 ≤ r.result
    → r.left ≡ some p
    → removed again r ≡ again r.res p
unfolding removed
removed-some again r p some_left e =
    let goes : (r.result == 0) ≡ false = ground arith in rw (removed, goes) (rw e refl)

still-NoneKept :
    (p p' : DupeExtents) (res : ResultsTree) (outer x : Extent) (xs : List Extent) (kept : ℕ)
    (r : Removal)
    → is_deduped p outer x ≡ true
    → NoneKept p (x ∷ xs) kept
    → Kept x p p' res r
    → NoneKept p' xs kept
still-NoneKept p p' res outer x xs kept r e none_kept k zero_kept =
    let gone = k.drops.gone (stays p.de_len) in
    let nothing = (is_deduped-stays p outer x e).0 in
    let was = none_kept zero_kept in
    let now : total (stays p.de_len) p'.de_extents ≡ total (stays p.de_len) xs =
      omega (arith, gone, nothing, was) in
    subst (λ len. total (stays len) p'.de_extents ≡ total (stays len) xs)
      (sym (len_of p p' k.drops.same_content)) now

next-Nodes :
    (p : DupeExtents) (pre : List Extent) (outer : Extent) (mid : List Extent) (x : Extent)
    (xs : List Extent)
    → Nodes p pre outer mid (x ∷ xs)
    → Nodes p pre outer (mid ++ x ∷ []) xs
next-Nodes p pre outer mid x xs nodes =
    let inside : before pre outer mid ++ x ∷ [] ≡ before pre outer (mid ++ x ∷ []) =
      append_within pre outer mid (x ∷ []) in
    subst (λ ys. in_order p.de_extents_root ≡ ys ++ xs) inside
      (nodes ∙ sym (move (before pre outer mid) x xs))

-- The inner extent is removed.
removes-Walks :
    (rb : Trees) (pre : List Extent) (outer : Extent) (mid : List Extent) (x : Extent)
    (xs : List Extent) (res : ResultsTree) (p : DupeExtents) (kept : ℕ)
    → Stands p res
    → Nodes p pre outer mid (x ∷ xs)
    → NoneKept p (x ∷ xs) kept
    → (p.de_num_dupes == 2 && not (kept == 0)) ≡ false
    → is_deduped p outer x ≡ true
    → ((res' : ResultsTree) (p' : DupeExtents)
        → Stands p' res'
        → Nodes p' pre outer mid xs
        → NoneKept p' xs kept
        → Walks p' res' pre outer (length mid + length xs) (inner_loop rb outer xs res' p' kept))
    → Walks p res pre outer
        (length mid + length (x ∷ xs))
        (remove_extent rb res p x >>= removed (λ res' p'. inner_loop rb outer xs res' p' kept))
removes-Walks rb pre outer mid x xs res p kept h nodes none_kept go dup again =
    let v = valid_record p res h in
    let m = middle (before pre outer mid) x xs (subst (Sorted pair_order place) nodes v.sorted) in
    let found : extent_at p (place x) ≡ some x =
      find-lookup pair_order place p.de_extents_root (place x) v.sorted ∙ rw nodes m.found in
    let (r, run, shape) = remove_extent-Removes rb res p x h.valid h.here h.word found in
    let continue = λ (res' : ResultsTree) (p' : DupeExtents). inner_loop rb outer xs res' p' kept in
    let called = bind-done _ r (removed continue) run in
    elim shape [
      | inl (few, freed) ↦ (
        returned r.res none,
        called ∙ removed-none continue r freed.result,
        last_two-Frees p res pre outer mid x xs kept r h nodes none_kept go dup few freed,
      )
      | inr (more, p', k) ↦
          let nodes' = taken-Nodes p p' res pre outer mid x xs r v nodes k in
          let left : (f : Extent → ℕ) → f outer ≤ total f p'.de_extents = λ f.
            let all = split p' pre outer mid xs f k.drops.valid nodes' in
            let there = outer_counts pre outer mid f in omega arith in
          let t = Kept-Trims p res outer x p' r h more dup left k in
          let (w, run', walked) =
            again r.res p' t.stands nodes'
              (still-NoneKept p p' res outer x xs kept r dup none_kept k) in
          let two = t.stands.two in
          let many = k.result in
          (
            w,
            called ∙ removed-some continue r p' (omega arith) k.left ∙ run',
            later p res p' r.res pre outer (length mid + length xs) (length mid + length (x ∷ xs)) w
                t (omega arith) walked,
          )
    ]

pub inner_loop-Walks :
    (rb : Trees) (pre : List Extent) (outer : Extent) (mid rest : List Extent) (res : ResultsTree)
    (p : DupeExtents) (kept : ℕ)
    → Stands p res
    → Nodes p pre outer mid rest
    → NoneKept p rest kept
    → Walks p res pre outer (length mid + length rest) (inner_loop rb outer rest res p kept)
unfolding inner_loop
inner_loop-Walks rb pre outer mid [] res p kept h nodes none_kept =
    (walks res p kept, refl, (untouched p res h, mid, nodes, omega arith, none_kept))
inner_loop-Walks rb pre outer mid (x ∷ xs) res p kept h nodes none_kept =
    elim (Bool-cases (p.de_num_dupes == 2 && not (kept == 0))) [
      | inl stop ↦ (returned res (some p), rw (inner_loop, stop) refl, untouched p res h)
      | inr go ↦ elim (Bool-cases (is_deduped p outer x)) [
        | inl dup ↦
            let (w, run, walked) =
              removes-Walks rb pre outer mid x xs res p kept h nodes none_kept go dup
                (λ res' p'. inner_loop-Walks rb pre outer mid xs res' p' kept) in
            (w, rw (inner_loop, go, dup) run, walked)
        | inr stay ↦
            let (w, run, walked) =
              inner_loop-Walks rb pre outer (mid ++ x ∷ []) xs res p (kept + 1) h
                (next-Nodes p pre outer mid x xs nodes)
                (λ e. absurd (let no : kept + 1 ≡ 0 = e in omega arith)) in
            let longer = length-append mid (x ∷ []) in
            (
              w,
              rw (inner_loop, go, stay) run,
              later p res p res pre outer (length (mid ++ x ∷ []) + length xs)
                  (length mid + length (x ∷ xs)) w (untouched p res h) (omega arith) walked,
            )
      ]
    ]
