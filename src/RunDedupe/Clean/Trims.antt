-- ===== src/RunDedupe/Clean/Trims.antt =====
-- What clean_deduped does to a record: it is trimmed, or freed.
use duperemove.Prelude.{
  ℕ, ◌+◌, ◌^◌, ◌<◌, ◌≤◌, ◌≡◌, refl, ap, ◌∙◌, true, ◌||◌, none, some, List, All, arith, ltb, ◌==◌,
  if◌then◌else◌,
}
use mathlib.Core.Path.{sym, subst}
use duperemove.SearchTree.{in_order}
use duperemove.SearchTree.Bag.{total}
use duperemove.Results.{Extent, DupeExtents, ResultsTree, content}
use duperemove.Results.Valid.{IsValid, extents_of}
use duperemove.Results.Remove.{Removal}
use duperemove.Results.Remove.Removed.{extents_in, record_at, HasExtents, Kept}
use duperemove.RunDedupe.{disk_extent_grew}
use duperemove.RunDedupe.Clean.{is_deduped}

-- The extents whose place on disk is unknown, or that are shorter on disk than the record's length.
abbrev pub stays : ℕ → Extent → ℕ
stays len e = if e.e_poff == 0 || ltb e.e_plen len then 1 else 0

abbrev pub is_on : ℕ → Extent → ℕ
is_on poff e = if e.e_poff == poff then 1 else 0

-- A record of two extents or more in a valid tree.
pub record Stands (p : DupeExtents) (res : ResultsTree) : Type 0 where
  pub valid : IsValid res
  pub here : record_at res (content p) ≡ some p
  pub two : 2 ≤ extents_of p
  pub word : extents_of p < 2 ^ 32

pub record Trims (p : DupeExtents) (res : ResultsTree) (p' : DupeExtents) (res' : ResultsTree)
    : Type 0 where
  pub stands : Stands p' res'
  pub same_content : content p' ≡ content p
  pub fewer : extents_of p' ≤ extents_of p
  pub within : (f : Extent → ℕ) → total f p'.de_extents ≤ total f p.de_extents
  pub bag :
      (f : Extent → ℕ)
      → extents_in f res' + total f p.de_extents ≡ extents_in f res + total f p'.de_extents
  pub all_stay : total (stays p.de_len) p'.de_extents ≡ total (stays p.de_len) p.de_extents
  pub places :
      (poff : ℕ) → 0 < total (is_on poff) p.de_extents → 0 < total (is_on poff) p'.de_extents
  pub others : All HasExtents (in_order res.root) → All HasExtents (in_order res'.root)

pub record Frees (p : DupeExtents) (res : ResultsTree) (res' : ResultsTree) : Type 0 where
  pub valid : IsValid res'
  pub absent : record_at res' (content p) ≡ none
  pub none_stays : total (stays p.de_len) p.de_extents ≡ 0
  pub bag : (f : Extent → ℕ) → total f p.de_extents + extents_in f res' ≡ extents_in f res
  pub others : All HasExtents (in_order res.root) → All HasExtents (in_order res'.root)

pub untouched : (p : DupeExtents) (res : ResultsTree) → Stands p res → Trims p res p res
untouched p res h = record {
  stands = h;
  same_content = refl;
  fewer = omega arith;
  within = λ f. omega arith;
  bag = λ f. omega arith;
  all_stay = refl;
  places = λ poff there. there;
  others = λ h. h;
}

pub len_of : (p p' : DupeExtents) → content p' ≡ content p → p'.de_len ≡ p.de_len
len_of p p' e = ap (λ k. k.0) e

stays_of :
    (p p' : DupeExtents) (es : List Extent)
    → content p' ≡ content p
    → total (stays p'.de_len) es ≡ total (stays p.de_len) es
stays_of p p' es e = ap (λ len. total (stays len) es) (len_of p p' e)

pub Trims-trans :
    (p : DupeExtents) (res : ResultsTree) (p1 : DupeExtents) (res1 : ResultsTree) (p2 : DupeExtents)
    (res2 : ResultsTree)
    → Trims p res p1 res1
    → Trims p1 res1 p2 res2
    → Trims p res p2 res2
Trims-trans p res p1 res1 p2 res2 a b = record {
  stands = b.stands;
  same_content = b.same_content ∙ a.same_content;
  fewer = let x = a.fewer in let y = b.fewer in omega arith;
  within = λ f. let x = a.within f in let y = b.within f in omega arith;
  bag = λ f. let x = a.bag f in let y = b.bag f in omega arith;
  all_stay =
      sym (stays_of p p1 p2.de_extents a.same_content)
      ∙ b.all_stay
      ∙ stays_of p p1 p1.de_extents a.same_content
      ∙ a.all_stay;
  places = λ poff there. b.places poff (a.places poff there);
  others = λ h. b.others (a.others h);
}

pub Trims-Frees :
    (p : DupeExtents) (res : ResultsTree) (p1 : DupeExtents) (res1 res2 : ResultsTree)
    → Trims p res p1 res1
    → Frees p1 res1 res2
    → Frees p res res2
Trims-Frees p res p1 res1 res2 a b = record {
  valid = b.valid;
  absent = subst (λ k. record_at res2 k ≡ none) a.same_content b.absent;
  none_stays = sym a.all_stay ∙ sym (stays_of p p1 p1.de_extents a.same_content) ∙ b.none_stays;
  bag = λ f. let x = a.bag f in let y = b.bag f in omega arith;
  others = λ h. b.others (a.others h);
}

-- An extent that is removed lies where the outer one does, at a known place, and has not grown.
pub is_deduped-stays :
    (p : DupeExtents) (outer x : Extent)
    → is_deduped p outer x ≡ true
    → (stays p.de_len x ≡ 0) × (outer.e_poff ≡ x.e_poff)
unfolding is_deduped disk_extent_grew
is_deduped-stays p outer x e = (ground arith, ground arith)

-- The removal of such an extent, with the outer one left.
pub Kept-Trims :
    (p : DupeExtents) (res : ResultsTree) (outer x : Extent) (p' : DupeExtents) (r : Removal)
    → Stands p res
    → 2 < extents_of p
    → is_deduped p outer x ≡ true
    → ((f : Extent → ℕ) → f outer ≤ total f p'.de_extents)
    → Kept x p p' res r
    → Trims p res p' r.res
Kept-Trims p res outer x p' r h more e left k =
    let (gone_stays, same_place) = is_deduped-stays p outer x e in
    let shrunk = k.drops.shrunk in
    let word = h.word in
    record {
      stands = record {
        valid = k.valid;
        here = subst (λ c. record_at r.res c ≡ some p') (sym k.drops.same_content) k.here;
        two = omega arith;
        word = omega arith;
      };
      same_content = k.drops.same_content;
      fewer = omega arith;
      within = λ f. let gone = k.drops.gone f in omega arith;
      bag = λ f. let gone = k.drops.gone f in let all = k.bag f in omega arith;
      all_stay = let gone = k.drops.gone (stays p.de_len) in omega (arith, gone, gone_stays);
      places = λ poff there.
          let gone = k.drops.gone (is_on poff) in
          let still = left (is_on poff) in
          let alike : is_on poff outer ≡ is_on poff x =
            ap (λ n. if n == poff then 1 else 0) same_place in
          omega (arith, gone, still, alike, there);
      others = k.others;
    }
