-- ===== src/RunDedupe/Worker/Rescan.antt =====
-- The extents of a record are looked up on disk again.
use duperemove.Prelude.{ℕ, ◌+◌, ◌≡◌, refl, ap, ◌∙◌, true, List, [], ◌∷◌, arith, length-map, map}
use mathlib.Core.Path.{sym, subst}
use duperemove.Prelude.Order.{pair_order}
use duperemove.Prelude.Outcome.{done, bind-done}
use duperemove.SearchTree.{in_order}
use duperemove.SearchTree.Sorted.{Sorted}
use duperemove.SearchTree.Bag.{total}
use duperemove.SearchTree.Replace.{swap, in_order-replace, Sorted-swap}
use duperemove.Filerec.{Globals}
use duperemove.Filerec.Open.{refs, IsTidy}
use duperemove.Fiemap.{fiemap_scan_extent}
use duperemove.Fiemap.Scan.{fiemap_scan_extent-Scans}
use duperemove.Results.{Extent, DupeExtents, place, content}
use duperemove.Results.Valid.{DextValid, extents_of}
use duperemove.Results.Remove.{is_at}
use duperemove.Results.Remove.Drop.{is_at-IsFor}
use duperemove.RunDedupe.{PostAnswers}
use duperemove.RunDedupe.Post.{IsTame}
use duperemove.RunDedupe.Worker.{write_extent, rescanned, rescan_loop}

total-map :
    (f : Extent → ℕ) (g : Extent → Extent) (xs : List Extent)
    → total f (map g xs) ≡ total (λ x. f (g x)) xs
total-map f g [] = refl
total-map f g (x ∷ xs) = ap (◌+◌ (f (g x))) (total-map f g xs)

-- The record with other places of its extents.
pub record Rewrites (p p' : DupeExtents) : Type 0 where
  pub valid : DextValid p'
  pub same_content : content p' ≡ content p
  pub as_many : extents_of p' ≡ extents_of p

write_extent-Rewrites : (e : Extent) (p : DupeExtents) → DextValid p → Rewrites p (write_extent e p)
unfolding write_extent
write_extent-Rewrites e p v =
    let t = is_at (place e) in
    let nodes = in_order-replace t e p.de_extents_root in
    let number = length-map p.de_extents (swap t e) in
    record {
      valid = record {
        sorted = subst (Sorted pair_order place) (sym nodes) (
            Sorted-swap pair_order place t e (in_order p.de_extents_root) (is_at-IsFor (place e))
              v.sorted);
        same_extents = λ f.
            ap (total f) nodes
            ∙ total-map f (swap t e) (in_order p.de_extents_root)
            ∙ v.same_extents (λ x. f (swap t e x))
            ∙ sym (total-map f (swap t e) p.de_extents);
        counted = let n = v.counted in rw number n;
      };
      same_content = refl;
      as_many = number;
    }

pub rescan_loop-Rewrites :
    (answers : Extent → PostAnswers) (es : List Extent) (g : Globals) (p : DupeExtents)
    → ((e : Extent) → (answers e).mem ≡ true)
    → IsTame g
    → DextValid p
    → (g' : Globals) × (p' : DupeExtents) × (rescan_loop answers es g p ≡ done (g', p'))
      × ((a : ℕ) → IsTidy (g'.memory a))
      × ((a : ℕ) → refs g' a ≡ refs g a)
      × Rewrites p p'
unfolding rescan_loop rescanned
rescan_loop-Rewrites answers [] g p mem tame v =
    (g, p, refl, tame.tidy, λ a. refl, record { valid = v; same_content = refl; as_many = refl })
rescan_loop-Rewrites answers (e ∷ es) g p mem tame v =
    let a = answers e in
    let (g1, e1, ret, run, s) =
      fiemap_scan_extent-Scans a.opened a.fiemap g e tame.tidy (tame.few e.e_file) in
    let run1 : fiemap_scan_extent a.opened a.mem a.fiemap g e ≡ done (g1, e1, ret) =
      rw (mem e) run in
    let w = write_extent-Rewrites e1 p v in
    let tame1 : IsTame g1 = record {
      tidy = s.tidy;
      few = λ b. let same = s.refs_kept b in let room = tame.few b in omega arith;
    } in
    let (g2, p2, run2, tidy2, same2, w2) =
      rescan_loop-Rewrites answers es g1 (write_extent e1 p) mem tame1 w.valid in
    (
      g2,
      p2,
      bind-done _ (g1, e1, ret) (rescanned (rescan_loop answers es) p) run1 ∙ run2,
      tidy2,
      λ b. same2 b ∙ s.refs_kept b,
      record {
        valid = w2.valid;
        same_content = w2.same_content ∙ w.same_content;
        as_many = w2.as_many ∙ w.as_many;
      },
    )
