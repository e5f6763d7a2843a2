-- ===== src/RunDedupe/Clean.antt =====
-- run_dedupe.c, clean_deduped: the extents that share their place on disk with another one leave their
-- record. The walks go along rb_next. `extents_kept`, an int, is taken without its overflow.
pub mod Places
pub mod Trims
pub mod Inner
pub mod Outer
mod Tests
use duperemove.Prelude.{
  ℕ, zero, suc, ◌+◌, Bool, true, false, not, ◌&&◌, ◌||◌, Option, none, some, List, [], ◌∷◌, ◌==◌,
  if◌then◌else◌, length,
}
use duperemove.Prelude.Outcome.{Outcome, done, aborted, ◌>>=◌}
use duperemove.SearchTree.{in_order}
use duperemove.Results.{Extent, DupeExtents, ResultsTree, Trees, place}
use duperemove.Results.Remove.{is_at, Removal, remove_extent}
use duperemove.RunDedupe.{disk_extent_grew}

-- The elements behind the first one that passes the test.
abbrev pub behind_first : (Extent → Bool) → List Extent → List Extent
behind_first t [] = []
behind_first t (x ∷ xs) = if t x then xs else behind_first t xs

-- What the walk along rb_next has before it at the node of the extent.
abbrev pub nodes_behind : Extent → DupeExtents → List Extent
nodes_behind e p = behind_first (is_at (place e)) (in_order p.de_extents_root)

-- The tree, and the record if it was not freed.
abbrev pub Cleaned : Type 0
Cleaned = ResultsTree × Option DupeExtents

-- A walk has returned, with the record if it was not freed, or it goes on.
pub data Walk : Type 0 where
  returned : ResultsTree → Option DupeExtents → Walk
  walks : ResultsTree → DupeExtents → ℕ → Walk

pub removed : (ResultsTree → DupeExtents → Outcome Walk) → Removal → Outcome Walk
removed again r =
    if r.result == 0
    then done (returned r.res none)
    else elim r.left [ none ↦ aborted | some p ↦ again r.res p ]

-- Whether the inner extent is removed.
pub is_deduped : DupeExtents → Extent → Extent → Bool
is_deduped p outer inner =
    not (inner.e_poff == 0) && outer.e_poff == inner.e_poff && not (disk_extent_grew p inner)

-- The loop `while (inner)`; the number is `extents_kept`.
pub inner_loop : Trees → Extent → List Extent → ResultsTree → DupeExtents → ℕ → Outcome Walk
inner_loop rb outer [] res p kept = done (walks res p kept)
inner_loop rb outer (x ∷ xs) res p kept = elim (p.de_num_dupes == 2 && not (kept == 0)) [
  | true ↦ done (returned res (some p))
  | false ↦ elim (is_deduped p outer x) [
    | true ↦ remove_extent rb res p x >>= removed (λ res' p'. inner_loop rb outer xs res' p' kept)
    | false ↦ inner_loop rb outer xs res p (kept + 1)
  ]
]

pub next_outer :
    (List Extent → ResultsTree → DupeExtents → ℕ → Outcome Cleaned)
    → Extent
    → Walk
    → Outcome Cleaned
next_outer again outer (returned res left) = done (res, left)
next_outer again outer (walks res p kept) = again (nodes_behind outer p) res p kept

-- The first extent counts as kept under the same checks.
pub count_first : Bool → DupeExtents → Extent → ℕ → ℕ
count_first first p outer kept =
    if first && (outer.e_poff == 0 || disk_extent_grew p outer) then kept + 1 else kept

-- The loop `while (outer)`; without fuel `aborted`.
pub outer_loop : Trees → ℕ → Bool → List Extent → ResultsTree → DupeExtents → ℕ → Outcome Cleaned
outer_loop rb fuel first [] res p kept = done (res, some p)
outer_loop rb zero first (outer ∷ xs) res p kept = aborted
outer_loop rb (suc fuel) first (outer ∷ xs) res p kept =
    inner_loop rb outer xs res p (count_first first p outer kept)
    >>= next_outer (outer_loop rb fuel false) outer

-- Each round has a node less before it.
pub clean_deduped : Trees → ResultsTree → DupeExtents → Outcome Cleaned
clean_deduped rb res p =
    if p.de_num_dupes == 0
    then done (res, some p)
    else outer_loop rb (length (in_order p.de_extents_root)) true (in_order p.de_extents_root) res p
        0
