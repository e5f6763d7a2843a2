-- ===== src/Fiemap/Scan.antt =====
-- fiemap_scan_extent and the descriptor that it opens, and get_extent finds the first extent
-- that reaches an offset.
use duperemove.Prelude.{
  ℕ, ◌+◌, ◌^◌, ◌<◌, ◌≡◌, ◌⊎◌, inl, inr, refl, ap, true, false, Option, none, some, List, [], ◌∷◌,
  ◌++◌, All, arith, ltb, Bool-cases, Option-cases,
}
use duperemove.Prelude.Int.{ℤ, pos, negsuc, ◌==ℤ◌}
use duperemove.Prelude.Word.{add64, sub64}
use duperemove.Prelude.Outcome.{done}
use duperemove.Results.{Extent}
use duperemove.Filerec.{Globals, Opened, drop_ref}
use duperemove.Filerec.Open.{
  refs, same_file, IsTidy, filerec_open-Opens, filerec_close_lem, drop_ref-IsTidy, drop_ref-refs,
}
use duperemove.Fiemap.{FiemapExtent, get_extent, do_fiemap, located, scanned, fiemap_scan_extent}

-- What the file system lists at the offset.
abbrev pub listed_at : Option (List FiemapExtent) → ℕ → Option FiemapExtent
listed_at none loff = none
listed_at (some es) loff = get_extent es loff

-- The same references as before, and: an extent was found, whose physical place is kept; or none
-- was, with the result -1; or the file was not opened.
pub record Scans (answer : Option (List FiemapExtent)) (g g' : Globals) (extent extent' : Extent)
    (ret : ℤ) : Type 0 where
  pub tidy : (a : ℕ) → IsTidy (g'.memory a)
  pub refs_kept : (a : ℕ) → refs g' a ≡ refs g a
  pub outcome :
      ((e : FiemapExtent) × (listed_at answer extent.e_loff ≡ some e)
        × (extent' ≡ record extent { e_poff = e.fe_physical })
        × (ret ≡ pos 0))
      ⊎ (((listed_at answer extent.e_loff ≡ none) × (extent' ≡ extent) × (ret ≡ negsuc 0))
          ⊎ ((extent' ≡ extent) × ((ret ==ℤ pos 0) ≡ false)))

same_file_refl : (n : ℕ) → same_file n n ≡ 1
same_file_refl n = ground arith

-- The rest of the scan once the file is open: each way closes it.
scanned-closes :
    (answer : Option (List FiemapExtent)) (g : Globals) (extent : Extent)
    → ((a : ℕ) → IsTidy (g.memory a))
    → 0 < refs g extent.e_file
    → (extent' : Extent) × (ret : ℤ) × (scanned g extent answer
        ≡ done (drop_ref g extent.e_file, extent', ret))
      × (((e : FiemapExtent) × (listed_at answer extent.e_loff ≡ some e)
            × (extent' ≡ record extent { e_poff = e.fe_physical })
            × (ret ≡ pos 0))
          ⊎ ((listed_at answer extent.e_loff ≡ none) × (extent' ≡ extent) × (ret ≡ negsuc 0)))
unfolding scanned located
scanned-closes none g extent tidy used = (
  extent,
  negsuc 0,
  rw (filerec_close_lem g extent.e_file tidy used) refl,
  inr (refl, refl, refl),
)
scanned-closes (some es) g extent tidy used = elim (Option-cases (get_extent es extent.e_loff)) [
  | inl nowhere ↦ (
    extent,
    negsuc 0,
    rw (nowhere, located, filerec_close_lem g extent.e_file tidy used) refl,
    inr (nowhere, refl, refl),
  )
  | inr (e, found) ↦ (
    record extent { e_poff = e.fe_physical },
    pos 0,
    rw (found, located, filerec_close_lem g extent.e_file tidy used) refl,
    inl (e, found, refl, refl),
  )
]

pub fiemap_scan_extent-Scans :
    (opened : Opened) (answer : Option (List FiemapExtent)) (g : Globals) (extent : Extent)
    → ((a : ℕ) → IsTidy (g.memory a))
    → refs g extent.e_file + 1 < 2 ^ 32
    → (g' : Globals) × (extent' : Extent) × (ret : ℤ) × (fiemap_scan_extent opened true answer g
          extent
        ≡ done (g', extent', ret))
      × Scans answer g g' extent extent' ret
unfolding fiemap_scan_extent do_fiemap
fiemap_scan_extent-Scans opened answer g extent tidy few =
    let (g1, ret, eq, opens) = filerec_open-Opens opened g extent.e_file tidy few in
    elim opens.outcome [
      | inl (ok, risen) ↦
          let used : 0 < refs g1 extent.e_file =
            (let more_refs = risen extent.e_file in
              let one = same_file_refl extent.e_file in omega arith) in
          let word = (opens.tidy extent.e_file).1 in
          let lowered = drop_ref-refs g1 extent.e_file used word in
          let (extent', ret', closes, outcome) = scanned-closes answer g1 extent opens.tidy used in
          (
            drop_ref g1 extent.e_file,
            extent',
            ret',
            rw (eq, ok) closes,
            record {
              tidy = drop_ref-IsTidy g1 extent.e_file opens.tidy used;
              refs_kept = λ a. let up = risen a in let down = lowered a in omega arith;
              outcome = elim outcome [ inl found ↦ inl found | inr nowhere ↦ inr (inl nowhere) ];
            },
          )
      | inr (failed, kept) ↦ (
        g,
        extent,
        ret,
        rw (eq, kept, failed) refl,
        record { tidy = tidy; refs_kept = λ a. refl; outcome = inr (inr (refl, failed)) },
      )
    ]

-- The extent ends before the offset.
abbrev pub Before : ℕ → FiemapExtent → Type 0
Before loff e = ltb (sub64 (add64 e.fe_logical e.fe_length) 1) loff ≡ true

-- `get_extent` answers the first extent of the file that does not end before the offset, with all
-- those in front of it ending before it; or none, when all of them do.
pub get_extent-first :
    (es : List FiemapExtent) (loff : ℕ)
    → ((get_extent es loff ≡ none) × All (Before loff) es)
      ⊎ ((front : List FiemapExtent) × (e : FiemapExtent) × (back : List FiemapExtent) × (get_extent
              es loff
            ≡ some e)
          × (es ≡ front ++ e ∷ back)
          × All (Before loff) front
          × (ltb (sub64 (add64 e.fe_logical e.fe_length) 1) loff ≡ false))
unfolding get_extent
get_extent-first [] loff = inl (refl, tt)
get_extent-first (e ∷ es) loff =
    elim (Bool-cases (ltb (sub64 (add64 e.fe_logical e.fe_length) 1) loff)) [
      | inr reaches ↦ inr ([], e, es, rw reaches refl, refl, tt, reaches)
      | inl ends ↦ elim (get_extent-first es loff) [
        | inl (nowhere, all) ↦ inl (rw ends nowhere, (ends, all))
        | inr (front, e', back, found, split, before, reaches) ↦
            inr (e ∷ front, e', back, rw ends found, ap (◌∷◌ e) split, (ends, before), reaches)
      ]
    ]
