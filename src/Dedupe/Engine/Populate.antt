-- ===== src/Dedupe/Engine/Populate.antt =====
-- populate_dedupe_request: every queued request becomes one entry of the kernel's request.
use mathlib.Core.List.{append-nil, append_assoc}
use duperemove.Prelude.{
  false, ℕ, zero, suc, ◌+◌, ◌-◌, ◌/◌, ◌^◌, ◌≤◌, ◌<◌, ◌≡◌, refl, sym, ap, ◌∙◌, List, [], ◌∷◌, ◌++◌,
  map, arith, leb, length, length-append, get_or, set, replicate,
}
use duperemove.Prelude.Int.{ℤ, pos}
use duperemove.Prelude.Word.{add16, sub32}
use duperemove.Dedupe.{
  Info, zero_info, Same, zero_same, DedupeReq, DedupeCtxt, done, sizeof_same, sizeof_info,
}
use duperemove.Dedupe.Engine.{
  add_dedupe_request, populate_loop, populate_dedupe_request, set_aligned_same_length,
}
use duperemove.Dedupe.Valid.{IsValid, size}

-- Requests numbered from `i`.
abbrev pub number : ℕ → List DedupeReq → List DedupeReq
number i [] = []
number i (r ∷ rs) = record r { req_idx = i } ∷ number (suc i) rs

-- The kernel's entry for a request.
abbrev pub entry : (ℕ → ℤ) → DedupeReq → Info
entry fds r = record {
  dest_fd = fds r.req_file;
  dest_offset = r.req_loff;
  bytes_deduped = 0;
  status = pos 0;
}

abbrev pub unqueue : ℕ → List DedupeReq → ℕ
unqueue n [] = n
unqueue n (r ∷ rs) = unqueue (sub32 n 1) rs

get_or-front {ℓ} :
    {A : Type ℓ} (xs : List A) (y : A) (ys : List A) (d : A)
    → get_or (xs ++ y ∷ ys) (length xs) d ≡ y
get_or-front [] y ys d = refl
get_or-front (x ∷ xs) y ys d = get_or-front xs y ys d

set-front {ℓ} :
    {A : Type ℓ} (xs : List A) (y z : A) (ys : List A)
    → set (xs ++ y ∷ ys) (length xs) z ≡ (xs ++ z ∷ []) ++ ys
set-front [] y z ys = refl
set-front (x ∷ xs) y z ys = ap (λ l. x ∷ l) (set-front xs y z ys)

module _ (fds : ℕ → ℤ) where
  abbrev populated : DedupeCtxt → List Info → ℕ → List DedupeReq → DedupeCtxt
  populated c front m q = record c {
    same = record c.same {
      dest_count = length front + length q;
      info = front ++ (map (entry fds) q ++ replicate (m - length q) zero_info);
    };
    queued = [];
    in_progress = c.in_progress ++ number (length front) q;
    num_queued = unqueue c.num_queued q;
  }

  -- One entry is written behind `front`.
  added : Same → List Info → ℕ → DedupeReq → Same × DedupeReq
  added same front m r = (
    record same {
      info = (front ++ entry fds r ∷ []) ++ replicate m zero_info;
      dest_count = suc (length front);
    },
    record r { req_idx = length front },
  )

  add_dedupe_request_lem :
      (max_queable : ℕ) (same : Same) (front : List Info) (m : ℕ) (r : DedupeReq)
      → same.dest_count ≡ length front
      → same.info ≡ front ++ zero_info ∷ replicate m zero_info
      → length front < max_queable
      → length front + 1 < 2 ^ 16
      → add_dedupe_request fds max_queable same r ≡ done (added same front m r)
  unfolding add_dedupe_request added
  add_dedupe_request_lem max_queable same front m r hd hi cap few =
      let below : leb max_queable (length front) ≡ false = ground arith in
      let next : add16 (length front) 1 ≡ suc (length front) = omega arith in
      rw (
        hi,
        hd,
        below,
        next,
        get_or-front front zero_info (replicate m zero_info) zero_info,
        set-front front zero_info (entry fds r) (replicate m zero_info),
      )

  populate_loop_lem :
      (c : DedupeCtxt) (front : List Info) (m : ℕ) (q : List DedupeReq)
      → c.same.dest_count ≡ length front
      → c.same.info ≡ front ++ replicate m zero_info
      → c.queued ≡ q
      → length q ≤ m
      → length front + length q ≤ c.max_queable
      → length front + length q < 2 ^ 16
      → populate_loop fds c q ≡ done (populated c front m q)
  unfolding populate_loop added
  populate_loop_lem c front m [] hd hi hq fits cap few = ground (arith, append-nil c.in_progress)
  populate_loop_lem c front zero (r ∷ rs) hd hi hq fits cap few = absurd (omega arith)
  populate_loop_lem c front (suc m) (r ∷ rs) hd hi hq fits cap few =
      let more : List Info = front ++ entry fds r ∷ [] in
      let longer : length more ≡ suc (length front) =
        omega (arith, length-append front (entry fds r ∷ [])) in
      let (same', r') = added c.same front m r in
      let c' = record c {
        same = same';
        queued = rs;
        in_progress = c.in_progress ++ r' ∷ [];
        num_queued = sub32 c.num_queued 1;
      } in
      rw (add_dedupe_request_lem c.max_queable c.same front m r hd hi (omega arith) (omega arith)) (
        populate_loop_lem c' more m rs (sym longer) refl refl (omega arith) (omega arith)
          (omega arith)
        ∙ ground (
          arith,
          longer,
          append_assoc front (entry fds r ∷ [])
              (map (entry fds) rs ++ replicate (m - length rs) zero_info),
          append_assoc c.in_progress (r' ∷ []) (number (suc (length front)) rs),
        ))

-- What `populate_dedupe_request` is to make of a context whose last round is over.
abbrev pub request : (ℕ → ℤ) → ℕ → DedupeCtxt → DedupeCtxt
request fds fs_blocksize c = record c {
  queued = [];
  in_progress = number 0 c.queued;
  num_queued = unqueue c.num_queued c.queued;
  same = record {
    src_offset = c.ioctl_file_off;
    src_length = (set_aligned_same_length fs_blocksize c.len (zero_same c.same_size)).src_length;
    dest_count = length c.queued;
    info = map (entry fds) c.queued ++ replicate (c.max_queable - length c.queued) zero_info;
  };
}

pub set_aligned_same_length_lem :
    (n len : ℕ) (same : Same)
    → set_aligned_same_length n len same
      ≡ record same { src_length = (set_aligned_same_length n len same).src_length }
unfolding set_aligned_same_length
set_aligned_same_length_lem n len same = ground arith

-- A valid context with no request under way makes up a request to the kernel without aborting: all
-- queued requests are under way, numbered from 0, and the i-th of them is the i-th entry, with its
-- file's descriptor and its offset; the other entries are zero, the source is at the context's
-- file offset, and the length is the aligned one.
pub populate_dedupe_request_lem :
    (fds : ℕ → ℤ) (fs_blocksize : ℕ) (c : DedupeCtxt)
    → IsValid c
    → c.in_progress ≡ []
    → populate_dedupe_request fds fs_blocksize c ≡ done (request fds fs_blocksize c)
unfolding populate_dedupe_request size
populate_dedupe_request_lem fds n c v idle =
    let zeros : (c.same_size - sizeof_same) / sizeof_info ≡ c.max_queable =
      omega (arith, v.buffer) in
    let same = set_aligned_same_length n c.len (zero_same c.same_size) in
    let c' = record c { same = record same { src_offset = c.ioctl_file_off } } in
    let e = set_aligned_same_length_lem n c.len (zero_same c.same_size) in
    populate_loop_lem fds c' [] c.max_queable c.queued (ap (λ (s : Same). s.dest_count) e)
      (ap (λ (s : Same). s.info) e ∙ ap (λ k. replicate k zero_info) zeros) refl
      (omega (arith, v.room)) (omega (arith, v.room)) (omega (arith, v.room, v.few))
    ∙ ground (arith, e)
