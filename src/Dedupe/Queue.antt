-- ===== src/Dedupe/Queue.antt =====
-- new_dedupe_ctxt and add_extent_to_dedupe: filling a context up to its limit.
use Prim.Native.Nat.{min}
use mathlib.Core.Option.{some-injective}
use mathlib.Core.Path.{sym, subst}
use duperemove.Prelude.{
  ℕ, ◌+◌, ◌-◌, ◌*◌, ◌^◌, ◌<◌, ◌≡◌, refl, ap, ◌∙◌, ◌≢◌, Bool-cases, inl, inr, true, false, some, [],
  ◌∷◌, arith, leb, ltb, ◌==◌, if◌then◌else◌, length, length-append, All, All-append, All-mono,
}
use duperemove.Prelude.Int.{ℤ, pos, negsuc}
use duperemove.Prelude.Word.{sub32, sub64}
use duperemove.Dedupe.{
  DedupeReq, DedupeCtxt, Outcome, done, aborted, new_dedupe_req, enqueue, empty_ctxt,
  new_dedupe_ctxt, add_extent_to_dedupe, max_dedupes_per_ioctl, sizeof_same, sizeof_info,
}
use duperemove.Dedupe.Valid.{count-append, held, size, IsValid, IsWord}
use duperemove.Dedupe.Engine.Comply.{Lockstep}

-- A context that is being filled for its first round.
pub record Filling (c : DedupeCtxt) : Type 0 where
  pub valid : IsValid c
  pub counted : c.num_queued ≡ length c.queued
  pub idle : c.in_progress ≡ []
  pub none_done : c.completed ≡ []
  pub whole : c.len ≡ c.orig_len
  pub fresh : All (λ r. r.req_total ≡ 0) c.queued

empty_ctxt-Filling :
    (n size loff elen file : ℕ)
    → size ≡ sizeof_same + n * sizeof_info
    → n < 2 ^ 16
    → Filling (empty_ctxt n size loff elen file)
unfolding empty_ctxt size
empty_ctxt-Filling n size loff elen file e lt = record {
  valid = record {
    buffer = e;
    few = lt;
    room = omega arith;
    queued_words = tt;
    in_progress_words = tt;
    completed_words = tt;
  };
  counted = refl;
  idle = refl;
  none_done = refl;
  whole = refl;
  fresh = tt;
}

abbrev pub NewFor : ℕ → ℕ → ℕ → ℕ → DedupeCtxt → Type 0
NewFor max_extents loff elen file c =
    Filling c
    × (c.max_queable ≡ min max_extents max_dedupes_per_ioctl - 1)
    × (c.orig_len ≡ elen)
    × (c.ioctl_file ≡ file)
    × (c.ioctl_file_off ≡ loff)
    × (c.queued ≡ [])

-- A new context for two or more extents is empty, valid, and takes one request less than there are
-- extents (the target is not one of them), 119 at most; it is for the length and source given.
pub new_dedupe_ctxt-Filling :
    (max_extents loff elen file : ℕ)
    → 1 < max_extents
    → (c : DedupeCtxt) → new_dedupe_ctxt true true max_extents loff elen file ≡ some c
    → NewFor max_extents loff elen file c
unfolding new_dedupe_ctxt
new_dedupe_ctxt-Filling max_extents loff elen file h c e =
    let n = if ltb max_dedupes_per_ioctl max_extents then max_dedupes_per_ioctl else max_extents in
    let cap : sub32 n 1 ≡ min max_extents max_dedupes_per_ioctl - 1 = ground arith in
    subst (NewFor max_extents loff elen file) (some-injective _ _ e) (
      unfold empty_ctxt in
      (
        empty_ctxt-Filling _ _ loff elen file (ground (arith, cap)) (ground (arith, cap)),
        cap,
        refl,
        refl,
        refl,
        refl,
      ))

abbrev fresh_req : ℕ → ℕ → DedupeReq
fresh_req file loff = record {
  req_file = file;
  req_loff = loff;
  req_total = 0;
  req_status = pos 0;
  req_idx = 0;
}

module _ {c : DedupeCtxt} (v : Filling c) (room : length c.queued < c.max_queable)
    (file loff : ℕ) where
  enqueue-length : length (enqueue c (fresh_req file loff)).queued ≡ length c.queued + 1
  unfolding enqueue
  enqueue-length = length-append c.queued _

  enqueue-size : size (enqueue c (fresh_req file loff)) ≡ length c.queued + 1
  unfolding size enqueue
  enqueue-size =
      rw (v.idle, v.none_done) (omega (arith, length-append c.queued (fresh_req file loff ∷ [])))

  enqueue-held :
      loff < 2 ^ 64
      → (f o : ℕ)
      → held (enqueue c (fresh_req file loff)) f o
        ≡ held c f o + (if file == f then (if loff == o then 1 else 0) else 0)
  unfolding held enqueue
  enqueue-held word f o =
      let off : sub64 loff 0 ≡ loff = omega arith in
      rw (count-append f o c.queued) (rw off (ground arith))

  enqueue-Filling : Filling (enqueue c (fresh_req file loff))
  unfolding enqueue
  enqueue-Filling = record {
    valid = record {
      buffer = v.valid.buffer;
      few = v.valid.few;
      room = omega (arith, enqueue-size, room);
      queued_words = All-append IsWord c.queued _ v.valid.queued_words (omega arith, tt);
      in_progress_words = v.valid.in_progress_words;
      completed_words = v.valid.completed_words;
    };
    counted = omega (arith, v.counted, enqueue-length, room, v.valid.few);
    idle = v.idle;
    none_done = v.none_done;
    whole = v.whole;
    fresh = All-append (λ r. r.req_total ≡ 0) c.queued _ v.fresh (refl, tt);
  }

-- While there is room, adding an extent does not abort. Without memory it returns -1 and changes
-- nothing. Otherwise it returns how many more requests fit, the context is still being filled, and
-- it holds one more request, for the extent's file and offset.
pub add_extent_to_dedupe-Filling :
    (c : DedupeCtxt) (loff file : ℕ)
    → Filling c
    → length c.queued < c.max_queable
    → loff < 2 ^ 64
    → (add_extent_to_dedupe false c loff file ≡ done (c, negsuc 0))
      × ((d : DedupeCtxt) × (add_extent_to_dedupe true c loff file
            ≡ done (d, pos (c.max_queable - length d.queued)))
          × Filling d
          × (length d.queued ≡ length c.queued + 1)
          × ((f o : ℕ)
              → held d f o ≡ held c f o + (if file == f then (if loff == o then 1 else 0) else 0)))
unfolding add_extent_to_dedupe
add_extent_to_dedupe-Filling c loff file v room word =
    let d = enqueue c (fresh_req file loff) in
    let free : leb c.max_queable c.num_queued ≡ false = ground (arith, v.counted, room) in
    let more = enqueue-length v room file loff in
    let filling = enqueue-Filling v room file loff in
    let left : sub32 c.max_queable d.num_queued ≡ c.max_queable - length d.queued =
      omega (arith, filling.counted, more, room, v.valid.few) in
    (rw free, (d, rw (free, left), filling, more, enqueue-held v room file loff word))

abbrev max_of : Outcome (DedupeCtxt × ℤ) → ℕ
max_of (done (c, rc)) = c.max_queable
max_of aborted = 0

aborted_not_done : {r : DedupeCtxt × ℤ} → ◌≢◌ {A = Outcome (DedupeCtxt × ℤ)} aborted (done r)
aborted_not_done e = cc

pub add_extent_to_dedupe_max :
    (c d : DedupeCtxt) (loff file : ℕ) (rc : ℤ)
    → add_extent_to_dedupe true c loff file ≡ done (d, rc)
    → d.max_queable ≡ c.max_queable
unfolding add_extent_to_dedupe enqueue new_dedupe_req
add_extent_to_dedupe_max c d loff file rc e = elim (Bool-cases (leb c.max_queable c.num_queued)) [
  | inl full ↦ absurd (aborted_not_done (sym (rw full refl) ∙ e))
  | inr free ↦ sym (ap max_of e) ∙ rw free refl
]

abbrev pub len_of : Outcome (DedupeCtxt × ℤ) → ℕ
len_of (done (c, rc)) = c.orig_len
len_of aborted = 0

pub add_extent_to_dedupe_len :
    (c d : DedupeCtxt) (loff file : ℕ) (rc : ℤ)
    → add_extent_to_dedupe true c loff file ≡ done (d, rc)
    → d.orig_len ≡ c.orig_len
unfolding add_extent_to_dedupe enqueue new_dedupe_req
add_extent_to_dedupe_len c d loff file rc e = elim (Bool-cases (leb c.max_queable c.num_queued)) [
  | inl full ↦ absurd (aborted_not_done (sym (rw full refl) ∙ e))
  | inr free ↦ sym (ap len_of e) ∙ rw free refl
]

-- A context that is being filled is ready for `dedupe_extents`: each request lacks all of a length
-- that is not zero.
pub Filling-Lockstep :
    {c : DedupeCtxt}
    → Filling c
    → 0 < c.orig_len
    → c.orig_len < 2 ^ 32
    → (block : ℕ) → Lockstep block c
Filling-Lockstep {c} v left small block = record {
  small = small;
  queued =
      All-mono _ _ (λ r z. (omega (arith, z, v.whole), omega (arith, z, left))) c.queued v.fresh;
  completed = rw v.none_done tt;
}
