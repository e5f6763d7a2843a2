-- ===== src/Dedupe/Engine/Finish.antt =====
-- dedupe_extents over a kernel that does what ioctl_fideduperange(2) says: it returns.
use Prim.Native.Nat.{min, max}
use duperemove.Prelude.{
  ℕ, suc, ◌^◌, ◌≤◌, ◌<◌, ◌≡◌, ◌≢◌, ◌⊎◌, refl, ap, ◌∙◌, some, arith, length, get_or, Option-cases,
  inl, inr,
}
use mathlib.Core.Path.{sym, subst}
use duperemove.Prelude.Int.{ℤ, pos}
use duperemove.Dedupe.{zero_info, Same, DedupeCtxt}
use duperemove.Dedupe.Engine.{
  Kernel, Engine, Submitted, answered, failed, stuck, call, get_fs_blocksize, realign, submit,
}
use duperemove.Dedupe.Engine.Align.{IsBlock, IsBlock-pos, IsBlock-word, src_length_bounds}
use duperemove.Dedupe.Engine.Extents.{submit_cases}
use duperemove.Dedupe.Engine.Populate.{set_aligned_same_length_lem}
use duperemove.Dedupe.Engine.Comply.{Answered, info_of}

-- ioctl_fideduperange(2) and statfs(2). `limit` is the size at which the file system silently caps
-- a request. An entry is deduped as far as the capped length or is refused; the request's other
-- members are input alone.
pub record Complies {W : Type 0} (k : Kernel W) (limit : ℕ) : Type 0 where
  pub some_limit : 0 < limit
  pub dest_count : (w : W) (fd : ℤ) (s : Same) → (k.dedupe_range w fd s).1.dest_count ≡ s.dest_count
  pub info : (w : W) (fd : ℤ) (s : Same) → length (k.dedupe_range w fd s).1.info ≡ length s.info
  pub entries :
      (w : W) (fd : ℤ) (s : Same)
      → (k.dedupe_range w fd s).0 ≡ pos 0
      → s.dest_count ≤ length s.info
      → (i : ℕ) → i < s.dest_count
      → Answered (min s.src_length limit) (get_or (k.dedupe_range w fd s).1.info i zero_info)
  pub block : (w : W) (fd : ℤ) (n : ℕ) → (k.fstatfs w fd).0 ≡ some n → IsBlock n

-- The request in the buffer is one that the kernel can work on.
pub record Ready (c : DedupeCtxt) : Type 0 where
  pub wide : c.same.dest_count ≤ length c.same.info
  pub asks : 0 < c.same.src_length
  pub fits : c.same.src_length ≤ c.len

abbrev pub IsBlocksize : ℕ → Type 0
IsBlocksize n = (n ≡ 0) ⊎ IsBlock n

-- What comes back to a call with block size `b`: the lists are as they were, and each entry is
-- answered.
pub record Back {W : Type 0} (b : ℕ) (c : DedupeCtxt) (e : Engine W) : Type 0 where
  pub lists : e.ctxt ≡ record c { same = e.ctxt.same }
  pub block : IsBlocksize e.fs_blocksize
  pub grown : max b 1 ≤ max e.fs_blocksize 1
  pub bytes : ℕ
  pub some_bytes : 0 < bytes
  pub fits : bytes ≤ c.len
  pub entries : (i : ℕ) → i < c.same.dest_count → Answered bytes (info_of e.ctxt i)

abbrev pub Comes : {W : Type 0} → (Engine W → Type 0) → Submitted W → Type 0
Comes P (answered e) = P e
Comes P (failed ret e) = ret ≢ pos 0
Comes P stuck = ⊥

four_kib : IsBlock 4096
four_kib = record { exponent = 12; small = omega arith; power = refl }

module _ {W : Type 0} (k : Kernel W) (fds : ℕ → ℤ) {limit : ℕ} (ok : Complies k limit) where
  open ok use {some_limit, dest_count, info, entries, block}

  call-Back :
      (e : Engine W)
      → Ready e.ctxt
      → IsBlocksize e.fs_blocksize
      → (call k fds e).0 ≡ pos 0
      → Back e.fs_blocksize e.ctxt (call k fds e).1
  unfolding call
  call-Back e r b good = record {
    lists = refl;
    block = b;
    grown = omega arith;
    bytes = min e.ctxt.same.src_length limit;
    some_bytes = omega (arith, r.asks, some_limit);
    fits = omega (arith, r.fits);
    entries = entries _ _ _ good r.wide;
  }

  pub get_fs_blocksize-IsBlock : (w : W) (fd : ℤ) → IsBlock (get_fs_blocksize k fds w fd).0
  unfolding get_fs_blocksize
  get_fs_blocksize-IsBlock w fd = elim (Option-cases (k.fstatfs w fd).0) [
    | inl e ↦ rw (e, get_fs_blocksize) four_kib
    | inr (n, e) ↦
        rw (e, get_fs_blocksize)
          (subst IsBlock (sym (IsBlock-word (block w fd n e))) (block w fd n e))
  ]

  realign-Ready :
      (e : Engine W)
      → e.ctxt.same.dest_count ≤ length e.ctxt.same.info
      → 0 < e.ctxt.len
      → e.ctxt.len < 2 ^ 32
      → Ready (realign k fds e).ctxt × IsBlock (realign k fds e).fs_blocksize
  unfolding realign
  realign-Ready e wide left small =
      let c = e.ctxt in
      let fd = fds c.ioctl_file in
      let b = get_fs_blocksize-IsBlock e.world fd in
      let n = (get_fs_blocksize k fds e.world fd).0 in
      let same = set_aligned_same_length_lem n c.len c.same in
      let bounds = src_length_bounds n c.len c.same (inr b) left small in
      (
        record {
          wide = omega (
            arith,
            wide,
            ap (λ (s : Same). s.dest_count) same,
            ap (λ (s : Same). length s.info) same,
          );
          asks = bounds.0;
          fits = bounds.1;
        },
        b,
      )

  -- With the block size known there is no second try.
  submit_known :
      (fuel : ℕ) (e : Engine W)
      → Ready e.ctxt
      → IsBlock e.fs_blocksize
      → Comes (Back e.fs_blocksize e.ctxt) (submit k fds (suc fuel) e)
  submit_known fuel e r b =
      submit_cases k fds (Comes (Back e.fs_blocksize e.ctxt)) fuel e (λ bad. bad)
        (λ _ unknown. absurd (omega (arith, IsBlock-pos b, unknown))) (call-Back e r (inr b))

  dest_count-again :
      (e : Engine W)
      → (realign k fds (call k fds e).1).ctxt.same.dest_count ≡ e.ctxt.same.dest_count
  unfolding realign call
  dest_count-again e =
      let c = (call k fds e).1.ctxt in
      ap (λ (s : Same). s.dest_count) (set_aligned_same_length_lem _ c.len c.same)
      ∙ dest_count _ _ _

  Back-again :
      (e : Engine W) (s : Submitted W)
      → e.fs_blocksize ≡ 0
      → Comes
          (Back (realign k fds (call k fds e).1).fs_blocksize (realign k fds (call k fds e).1).ctxt)
          s
      → Comes (Back e.fs_blocksize e.ctxt) s
  Back-again e (answered e') unknown h = record {
    lists = unfold call realign in h.lists;
    block = h.block;
    grown = omega (arith, unknown);
    bytes = h.bytes;
    some_bytes = h.some_bytes;
    fits = unfold call realign in h.fits;
    entries = λ i lt. h.entries i (omega (arith, dest_count-again e, lt));
  }
  Back-again e (failed ret e') unknown h = h
  Back-again e stuck unknown h = h

  call-wide :
      (e : Engine W)
      → Ready e.ctxt
      → (call k fds e).1.ctxt.same.dest_count ≤ length (call k fds e).1.ctxt.same.info
  unfolding call
  call-wide e r = omega (
    arith,
    r.wide,
    dest_count e.world (fds e.ctxt.ioctl_file) e.ctxt.same,
    info e.world (fds e.ctxt.ioctl_file) e.ctxt.same,
  )

  -- Two tries are enough.
  pub submit-Back :
      (fuel : ℕ) (e : Engine W)
      → Ready e.ctxt
      → IsBlocksize e.fs_blocksize
      → 0 < e.ctxt.len
      → e.ctxt.len < 2 ^ 32
      → Comes (Back e.fs_blocksize e.ctxt) (submit k fds (suc (suc fuel)) e)
  submit-Back fuel e r b left small =
      let (r', b') =
        realign-Ready (call k fds e).1 (call-wide e r) (unfold call in left)
          (unfold call in small) in
      submit_cases k fds (Comes (Back e.fs_blocksize e.ctxt)) (suc fuel) e (λ bad. bad)
        (λ _ unknown.
          Back-again e _ unknown (submit_known fuel (realign k fds (call k fds e).1) r' b'))
        (call-Back e r b)
