-- ===== src/Dedupe/Engine/Total.antt =====
-- dedupe_extents over a kernel that complies: it returns, and what it completed is over.
use Prim.Native.Nat.{max}
use mathlib.Core.Path.{subst}
use duperemove.Prelude.{
  ℕ, zero, suc, ◌+◌, ◌-◌, ◌^◌, ◌≤◌, ◌<◌, ◌≡◌, ◌⊎◌, refl, sym, ap, ◌∙◌, List, [], ◌∷◌, map, false,
  is_empty, arith, length, length-append, length-map, Bool-cases, nil_of_is_empty, replicate, inl,
  inr, All, All-mono,
}
use duperemove.Prelude.Int.{ℤ, pos}
use duperemove.Dedupe.{Info, zero_info, zero_same, Same, DedupeReq, DedupeCtxt}
use duperemove.Dedupe.Valid.{IsValid, size}
use duperemove.Dedupe.Engine.{
  Kernel, Engine, Submitted, answered, failed, stuck, Run, finished, crashed, out_of_fuel, submit,
  dedupe_round, dedupe_extents, process_dedupes,
}
use duperemove.Dedupe.Engine.Align.{IsBlock, src_length_bounds}
use duperemove.Dedupe.Engine.Populate.{number, entry, request, populate_dedupe_request_lem}
use duperemove.Dedupe.Engine.Process.{process_dedupes-Settled}
use duperemove.Dedupe.Engine.Extents.{request-IsValid}
use duperemove.Dedupe.Engine.Comply.{
  Over, Waits, Looping, Lockstep, Shorter, Answered, info_of, process_dedupes-Lockstep,
}
use duperemove.Dedupe.Engine.Finish.{Complies, Ready, Back, Comes, IsBlocksize, submit-Back}

Over-grown :
    (b b' orig_len : ℕ)
    → max b 1 ≤ max b' 1
    → (r : DedupeReq) → Over b orig_len r
    → Over b' orig_len r
Over-grown b b' orig_len h r (inl refused) = inl refused
Over-grown b b' orig_len h r (inr (le, lt)) = inr (le, omega arith)

waiting-number :
    (orig_len left n : ℕ) (info : ℕ → Info) (i : ℕ) (q : List DedupeReq)
    → All (Waits orig_len left) q
    → ((j : ℕ) → j < i + length q → Answered n (info j))
    → All (λ r. Waits orig_len left r × Answered n (info r.req_idx)) (number i q)
waiting-number orig_len left n info i [] w a = tt
waiting-number orig_len left n info i (r ∷ rs) w a = (
  (w.0, a i (omega arith)),
  waiting-number orig_len left n info (suc i) rs w.1 (λ j lt. a j (omega arith)),
)

module _ (fds : ℕ → ℤ) (b : ℕ) (c : DedupeCtxt) (v : IsValid c) (idle : c.in_progress ≡ []) where
  request-Ready : (b ≡ 0) ⊎ IsBlock b → 0 < c.len → c.len < 2 ^ 32 → Ready (request fds b c)
  unfolding size
  request-Ready block left small =
      let bounds = src_length_bounds b c.len (zero_same c.same_size) block left small in
      record {
        wide = omega (
          arith,
          length-append (map (entry fds) c.queued)
              (replicate (c.max_queable - length c.queued) zero_info),
          length-map c.queued (entry fds),
        );
        asks = bounds.0;
        fits = bounds.1;
      }

  round-Lockstep :
      {W : Type 0} (e : Engine W)
      → Lockstep b c
      → 0 < c.len
      → c.len ≤ c.orig_len
      → Back b (request fds b c) e
      → Lockstep e.fs_blocksize (process_dedupes e.fs_blocksize e.ctxt)
        × Shorter c.len (process_dedupes e.fs_blocksize e.ctxt)
  round-Lockstep e l left short back =
      let b' = e.fs_blocksize in
      let c' = record (request fds b c) { same = e.ctxt.same } in
      let looping : Looping b' back.bytes c' 0 c'.in_progress = record {
        some_bytes = back.some_bytes;
        fits = back.fits;
        short = short;
        small = l.small;
        seen = omega arith;
        queued = tt;
        completed = All-mono _ _ (Over-grown b b' c.orig_len back.grown) c.completed l.completed;
        waiting =
            waiting-number c.orig_len c.len back.bytes (info_of e.ctxt) 0 c.queued l.queued
              (λ j lt. back.entries j (omega (arith, lt)));
      } in
      subst (λ d. Lockstep b' (process_dedupes b' d) × Shorter c.len (process_dedupes b' d))
        (sym back.lists) (process_dedupes-Lockstep looping)

IsValid-buffer : (c : DedupeCtxt) (s : Same) → IsValid c → IsValid (record c { same = s })
unfolding size
IsValid-buffer c s v = record {
  buffer = v.buffer;
  few = v.few;
  room = v.room;
  queued_words = v.queued_words;
  in_progress_words = v.in_progress_words;
  completed_words = v.completed_words;
}

-- Ready for a next round with `fuel` rounds left.
record Fit {W : Type 0} (orig_len fuel : ℕ) (e : Engine W) : Type 0 where
  valid : IsValid e.ctxt
  idle : e.ctxt.in_progress ≡ []
  block : IsBlocksize e.fs_blocksize
  lockstep : Lockstep e.fs_blocksize e.ctxt
  same_len : e.ctxt.orig_len ≡ orig_len
  fuelled : 0 < fuel
  enough : All (λ (_ : DedupeReq). e.ctxt.len + 2 ≤ fuel) e.ctxt.queued

-- A run that returns, and with 0 only when every request is over.
abbrev pub Returns : {W : Type 0} → ℕ → Run W → Type 0
Returns orig_len (finished ret e) =
    ret ≡ pos 0
    → (e.ctxt.queued ≡ [])
      × (e.ctxt.in_progress ≡ [])
      × All (Over e.fs_blocksize orig_len) e.ctxt.completed
Returns orig_len crashed = ⊥
Returns orig_len out_of_fuel = ⊥

every : {P : Type 0} (q : List DedupeReq) → P → All (λ _. P) q
every [] p = tt
every (r ∷ rs) p = (p, every rs p)

head_facts :
    (orig_len len fuel : ℕ) (q : List DedupeReq)
    → is_empty q ≡ false
    → All (Waits orig_len len) q
    → All (λ (_ : DedupeReq). len + 2 ≤ fuel) q
    → (0 < len) × (len ≤ orig_len) × (len + 2 ≤ fuel)
head_facts orig_len len fuel [] some_left w f = cc
head_facts orig_len len fuel (r ∷ rs) some_left w f = omega (arith, w.0, f.0)

module _ {W : Type 0} (k : Kernel W) (fds : ℕ → ℤ) {limit : ℕ} (ok : Complies k limit)
    (orig_len : ℕ) where
  next-Fit :
      (fuel : ℕ) (e e' : Engine W)
      → Fit orig_len (suc fuel) e
      → 0 < e.ctxt.len
      → e.ctxt.len ≤ e.ctxt.orig_len
      → e.ctxt.len + 2 ≤ suc fuel
      → Back e.fs_blocksize (request fds e.fs_blocksize e.ctxt) e'
      → Fit orig_len fuel (record e' { ctxt = process_dedupes e'.fs_blocksize e'.ctxt })
  next-Fit fuel e e' fit left short enough back =
      let c = request fds e.fs_blocksize e.ctxt in
      let v : IsValid e'.ctxt =
        subst IsValid (sym back.lists)
          (IsValid-buffer c _ (request-IsValid fds e.fs_blocksize e.ctxt fit.valid fit.idle)) in
      let s = process_dedupes-Settled e'.fs_blocksize e'.ctxt v in
      let (lockstep, shorter) =
        round-Lockstep fds e.fs_blocksize e.ctxt fit.valid fit.idle e' fit.lockstep left short
          back in
      record {
        valid = s.valid;
        idle = s.idle;
        block = back.block;
        lockstep = lockstep;
        same_len = s.keeps.orig_len ∙ ap (λ (d : DedupeCtxt). d.orig_len) back.lists ∙ fit.same_len;
        fuelled = omega arith;
        enough = All-mono _ _ (λ r lt. omega (arith, lt)) _ shorter;
      }

  dedupe_round-Returns :
      (next : Engine W → Run W) (fuel : ℕ) (e : Engine W) (c : DedupeCtxt) (s : Submitted W)
      → submit k fds fuel (record e { ctxt = c }) ≡ s
      → Comes
          (λ e'.
            Returns orig_len (next (record e' { ctxt = process_dedupes e'.fs_blocksize e'.ctxt })))
          s
      → Returns orig_len (dedupe_round k fds next fuel e c)
  unfolding dedupe_round
  dedupe_round-Returns next fuel e c (answered e') h r = rw (h, dedupe_round) r
  dedupe_round-Returns next fuel e c (failed ret e') h r = rw (h, dedupe_round) (λ z. absurd (r z))
  dedupe_round-Returns next fuel e c stuck h r = absurd r

  Comes-mono :
      (P Q : Engine W → Type 0)
      → ((e : Engine W) → P e → Q e)
      → (s : Submitted W) → Comes P s
      → Comes Q s
  Comes-mono P Q f (answered e) h = f e h
  Comes-mono P Q f (failed ret e) h = h
  Comes-mono P Q f stuck h = h

  -- One round with requests queued, given the run of what is left.
  round-Returns :
      (fuel : ℕ) (e : Engine W)
      → ((e' : Engine W) → Fit orig_len fuel e' → Returns orig_len (dedupe_extents k fds fuel e'))
      → Fit orig_len (suc fuel) e
      → is_empty e.ctxt.queued ≡ false
      → Returns orig_len (
          dedupe_round k fds
            (dedupe_extents k fds fuel)
            (suc fuel)
            e
            (request fds e.fs_blocksize e.ctxt))
  round-Returns zero e more fit some_left = absurd (
      omega (
        arith,
        head_facts e.ctxt.orig_len e.ctxt.len 1 e.ctxt.queued some_left fit.lockstep.queued
            fit.enough,
      ))
  round-Returns (suc fuel) e more fit some_left =
      let c = request fds e.fs_blocksize e.ctxt in
      let (left, short, enough) =
        head_facts e.ctxt.orig_len e.ctxt.len (suc (suc fuel)) e.ctxt.queued some_left
          fit.lockstep.queued fit.enough in
      let small : e.ctxt.len < 2 ^ 32 = omega (arith, fit.lockstep.small, short) in
      let ready = request-Ready fds e.fs_blocksize e.ctxt fit.valid fit.idle fit.block left small in
      let back = submit-Back k fds ok fuel (record e { ctxt = c }) ready fit.block left small in
      dedupe_round-Returns _ (suc (suc fuel)) e c _ refl
        (Comes-mono _ _ (λ e' b. more _ (next-Fit (suc fuel) e e' fit left short enough b)) _ back)

  dedupe_extents-Returns :
      (fuel : ℕ) (e : Engine W)
      → Fit orig_len fuel e
      → Returns orig_len (dedupe_extents k fds fuel e)
  unfolding dedupe_extents
  dedupe_extents-Returns zero e fit = absurd (omega (arith, fit.fuelled))
  dedupe_extents-Returns (suc fuel) e fit =
      let more = dedupe_extents-Returns fuel in
      elim (Bool-cases (is_empty e.ctxt.queued)) [
        | inl none_left ↦
            rw (none_left, dedupe_extents)
              (λ _. (
                nil_of_is_empty e.ctxt.queued none_left,
                fit.idle,
                rw (← fit.same_len) fit.lockstep.completed,
              ))
        | inr some_left ↦
            rw
              (
                some_left,
                populate_dedupe_request_lem fds e.fs_blocksize e.ctxt fit.valid fit.idle,
                dedupe_extents,
              )
              (round-Returns fuel e more fit some_left)
      ]

  -- With a kernel that complies, from a valid context of less than 4 GiB with nothing under way,
  -- whose queued requests all lack the length that is left and whose completed ones are over,
  -- `dedupe_extents` returns within as many rounds as that length in bytes plus two. If it returns
  -- 0, no request is queued or under way, and each completed one was refused by the kernel or
  -- lacks less than one block (one byte, while the block size is not known) of the context's length.
  pub dedupe_extents_total :
      (fuel : ℕ) (e : Engine W)
      → IsValid e.ctxt
      → e.ctxt.in_progress ≡ []
      → IsBlocksize e.fs_blocksize
      → Lockstep e.fs_blocksize e.ctxt
      → e.ctxt.orig_len ≡ orig_len
      → e.ctxt.len + 2 ≤ fuel
      → Returns orig_len (dedupe_extents k fds fuel e)
  dedupe_extents_total fuel e v idle block lockstep same_len enough =
      dedupe_extents-Returns fuel e (record {
        valid = v;
        idle = idle;
        block = block;
        lockstep = lockstep;
        same_len = same_len;
        fuelled = omega arith;
        enough = every e.ctxt.queued enough;
      })
