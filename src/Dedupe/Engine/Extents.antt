-- ===== src/Dedupe/Engine/Extents.antt =====
-- dedupe_extents over any kernel: no abort, and no request is lost.
use duperemove.Prelude.{
  ℕ, zero, suc, ◌≡◌, ◌≢◌, refl, ap, List, [], ◌∷◌, ◌&&◌, is_empty, arith, ◌==◌, length, get_or,
  Bool-cases, nil_of_is_empty, inl, inr, All,
}
use duperemove.Prelude.Int.{ℤ, pos, ◌==ℤ◌, ==ℤ_iff}
use duperemove.Dedupe.{zero_info, DedupeReq, DedupeCtxt, minus_einval}
use duperemove.Dedupe.Engine.{
  Kernel, Engine, Submitted, call, answered, failed, stuck, Run, finished, crashed, out_of_fuel,
  realign, submit, dedupe_round, dedupe_extents, process_dedupes,
}
use duperemove.Dedupe.Engine.Populate.{number, request, populate_dedupe_request_lem}
use duperemove.Dedupe.Engine.Process.{Keeps, Keeps-refl, Keeps-trans, process_dedupes-Settled}
use duperemove.Dedupe.Valid.{count, IsWord, IsValid, size, held}

count-number :
    (file off i : ℕ) (q : List DedupeReq) → count file off (number i q) ≡ count file off q
count-number file off i [] = refl
count-number file off i (r ∷ rs) = omega (arith, count-number file off (suc i) rs)

length-number : (i : ℕ) (q : List DedupeReq) → length (number i q) ≡ length q
length-number i [] = refl
length-number i (r ∷ rs) = ap suc (length-number (suc i) rs)

words-number : (i : ℕ) (q : List DedupeReq) → All IsWord q → All IsWord (number i q)
words-number i [] w = tt
words-number i (r ∷ rs) w = (w.0, words-number (suc i) rs w.1)

module _ (fds : ℕ → ℤ) (n : ℕ) (c : DedupeCtxt) (v : IsValid c) (idle : c.in_progress ≡ []) where
  pub request-Keeps : Keeps c (request fds n c)
  unfolding held size
  request-Keeps = record {
    orig_len = refl;
    max_queable = refl;
    same_size = refl;
    held = λ file off. rw idle (omega (arith, count-number file off 0 c.queued));
    size = rw idle (omega (arith, length-number 0 c.queued));
  }

  pub request-IsValid : IsValid (request fds n c)
  request-IsValid = record {
    buffer = v.buffer;
    few = v.few;
    room = omega (arith, request-Keeps.size, v.room);
    queued_words = tt;
    in_progress_words = words-number 0 c.queued v.queued_words;
    completed_words = v.completed_words;
  }

module _ {W : Type 0} (k : Kernel W) (fds : ℕ → ℤ) where
  pub data Leaves (P : Engine W → Type 0) : Submitted W → Type 0 where
    answers : {e : Engine W} → P e → Leaves P (answered e)
    fails : {ret : ℤ} {e : Engine W} → ret ≢ pos 0 → P e → Leaves P (failed ret e)
    runs_out : Leaves P stuck

  -- One pass of the retry loop: the call fails, is made again, or is answered.
  pub submit_cases {ℓ} :
      (P : Submitted W → Type ℓ) (fuel : ℕ) (e : Engine W)
      → ((call k fds e).0 ≢ pos 0 → P (failed (call k fds e).0 (call k fds e).1))
      → ((call k fds e).0 ≡ pos 0
          → e.fs_blocksize ≡ 0
          → P (submit k fds fuel (realign k fds (call k fds e).1)))
      → ((call k fds e).0 ≡ pos 0 → P (answered (call k fds e).1))
      → P (submit k fds (suc fuel) e)
  unfolding submit
  submit_cases P fuel e fail again answer =
      let (ret, e') = call k fds e in
      let info = get_or e'.ctxt.same.info 0 zero_info in
      elim (Bool-cases (ret ==ℤ pos 0)) [
        | inr bad ↦ rw bad (fail (λ z. ground (arith, z)))
        | inl good ↦
            let zero_ret = (==ℤ_iff ret (pos 0)).0 good in
            rw good (elim (Bool-cases (info.status ==ℤ minus_einval && e.fs_blocksize == 0)) [
              | inl t ↦ rw t (again zero_ret (ground (arith, t)))
              | inr f ↦ rw f (answer zero_ret)
            ])
      ]

  -- What the ioctl and the realignment keep, the retry loop keeps.
  pub submit_inv :
      (P : Engine W → Type 0)
      → ((e : Engine W) → P e → P (call k fds e).1)
      → ((e : Engine W) → P e → P (realign k fds e))
      → (fuel : ℕ) (e : Engine W) → P e
      → Leaves P (submit k fds fuel e)
  unfolding submit
  submit_inv P keep keep' zero e h = runs_out
  submit_inv P keep keep' (suc fuel) e h =
      let h' = keep e h in
      let again = submit_inv P keep keep' fuel _ (keep' (call k fds e).1 h') in
      submit_cases (Leaves P) fuel e (λ bad. fails bad h') (λ _ _. again) (λ _. answers h')

  -- Writing the request buffer touches no list.
  Under : DedupeCtxt → Engine W → Type 0
  Under c e = Keeps c e.ctxt × IsValid e.ctxt

  call-Under : (c : DedupeCtxt) (e : Engine W) → Under c e → Under c (call k fds e).1
  unfolding Under call held size
  call-Under c e (keeps, v) = (
    record {
      orig_len = keeps.orig_len;
      max_queable = keeps.max_queable;
      same_size = keeps.same_size;
      held = keeps.held;
      size = keeps.size;
    },
    record {
      buffer = v.buffer;
      few = v.few;
      room = v.room;
      queued_words = v.queued_words;
      in_progress_words = v.in_progress_words;
      completed_words = v.completed_words;
    },
  )

  realign-Under : (c : DedupeCtxt) (e : Engine W) → Under c e → Under c (realign k fds e)
  unfolding Under realign held size
  realign-Under c e (keeps, v) = (
    record {
      orig_len = keeps.orig_len;
      max_queable = keeps.max_queable;
      same_size = keeps.same_size;
      held = keeps.held;
      size = keeps.size;
    },
    record {
      buffer = v.buffer;
      few = v.few;
      room = v.room;
      queued_words = v.queued_words;
      in_progress_words = v.in_progress_words;
      completed_words = v.completed_words;
    },
  )

  -- A run that ends has lost no request, and one that ends well has settled them all.
  abbrev pub Ends : DedupeCtxt → Run W → Type 0
  Ends c (finished ret e) =
      Keeps c e.ctxt
      × IsValid e.ctxt
      × (ret ≡ pos 0 → (e.ctxt.queued ≡ []) × (e.ctxt.in_progress ≡ []))
  Ends c crashed = ⊥
  Ends c out_of_fuel = Unit

  Ends-trans : {c d : DedupeCtxt} (r : Run W) → Keeps c d → Ends d r → Ends c r
  Ends-trans (finished ret e) k (k', v, done) = (Keeps-trans k k', v, done)
  Ends-trans crashed k h = h
  Ends-trans out_of_fuel k h = tt

  dedupe_round-Ends :
      (next : Engine W → Run W)
      → ((e : Engine W) → IsValid e.ctxt → e.ctxt.in_progress ≡ [] → Ends e.ctxt (next e))
      → (fuel : ℕ) (e : Engine W) (c : DedupeCtxt) → IsValid c
      → Ends c (dedupe_round k fds next fuel e c)
  unfolding dedupe_round Under
  dedupe_round-Ends next more fuel e c v =
      go (submit k fds fuel (record e { ctxt = c }))
        (submit_inv (Under c) (call-Under c) (realign-Under c) fuel _ (Keeps-refl c, v))
    where
      go :
          (s : Submitted W)
          → Leaves (Under c) s
          → Ends c (elim s [
            | answered e' ↦ next (record e' { ctxt = process_dedupes e'.fs_blocksize e'.ctxt })
            | failed ret e' ↦ finished ret e'
            | stuck ↦ out_of_fuel
          ])
      go (answered e') (answers (keeps, v')) =
          let s = process_dedupes-Settled e'.fs_blocksize e'.ctxt v' in
          Ends-trans (next _) (Keeps-trans keeps s.keeps) (more _ s.valid s.idle)
      go (failed ret e') (fails bad (keeps, v')) = (keeps, v', λ z. absurd (bad z))
      go stuck runs_out = tt

  -- From a valid context with nothing under way, and with any kernel, `dedupe_extents` does not
  -- abort. If it returns, the context holds the same requests as before, by file and first offset,
  -- and is valid; if it returns 0, all of them are on the completed list.
  pub dedupe_extents-Ends :
      (fuel : ℕ) (e : Engine W)
      → IsValid e.ctxt
      → e.ctxt.in_progress ≡ []
      → Ends e.ctxt (dedupe_extents k fds fuel e)
  unfolding dedupe_extents
  dedupe_extents-Ends zero e v idle = tt
  dedupe_extents-Ends (suc fuel) e v idle =
      let more = dedupe_extents-Ends fuel in
      elim (Bool-cases (is_empty e.ctxt.queued)) [
        | inl none_left ↦
            rw (none_left, dedupe_extents)
              (Keeps-refl e.ctxt, v, λ _. (nil_of_is_empty e.ctxt.queued none_left, idle))
        | inr some_left ↦
            rw
              (
                some_left,
                populate_dedupe_request_lem fds e.fs_blocksize e.ctxt v idle,
                dedupe_extents,
              )
              (Ends-trans _ (request-Keeps fds e.fs_blocksize e.ctxt v idle) (
                dedupe_round-Ends (dedupe_extents k fds fuel) more (suc fuel) e _
                  (request-IsValid fds e.fs_blocksize e.ctxt v idle)))
      ]
