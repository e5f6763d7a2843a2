-- ===== src/Dedupe/Engine/Comply.antt =====
-- dedupe_extents over a kernel that does what ioctl_fideduperange(2) says: the loop ends, and every
-- request is either refused by the kernel or deduped to within a block of its end.
use Prim.Native.Nat.{max}
use duperemove.Prelude.{
  ℕ, ◌+◌, ◌-◌, ◌^◌, ◌≤◌, ◌<◌, ◌≡◌, ◌≢◌, ◌⊎◌, refl, ◌∙◌, List, [], ◌∷◌, not, ◌&&◌, arith, ◌==◌, ltb,
  leb, leb→le, if◌then◌else◌, get_or, Bool-cases, inl, inr, All, All-append, All-mono,
}
use duperemove.Prelude.Int.{ℤ, pos, ◌==ℤ◌, ==ℤ_iff}
use duperemove.Dedupe.{Info, zero_info, DedupeReq, DedupeCtxt}
use duperemove.Dedupe.Engine.{
  advance, retire, requeue, settle, process_loop, finish_round, process_dedupes, move_pointers,
  give_up,
}

-- A request of the three lists is settled: the kernel refused it, or less than a block is left.
abbrev pub Over : ℕ → ℕ → DedupeReq → Type 0
Over block orig_len r =
    (r.req_status ≢ pos 0) ⊎ ((r.req_total ≤ orig_len) × (orig_len < r.req_total + max block 1))

-- A queued request lags behind the end by `left` bytes.
abbrev pub Waits : ℕ → ℕ → DedupeReq → Type 0
Waits orig_len left r = (r.req_total + left ≡ orig_len) × (r.req_total < orig_len)

abbrev pub info_of : DedupeCtxt → ℕ → Info
info_of c i = get_or c.same.info i zero_info

-- The kernel's answer to one entry: `n` bytes, or a refusal.
abbrev pub Answered : ℕ → Info → Type 0
Answered n info = (info.bytes_deduped ≤ n) × (info.status ≡ pos 0 → info.bytes_deduped ≡ n)

-- Inside the loop: `n` is what the kernel dedupes, `m` the most that was seen so far.
pub record Looping (block n : ℕ) (c : DedupeCtxt) (m : ℕ) (q : List DedupeReq) : Type 0 where
  pub some_bytes : 0 < n
  pub fits : n ≤ c.len
  pub short : c.len ≤ c.orig_len
  pub small : c.orig_len < 2 ^ 32
  pub seen : m ≤ n
  pub queued : All (λ r. Waits c.orig_len (c.len - n) r × (m ≡ n)) c.queued
  pub completed : All (Over block c.orig_len) c.completed
  pub waiting : All (λ r. Waits c.orig_len c.len r × Answered n (info_of c r.req_idx)) q

abbrev larger : ℕ → ℕ → ℕ
larger m b = if ltb m b then b else m

larger_seen :
    (m b n : ℕ)
    → m ≤ n
    → b ≤ n
    → (larger m b ≤ n) × (m ≡ n → larger m b ≡ n) × (b ≡ n → larger m b ≡ n)
larger_seen m b n h k = (ground arith, λ e. ground arith, λ e. ground arith)

module _ {block n m : ℕ} {c : DedupeCtxt} {req : DedupeReq} {rest : List DedupeReq}
    (l : Looping block n c m (req ∷ rest)) where
  open l use {some_bytes, fits, short, small, seen, queued, completed, waiting}

  bytes : ℕ
  bytes = (info_of c req.req_idx).bytes_deduped

  total_advance :
      (info_of c req.req_idx).status ≡ pos 0 → (advance req bytes).req_total ≡ req.req_total + n
  unfolding advance bytes
  total_advance h = let (w, (le, same)) = waiting.0 in omega (arith, same h, w.0)

  mine : (bytes ≤ n) × ((info_of c req.req_idx).status ≡ pos 0 → bytes ≡ n)
  unfolding bytes
  mine = waiting.0.1

  kept-Waits : All (λ r. Waits c.orig_len (c.len - n) r × (larger m bytes ≡ n)) c.queued
  kept-Waits =
      All-mono _ _ (λ r (w, e). (w, (larger_seen m bytes n seen mine.0).1 e)) c.queued queued

  retire-Looping :
      (status : ℤ)
      → Over block c.orig_len (record (advance req bytes) { req_status = status })
      → Looping block n (retire c (advance req bytes) status rest) (larger m bytes) rest
  unfolding retire
  retire-Looping status over = record {
    some_bytes = some_bytes;
    fits = fits;
    short = short;
    small = small;
    seen = (larger_seen m bytes n seen mine.0).0;
    queued = kept-Waits;
    completed = All-append (Over block c.orig_len) c.completed _ completed (over, tt);
    waiting = waiting.1;
  }

  requeue-Looping :
      (info_of c req.req_idx).status ≡ pos 0
      → (advance req bytes).req_total < c.orig_len
      → Looping block n (requeue c (advance req bytes) rest) (larger m bytes) rest
  unfolding requeue
  requeue-Looping good lt =
      let here : Waits c.orig_len (c.len - n) (advance req bytes) =
        (omega (arith, total_advance good, waiting.0.0.0, fits), lt) in
      record {
        some_bytes = some_bytes;
        fits = fits;
        short = short;
        small = small;
        seen = (larger_seen m bytes n seen mine.0).0;
        queued =
            All-append _ c.queued _ kept-Waits
              ((here, (larger_seen m bytes n seen mine.0).2 (mine.1 good)), tt);
        completed = completed;
        waiting = waiting.1;
      }

  settle-Looping : Looping block n (settle c req rest) (larger m bytes) rest
  unfolding settle bytes
  settle-Looping =
      let info : Info = info_of c req.req_idx in
      elim (Bool-cases (info.status ==ℤ pos 0)) [
        | inr refused ↦ rw refused (retire-Looping info.status (inl (λ z. ground (arith, z))))
        | inl good ↦
            let fine : info.status ≡ pos 0 = (==ℤ_iff info.status (pos 0)).0 good in
            elim (Bool-cases (leb c.orig_len (advance req bytes).req_total)) [
              | inl end ↦
                  rw (good, end)
                    (retire-Looping info.status (
                      inr (
                        omega (arith, total_advance fine, waiting.0.0.0, fits),
                        omega (arith, leb→le _ _ end),
                      )))
              | inr more ↦ rw (good, more) (requeue-Looping fine (ground (arith, more)))
            ]
      ]

len-process_loop :
    (c : DedupeCtxt) (m : ℕ) (q : List DedupeReq) → (process_loop c m q).0.len ≡ c.len
unfolding process_loop settle retire requeue
len-process_loop c m [] = refl
len-process_loop c m (req ∷ rest) = len-process_loop (settle c req rest) _ rest ∙ ground arith

process_loop-Looping :
    {block n : ℕ} (c : DedupeCtxt) (m : ℕ) (q : List DedupeReq)
    → Looping block n c m q
    → Looping block n (process_loop c m q).0 (process_loop c m q).1 []
unfolding process_loop bytes
process_loop-Looping c m [] l = l
process_loop-Looping c m (req ∷ rest) l =
    process_loop-Looping (settle c req rest) _ rest (settle-Looping l)

-- Between two rounds.
pub record Lockstep (block : ℕ) (c : DedupeCtxt) : Type 0 where
  pub small : c.orig_len < 2 ^ 32
  pub queued : All (Waits c.orig_len c.len) c.queued
  pub completed : All (Over block c.orig_len) c.completed

-- What is queued after a round has less left than before.
abbrev pub Shorter : ℕ → DedupeCtxt → Type 0
Shorter len d = All (λ (_ : DedupeReq). d.len < len) d.queued

module _ {block n m : ℕ} {c : DedupeCtxt} (l : Looping block n c m []) where
  open l use {some_bytes, fits, short, small, seen, queued, completed}

  moved :
      (r : DedupeReq)
      → Waits c.orig_len (c.len - n) r
      → m ≡ n
      → Waits c.orig_len (move_pointers c m).len r
  unfolding move_pointers
  moved r w e = omega (arith, w, e, fits, short, small)

  lower : m ≡ n → (move_pointers c m).len < c.len
  unfolding move_pointers
  lower e = omega (arith, e, fits, short, small, some_bytes)

  give_up-Over :
      (r : DedupeReq)
      → (move_pointers c m).len < block
      → Waits c.orig_len (move_pointers c m).len r
      → Over block c.orig_len r
  give_up-Over r lt w = inr (omega (arith, w), omega (arith, w, lt))

  move_pointers-Lockstep : Lockstep block (move_pointers c m) × Shorter c.len (move_pointers c m)
  unfolding move_pointers
  move_pointers-Lockstep = (
    record {
      small = small;
      queued = All-mono _ _ (λ r (w, e). moved r w e) c.queued queued;
      completed = completed;
    },
    All-mono _ _ (λ r (w, e). lower e) c.queued queued,
  )

  give_up-Lockstep :
      (move_pointers c m).len < block
      → Lockstep block (give_up (move_pointers c m)) × Shorter c.len (give_up (move_pointers c m))
  unfolding move_pointers give_up
  give_up-Lockstep lt =
      let h = move_pointers-Lockstep in
      (
        record {
          small = small;
          queued = tt;
          completed =
              All-append (Over block c.orig_len) c.queued c.completed
                (All-mono _ _ (λ r w. give_up-Over r lt w) c.queued h.0.queued) completed;
        },
        tt,
      )

  finish_round-Lockstep :
      Lockstep block (finish_round block c m) × Shorter c.len (finish_round block c m)
  unfolding finish_round
  finish_round-Lockstep =
      elim (Bool-cases (not (block == 0) && ltb (move_pointers c m).len block)) [
        | inl e ↦ rw e (give_up-Lockstep (ground (arith, e)))
        | inr e ↦ rw e move_pointers-Lockstep
      ]

pub process_dedupes-Lockstep :
    {block n : ℕ} {c : DedupeCtxt}
    → Looping block n c 0 c.in_progress
    → Lockstep block (process_dedupes block c) × Shorter c.len (process_dedupes block c)
unfolding process_dedupes
process_dedupes-Lockstep {block} {c} l =
    let (lockstep, shorter) = finish_round-Lockstep (process_loop-Looping c 0 c.in_progress l) in
    (
      lockstep,
      All-mono _ _ (λ r lt. omega (arith, len-process_loop c 0 c.in_progress, lt)) _ shorter,
    )
