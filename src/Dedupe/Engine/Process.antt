-- ===== src/Dedupe/Engine/Process.antt =====
-- process_dedupes: every request under way is either over or queued again.
use duperemove.Prelude.{
  ℕ, ◌≡◌, refl, ap, ◌∙◌, List, [], ◌∷◌, not, ◌||◌, ◌&&◌, arith, ◌==◌, ltb, leb, length-append,
  get_or, Bool-cases, inl, inr, All-append,
}
use duperemove.Prelude.Int.{ℤ, pos, ◌==ℤ◌}
use duperemove.Dedupe.{Info, zero_info, DedupeReq, DedupeCtxt}
use duperemove.Dedupe.Engine.{
  advance, move_pointers, give_up, retire, requeue, settle, process_loop, finish_round,
  process_dedupes,
}
use duperemove.Dedupe.Valid.{count-append, first_off-advance, IsWord, IsValid, size, held, is_for}

-- What a context keeps through a round: its bag of requests, and its limits.
pub record Keeps (c d : DedupeCtxt) : Type 0 where
  pub orig_len : d.orig_len ≡ c.orig_len
  pub max_queable : d.max_queable ≡ c.max_queable
  pub same_size : d.same_size ≡ c.same_size
  pub held : (file off : ℕ) → held d file off ≡ held c file off
  pub size : size d ≡ size c

settle_cases {ℓ} :
    (P : DedupeCtxt → Type ℓ) (c : DedupeCtxt) (req : DedupeReq) (rest : List DedupeReq)
    → ((n : ℕ) (status : ℤ) → P (retire c (advance req n) status rest))
    → ((n : ℕ) → P (requeue c (advance req n) rest))
    → P (settle c req rest)
unfolding settle
settle_cases P c req rest over again =
    let info : Info = get_or c.same.info req.req_idx zero_info in
    let n = info.bytes_deduped in
    elim (Bool-cases (not (info.status ==ℤ pos 0) || leb c.orig_len (advance req n).req_total)) [
      | inl e ↦ rw e (over n info.status)
      | inr e ↦ rw e (again n)
    ]

module _ (c : DedupeCtxt) (req : DedupeReq) (rest : List DedupeReq) (n : ℕ)
    (mine : c.in_progress ≡ req ∷ rest) (w : IsWord req) where
  for-advance : (file off : ℕ) → is_for file off (advance req n) ≡ is_for file off req
  unfolding advance
  for-advance file off =
      ap (λ o. (req.req_file == file) && (o == off))
        (first_off-advance req.req_loff req.req_total n w)

  retire-Keeps : (status : ℤ) → Keeps c (retire c (advance req n) status rest)
  unfolding retire held size advance
  retire-Keeps status = record {
    orig_len = refl;
    max_queable = refl;
    same_size = refl;
    held = λ file off.
        rw (mine, count-append file off c.completed) (rw (for-advance file off) (omega arith));
    size = rw mine (omega (arith, length-append {0}));
  }

  requeue-Keeps : Keeps c (requeue c (advance req n) rest)
  unfolding requeue held size advance
  requeue-Keeps = record {
    orig_len = refl;
    max_queable = refl;
    same_size = refl;
    held = λ file off.
        rw (mine, count-append file off c.queued) (rw (for-advance file off) (omega arith));
    size = rw mine (omega (arith, length-append {0}));
  }

  advance-IsWord : IsWord (advance req n)
  unfolding advance
  advance-IsWord = omega arith

  retire-IsValid : (status : ℤ) → IsValid c → IsValid (retire c (advance req n) status rest)
  unfolding retire
  retire-IsValid status v = record {
    buffer = v.buffer;
    few = v.few;
    room = omega (arith, (retire-Keeps status).size, v.room);
    queued_words = v.queued_words;
    in_progress_words = (rw mine at v.in_progress_words).1;
    completed_words = All-append IsWord c.completed _ v.completed_words (advance-IsWord, tt);
  }

  requeue-IsValid : IsValid c → IsValid (requeue c (advance req n) rest)
  unfolding requeue
  requeue-IsValid v = record {
    buffer = v.buffer;
    few = v.few;
    room = omega (arith, requeue-Keeps.size, v.room);
    queued_words = All-append IsWord c.queued _ v.queued_words (advance-IsWord, tt);
    in_progress_words = (rw mine at v.in_progress_words).1;
    completed_words = v.completed_words;
  }

pub Keeps-trans : {c d e : DedupeCtxt} → Keeps c d → Keeps d e → Keeps c e
Keeps-trans k l = record {
  orig_len = l.orig_len ∙ k.orig_len;
  max_queable = l.max_queable ∙ k.max_queable;
  same_size = l.same_size ∙ k.same_size;
  held = λ file off. l.held file off ∙ k.held file off;
  size = l.size ∙ k.size;
}

pub Keeps-refl : (c : DedupeCtxt) → Keeps c c
Keeps-refl c = record {
  orig_len = refl;
  max_queable = refl;
  same_size = refl;
  held = λ file off. refl;
  size = refl;
}

-- The state between two rounds: nothing is under way.
pub record Settled (c d : DedupeCtxt) : Type 0 where
  pub keeps : Keeps c d
  pub valid : IsValid d
  pub idle : d.in_progress ≡ []

abbrev Rest : DedupeCtxt → List DedupeReq → DedupeCtxt → Type 0
Rest c rest d = Keeps c d × IsValid d × (d.in_progress ≡ rest)

settle-Rest :
    (c : DedupeCtxt) (req : DedupeReq) (rest : List DedupeReq)
    → c.in_progress ≡ req ∷ rest
    → IsValid c
    → Rest c rest (settle c req rest)
settle-Rest c req rest mine v =
    let w : IsWord req = (rw mine at v.in_progress_words).0 in
    settle_cases (Rest c rest) c req rest
      (λ n status. (
        retire-Keeps c req rest n mine w status,
        retire-IsValid c req rest n mine w status v,
        unfold retire in refl,
      ))
      (λ n. (
        requeue-Keeps c req rest n mine w,
        requeue-IsValid c req rest n mine w v,
        unfold requeue in refl,
      ))

process_loop-Settled :
    (c : DedupeCtxt) (m : ℕ) (q : List DedupeReq)
    → c.in_progress ≡ q
    → IsValid c
    → Settled c (process_loop c m q).0
unfolding process_loop
process_loop-Settled c m [] mine v = record { keeps = Keeps-refl c; valid = v; idle = mine }
process_loop-Settled c m (req ∷ rest) mine v =
    let (k, v', e) = settle-Rest c req rest mine v in
    let s = process_loop-Settled (settle c req rest) _ rest e v' in
    record { keeps = Keeps-trans k s.keeps; valid = s.valid; idle = s.idle }

move_pointers-Settled :
    (c : DedupeCtxt) (m : ℕ) → IsValid c → c.in_progress ≡ [] → Settled c (move_pointers c m)
unfolding move_pointers held size
move_pointers-Settled c m v idle = record {
  keeps = record {
    orig_len = refl;
    max_queable = refl;
    same_size = refl;
    held = λ file off. refl;
    size = refl;
  };
  valid = record {
    buffer = v.buffer;
    few = v.few;
    room = v.room;
    queued_words = v.queued_words;
    in_progress_words = v.in_progress_words;
    completed_words = v.completed_words;
  };
  idle = idle;
}

give_up-Settled : (c : DedupeCtxt) → IsValid c → c.in_progress ≡ [] → Settled c (give_up c)
unfolding give_up held size
give_up-Settled c v idle =
    let kept : size (give_up c) ≡ size c = omega (arith, length-append c.queued c.completed) in
    record {
      keeps = record {
        orig_len = refl;
        max_queable = refl;
        same_size = refl;
        held = λ file off. omega (arith, count-append file off c.queued c.completed);
        size = kept;
      };
      valid = record {
        buffer = v.buffer;
        few = v.few;
        room = omega (arith, kept, v.room);
        queued_words = tt;
        in_progress_words = v.in_progress_words;
        completed_words = All-append IsWord c.queued c.completed v.queued_words v.completed_words;
      };
      idle = idle;
    }

Settled-trans : {c d e : DedupeCtxt} → Settled c d → Settled d e → Settled c e
Settled-trans s t = record { keeps = Keeps-trans s.keeps t.keeps; valid = t.valid; idle = t.idle }

finish_round-Settled :
    (fs_blocksize : ℕ) (c : DedupeCtxt) (m : ℕ)
    → IsValid c
    → c.in_progress ≡ []
    → Settled c (finish_round fs_blocksize c m)
unfolding finish_round
finish_round-Settled n c m v idle =
    let s = move_pointers-Settled c m v idle in
    elim (Bool-cases (not (n == 0) && ltb (move_pointers c m).len n)) [
      | inl e ↦ rw e (Settled-trans s (give_up-Settled (move_pointers c m) s.valid s.idle))
      | inr e ↦ rw e s
    ]

-- Whatever the kernel answered, `process_dedupes` leaves no request under way, and loses, doubles
-- or invents none: for each file and offset the context holds as many requests that began there as
-- before. It keeps the context's limits.
pub process_dedupes-Settled :
    (fs_blocksize : ℕ) (c : DedupeCtxt) → IsValid c → Settled c (process_dedupes fs_blocksize c)
unfolding process_dedupes
process_dedupes-Settled n c v =
    let (c', m) = process_loop c 0 c.in_progress in
    let s = process_loop-Settled c 0 c.in_progress refl v in
    Settled-trans s (finish_round-Settled n c' m s.valid s.idle)
