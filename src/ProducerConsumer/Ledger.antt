-- ===== src/ProducerConsumer/Ledger.antt =====
-- The packets in the buffer and on their way in examples/producer_consumer_example.cc, also where threads
-- race in the two calls that release the mutex early.
use ring_buffer.Base.{
  ℕ, ◌+◌, ◌≡◌, ◌≤◌, ◌∙◌, refl, sym, Bool, true, false, List, some, get_elem?, set, total, total-set,
  total-map, arith,
}
use ring_buffer.Result.{Result, ok, throw, fault, bind-returns}
use ring_buffer.Ring
use ring_buffer.Ring.{Ring}
use ring_buffer.Ring.Valid.{count-push_back, count-pop_front}
use ring_buffer.ThreadSafe.{
  raised, Call, Answer, Cv, Rest, Signal, attempt, finish_rest, take, push_timed, pop_timed,
  push_rest, pop_rest, flag, value, not_full, not_empty, finish,
}
use ring_buffer.ThreadSafe.Threads
use ring_buffer.ThreadSafe.Threads.{
  returning, Pc, Signals, System, wake_all, idle, ready, asleep, unlocked, answered, moves, ends,
  sleeps, unlocks, goes_on, starts, wakes, expires, returns, quiet, woken, nobody, everybody,
}
use ring_buffer.ThreadSafe.History.{rest_call}
use ring_buffer.ProducerConsumer.{DataPacket, Worker, producing, consuming}
use ring_buffer.ProducerConsumer.Places.{makes, storing, told, given, Fits, unlock-rest_call}
use ring_buffer.ThreadSafe.Places.{AllFit, AllFit-thread, AllFit-get, AllFit-Signals}

module _ {ℓ} {A : Type ℓ} where
  abbrev got : Answer A → ℕ
  got (value x) = 1
  got _ = 0

  abbrev pub held : Pc A → ℕ
  held (answered a) = got a
  held _ = 0

  -- A measure of the threads that only their answers count for does not change when one wakes up.
  module _ (weight : Pc A → ℕ) (before : (late : Bool) (c : Call A) → weight (ready late c) ≡ 0)
      (during : (v : Cv) (c : Call A) → weight (asleep v c) ≡ 0) where
    weight-wake_all : (v : Cv) (p : Pc A) → weight (wake_all v p) ≡ weight p
    weight-wake_all not_full (asleep not_full c) = before false c ∙ sym (during not_full c)
    weight-wake_all not_empty (asleep not_empty c) = before false c ∙ sym (during not_empty c)
    weight-wake_all not_full (asleep not_empty c) = refl
    weight-wake_all not_empty (asleep not_full c) = refl
    weight-wake_all not_full idle = refl
    weight-wake_all not_empty idle = refl
    weight-wake_all not_full (ready late c) = refl
    weight-wake_all not_empty (ready late c) = refl
    weight-wake_all not_full (unlocked k) = refl
    weight-wake_all not_empty (unlocked k) = refl
    weight-wake_all not_full (answered a) = refl
    weight-wake_all not_empty (answered a) = refl

    total-Signals :
        {ts us : List (Pc A)} {sig : Signal} → Signals ts sig us → total weight us ≡ total weight ts
    total-Signals quiet = refl
    total-Signals {ts} (woken {v} j c e) =
        omega (arith, total-set weight ts j (ready false c) e, before false c, during v c)
    total-Signals (nobody h) = refl
    total-Signals {ts} (everybody {v}) = total-map weight (wake_all v) ts (weight-wake_all v)

  -- A thread that ends its call under the mutex has given up: it has stored and taken nothing.
  attempt-finish :
      (w : Worker) (late : Bool) (c : Call A) (r : Ring A) {r' : Ring A} {a : Answer A}
      {sig : Signal}
      → makes w c ≡ true
      → attempt late c r ≡ ok (finish r' a sig)
      → (r'.count ≡ r.count) × (told a ≡ 0) × (got a ≡ 0)
  unfolding attempt
  attempt-finish (producing n) late (push_timed x) r k e = ground arith
  attempt-finish consuming late pop_timed r k e = ground arith
  attempt-finish _ late c r k e = cc

  take-count :
      (r : Ring A) (res : Result (A × Ring A)) {r' : Ring A} {a : Answer A} {sig : Signal}
      → ((x : A) (r'' : Ring A) → res ≡ ok (x, r'') → r''.count + 1 ≡ r.count)
      → take r res ≡ ok (finish r' a sig)
      → r'.count + got a ≤ r.count + told a
  take-count r (ok (x, r'')) {r'} {a} h e =
      let answer : value x ≡ a = cc in
      let buffer : r'' ≡ r' = cc in
      let taken : r''.count + 1 ≡ r.count = h x r'' refl in ground arith
  take-count r (throw x) {r'} {a} h e = ground arith
  take-count r fault h e = cc

  -- What a thread does without the mutex stores at most one packet, or takes one.
  finish_rest-count :
      (k : Rest A) (r : Ring A) {r' : Ring A} {a : Answer A} {sig : Signal}
      → finish_rest k r ≡ ok (finish r' a sig)
      → r'.count + got a ≤ r.count + told a
  unfolding finish_rest
  finish_rest-count (push_rest x) r {r'} {a} e =
      let (r'', p, f) = bind-returns (Ring.push_back r x) _ e in
      let more : r''.count ≤ r.count + 1 = count-push_back r x p in
      let answer : flag true ≡ a = cc in let buffer : r'' ≡ r' = cc in ground arith
  finish_rest-count pop_rest r e =
      take-count r (Ring.pop_front r) (λ x r'' p. count-pop_front r p) e

  told-le : (a : Answer A) → told a ≤ 1
  told-le (flag true) = omega arith
  told-le (flag false) = omega arith
  told-le _ = omega arith

  told-take :
      (r : Ring A) (res : Result (A × Ring A)) {r' : Ring A} {a : Answer A} {sig : Signal}
      → take r res ≡ ok (finish r' a sig)
      → told a ≡ 0
  told-take r (ok (x, r'')) {a = a} e = let answer : value x ≡ a = cc in rw (sym answer) refl
  told-take r (throw x) {a = a} e = let answer : raised x ≡ a = cc in rw (sym answer) refl
  told-take r fault e = cc

  -- Only a producer gets the answer that a packet was stored.
  told-finish_rest :
      (w : Worker) (k : Rest A) (r : Ring A) {r' : Ring A} {a : Answer A} {sig : Signal}
      → makes w (rest_call k) ≡ true
      → finish_rest k r ≡ ok (finish r' a sig)
      → told a ≤ storing w
  unfolding finish_rest
  told-finish_rest (producing n) (push_rest x) r {a = a} h e = told-le a
  told-finish_rest consuming pop_rest r h e = omega (arith, told-take r (Ring.pop_front r) e)
  told-finish_rest _ k r h e = cc

  -- What was counted as consumed, is on its way out or is in the buffer, is no more than what was
  -- counted as produced or is about to be.
  pub record IsLedger (r : Ring A) (ws : List Worker) (ts : List (Pc A)) (produced consumed : ℕ)
      : Type ℓ where
    pub fit : AllFit Fits ws ts
    pub owed : consumed + total held ts + r.count ≤ produced + total given ts

  -- One thread goes from one place to another.
  pub replaced :
      {r : Ring A} {ws : List Worker} {ts : List (Pc A)} {p c q d : ℕ} (r' : Ring A) (i : ℕ)
      {old : Pc A} (new : Pc A)
      → get_elem? ts i ≡ some old
      → ((w : Worker) → get_elem? ws i ≡ some w → Fits w old → Fits w new)
      → d + held new + r'.count + p + given old ≤ c + held old + r.count + q + given new
      → IsLedger r ws ts p c
      → IsLedger r' ws (set ts i new) q d
  replaced {ws = ws} {ts} r' i new e k l h = record {
    fit = AllFit-thread Fits ws ts i new e k h.fit;
    owed = omega (arith, h.owed, l, total-set held ts i new e, total-set given ts i new e);
  }

  signalled :
      {r : Ring A} {ws : List Worker} {ts us : List (Pc A)} {sig : Signal} {p c : ℕ}
      → Signals ts sig us
      → IsLedger r ws ts p c
      → IsLedger r ws us p c
  signalled {ws = ws} g h = record {
    fit = AllFit-Signals Fits (λ w v c k. k) ws g h.fit;
    owed = omega (
      arith,
      h.owed,
      total-Signals held (λ late c. refl) (λ v c. refl) g,
      total-Signals given (λ late c. refl) (λ v c. refl) g,
    );
  }

module _ {ℓ} {V : Type ℓ} where
  -- The steps of the threads at the buffer keep it, whatever they race for.
  pub buffers-IsLedger :
      {s t : System (DataPacket V)} {ws : List Worker} {p c : ℕ} (σ : Threads.Step (λ d. false) s t)
      → returning σ ≡ false
      → IsLedger s.ring ws s.threads p c
      → IsLedger t.ring ws t.threads p c
  buffers-IsLedger (moves (starts i d k e)) q h = cc
  buffers-IsLedger {s} (moves (wakes i v d e)) q h =
      replaced s.ring i (ready false d) e (λ w _ k. k) (omega arith) h
  buffers-IsLedger {s} (moves (expires i v d k e)) q h =
      replaced s.ring i (ready true d) e (λ w _ m. m) (omega arith) h
  buffers-IsLedger (moves (returns i a e)) q h = cc
  buffers-IsLedger {s} {ws = ws} (ends i late d {r'} {a} e f g) q h =
      let (w, at, k) = AllFit-get Fits ws s.threads i h.fit e in
      let (n, m, l) = attempt-finish w late d s.ring k f in
      signalled g
        (replaced r' i (answered a) e (λ u _ _. omega (arith, m)) (omega (arith, n, m, l)) h)
  buffers-IsLedger {s} (sleeps i late d {v} e f) q h =
      replaced s.ring i (asleep v d) e (λ w _ k. k) (omega arith) h
  buffers-IsLedger {s} (unlocks i late d {k} e f) q h =
      replaced s.ring i (unlocked k) e (λ w _ m. unlock-rest_call w late d s.ring m f) (omega arith)
        h
  buffers-IsLedger {s} (goes_on i k {r'} {a} e f g) q h = signalled g (
      replaced r' i (answered a) e (λ w _ m. told-finish_rest w k s.ring m f)
        (omega (arith, finish_rest-count k s.ring f)) h)
