-- ===== src/ProducerConsumer/Results.antt =====
-- When examples/producer_consumer_example.cc prints its results.
use ring_buffer.Base.{
  ◌+◌, ◌∙◌, sym, ℕ, ◌*◌, ◌≡◌, ◌<◌, refl, Bool-cases, inl, inr, Bool, true, false, List, [], ◌∷◌,
  zero, suc, some, get_elem?, set, arith,
}
use ring_buffer.Ring.{Ring}
use ring_buffer.ThreadSafe.Threads.{System}
use ring_buffer.ThreadSafe.{push_timed}
use ring_buffer.ProducerConsumer.{
  enters, idles, packet, DataPacket, start, Worker, Simulation, Step, Reach, num_producers,
  items_per_producer, consumers_joined, producers_joined, producing, finished, consuming, gone,
  buffers, produces, stored, timed_out, finishes, asks, consumes, misses, leaves, terminates,
  watches, monitors, stops, reports, here, next,
}
use ring_buffer.ProducerConsumer.Places.{given-joined}
use ring_buffer.ProducerConsumer.Balance.{start-IsBalanced, Reach-IsBalanced}
use ring_buffer.ProducerConsumer.Counts.{made-joined, start-IsCounted, Reach-IsCounted}

-- No consumer comes back.
joined-no_consumer :
    (ws : List Worker) (i : ℕ) → consumers_joined ws ≡ true → get_elem? ws i ≡ some consuming → ⊥
joined-no_consumer [] i h e = cc
joined-no_consumer (consuming ∷ ws) i h e = cc
joined-no_consumer (w ∷ ws) zero h e = cc
joined-no_consumer (producing n ∷ ws) (suc i) h e = joined-no_consumer ws i h e
joined-no_consumer (finished ∷ ws) (suc i) h e = joined-no_consumer ws i h e
joined-no_consumer (gone ∷ ws) (suc i) h e = joined-no_consumer ws i h e

-- A worker that is no consumer in its loop does not matter.
joined-cons :
    (w : Worker) (ws : List Worker)
    → consumers_joined (w ∷ []) ≡ true
    → consumers_joined ws ≡ true
    → consumers_joined (w ∷ ws) ≡ true
joined-cons (producing n) ws k h = h
joined-cons finished ws k h = h
joined-cons consuming ws k h = cc
joined-cons gone ws k h = h

consumers_joined-set :
    (ws : List Worker) (i : ℕ) (w : Worker)
    → consumers_joined (w ∷ []) ≡ true
    → consumers_joined ws ≡ true
    → consumers_joined (set ws i w) ≡ true
consumers_joined-set [] i w k h = h
consumers_joined-set (consuming ∷ ws) i w k h = cc
consumers_joined-set (v ∷ ws) zero w k h = joined-cons w ws k h
consumers_joined-set (producing n ∷ ws) (suc i) w k h = consumers_joined-set ws i w k h
consumers_joined-set (finished ∷ ws) (suc i) w k h = consumers_joined-set ws i w k h
consumers_joined-set (gone ∷ ws) (suc i) w k h = consumers_joined-set ws i w k h

module _ {ℓ} {V : Type ℓ} where
  -- The program runs from its start at an empty buffer, however its threads interleave, where what a
  -- call does without the mutex is one step. If it has printed its results, all producers have returned
  -- and it has counted exactly 3000 packets as produced and exactly 3000 as consumed, and the buffer is
  -- empty.
  pub results :
      {r : Ring (DataPacket V)} {t : Simulation V}
      → r.count ≡ 0
      → Reach (start r) t
      → t.reported ≡ true
      → (producers_joined t.workers ≡ true)
        × (t.total_produced ≡ num_producers * items_per_producer)
        × (t.total_consumed ≡ num_producers * items_per_producer)
        × (t.system.ring.count ≡ 0)
  results {r} {t} empty run p =
      let c = Reach-IsCounted run (start-IsCounted r) in
      let b = Reach-IsBalanced run (start-IsBalanced r empty) in
      let (f, m) = c.done p in
      let joined = c.stopped f in
      let made_all = made-joined t.workers joined in
      let none_given = given-joined t.workers t.system.threads joined b.fit in
      (
        joined,
        omega (arith, c.produced, c.three, made_all),
        omega (arith, c.produced, c.three, made_all, c.consumed m, b.owed, none_given),
        omega (arith, c.produced, c.three, made_all, c.consumed m, b.owed, none_given),
      )

  -- The consumers have returned too early, and the monitor is in its loop.
  record IsStuck (s : Simulation V) : Type 0 where
    pub joined : consumers_joined s.workers ≡ true
    pub short : s.total_consumed < num_producers * items_per_producer
    pub unmonitored : s.monitored ≡ false
    pub unreported : s.reported ≡ false

  -- A worker becomes one that is no consumer in its loop, or nothing the monitor reads changes.
  moved :
      {s : Simulation V} (sys : System (DataPacket V)) (i : ℕ) (w : Worker) (n : ℕ)
      → consumers_joined (w ∷ []) ≡ true
      → IsStuck s
      → IsStuck (record s { system = sys; workers = set s.workers i w; total_produced = n })
  moved {s} sys i w n k h = record {
    joined = consumers_joined-set s.workers i w k h.joined;
    short = h.short;
    unmonitored = h.unmonitored;
    unreported = h.unreported;
  }

  same :
      {s : Simulation V} (sys : System (DataPacket V)) (f z : Bool)
      → IsStuck s
      → IsStuck (record s { system = sys; stop_flag = f; terminated = z })
  same sys f z h = record {
    joined = h.joined;
    short = h.short;
    unmonitored = h.unmonitored;
    unreported = h.unreported;
  }

  nobody_consumes :
      {s : Simulation V} (i : ℕ) {P : Type 0}
      → IsStuck s
      → get_elem? s.workers i ≡ some consuming
      → P
  nobody_consumes {s} i h e = absurd (joined-no_consumer s.workers i h.joined e)

  Step-IsStuck : {s t : Simulation V} → Step s t → IsStuck s → IsStuck t
  Step-IsStuck {s} (buffers {sys} σ q z) h = same sys s.stop_flag s.terminated h
  Step-IsStuck {s} (produces i n v e l e' z) h =
      same (enters s i (push_timed (packet i n v))) s.stop_flag s.terminated h
  Step-IsStuck {s} (stored i n e l e' z) h =
      moved (idles s i) i (producing (n + 1)) (s.total_produced + 1) refl h
  Step-IsStuck {s} (timed_out i n e e' z) h = same (idles s i) s.stop_flag s.terminated h
  Step-IsStuck {s} (finishes i n e l e' z) h = moved s.system i finished s.total_produced refl h
  Step-IsStuck (asks i e f e' z) h = nobody_consumes i h e
  Step-IsStuck (consumes i p e e' z) h = nobody_consumes i h e
  Step-IsStuck (misses i e e' z) h = nobody_consumes i h e
  Step-IsStuck (leaves i e f e' z) h = nobody_consumes i h e
  Step-IsStuck {s} (terminates i x e z) h = same s.system s.stop_flag true h
  Step-IsStuck (watches l m z) h = h
  Step-IsStuck (monitors l z) h = absurd (omega (arith, h.short))
  Step-IsStuck {s} (stops j z) h = same s.system true s.terminated h
  Step-IsStuck (reports f j m z) h = let clash : true ≡ false = sym m ∙ h.unmonitored in cc

  Reach-IsStuck : {s t : Simulation V} → Reach s t → IsStuck s → IsStuck t
  Reach-IsStuck here h = h
  Reach-IsStuck (next r σ) h = Step-IsStuck σ (Reach-IsStuck r h)

  -- The program runs from its start, where what a call does without the mutex is one step, to a state
  -- where all consumers have returned, with fewer than 3000 packets counted as consumed. Then after any
  -- further steps the monitor has not returned and the results are not printed.
  pub never_reported :
      {r : Ring (DataPacket V)} {s t : Simulation V}
      → Reach (start r) s
      → consumers_joined s.workers ≡ true
      → s.total_consumed < num_producers * items_per_producer
      → Reach s t
      → (t.monitored ≡ false) × (t.reported ≡ false)
  never_reported {r} {s} before j l after =
      let c = Reach-IsCounted before (start-IsCounted r) in
      let waiting : s.monitored ≡ false = elim (Bool-cases s.monitored) [
        | inl m ↦ absurd (omega (arith, c.consumed m, l))
        | inr m ↦ m
      ] in
      let unprinted : s.reported ≡ false = elim (Bool-cases s.reported) [
        | inl p ↦ absurd (omega (arith, c.consumed (c.done p).1, l))
        | inr p ↦ p
      ] in
      let stuck : IsStuck s = record {
        joined = j;
        short = l;
        unmonitored = waiting;
        unreported = unprinted;
      } in
      let end = Reach-IsStuck after stuck in (end.unmonitored, end.unreported)
