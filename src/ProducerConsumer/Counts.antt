-- ===== src/ProducerConsumer/Counts.antt =====
-- The counters of examples/producer_consumer_example.cc.
use ring_buffer.Base.{
  ℕ, zero, suc, ◌+◌, ◌*◌, ◌≡◌, ◌≤◌, refl, Bool, true, List, [], ◌∷◌, some, get_elem?, set, All,
  All-get, All-set, total, total-set, arith,
}
use ring_buffer.Ring.{Ring}
use ring_buffer.ThreadSafe.{push_timed, pop_timed}
use ring_buffer.ThreadSafe.Threads.{System}
use ring_buffer.ProducerConsumer.{
  DataPacket, start, idles, enters, packet, Worker, Simulation, Step, Reach, num_producers,
  items_per_producer, producers_joined, producing, finished, consuming, gone, buffers, produces,
  stored, timed_out, finishes, asks, consumes, misses, leaves, terminates, watches, monitors, stops,
  reports, here, next,
}

-- The packets that a worker has stored, and whether it is a producer.
abbrev pub made : Worker → ℕ
made (producing n) = n
made finished = items_per_producer
made consuming = 0
made gone = 0

abbrev pub producer : Worker → ℕ
producer (producing n) = 1
producer finished = 1
producer consuming = 0
producer gone = 0

abbrev Within : Worker → Type 0
Within (producing n) = n ≤ items_per_producer
Within _ = Unit

pub made-joined :
    (ws : List Worker)
    → producers_joined ws ≡ true
    → total made ws ≡ items_per_producer * total producer ws
made-joined [] h = omega arith
made-joined (producing n ∷ ws) h = cc
made-joined (finished ∷ ws) h = omega (arith, made-joined ws h)
made-joined (consuming ∷ ws) h = omega (arith, made-joined ws h)
made-joined (gone ∷ ws) h = omega (arith, made-joined ws h)

-- No producer is in its loop after all have been joined.
joined-no_producer :
    (ws : List Worker) (i : ℕ) {n : ℕ}
    → producers_joined ws ≡ true
    → get_elem? ws i ≡ some (producing n)
    → ⊥
joined-no_producer [] i h e = cc
joined-no_producer (producing m ∷ ws) i h e = cc
joined-no_producer (w ∷ ws) zero h e = cc
joined-no_producer (finished ∷ ws) (suc i) h e = joined-no_producer ws i h e
joined-no_producer (consuming ∷ ws) (suc i) h e = joined-no_producer ws i h e
joined-no_producer (gone ∷ ws) (suc i) h e = joined-no_producer ws i h e

joined-gone :
    (ws : List Worker) (i : ℕ)
    → producers_joined ws ≡ true
    → producers_joined (set ws i gone) ≡ true
joined-gone [] i h = h
joined-gone (producing m ∷ ws) i h = cc
joined-gone (finished ∷ ws) zero h = h
joined-gone (consuming ∷ ws) zero h = h
joined-gone (gone ∷ ws) zero h = h
joined-gone (finished ∷ ws) (suc i) h = joined-gone ws i h
joined-gone (consuming ∷ ws) (suc i) h = joined-gone ws i h
joined-gone (gone ∷ ws) (suc i) h = joined-gone ws i h

-- What holds in every state of the program.
pub record IsCounted {ℓ} {V : Type ℓ} (s : Simulation V) : Type 0 where
  pub within : All Within s.workers
  pub three : total producer s.workers ≡ num_producers
  pub produced : s.total_produced ≡ total made s.workers
  pub stopped : s.stop_flag ≡ true → producers_joined s.workers ≡ true
  pub consumed : s.monitored ≡ true → num_producers * items_per_producer ≤ s.total_consumed
  pub done : s.reported ≡ true → (s.stop_flag ≡ true) × (s.monitored ≡ true)

module _ {ℓ} {V : Type ℓ} where
  pub start-IsCounted : (r : Ring (DataPacket V)) → IsCounted (start r)
  start-IsCounted r = record {
    within = (omega arith, (omega arith, (omega arith, (tt, (tt, tt)))));
    three = refl;
    produced = refl;
    stopped = λ f. cc;
    consumed = λ m. cc;
    done = λ r. cc;
  }

  -- A step that leaves the workers and the flags alone, and consumes no less.
  kept :
      {s : Simulation V} (sys : System (DataPacket V)) (n : ℕ) (z : Bool)
      → s.total_consumed ≤ n
      → IsCounted s
      → IsCounted (record s { system = sys; total_consumed = n; terminated = z })
  kept sys n z l c = record {
    within = c.within;
    three = c.three;
    produced = c.produced;
    stopped = c.stopped;
    consumed = λ m. omega (arith, c.consumed m);
    done = c.done;
  }

  Step-IsCounted : {s t : Simulation V} → Step s t → IsCounted s → IsCounted t
  Step-IsCounted {s} (buffers {sys} σ q z) c =
      kept sys s.total_consumed s.terminated (omega arith) c
  Step-IsCounted {s} (produces i n v e l h z) c =
      kept (enters s i (push_timed (packet i n v))) s.total_consumed s.terminated (omega arith) c
  Step-IsCounted {s} (stored i n e l h z) c = record {
    within = All-set Within s.workers i (producing (n + 1)) c.within (omega arith);
    three = omega (arith, c.three, total-set producer s.workers i (producing (n + 1)) e);
    produced = omega (arith, c.produced, total-set made s.workers i (producing (n + 1)) e);
    stopped = λ f. elim (joined-no_producer s.workers i (c.stopped f) e) [ ];
    consumed = c.consumed;
    done = c.done;
  }
  Step-IsCounted {s} (timed_out i n e h z) c =
      kept (idles s i) s.total_consumed s.terminated (omega arith) c
  Step-IsCounted {s} (finishes i n e l h z) c =
      let w : n ≤ items_per_producer = All-get Within s.workers i c.within e in
      record {
        within = All-set Within s.workers i finished c.within tt;
        three = omega (arith, c.three, total-set producer s.workers i finished e);
        produced = omega (arith, c.produced, total-set made s.workers i finished e);
        stopped = λ f. elim (joined-no_producer s.workers i (c.stopped f) e) [ ];
        consumed = c.consumed;
        done = c.done;
      }
  Step-IsCounted {s} (asks i e f h z) c =
      kept (enters s i pop_timed) s.total_consumed s.terminated (omega arith) c
  Step-IsCounted {s} (consumes i p e h z) c =
      kept (idles s i) (s.total_consumed + 1) s.terminated (omega arith) c
  Step-IsCounted {s} (misses i e h z) c =
      kept (idles s i) s.total_consumed s.terminated (omega arith) c
  Step-IsCounted {s} (leaves i e f h z) c = record {
    within = All-set Within s.workers i gone c.within tt;
    three = omega (arith, c.three, total-set producer s.workers i gone e);
    produced = omega (arith, c.produced, total-set made s.workers i gone e);
    stopped = λ f. joined-gone s.workers i (c.stopped f);
    consumed = c.consumed;
    done = c.done;
  }
  Step-IsCounted {s} (terminates i x h z) c = kept s.system s.total_consumed true (omega arith) c
  Step-IsCounted (watches l m z) c = c
  Step-IsCounted (monitors l z) c = record {
    within = c.within;
    three = c.three;
    produced = c.produced;
    stopped = c.stopped;
    consumed = λ m. l;
    done = λ r. ((c.done r).0, refl);
  }
  Step-IsCounted (stops j z) c = record {
    within = c.within;
    three = c.three;
    produced = c.produced;
    stopped = λ f. j;
    consumed = c.consumed;
    done = λ r. (refl, (c.done r).1);
  }
  Step-IsCounted (reports f j m z) c = record {
    within = c.within;
    three = c.three;
    produced = c.produced;
    stopped = c.stopped;
    consumed = c.consumed;
    done = λ r. (f, m);
  }

  pub Reach-IsCounted : {s t : Simulation V} → Reach s t → IsCounted s → IsCounted t
  Reach-IsCounted here c = c
  Reach-IsCounted (next r σ) c = Step-IsCounted σ (Reach-IsCounted r c)
