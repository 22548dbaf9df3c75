-- ===== src/ProducerConsumer/Outcomes.antt =====
-- How a run of examples/producer_consumer_example.cc can end.
use ring_buffer.Base.{
  ℕ, zero, suc, ◌+◌, ◌≡◌, ◌≤◌, ◌<◌, ◌≢◌, ◌∙◌, refl, sym, subst, ap, true, false, List, [], ◌∷◌,
  some, get_elem?, get_elem?-set_self, get_elem?-set_ne, length, lt-of-get_elem?, set, set-set,
  set-get_elem?, arith,
}
use ring_buffer.Ring.{Ring}
use ring_buffer.ProducerConsumer.{
  DataPacket, Worker, Simulation, Reach, start, items_per_producer, producing, finished, consuming,
  consumers_joined, finishes, leaves, monitors, stops, reports, here, next,
}
use ring_buffer.ProducerConsumer.Results.{never_reported}
use ring_buffer.ProducerConsumer.Run.{outside, running, IsThread, IsOpen, stores, takes}

module _ {ℓ} {V : Type ℓ} where
  -- A run to a state with those workers and counts and the buffer empty again.
  abbrev Comes : Simulation V → List Worker → ℕ → ℕ → Type ℓ
  Comes s ws p c = (r : Ring (DataPacket V)) × IsOpen r [] × Reach s (running r outside ws p c)

  recount :
      {s : Simulation V} {ws us : List Worker} {p q c d : ℕ}
      → ws ≡ us
      → p ≡ q
      → c ≡ d
      → Comes s ws p c
      → Comes s us q d
  recount {s} {us = us} {p} {q} {c} e f g come =
      subst (λ n. Comes s us q n) g
        (subst (λ n. Comes s us n c) f (subst (λ l. Comes s l p c) e come))

  first-IsThread : IsThread V 0
  first-IsThread = record {
    is_outside = refl;
    back_outside = refl;
    awake = λ a. (refl, (refl, (refl, (refl, (refl, tt)))));
  }

  second-IsThread : IsThread V 1
  second-IsThread = record {
    is_outside = refl;
    back_outside = refl;
    awake = λ a. (refl, (refl, (refl, (refl, (refl, tt)))));
  }

  third-IsThread : IsThread V 2
  third-IsThread = record {
    is_outside = refl;
    back_outside = refl;
    awake = λ a. (refl, (refl, (refl, (refl, (refl, tt)))));
  }

  consumer-IsThread : IsThread V 3
  consumer-IsThread = record {
    is_outside = refl;
    back_outside = refl;
    awake = λ a. (refl, (refl, (refl, (refl, (refl, tt)))));
  }

  -- A producer stores a packet, and the first consumer takes it.
  delivers :
      {s : Simulation V} {ws : List Worker} {p c : ℕ} (i n : ℕ) (v : V)
      → IsThread V i
      → i ≢ 3
      → get_elem? ws i ≡ some (producing n)
      → get_elem? ws 3 ≡ some consuming
      → n < items_per_producer
      → Comes s ws p c
      → Comes s (set ws i (producing (n + 1))) (p + 1) (c + 1)
  delivers {ws = ws} i n v t apart e e3 l (r, o, before) =
      let (r1, o1, stored) = stores i n v t e l o before in
      takes 3 _ consumer-IsThread (get_elem?-set_ne ws i 3 (producing (n + 1)) apart ∙ e3) o1 stored

  -- A producer and the first consumer do so `k` times.
  delivers_all :
      {s : Simulation V} {ws : List Worker} {p c : ℕ} (i k : ℕ) (v : V)
      → IsThread V i
      → i ≢ 3
      → get_elem? ws i ≡ some (producing 0)
      → get_elem? ws 3 ≡ some consuming
      → k ≤ items_per_producer
      → Comes s ws p c
      → Comes s (set ws i (producing k)) (p + k) (c + k)
  delivers_all {ws = ws} i zero v t apart e e3 l come =
      recount (sym (set-get_elem? ws i e)) (omega arith) (omega arith) come
  delivers_all {ws = ws} i (suc k) v t apart e e3 l come =
      let earlier = delivers_all i k v t apart e e3 (omega arith) come in
      let there = get_elem?-set_self ws i (producing k) (lt-of-get_elem? ws i e) in
      let consumer = get_elem?-set_ne ws i 3 (producing k) apart ∙ e3 in
      let last : producing (k + 1) ≡ producing (suc k) = ap producing (omega arith) in
      recount (set-set ws i (producing k) (producing (k + 1)) ∙ ap (set ws i) last) (omega arith)
        (omega arith) (delivers i k v t apart there consumer (omega arith) earlier)

  -- A producer that has stored all its packets returns.
  finishes_up :
      {s : Simulation V} (ws : List Worker) {p c : ℕ} (i : ℕ)
      → IsThread V i
      → i < length ws
      → Comes s (set ws i (producing items_per_producer)) p c
      → Comes s (set ws i finished) p c
  finishes_up {s} ws {p} {c} i t l (r, o, before) =
      let there = get_elem?-set_self ws i (producing items_per_producer) l in
      (
        r,
        o,
        subst (λ us. Reach s (running r outside us p c))
            (set-set ws i (producing items_per_producer) finished)
            (next before (finishes i items_per_producer there (omega arith) t.is_outside refl)),
      )

  -- A producer delivers all its packets and returns.
  works :
      {s : Simulation V} {ws : List Worker} {p c : ℕ} (i : ℕ) (v : V)
      → IsThread V i
      → i ≢ 3
      → get_elem? ws i ≡ some (producing 0)
      → get_elem? ws 3 ≡ some consuming
      → Comes s ws p c
      → Comes s (set ws i finished) (p + items_per_producer) (c + items_per_producer)
  works {ws = ws} i v t apart e e3 come =
      finishes_up ws i t (lt-of-get_elem? ws i e)
        (delivers_all i items_per_producer v t apart e e3 (omega arith) come)

  -- Two producers have delivered their packets.
  two_work :
      (r : Ring (DataPacket V)) (v : V)
      → IsOpen r []
      → Comes (start r) (finished ∷ finished ∷ producing 0 ∷ consuming ∷ consuming ∷ []) 2000 2000
  two_work r v o =
      works 1 v second-IsThread (omega arith) refl refl
        (works 0 v first-IsThread (omega arith) refl refl (r, o, here))

  -- Two producers have delivered, the third has kept its last packet back, and then stores it.
  all_stored :
      (r : Ring (DataPacket V)) (v : V)
      → IsOpen r []
      → (r' : Ring (DataPacket V)) × (r'.count ≡ 1)
        × Reach (start r) (
            running r' outside
              (finished ∷ finished ∷ finished ∷ consuming ∷ consuming ∷ [])
              3000
              2999)
  all_stored r v o =
      let (r1, o1, nearly) =
        delivers_all 2 999 v third-IsThread (omega arith) refl refl (omega arith)
          (two_work r v o) in
      let (r2, o2, stored) = stores 2 999 v third-IsThread refl (omega arith) o1 nearly in
      (r2, o2.represents.counted, next stored (finishes 2 1000 refl (omega arith) refl refl))

  -- From that state no steps bring the monitor to its end or print the results.
  pub record NeverReports (s : Simulation V) : Type ℓ where
    pub never : {t : Simulation V} → Reach s t → (t.monitored ≡ false) × (t.reported ≡ false)

  -- Five threads start outside an empty buffer with room for two packets, where what a call does without
  -- the mutex is one step. Some run prints the results, with 3000 packets counted as produced and as
  -- consumed. Another run, in which the consumers stand still from the last packet to the stop, comes to
  -- a state where all consumers have returned and one packet is left in the buffer, with 3000 packets
  -- counted as produced and 2999 as consumed, from which the monitor never returns and no results are
  -- printed.
  pub outcomes :
      (r : Ring (DataPacket V)) (v : V)
      → IsOpen r []
      → ((t : Simulation V) × Reach (start r) t
          × (t.reported ≡ true)
          × (t.total_produced ≡ 3000)
          × (t.total_consumed ≡ 3000))
        × ((t : Simulation V) × Reach (start r) t
            × (consumers_joined t.workers ≡ true)
            × (t.system.ring.count ≡ 1)
            × (t.total_produced ≡ 3000)
            × (t.total_consumed ≡ 2999)
            × NeverReports t)
  outcomes r v o =
      let (r1, o1, drained) = works 2 v third-IsThread (omega arith) refl refl (two_work r v o) in
      let (r2, one_left, left) = all_stored r v o in
      let gone_all =
        next (next (next left (stops refl refl)) (leaves 3 refl refl refl refl))
          (leaves 4 refl refl refl refl) in
      (
        (
          _,
          next
              (next
                (next (next (next drained (monitors (omega arith) refl)) (stops refl refl))
                  (leaves 3 refl refl refl refl))
                (leaves 4 refl refl refl refl))
              (reports refl refl refl refl),
          refl,
          refl,
          refl,
        ),
        (
          _,
          gone_all,
          refl,
          one_left,
          refl,
          refl,
          record { never = never_reported gone_all refl (omega arith) },
        ),
      )
