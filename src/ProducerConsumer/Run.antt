-- ===== src/ProducerConsumer/Run.antt =====
-- Runs of examples/producer_consumer_example.cc in which one thread after the other is at the buffer.
use ring_buffer.Base.{
  ℕ, ◌+◌, ◌≡◌, ◌<◌, ◌∙◌, refl, sym, subst, true, false, List, [], ◌∷◌, some, replicate, get_elem?,
  get_elem?-set_self, lt-of-get_elem?, set, set-set, ◌==◌, arith,
}
use ring_buffer.Result.{ok}
use ring_buffer.Window
use ring_buffer.Ring
use ring_buffer.Ring.{Ring}
use ring_buffer.Ring.Holds.{Represents}
use ring_buffer.Ring.Valid.{capacity-push_back, capacity-pop_front}
use ring_buffer.Ring.Push.{push_back-Represents}
use ring_buffer.Ring.Pop.{pop_front-Represents}
use ring_buffer.ThreadSafe.{
  Call, Answer, Cv, Rest, attempt, finish_rest, push_timed, pop_timed, push_rest, pop_rest, flag,
  value, not_full, not_empty, unlock, finish, one,
}
use ring_buffer.ThreadSafe.Threads.{Pc, Signals, idle, ready, unlocked, answered, unlocks, goes_on}
use ring_buffer.ThreadSafe.Races.{IsAwake, alone}
use ring_buffer.ProducerConsumer.{
  DataPacket, Worker, Simulation, Reach, items_per_producer, packet, producing, consuming, buffers,
  produces, stored, asks, consumes, next,
}

module _ {ℓ} {V : Type ℓ} where
  -- The five threads outside the buffer.
  abbrev pub outside : List (Pc (DataPacket V))
  outside = replicate 5 idle

  -- A state before the stop.
  abbrev pub running :
      Ring (DataPacket V) → List (Pc (DataPacket V)) → List Worker → ℕ → ℕ → Simulation V
  running r ts ws p c = record {
    system = record { ring = r; threads = ts };
    workers = ws;
    total_produced = p;
    total_consumed = c;
    stop_flag = false;
    monitored = false;
    reported = false;
    terminated = false;
  }

-- One of the five threads.
pub record IsThread {ℓ} (V : Type ℓ) (i : ℕ) : Type ℓ where
  pub is_outside : get_elem? (outside {V = V}) i ≡ some idle
  pub back_outside : set (outside {V = V}) i idle ≡ outside
  pub awake : (a : Answer (DataPacket V)) → IsAwake (set outside i (answered a))

module _ {ℓ} {V : Type ℓ} where
  pub set_at :
      {i : ℕ} (p : Pc (DataPacket V)) → IsThread V i → get_elem? (set outside i p) i ≡ some p
  set_at {i} p t = get_elem?-set_self outside i p (lt-of-get_elem? outside i t.is_outside)

  -- A thread passes the test of a call with a time limit and does the rest of it.
  visits :
      {s : Simulation V} {r r' : Ring (DataPacket V)} {ws : List Worker} {p c : ℕ} (i : ℕ)
      (call : Call (DataPacket V)) (k : Rest (DataPacket V)) (a : Answer (DataPacket V)) (v : Cv)
      → IsThread V i
      → attempt false call r ≡ ok (unlock k)
      → finish_rest k r ≡ ok (finish r' a (one v))
      → Reach s (running r (set outside i (ready false call)) ws p c)
      → Reach s (running r' (set outside i (answered a)) ws p c)
  visits {r = r} {ws = ws} {p} {c} i call k a v t e f before =
      let there : get_elem? (set (set outside i (ready false call)) i (unlocked k)) i
          ≡ some (unlocked k) =
        rw (set-set outside i (ready false call) (unlocked k)) (set_at (unlocked k) t) in
      let alike : set (set (set outside i (ready false call)) i (unlocked k)) i (answered a)
          ≡ set outside i (answered a) =
        rw
          (
            set-set (set outside i (ready false call)) i (unlocked k) (answered a),
            set-set outside i (ready false call) (answered a),
          )
          refl in
      let unheard : Signals
          (set (set (set outside i (ready false call)) i (unlocked k)) i (answered a)) (one v)
          (set outside i (answered a)) =
        subst (λ us. Signals us (one v) (set outside i (answered a))) (sym alike)
          (alone (set outside i (answered a)) (t.awake a)) in
      next (next before (buffers (unlocks i false call (set_at (ready false call) t) e) refl refl))
        (buffers (goes_on i k there f unheard) refl refl)

  -- A buffer with room for two packets that holds these.
  pub record IsOpen (r : Ring (DataPacket V)) (xs : List (DataPacket V)) : Type ℓ where
    pub represents : Represents r xs
    pub room : 1 < r.capacity

  -- A producer stores a packet in the empty buffer.
  pub stores :
      {s : Simulation V} {r : Ring (DataPacket V)} {ws : List Worker} {p c : ℕ} (i n : ℕ) (v : V)
      → IsThread V i
      → get_elem? ws i ≡ some (producing n)
      → n < items_per_producer
      → IsOpen r []
      → Reach s (running r outside ws p c)
      → (r' : Ring (DataPacket V)) × IsOpen r' (packet i n v ∷ [])
        × Reach s (running r' outside (set ws i (producing (n + 1))) (p + 1) c)
  unfolding attempt finish_rest
  stores {s} {r} {ws} {p} {c} i n v t e l o before =
      let x = packet i n v in
      let not_full_yet : r.full ≡ false =
        ground (arith, o.represents.counted, o.represents.full_is, o.room) in
      let (r1, e1, v1) = push_back-Represents r x o.represents in
      let past : attempt false (push_timed x) r ≡ ok (unlock (push_rest x)) =
        rw not_full_yet refl in
      let put : finish_rest (push_rest x) r ≡ ok (finish r1 (flag true) (one not_empty)) =
        rw e1 refl in
      let called = next before (produces i n v e l t.is_outside refl) in
      let through = visits i (push_timed x) (push_rest x) (flag true) not_empty t past put called in
      let home : set (set outside i (answered (flag true))) i idle ≡ outside =
        set-set outside i (answered (flag true)) idle ∙ t.back_outside in
      (
        r1,
        record {
          represents =
              subst (Represents r1) (Window.push-room r.capacity [] x (omega (arith, o.room))) v1;
          room = omega (arith, capacity-push_back r x e1, o.room);
        },
        subst (λ ts. Reach s (running r1 ts (set ws i (producing (n + 1))) (p + 1) c)) home
            (next through (stored i n e l (set_at (answered (flag true)) t) refl)),
      )

  -- A consumer takes the packet.
  pub takes :
      {s : Simulation V} {r : Ring (DataPacket V)} {ws : List Worker} {p c : ℕ} (i : ℕ)
      (x : DataPacket V)
      → IsThread V i
      → get_elem? ws i ≡ some consuming
      → IsOpen r (x ∷ [])
      → Reach s (running r outside ws p c)
      → (r' : Ring (DataPacket V)) × IsOpen r' [] × Reach s (running r' outside ws p (c + 1))
  unfolding attempt finish_rest Ring.empty
  takes {s} {r} {ws} {p} {c} i x t e o before =
      let some_left : (r.count == 0) ≡ false = ground (arith, o.represents.counted) in
      let not_full_yet : r.full ≡ false =
        ground (arith, o.represents.counted, o.represents.full_is, o.room) in
      let (r1, e1, v1, s1) =
        pop_front-Represents r o.represents (o.represents.write_at not_full_yet) in
      let past : attempt false pop_timed r ≡ ok (unlock pop_rest) = rw some_left refl in
      let took : finish_rest pop_rest r ≡ ok (finish r1 (value x) (one not_full)) = rw e1 refl in
      let called = next before (asks i e refl t.is_outside refl) in
      let through = visits i pop_timed pop_rest (value x) not_full t past took called in
      let home : set (set outside i (answered (value x))) i idle ≡ outside =
        set-set outside i (answered (value x)) idle ∙ t.back_outside in
      (
        r1,
        record { represents = v1; room = omega (arith, capacity-pop_front r e1, o.room) },
        subst (λ ts. Reach s (running r1 ts ws p (c + 1))) home
            (next through (consumes i x e (set_at (answered (value x)) t) refl)),
      )
