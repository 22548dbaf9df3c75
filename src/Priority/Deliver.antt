-- ===== src/Priority/Deliver.antt =====
-- A producer of `demonstrate_priority_processing` of examples/producer_consumer_example.cc brings its packet into
-- the empty buffer and counts it.
use ring_buffer.Base.{
  ℕ, ◌+◌, ◌≡◌, ◌∙◌, refl, Bool, false, List, some, get_elem?, get_elem?-set_self, get_elem?-set_ne,
  lt-of-get_elem?, arith,
}
use ring_buffer.Result.{ok}
use ring_buffer.Ring.Push.{push_back-Represents}
use ring_buffer.ThreadSafe.{Cv, attempt, pop_rest, push_rest, push, done, one, not_empty, finish}
use ring_buffer.ThreadSafe.Threads.{Pc, idle, ready, asleep, unlocked, answered, moves, wakes}
use ring_buffer.ThreadSafe.OneConsumer.{Fits}
use ring_buffer.Priority.{Packet, Processing, counts_high, counts_low, idles, here, next}
use ring_buffer.Priority.Workers.{high_producer, low_producer, makes, pops, plays_by}
use ring_buffer.Priority.Accounts.{IsServing}
use ring_buffer.Priority.Steps.{Reach-IsServing}
use ring_buffer.Priority.Onward.{Onward, Onward-after, stay, with_system, ends_with, moves_to}

-- Thread `i` comes out of the buffer, having added to the counters.
abbrev pub Delivers : ℕ → ℕ → ℕ → Processing → Type 0
Delivers i more_high more_low s =
    (t : Processing) × Onward i more_high more_low s t × (get_elem? t.system.threads i ≡ some idle)

pub counted_high :
    (s : Processing)
    → s.terminated ≡ false
    → get_elem? s.system.threads 0 ≡ some (answered done)
    → Delivers 0 1 0 s
counted_high s z e = (
  record s { system = idles s 0; high_priority_count = s.high_priority_count + 1 },
  record {
    reach = next here (counts_high e z);
    others = λ j apart f. get_elem?-set_ne s.system.threads 0 j idle apart ∙ f;
    unterminated = z;
    high_more = refl;
    low_more = omega arith;
  },
  get_elem?-set_self s.system.threads 0 idle (lt-of-get_elem? s.system.threads 0 e),
)

pub counted_low :
    (s : Processing)
    → s.terminated ≡ false
    → get_elem? s.system.threads 1 ≡ some (answered done)
    → Delivers 1 0 1 s
counted_low s z e = (
  record s { system = idles s 1; low_priority_count = s.low_priority_count + 1 },
  record {
    reach = next here (counts_low e z);
    others = λ j apart f. get_elem?-set_ne s.system.threads 1 j idle apart ∙ f;
    unterminated = z;
    high_more = omega arith;
    low_more = refl;
  },
  get_elem?-set_self s.system.threads 1 idle (lt-of-get_elem? s.system.threads 1 e),
)

module _ (i more_high more_low : ℕ)
    (counted : (s : Processing)
      → s.terminated ≡ false
      → get_elem? s.system.threads i ≡ some (answered done)
      → Delivers i more_high more_low s) where
  pub from_ready :
      {s : Processing} (xs : List Packet) (late : Bool) (x : Packet)
      → IsServing s xs
      → s.terminated ≡ false
      → s.system.ring.count ≡ 0
      → get_elem? s.system.threads i ≡ some (ready late (push x))
      → Delivers i more_high more_low s
  unfolding attempt
  from_ready {s} xs late x h z c e =
      let r = s.system.ring in
      let room : r.full ≡ false =
        ground (arith, h.served.represents.full_is, h.served.represents.capacity_pos) in
      let (r1, f, v1) = push_back-Represents r x h.served.represents in
      let stored : attempt late (push x) r ≡ ok (finish r1 done (one not_empty)) = simp (room, f) in
      let (us, o, there) = ends_with i z e stored in
      let (t, o1, e1) = counted (with_system s r1 us) z there in (t, Onward-after o o1, e1)

  from_asleep :
      {s : Processing} (xs : List Packet) {v : Cv} (x : Packet)
      → IsServing s xs
      → s.terminated ≡ false
      → s.system.ring.count ≡ 0
      → get_elem? s.system.threads i ≡ some (asleep v (push x))
      → Delivers i more_high more_low s
  from_asleep {s} xs {v} x h z c e =
      let (o, there) = moves_to i z (ready false (push x)) e (moves (wakes i v (push x) e)) refl in
      let (ys, h1) = Reach-IsServing o.reach h in
      let (t, o1, e1) = from_ready ys false x h1 z c there in (t, Onward-after o o1, e1)

-- A producer comes home, wherever it stands.
abbrev pub Homes : ℕ → Processing → Type 0
Homes i s = (more_high : ℕ) × (more_low : ℕ) × Delivers i more_high more_low s

pub high_home :
    {s : Processing} (xs : List Packet) (p : Pc Packet)
    → IsServing s xs
    → s.terminated ≡ false
    → s.system.ring.count ≡ 0
    → get_elem? s.system.threads 0 ≡ some p
    → Fits makes pops plays_by high_producer p
    → Homes 0 s
high_home {s} xs idle h z c e f = (0, 0, (s, stay z, e))
high_home xs (ready late (push x)) h z c e f =
    (1, 0, from_ready 0 1 0 counted_high xs late x h z c e)
high_home xs (asleep v (push x)) h z c e f = (1, 0, from_asleep 0 1 0 counted_high xs x h z c e)
high_home {s} xs (answered done) h z c e f = (1, 0, counted_high s z e)
high_home xs (unlocked pop_rest) h z c e f = cc
high_home xs (unlocked (push_rest x)) h z c e f = cc
high_home xs _ h z c e f = cc

pub low_home :
    {s : Processing} (xs : List Packet) (p : Pc Packet)
    → IsServing s xs
    → s.terminated ≡ false
    → s.system.ring.count ≡ 0
    → get_elem? s.system.threads 1 ≡ some p
    → Fits makes pops plays_by low_producer p
    → Homes 1 s
low_home {s} xs idle h z c e f = (0, 0, (s, stay z, e))
low_home xs (ready late (push x)) h z c e f = (0, 1, from_ready 1 0 1 counted_low xs late x h z c e)
low_home xs (asleep v (push x)) h z c e f = (0, 1, from_asleep 1 0 1 counted_low xs x h z c e)
low_home {s} xs (answered done) h z c e f = (0, 1, counted_low s z e)
low_home xs (unlocked pop_rest) h z c e f = cc
low_home xs (unlocked (push_rest x)) h z c e f = cc
low_home xs _ h z c e f = cc
