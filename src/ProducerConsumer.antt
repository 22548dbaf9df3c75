-- ===== src/ProducerConsumer.antt =====
-- examples/producer_consumer_example.cc: the threads of `ProducerConsumerExample::run_simulation` over
-- the wrapper of ThreadSafe. The threads of the system are the producers and the consumers, in the order
-- in which they are started. Random values are chosen by the step; the clock and what is printed are
-- left out. Pauses are left out too, that of five seconds before the stop with them: a thread may be
-- kept from its next step for any time.
pub mod Counts
pub mod Results
pub mod Run
pub mod Outcomes
pub mod Ledger
pub mod Places
pub mod Balance
pub mod Tests
use ring_buffer.Base.{
  ℕ, ◌+◌, ◌*◌, ◌≡◌, ◌≤◌, ◌<◌, Bool, true, false, ◌&&◌, List, [], ◌∷◌, some, get_elem?, set, ◌++◌,
  replicate,
}
use ring_buffer.Result.{Exception}
use ring_buffer.Ring.{Ring}
use ring_buffer.ThreadSafe.{Call, Answer, push_timed, pop_timed, flag, value, nothing, raised}
use ring_buffer.ThreadSafe.Threads
use ring_buffer.ThreadSafe.Threads.{returning, System, idle, ready, answered, moves, returns}

-- The time stamp is left out.
pub record DataPacket {ℓ} (V : Type ℓ) : Type ℓ where
  pub id : ℕ
  pub content : V

abbrev pub num_producers : ℕ
num_producers = 3

abbrev pub num_consumers : ℕ
num_consumers = 2

abbrev pub items_per_producer : ℕ
items_per_producer = 1000

-- Where a thread stands in its function: a producer with its `produced_count`, a producer that has
-- returned, a consumer in its loop, a consumer that has returned.
pub data Worker : Type 0 where
  producing : ℕ → Worker
  finished consuming gone : Worker

-- `monitored` and `reported` tell that `monitor_system` has returned and that the results are printed;
-- `terminated` that an exception left a thread, which ends the program.
pub record Simulation {ℓ} (V : Type ℓ) : Type ℓ where
  pub system : System (DataPacket V)
  pub workers : List Worker
  pub total_produced : ℕ
  pub total_consumed : ℕ
  pub stop_flag : Bool
  pub monitored : Bool
  pub reported : Bool
  pub terminated : Bool

-- The program with its threads started.
abbrev pub start {ℓ} : {V : Type ℓ} → Ring (DataPacket V) → Simulation V
start r = record {
  system = record { ring = r; threads = replicate (num_producers + num_consumers) idle };
  workers = replicate num_producers (producing 0) ++ replicate num_consumers consuming;
  total_produced = 0;
  total_consumed = 0;
  stop_flag = false;
  monitored = false;
  reported = false;
  terminated = false;
}

-- All producers have returned, or all consumers.
abbrev pub producers_joined : List Worker → Bool
producers_joined [] = true
producers_joined (producing n ∷ ws) = false
producers_joined (w ∷ ws) = producers_joined ws

abbrev pub consumers_joined : List Worker → Bool
consumers_joined [] = true
consumers_joined (consuming ∷ ws) = false
consumers_joined (w ∷ ws) = consumers_joined ws

module _ {ℓ} {V : Type ℓ} where
  abbrev pub packet : ℕ → ℕ → V → DataPacket V
  packet producer_id produced_count v = record {
    id = producer_id * items_per_producer + produced_count;
    content = v;
  }

  -- The thread `i` goes on outside the buffer.
  abbrev pub idles : Simulation V → ℕ → System (DataPacket V)
  idles s i = record s.system { threads = set s.system.threads i idle }

  abbrev pub enters : Simulation V → ℕ → Call (DataPacket V) → System (DataPacket V)
  enters s i c = record s.system { threads = set s.system.threads i (ready false c) }

-- One step of the program, as long as no exception has ended it.
pub data Step {ℓ} {V : Type ℓ} (s : Simulation V) : Simulation V → Type ℓ where
  -- a thread at the buffer
  buffers :
      {sys : System (DataPacket V)} (σ : Threads.Step (λ c. false) s.system sys)
      → returning σ ≡ false
      → s.terminated ≡ false
      → Step s (record s { system = sys })
  -- `producer`
  produces :
      (i n : ℕ) (v : V)
      → get_elem? s.workers i ≡ some (producing n)
      → n < items_per_producer
      → get_elem? s.system.threads i ≡ some idle
      → s.terminated ≡ false
      → Step s (record s { system = enters s i (push_timed (packet i n v)) })
  stored :
      (i n : ℕ)
      → get_elem? s.workers i ≡ some (producing n)
      → n < items_per_producer
      → get_elem? s.system.threads i ≡ some (answered (flag true))
      → s.terminated ≡ false
      → Step s (record s {
        system = idles s i;
        workers = set s.workers i (producing (n + 1));
        total_produced = s.total_produced + 1;
      })
  timed_out :
      (i n : ℕ)
      → get_elem? s.workers i ≡ some (producing n)
      → get_elem? s.system.threads i ≡ some (answered (flag false))
      → s.terminated ≡ false
      → Step s (record s { system = idles s i })
  finishes :
      (i n : ℕ)
      → get_elem? s.workers i ≡ some (producing n)
      → items_per_producer ≤ n
      → get_elem? s.system.threads i ≡ some idle
      → s.terminated ≡ false
      → Step s (record s { workers = set s.workers i finished })
  -- `consumer`
  asks :
      (i : ℕ)
      → get_elem? s.workers i ≡ some consuming
      → s.stop_flag ≡ false
      → get_elem? s.system.threads i ≡ some idle
      → s.terminated ≡ false
      → Step s (record s { system = enters s i pop_timed })
  consumes :
      (i : ℕ) (p : DataPacket V)
      → get_elem? s.workers i ≡ some consuming
      → get_elem? s.system.threads i ≡ some (answered (value p))
      → s.terminated ≡ false
      → Step s (record s { system = idles s i; total_consumed = s.total_consumed + 1 })
  misses :
      (i : ℕ)
      → get_elem? s.workers i ≡ some consuming
      → get_elem? s.system.threads i ≡ some (answered nothing)
      → s.terminated ≡ false
      → Step s (record s { system = idles s i })
  leaves :
      (i : ℕ)
      → get_elem? s.workers i ≡ some consuming
      → s.stop_flag ≡ true
      → get_elem? s.system.threads i ≡ some idle
      → s.terminated ≡ false
      → Step s (record s { workers = set s.workers i gone })
  -- an exception of the buffer, which no thread catches
  terminates :
      (i : ℕ) (e : Exception)
      → get_elem? s.system.threads i ≡ some (answered (raised e))
      → s.terminated ≡ false
      → Step s (record s { terminated = true })
  -- `monitor_system`, whose calls of `size` and `capacity` read under the mutex and change nothing
  watches :
      s.total_consumed < num_producers * items_per_producer
      → s.monitored ≡ false
      → s.terminated ≡ false
      → Step s s
  monitors :
      num_producers * items_per_producer ≤ s.total_consumed
      → s.terminated ≡ false
      → Step s (record s { monitored = true })
  -- `run_simulation`
  stops :
      producers_joined s.workers ≡ true
      → s.terminated ≡ false
      → Step s (record s { stop_flag = true })
  reports :
      s.stop_flag ≡ true
      → consumers_joined s.workers ≡ true
      → s.monitored ≡ true
      → s.terminated ≡ false
      → Step s (record s { reported = true })

pub data Reach {ℓ} {V : Type ℓ} (s : Simulation V) : Simulation V → Type ℓ where
  here : Reach s s
  next : {t u : Simulation V} → Reach s t → Step t u → Reach s u
