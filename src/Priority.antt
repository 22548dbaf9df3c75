-- ===== src/Priority.antt =====
-- examples/producer_consumer_example.cc: `demonstrate_priority_processing` and `priority_processor`, two
-- producers and a consumer over the wrapper of ThreadSafe. Thread 0 is the producer of packets of high
-- priority, thread 1 that of low priority, thread 2 the consumer. Pauses and what is printed are left
-- out.
pub mod Workers
pub mod Accounts
pub mod Steps
pub mod Results
pub mod Onward
pub mod Settle
pub mod Drain
pub mod Deliver
pub mod Calm
pub mod Finish
pub mod Tests
use ring_buffer.Base.{
  ℕ, ◌+◌, ◌≡◌, ◌≤◌, ◌<◌, Bool, true, false, List, [], ◌∷◌, some, get_elem?, set, ltb,
}
use ring_buffer.Result.{Exception}
use ring_buffer.Ring.{Ring}
use ring_buffer.ThreadSafe.{Call, push, pop_timed, done, value, nothing, raised}
use ring_buffer.ThreadSafe.Threads
use ring_buffer.ThreadSafe.Threads.{returning, System, idle, ready, answered}
use ring_buffer.ProducerConsumer.{DataPacket}

-- The values 999.0, 1.0 and 500.0 of the code are numbers.
abbrev pub Packet : Type 0
Packet = DataPacket ℕ

abbrev pub items : ℕ
items = 50

abbrev pub packets_wanted : ℕ
packets_wanted = 100

abbrev pub high_packet : ℕ → Packet
high_packet i = record { id = i; content = 999 }

abbrev pub low_packet : ℕ → Packet
low_packet i = record { id = i + 1000; content = 1 }

-- The test of `priority_processor`.
abbrev pub is_high : Packet → Bool
is_high packet = ltb 500 packet.content

-- The counter of a producer is the `i` of its loop too. `terminated` tells that an exception has left a
-- thread, which ends the program.
pub record Processing : Type 0 where
  pub system : System Packet
  pub high_priority_count : ℕ
  pub low_priority_count : ℕ
  pub processed_high : ℕ
  pub processed_low : ℕ
  pub terminated : Bool

abbrev pub start : Ring Packet → Processing
start priority_buffer = record {
  system = record { ring = priority_buffer; threads = idle ∷ idle ∷ idle ∷ [] };
  high_priority_count = 0;
  low_priority_count = 0;
  processed_high = 0;
  processed_low = 0;
  terminated = false;
}

abbrev pub idles : Processing → ℕ → System Packet
idles s i = record s.system { threads = set s.system.threads i idle }

abbrev pub enters : Processing → ℕ → Call Packet → System Packet
enters s i c = record s.system { threads = set s.system.threads i (ready false c) }

-- One step of the program, as long as no exception has ended it.
pub data Step (s : Processing) : Processing → Type 0 where
  -- a thread at the buffer
  buffers :
      {sys : System Packet} (σ : Threads.Step (λ c. false) s.system sys)
      → returning σ ≡ false
      → s.terminated ≡ false
      → Step s (record s { system = sys })
  -- the producers
  pushes_high :
      s.high_priority_count < items
      → get_elem? s.system.threads 0 ≡ some idle
      → s.terminated ≡ false
      → Step s (record s { system = enters s 0 (push (high_packet s.high_priority_count)) })
  counts_high :
      get_elem? s.system.threads 0 ≡ some (answered done)
      → s.terminated ≡ false
      → Step s (record s { system = idles s 0; high_priority_count = s.high_priority_count + 1 })
  pushes_low :
      s.low_priority_count < items
      → get_elem? s.system.threads 1 ≡ some idle
      → s.terminated ≡ false
      → Step s (record s { system = enters s 1 (push (low_packet s.low_priority_count)) })
  counts_low :
      get_elem? s.system.threads 1 ≡ some (answered done)
      → s.terminated ≡ false
      → Step s (record s { system = idles s 1; low_priority_count = s.low_priority_count + 1 })
  -- `priority_processor`
  asks :
      s.processed_high + s.processed_low < packets_wanted
      → get_elem? s.system.threads 2 ≡ some idle
      → s.terminated ≡ false
      → Step s (record s { system = enters s 2 pop_timed })
  processes_high :
      (p : Packet)
      → get_elem? s.system.threads 2 ≡ some (answered (value p))
      → is_high p ≡ true
      → s.terminated ≡ false
      → Step s (record s { system = idles s 2; processed_high = s.processed_high + 1 })
  processes_low :
      (p : Packet)
      → get_elem? s.system.threads 2 ≡ some (answered (value p))
      → is_high p ≡ false
      → s.terminated ≡ false
      → Step s (record s { system = idles s 2; processed_low = s.processed_low + 1 })
  misses :
      get_elem? s.system.threads 2 ≡ some (answered nothing)
      → s.terminated ≡ false
      → Step s (record s { system = idles s 2 })
  -- an exception of the buffer, which no thread catches
  terminates :
      (i : ℕ) (e : Exception)
      → get_elem? s.system.threads i ≡ some (answered (raised e))
      → s.terminated ≡ false
      → Step s (record s { terminated = true })

pub data Reach (s : Processing) : Processing → Type 0 where
  here : Reach s s
  next : {t u : Processing} → Reach s t → Step t u → Reach s u

-- All threads have returned, and the main thread has joined them.
pub record IsFinished (s : Processing) : Type 0 where
  pub outside : s.system.threads ≡ idle ∷ idle ∷ idle ∷ []
  pub high_done : items ≤ s.high_priority_count
  pub low_done : items ≤ s.low_priority_count
  pub processed : packets_wanted ≤ s.processed_high + s.processed_low
