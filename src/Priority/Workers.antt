-- ===== src/Priority/Workers.antt =====
-- The threads of `demonstrate_priority_processing` of examples/producer_consumer_example.cc: the calls that
-- they make, and the packets that they have put into the buffer or taken out of it.
use ring_buffer.Base.{ℕ, ◌≡◌, refl, Bool, true, false, not, List, [], ◌∷◌, arith}
use ring_buffer.ThreadSafe.{Call, push, pop_timed}
use ring_buffer.ThreadSafe.Threads.{Pc}
use ring_buffer.ThreadSafe.OneConsumer.{one_if}
use ring_buffer.ThreadSafe.OneConsumer.Calls.{plays}
use ring_buffer.ThreadSafe.OneConsumer.Worth.{given, held}
use ring_buffer.Priority.{Packet, is_high}

-- Who the threads are, and what calls they make.
pub data Worker : Type 0 where
  high_producer low_producer consumer : Worker

abbrev pub workers : List Worker
workers = high_producer ∷ low_producer ∷ consumer ∷ []

abbrev pub makes : Worker → Call Packet → Bool
makes high_producer (push p) = is_high p
makes low_producer (push p) = not (is_high p)
makes consumer pop_timed = true
makes _ _ = false

abbrev pub pops : Worker → Bool
pops consumer = true
pops _ = false

pub plays_by : (w : Worker) (c : Call Packet) → makes w c ≡ true → plays (pops w) c ≡ true
plays_by high_producer (push p) h = refl
plays_by low_producer (push p) h = refl
plays_by consumer pop_timed h = refl
plays_by _ c h = cc

-- Packets of high priority, and of low.
abbrev pub high_worth : Packet → ℕ
high_worth p = one_if (is_high p)

abbrev pub low_worth : Packet → ℕ
low_worth p = one_if (not (is_high p))

abbrev pub high_credit : Worker → ℕ
high_credit high_producer = 1
high_credit _ = 0

abbrev pub low_credit : Worker → ℕ
low_credit low_producer = 1
low_credit _ = 0

pub high_fair : (w : Worker) (p : Packet) → makes w (push p) ≡ true → high_worth p ≡ high_credit w
high_fair high_producer p h = ground arith
high_fair low_producer p h = ground arith
high_fair consumer p h = cc

pub low_fair : (w : Worker) (p : Packet) → makes w (push p) ≡ true → low_worth p ≡ low_credit w
low_fair high_producer p h = ground arith
low_fair low_producer p h = ground arith
low_fair consumer p h = cc

abbrev pub high_given : Worker → Pc Packet → ℕ
high_given = given makes pops plays_by high_worth high_credit high_fair

abbrev pub high_held : Worker → Pc Packet → ℕ
high_held = held makes pops plays_by high_worth high_credit high_fair

abbrev pub low_given : Worker → Pc Packet → ℕ
low_given = given makes pops plays_by low_worth low_credit low_fair

abbrev pub low_held : Worker → Pc Packet → ℕ
low_held = held makes pops plays_by low_worth low_credit low_fair
