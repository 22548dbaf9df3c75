-- ===== src/Priority/Results.antt =====
-- What `demonstrate_priority_processing` of examples/producer_consumer_example.cc comes to.
use ring_buffer.Base.{◌+◌, ◌≡◌, ◌≤◌, refl, false, List, [], ◌∷◌, total, arith}
use ring_buffer.Ring.{Ring}
use ring_buffer.Ring.Holds.{Represents, IsInStep}
use ring_buffer.ThreadSafe.Threads.{idle}
use ring_buffer.ThreadSafe.OneConsumer.History.{IsSafe, IsServed-IsSafe}
use ring_buffer.Priority.{items, IsFinished, Packet, Processing, Reach, start}
use ring_buffer.Priority.Workers.{makes, pops, plays_by, high_worth, low_worth}
use ring_buffer.Priority.Accounts.{IsServing, start-IsServing, length-worth}
use ring_buffer.Priority.Steps.{Reach-IsServing, Reach-unterminated}

-- The program runs from its start at an empty buffer, its tail in step, however its threads interleave,
-- where what a call does without the mutex is one step. No exception has ended it, no thread holds one,
-- and none has a wrong access to memory in its next step.
pub never_fails :
    {r : Ring Packet} {t : Processing}
    → Represents r []
    → IsInStep r
    → Reach (start r) t
    → (t.terminated ≡ false) × IsSafe t.system
never_fails {r} v v' run =
    let from = start-IsServing r v v' in
    let (ys, h) = Reach-IsServing run from in
    (Reach-unterminated run from refl, IsServed-IsSafe makes pops plays_by h.served)

pub all_outside :
    (s : Processing) {xs : List Packet}
    → IsServing s xs
    → s.system.threads ≡ idle ∷ idle ∷ idle ∷ []
    → (s.high_priority_count ≡ s.processed_high + total high_worth xs)
      × (s.low_priority_count ≡ s.processed_low + total low_worth xs)
      × (s.high_priority_count ≤ items)
      × (s.low_priority_count ≤ items)
all_outside s h e =
    let high = rw e at h.high_kept in
    let low = rw e at h.low_kept in
    let high' = rw e at h.high_bound in
    let low' = rw e at h.low_bound in
    (omega (arith, high), omega (arith, low), omega (arith, high'), omega (arith, low'))

-- The program runs from its start at an empty buffer, its tail in step, until all threads have
-- returned, however they interleave, where what a call does without the mutex is one step. Then the
-- consumer has processed exactly 50 packets of high priority and exactly 50 of low, and the buffer is
-- empty.
pub finished_counts :
    {r : Ring Packet} {t : Processing}
    → Represents r []
    → IsInStep r
    → Reach (start r) t
    → IsFinished t
    → (t.processed_high ≡ items) × (t.processed_low ≡ items) × (t.system.ring.count ≡ 0)
finished_counts {r} {t} v v' run f =
    let (ys, h) = Reach-IsServing run (start-IsServing r v v') in
    let (high, low, high', low') = all_outside t h f.outside in
    let split = length-worth ys in
    (
      omega (arith, high, low, f.high_done, f.low_done, f.processed),
      omega (arith, high, low, f.high_done, f.low_done, f.processed),
      omega (
        arith, split, high, low, f.high_done, f.low_done, f.processed, h.served.represents.counted,
      ),
    )
