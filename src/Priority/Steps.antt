-- ===== src/Priority/Steps.antt =====
-- The steps of `demonstrate_priority_processing` of examples/producer_consumer_example.cc keep the accounts.
use ring_buffer.Base.{◌+◌, ◌≡◌, refl, false, List, arith}
use ring_buffer.ThreadSafe.{push, pop_timed}
use ring_buffer.ThreadSafe.Threads.{idle, ready}
use ring_buffer.ThreadSafe.History.{step_added, step_removed}
use ring_buffer.ThreadSafe.Places.{weigh-thread, busy, Step-busy}
use ring_buffer.ThreadSafe.OneConsumer.{Step-IsServed}
use ring_buffer.ThreadSafe.OneConsumer.History.{IsServed-IsSafe}
use ring_buffer.ThreadSafe.OneConsumer.Worth.{Step-worth}
use ring_buffer.Priority.{
  Packet, Processing, Step, Reach, high_packet, low_packet, buffers, pushes_high, counts_high,
  pushes_low, counts_low, asks, processes_high, processes_low, misses, terminates, here, next,
}
use ring_buffer.Priority.Workers.{
  high_producer, low_producer, consumer, workers, makes, pops, plays_by, high_worth, low_worth,
  high_credit, low_credit, high_fair, low_fair,
}
use ring_buffer.Priority.Accounts.{IsServing, acts, flow, high_busy, low_busy}

Step-IsServing :
    {s t : Processing} {xs : List Packet}
    → Step s t
    → IsServing s xs
    → (ys : List Packet) × IsServing t ys
Step-IsServing {s} {xs = xs} (buffers σ q z) h =
    let (ys, even, served) = Step-IsServed makes pops plays_by σ h.served in
    let (given_high, held_high) =
      Step-worth makes pops plays_by high_worth high_credit high_fair σ q h.served in
    let (given_low, held_low) =
      Step-worth makes pops plays_by low_worth low_credit low_fair σ q h.served in
    (
      ys,
      record {
        served = served;
        high_bound = omega (arith, h.high_bound, Step-busy high_credit workers σ q);
        low_bound = omega (arith, h.low_bound, Step-busy low_credit workers σ q);
        high_kept = omega (
          arith,
          h.high_kept,
          given_high,
          held_high,
          flow high_worth xs ys (step_added σ) (step_removed σ) even,
        );
        low_kept = omega (
          arith,
          h.low_kept,
          given_low,
          held_low,
          flow low_worth xs ys (step_added σ) (step_removed σ) even,
        );
      },
    )
Step-IsServing {s} {xs = xs} (pushes_high l e z) h = (
  xs,
  acts 0 high_producer (ready false (push (high_packet s.high_priority_count)))
      s.high_priority_count s.low_priority_count s.processed_high s.processed_low refl e refl refl
      refl refl
      (omega (
        arith,
        l,
        high_busy s.system.threads e,
        weigh-thread (busy high_credit) workers s.system.threads 0
            (ready false (push (high_packet s.high_priority_count))) refl e,
      ))
      (omega (
        arith,
        h.low_bound,
        weigh-thread (busy low_credit) workers s.system.threads 0
            (ready false (push (high_packet s.high_priority_count))) refl e,
      ))
      h,
)
Step-IsServing {s} {xs = xs} (counts_high e z) h = (
  xs,
  acts 0 high_producer idle (s.high_priority_count + 1) s.low_priority_count s.processed_high
      s.processed_low refl e tt refl (omega arith) refl
      (omega (
        arith,
        h.high_bound,
        weigh-thread (busy high_credit) workers s.system.threads 0 idle refl e,
      ))
      (omega
        (arith, h.low_bound, weigh-thread (busy low_credit) workers s.system.threads 0 idle refl e))
      h,
)
Step-IsServing {s} {xs = xs} (pushes_low l e z) h = (
  xs,
  acts 1 low_producer (ready false (push (low_packet s.low_priority_count))) s.high_priority_count
      s.low_priority_count s.processed_high s.processed_low refl e refl refl refl refl
      (omega (
        arith,
        h.high_bound,
        weigh-thread (busy high_credit) workers s.system.threads 1
            (ready false (push (low_packet s.low_priority_count))) refl e,
      ))
      (omega (
        arith,
        l,
        low_busy s.system.threads e,
        weigh-thread (busy low_credit) workers s.system.threads 1
            (ready false (push (low_packet s.low_priority_count))) refl e,
      ))
      h,
)
Step-IsServing {s} {xs = xs} (counts_low e z) h = (
  xs,
  acts 1 low_producer idle s.high_priority_count (s.low_priority_count + 1) s.processed_high
      s.processed_low refl e tt refl refl (omega arith)
      (omega (
        arith,
        h.high_bound,
        weigh-thread (busy high_credit) workers s.system.threads 1 idle refl e,
      ))
      (omega
        (arith, h.low_bound, weigh-thread (busy low_credit) workers s.system.threads 1 idle refl e))
      h,
)
Step-IsServing {s} {xs = xs} (asks l e z) h = (
  xs,
  acts 2 consumer (ready false pop_timed) s.high_priority_count s.low_priority_count
      s.processed_high s.processed_low refl e refl refl refl refl
      (omega (
        arith,
        h.high_bound,
        weigh-thread (busy high_credit) workers s.system.threads 2 (ready false pop_timed) refl e,
      ))
      (omega (
        arith,
        h.low_bound,
        weigh-thread (busy low_credit) workers s.system.threads 2 (ready false pop_timed) refl e,
      ))
      h,
)
Step-IsServing {s} {xs = xs} (processes_high p e b z) h = (
  xs,
  acts 2 consumer idle s.high_priority_count s.low_priority_count (s.processed_high + 1)
      s.processed_low refl e tt refl (ground arith) (ground arith)
      (omega (
        arith,
        h.high_bound,
        weigh-thread (busy high_credit) workers s.system.threads 2 idle refl e,
      ))
      (omega
        (arith, h.low_bound, weigh-thread (busy low_credit) workers s.system.threads 2 idle refl e))
      h,
)
Step-IsServing {s} {xs = xs} (processes_low p e b z) h = (
  xs,
  acts 2 consumer idle s.high_priority_count s.low_priority_count s.processed_high
      (s.processed_low + 1) refl e tt refl (ground arith) (ground arith)
      (omega (
        arith,
        h.high_bound,
        weigh-thread (busy high_credit) workers s.system.threads 2 idle refl e,
      ))
      (omega
        (arith, h.low_bound, weigh-thread (busy low_credit) workers s.system.threads 2 idle refl e))
      h,
)
Step-IsServing {s} {xs = xs} (misses e z) h = (
  xs,
  acts 2 consumer idle s.high_priority_count s.low_priority_count s.processed_high s.processed_low
      refl e tt refl refl refl
      (omega (
        arith,
        h.high_bound,
        weigh-thread (busy high_credit) workers s.system.threads 2 idle refl e,
      ))
      (omega
        (arith, h.low_bound, weigh-thread (busy low_credit) workers s.system.threads 2 idle refl e))
      h,
)
Step-IsServing {s} {xs = xs} (terminates i x e z) h =
    absurd ((IsServed-IsSafe makes pops plays_by h.served).no_exception i x e)

pub Reach-IsServing :
    {s t : Processing} {xs : List Packet}
    → Reach s t
    → IsServing s xs
    → (ys : List Packet) × IsServing t ys
Reach-IsServing {xs = xs} here h = (xs, h)
Reach-IsServing (next r σ) h = let (ys, h') = Reach-IsServing r h in Step-IsServing σ h'

Step-unterminated :
    {s t : Processing} {xs : List Packet}
    → Step s t
    → IsServing s xs
    → s.terminated ≡ false
    → t.terminated ≡ false
Step-unterminated (buffers σ q z) h e = e
Step-unterminated (pushes_high l f z) h e = e
Step-unterminated (counts_high f z) h e = e
Step-unterminated (pushes_low l f z) h e = e
Step-unterminated (counts_low f z) h e = e
Step-unterminated (asks l f z) h e = e
Step-unterminated (processes_high p f b z) h e = e
Step-unterminated (processes_low p f b z) h e = e
Step-unterminated (misses f z) h e = e
Step-unterminated (terminates i x f z) h e =
    absurd ((IsServed-IsSafe makes pops plays_by h.served).no_exception i x f)

-- No exception ends the program.
pub Reach-unterminated :
    {s t : Processing} {xs : List Packet}
    → Reach s t
    → IsServing s xs
    → s.terminated ≡ false
    → t.terminated ≡ false
Reach-unterminated here h e = e
Reach-unterminated (next {t} r σ) h e =
    Step-unterminated σ (Reach-IsServing r h).1 (Reach-unterminated r h e)
