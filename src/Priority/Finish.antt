-- ===== src/Priority/Finish.antt =====
-- `demonstrate_priority_processing` of examples/producer_consumer_example.cc can finish from every state that it
-- comes to.
use ring_buffer.Base.{ℕ, zero, suc, ◌+◌, ◌-◌, ◌≡◌, refl, List, [], ◌∷◌, some, get_elem?, arith}
use ring_buffer.Ring.{Ring}
use ring_buffer.Ring.Holds.{Represents, IsInStep}
use ring_buffer.ThreadSafe.Threads.{Pc, idle}
use ring_buffer.ThreadSafe.Places.{AllFit}
use ring_buffer.ThreadSafe.OneConsumer.{Fits}
use ring_buffer.Priority.{Packet, Processing, Reach, IsFinished, start, items, here}
use ring_buffer.Priority.Workers.{workers, makes, pops, plays_by}
use ring_buffer.Priority.Accounts.{IsServing, start-IsServing, length-worth}
use ring_buffer.Priority.Steps.{Reach-IsServing, Reach-unterminated}
use ring_buffer.Priority.Onward.{Reach-trans}
use ring_buffer.Priority.Results.{all_outside}
use ring_buffer.Priority.Calm.{IsCalm, quietens, high_turn, low_turn}

-- As many turns of the first producer, and of the second, as are left.
high_turns :
    (n : ℕ) {s : Processing} (xs : List Packet)
    → IsServing s xs
    → IsCalm s
    → s.high_priority_count + n ≡ items
    → (t : Processing) × Reach s t × IsCalm t × (t.high_priority_count ≡ items)
high_turns zero {s} xs h c e = (s, here, c, omega arith)
high_turns (suc n) xs h c e =
    let (t, r, c1, high, _) = high_turn xs h c (omega arith) in
    let (ys, h1) = Reach-IsServing r h in
    let (u, r1, c2, full) = high_turns n ys h1 c1 (omega (arith, high)) in
    (u, Reach-trans r r1, c2, full)

low_turns :
    (n : ℕ) {s : Processing} (xs : List Packet)
    → IsServing s xs
    → IsCalm s
    → s.low_priority_count + n ≡ items
    → s.high_priority_count ≡ items
    → (t : Processing) × Reach s t
      × IsCalm t
      × (t.high_priority_count ≡ items)
      × (t.low_priority_count ≡ items)
low_turns zero {s} xs h c e f = (s, here, c, f, omega arith)
low_turns (suc n) xs h c e f =
    let (t, r, c1, high, low) = low_turn xs h c (omega arith) in
    let (ys, h1) = Reach-IsServing r h in
    let (u, r1, c2, full, full') =
      low_turns n ys h1 c1 (omega (arith, low)) (omega (arith, high, f)) in
    (u, Reach-trans r r1, c2, full, full')

three_outside :
    (ts : List (Pc Packet))
    → AllFit (Fits makes pops plays_by) workers ts
    → get_elem? ts 0 ≡ some idle
    → get_elem? ts 1 ≡ some idle
    → get_elem? ts 2 ≡ some idle
    → ts ≡ idle ∷ idle ∷ idle ∷ []
three_outside [] f e e' e'' = cc
three_outside (p ∷ []) f e e' e'' = cc
three_outside (p ∷ q ∷ []) f e e' e'' = cc
three_outside (p ∷ q ∷ r ∷ []) f e e' e'' = cc
three_outside (p ∷ q ∷ r ∷ o ∷ ts) f e e' e'' = elim (f.1.1.1) [ ]

IsCalm-outside :
    (s : Processing) (xs : List Packet)
    → IsServing s xs
    → IsCalm s
    → s.system.threads ≡ idle ∷ idle ∷ idle ∷ []
IsCalm-outside s xs h c =
    three_outside s.system.threads h.served.fit c.out_high c.out_low c.out_consumer

IsCalm-IsFinished :
    (s : Processing) (xs : List Packet)
    → IsServing s xs
    → IsCalm s
    → s.high_priority_count ≡ items
    → s.low_priority_count ≡ items
    → IsFinished s
IsCalm-IsFinished s xs h c high low =
    let out = IsCalm-outside s xs h c in
    let (high', low', _, _) = all_outside s h out in
    record {
      outside = out;
      high_done = omega (arith, high);
      low_done = omega (arith, low);
      processed =
          omega
            (arith, high, low, high', low', length-worth xs, h.served.represents.counted, c.empty);
    }

-- What is left to do in a calm state.
low_finishes :
    (s : Processing) (xs : List Packet)
    → IsServing s xs
    → IsCalm s
    → s.high_priority_count ≡ items
    → (u : Processing) × Reach s u × IsFinished u
low_finishes s xs h c high =
    let (_, _, _, low_le) = all_outside s h (IsCalm-outside s xs h c) in
    let (t, r, c1, high1, low1) =
      low_turns (items - s.low_priority_count) xs h c (omega (arith, low_le)) high in
    let (ys, h1) = Reach-IsServing r h in (t, r, IsCalm-IsFinished t ys h1 c1 high1 low1)

IsCalm-finishes :
    (s : Processing) (xs : List Packet)
    → IsServing s xs
    → IsCalm s
    → (u : Processing) × Reach s u × IsFinished u
IsCalm-finishes s xs h c =
    let (_, _, high_le, _) = all_outside s h (IsCalm-outside s xs h c) in
    let (t, r, c1, high) =
      high_turns (items - s.high_priority_count) xs h c (omega (arith, high_le)) in
    let (ys, h1) = Reach-IsServing r h in
    let (u, r1, f) = low_finishes t ys h1 c1 high in (u, Reach-trans r r1, f)

-- The program runs from its start at an empty buffer, its tail in step, where what a call does without
-- the mutex is one step. From every state that it comes to, however its threads have interleaved, some
-- further steps lead to a state where all threads have returned.
pub can_finish :
    {r : Ring Packet} {t : Processing}
    → Represents r []
    → IsInStep r
    → Reach (start r) t
    → (u : Processing) × Reach t u × IsFinished u
can_finish {r} {t} v v' run =
    let from = start-IsServing r v v' in
    let (xs, h) = Reach-IsServing run from in
    let (s, r1, c) = quietens xs h (Reach-unterminated run from refl) in
    let (ys, h1) = Reach-IsServing r1 h in
    let (u, r2, f) = IsCalm-finishes s ys h1 c in (u, Reach-trans r1 r2, f)
