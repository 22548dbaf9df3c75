-- ===== src/Priority/Calm.antt =====
-- The threads of `demonstrate_priority_processing` of examples/producer_consumer_example.cc come home, and take
-- turns.
use ring_buffer.Base.{
  ◌+◌, ◌≡◌, ◌<◌, ◌∙◌, refl, false, List, some, get_elem?, get_elem?-set_self, get_elem?-set_ne,
  lt-of-get_elem?, arith,
}
use ring_buffer.ThreadSafe.{push}
use ring_buffer.ThreadSafe.Threads.{idle, ready}
use ring_buffer.Priority.{
  Packet, Processing, Reach, items, high_packet, low_packet, pushes_high, pushes_low, here, next,
}
use ring_buffer.Priority.Accounts.{IsServing}
use ring_buffer.Priority.Steps.{Reach-IsServing}
use ring_buffer.Priority.Onward.{Reach-trans}
use ring_buffer.Priority.Settle.{placed}
use ring_buffer.Priority.Drain.{cleared}
use ring_buffer.Priority.Deliver.{counted_high, counted_low, from_ready, high_home, low_home}

-- All threads are outside, and the buffer is empty.
pub record IsCalm (s : Processing) : Type 0 where
  pub out_high : get_elem? s.system.threads 0 ≡ some idle
  pub out_low : get_elem? s.system.threads 1 ≡ some idle
  pub out_consumer : get_elem? s.system.threads 2 ≡ some idle
  pub empty : s.system.ring.count ≡ 0
  pub unterminated : s.terminated ≡ false

-- The consumer takes what is left, after which all is calm.
calms :
    {s : Processing} (xs : List Packet)
    → IsServing s xs
    → s.terminated ≡ false
    → get_elem? s.system.threads 0 ≡ some idle
    → get_elem? s.system.threads 1 ≡ some idle
    → (t : Processing) × Reach s t
      × IsCalm t
      × (t.high_priority_count ≡ s.high_priority_count)
      × (t.low_priority_count ≡ s.low_priority_count)
calms xs h z e f =
    let (t, o, g, c) = cleared xs h z in
    (
      t,
      o.reach,
      record {
        out_high = o.others 0 (omega arith) e;
        out_low = o.others 1 (omega arith) f;
        out_consumer = g;
        empty = c;
        unterminated = o.unterminated;
      },
      omega (arith, o.high_more),
      omega (arith, o.low_more),
    )

-- From every state the threads can come home.
pub quietens :
    {s : Processing} (xs : List Packet)
    → IsServing s xs
    → s.terminated ≡ false
    → (t : Processing) × Reach s t × IsCalm t
quietens xs h z =
    let (s1, o1, _, c1) = cleared xs h z in
    let (ys1, h1) = Reach-IsServing o1.reach h in
    let (p, e, f) = placed ys1 0 h1 refl in
    let (_, _, (s2, o2, home_high)) = high_home ys1 p h1 o1.unterminated c1 e f in
    let (ys2, h2) = Reach-IsServing o2.reach h1 in
    let (s3, o3, _, c3) = cleared ys2 h2 o2.unterminated in
    let (ys3, h3) = Reach-IsServing o3.reach h2 in
    let (q, e3, f3) = placed ys3 1 h3 refl in
    let (_, _, (s4, o4, home_low)) = low_home ys3 q h3 o3.unterminated c3 e3 f3 in
    let (ys4, h4) = Reach-IsServing o4.reach h3 in
    let (s5, r5, calm, _, _) =
      calms ys4 h4 o4.unterminated (o4.others 0 (omega arith) (o3.others 0 (omega arith) home_high))
        home_low in
    (
      s5,
      Reach-trans o1.reach (Reach-trans o2.reach (Reach-trans o3.reach (Reach-trans o4.reach r5))),
      calm,
    )

-- A producer brings one more packet, and the consumer takes it.
pub high_turn :
    {s : Processing} (xs : List Packet)
    → IsServing s xs
    → IsCalm s
    → s.high_priority_count < items
    → (t : Processing) × Reach s t
      × IsCalm t
      × (t.high_priority_count ≡ s.high_priority_count + 1)
      × (t.low_priority_count ≡ s.low_priority_count)
high_turn {s} xs h c l =
    let x : Packet = high_packet s.high_priority_count in
    let ts = s.system.threads in
    let σ = pushes_high l c.out_high c.unterminated in
    let (ys, h1) = Reach-IsServing (next here σ) h in
    let there = get_elem?-set_self ts 0 (ready false (push x)) (lt-of-get_elem? ts 0 c.out_high) in
    let (t, o, home) = from_ready 0 1 0 counted_high ys false x h1 c.unterminated c.empty there in
    let (zs, h2) = Reach-IsServing o.reach h1 in
    let low_out =
      o.others 1 (omega arith)
        (get_elem?-set_ne ts 0 1 (ready false (push x)) (omega arith) ∙ c.out_low) in
    let (u, r, calm, high_same, low_same) = calms zs h2 o.unterminated home low_out in
    (
      u,
      Reach-trans (Reach-trans (next here σ) o.reach) r,
      calm,
      omega (arith, high_same, o.high_more),
      omega (arith, low_same, o.low_more),
    )

pub low_turn :
    {s : Processing} (xs : List Packet)
    → IsServing s xs
    → IsCalm s
    → s.low_priority_count < items
    → (t : Processing) × Reach s t
      × IsCalm t
      × (t.high_priority_count ≡ s.high_priority_count)
      × (t.low_priority_count ≡ s.low_priority_count + 1)
low_turn {s} xs h c l =
    let x : Packet = low_packet s.low_priority_count in
    let ts = s.system.threads in
    let σ = pushes_low l c.out_low c.unterminated in
    let (ys, h1) = Reach-IsServing (next here σ) h in
    let there = get_elem?-set_self ts 1 (ready false (push x)) (lt-of-get_elem? ts 1 c.out_low) in
    let (t, o, home) = from_ready 1 0 1 counted_low ys false x h1 c.unterminated c.empty there in
    let (zs, h2) = Reach-IsServing o.reach h1 in
    let high_out =
      o.others 0 (omega arith)
        (get_elem?-set_ne ts 1 0 (ready false (push x)) (omega arith) ∙ c.out_high) in
    let (u, r, calm, high_same, low_same) = calms zs h2 o.unterminated high_out home in
    (
      u,
      Reach-trans (Reach-trans (next here σ) o.reach) r,
      calm,
      omega (arith, high_same, o.high_more),
      omega (arith, low_same, o.low_more),
    )
