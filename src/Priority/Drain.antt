-- ===== src/Priority/Drain.antt =====
-- The consumer of `demonstrate_priority_processing` of examples/producer_consumer_example.cc empties the buffer.
use ring_buffer.Base.{ℕ, zero, suc, ◌+◌, ◌≡◌, ◌≤◌, ◌<◌, refl, false, List, some, get_elem?, arith}
use ring_buffer.ThreadSafe.{Answer, pop_timed, done}
use ring_buffer.ThreadSafe.Threads.{Pc, idle, ready, answered}
use ring_buffer.ThreadSafe.Places.{weigh-le, busy}
use ring_buffer.ThreadSafe.OneConsumer.Worth.{told}
use ring_buffer.Priority.{Packet, Processing, packets_wanted, asks}
use ring_buffer.Priority.Workers.{
  Worker, workers, high_worth, low_worth, high_credit, low_credit, high_given, low_given,
}
use ring_buffer.Priority.Accounts.{IsServing, length-worth}
use ring_buffer.Priority.Steps.{Reach-IsServing}
use ring_buffer.Priority.Onward.{stay, Onward-after}
use ring_buffer.Priority.Settle.{Comes, counted, from_ready_left, settle}

-- Who has put a packet in has a call under way.
told-le : (worth : Packet → ℕ) (n : ℕ) (a : Answer Packet) → told worth n a ≤ n
told-le worth n done = omega arith
told-le worth n _ = omega arith

high_given-le : (w : Worker) (p : Pc Packet) → high_given w p ≤ busy high_credit w p
high_given-le w (answered a) = told-le high_worth (high_credit w) a
high_given-le w _ = omega arith

low_given-le : (w : Worker) (p : Pc Packet) → low_given w p ≤ busy low_credit w p
low_given-le w (answered a) = told-le low_worth (low_credit w) a
low_given-le w _ = omega arith

-- While there is a packet in the buffer the consumer wants more.
pub wanted :
    {s : Processing} (xs : List Packet)
    → IsServing s xs
    → s.processed_high + s.processed_low + s.system.ring.count ≤ packets_wanted
wanted {s} xs h = omega (
  arith,
  h.high_kept,
  h.low_kept,
  h.high_bound,
  h.low_bound,
  weigh-le high_given (busy high_credit) high_given-le workers s.system.threads,
  weigh-le low_given (busy low_credit) low_given-le workers s.system.threads,
  length-worth xs,
  h.served.represents.counted,
)

-- The consumer takes the packets out, one after the other.
drain :
    (n : ℕ) {s : Processing} (xs : List Packet)
    → IsServing s xs
    → s.terminated ≡ false
    → get_elem? s.system.threads 2 ≡ some idle
    → s.system.ring.count ≡ n
    → Comes s idle 0
drain zero {s} xs h z e c = (s, stay z, e, c)
drain (suc n) {s} xs h z e c =
    let more : s.processed_high + s.processed_low < packets_wanted = omega (arith, wanted xs h) in
    let (t, o, there, same) = counted (asks more e z) z refl refl (ready false pop_timed) refl e in
    let (ys, h1) = Reach-IsServing o.reach h in
    let (u, o1, there1, less) =
      from_ready_left ys false h1 o.unterminated there (omega (arith, same)) in
    let (zs, h2) = Reach-IsServing o1.reach h1 in
    let (v, o2, there2, none_left) =
      drain n zs h2 o1.unterminated there1 (omega (arith, same, less)) in
    (v, Onward-after o (Onward-after o1 o2), there2, none_left)

pub cleared :
    {s : Processing} (xs : List Packet) → IsServing s xs → s.terminated ≡ false → Comes s idle 0
cleared {s} xs h z =
    let (t, o, e, _) = settle xs h z in
    let (ys, h1) = Reach-IsServing o.reach h in
    let (u, o1, e1, none_left) = drain t.system.ring.count ys h1 o.unterminated e refl in
    (u, Onward-after o o1, e1, none_left)
