-- ===== src/Priority/Accounts.antt =====
-- The packets of `demonstrate_priority_processing` of examples/producer_consumer_example.cc: what the counters
-- say of the buffer in each state of the program.
use ring_buffer.Base.{
  length, ℕ, ◌+◌, ◌≡◌, ◌≤◌, refl, ap, List, [], ◌∷◌, ◌++◌, some, get_elem?, total, total-append,
  set, arith,
}
use ring_buffer.Ring.{Ring}
use ring_buffer.Ring.Holds.{Represents, IsInStep}
use ring_buffer.ThreadSafe.Threads.{Pc, idle, quiet}
use ring_buffer.ThreadSafe.Places.{weigh, weigh-thread, busy, busy-free}
use ring_buffer.ThreadSafe.OneConsumer.{IsServed, Fits, opened, moved}
use ring_buffer.Priority.{items, Packet, Processing, start}
use ring_buffer.Priority.Workers.{
  Worker, high_producer, low_producer, consumer, workers, makes, pops, plays_by, high_worth,
  low_worth, high_credit, low_credit, high_given, high_held, low_given, low_held,
}

-- Each packet that a producer has counted, or is about to, was counted by the consumer, is about to be,
-- or is in the queue.
pub record IsServing (s : Processing) (xs : List Packet) : Type 0 where
  pub served : IsServed makes pops plays_by workers s.system xs
  pub high_kept :
      s.high_priority_count + weigh high_given workers s.system.threads
      ≡ s.processed_high + weigh high_held workers s.system.threads + total high_worth xs
  pub low_kept :
      s.low_priority_count + weigh low_given workers s.system.threads
      ≡ s.processed_low + weigh low_held workers s.system.threads + total low_worth xs
  pub high_bound : s.high_priority_count + weigh (busy high_credit) workers s.system.threads ≤ items
  pub low_bound : s.low_priority_count + weigh (busy low_credit) workers s.system.threads ≤ items

pub start-IsServing : (r : Ring Packet) → Represents r [] → IsInStep r → IsServing (start r) []
start-IsServing r v v' = record {
  served = record {
    represents = v;
    in_step = v';
    fit = (tt, (tt, (tt, tt)));
    single = omega arith;
    backed = omega arith;
  };
  high_kept = refl;
  low_kept = refl;
  high_bound = omega arith;
  low_bound = omega arith;
}

-- A function of the program goes on, and counts.
pub acts :
    {s : Processing} {xs : List Packet} (i : ℕ) (w : Worker) {old : Pc Packet} (new : Pc Packet)
    (hc lc ph pl : ℕ)
    → get_elem? workers i ≡ some w
    → get_elem? s.system.threads i ≡ some old
    → Fits makes pops plays_by w new
    → opened w new ≡ 0
    → hc + high_given w new + s.processed_high + high_held w old
      ≡ s.high_priority_count + high_given w old + ph + high_held w new
    → lc + low_given w new + s.processed_low + low_held w old
      ≡ s.low_priority_count + low_given w old + pl + low_held w new
    → hc + weigh (busy high_credit) workers (set s.system.threads i new) ≤ items
    → lc + weigh (busy low_credit) workers (set s.system.threads i new) ≤ items
    → IsServing s xs
    → IsServing
        (record s {
          system = record s.system { threads = set s.system.threads i new };
          high_priority_count = hc;
          low_priority_count = lc;
          processed_high = ph;
          processed_low = pl;
        })
        xs
acts {s} {xs} i w new hc lc ph pl e f k o g l m n h = record {
  high_bound = m;
  low_bound = n;
  served =
      moved makes pops plays_by s.system.ring xs i new e f k h.served.represents h.served.in_step
        (omega arith) quiet h.served;
  high_kept = omega (
    arith,
    h.high_kept,
    g,
    weigh-thread high_given workers s.system.threads i new e f,
    weigh-thread high_held workers s.system.threads i new e f,
  );
  low_kept = omega (
    arith,
    h.low_kept,
    l,
    weigh-thread low_given workers s.system.threads i new e f,
    weigh-thread low_held workers s.system.threads i new e f,
  );
}

pub flow :
    (worth : Packet → ℕ) (xs ys us vs : List Packet)
    → xs ++ us ≡ vs ++ ys
    → total worth xs + total worth us ≡ total worth vs + total worth ys
flow worth xs ys us vs e =
    omega (arith, total-append worth xs us, total-append worth vs ys, ap (total worth) e)

-- Only its own producer is about to add to a counter.
pub high_busy :
    (ts : List (Pc Packet)) → get_elem? ts 0 ≡ some idle → weigh (busy high_credit) workers ts ≡ 0
high_busy [] e = cc
high_busy (p ∷ []) e = let here : p ≡ idle = cc in rw here refl
high_busy (p ∷ q ∷ []) e =
    let here : p ≡ idle = cc in rw here (omega (arith, busy-free high_credit low_producer q refl))
high_busy (p ∷ q ∷ r ∷ ts) e =
    let here : p ≡ idle = cc in
    rw here (
      omega
        (arith, busy-free high_credit low_producer q refl, busy-free high_credit consumer r refl))

pub low_busy :
    (ts : List (Pc Packet)) → get_elem? ts 1 ≡ some idle → weigh (busy low_credit) workers ts ≡ 0
low_busy [] e = cc
low_busy (p ∷ []) e = cc
low_busy (p ∷ q ∷ []) e =
    let here : q ≡ idle = cc in rw here (omega (arith, busy-free low_credit high_producer p refl))
low_busy (p ∷ q ∷ r ∷ ts) e =
    let here : q ≡ idle = cc in
    rw here (
      omega
        (arith, busy-free low_credit high_producer p refl, busy-free low_credit consumer r refl))

-- Each packet is of high priority or of low.
pub length-worth : (xs : List Packet) → length xs ≡ total high_worth xs + total low_worth xs
length-worth [] = refl
length-worth (p ∷ xs) =
    let one : high_worth p + low_worth p ≡ 1 = ground arith in omega (arith, length-worth xs)
