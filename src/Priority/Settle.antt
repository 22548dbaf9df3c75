-- ===== src/Priority/Settle.antt =====
-- The consumer of `demonstrate_priority_processing` of examples/producer_consumer_example.cc goes on until it
-- is outside the buffer.
use ring_buffer.Base.{
  ℕ, ◌+◌, ◌≡◌, ◌≤◌, ◌<◌, ◌∙◌, refl, ap, Bool, true, false, Bool-cases, inl, inr, List, [], ◌∷◌,
  ◌==◌, dec_lt, some, get_elem?, get_elem?-set_self, get_elem?-set_ne, lt-of-get_elem?, set, arith,
}
use ring_buffer.Result.{ok}
use ring_buffer.Ring
use ring_buffer.Ring.{Ring}
use ring_buffer.Ring.Valid.{count-pop_front}
use ring_buffer.Ring.Pop.{pop_front-Represents}
use ring_buffer.ThreadSafe.{
  Cv, attempt, finish_rest, pop_timed, pop_rest, value, nothing, silent, one, not_full, not_empty,
  finish, unlock, sleep,
}
use ring_buffer.ThreadSafe.Threads.{
  Pc, idle, ready, asleep, unlocked, answered, quiet, moves, ends, sleeps, unlocks, expires,
}
use ring_buffer.ThreadSafe.Places.{AllFit-place}
use ring_buffer.ThreadSafe.OneConsumer.{Fits, weigh-get}
use ring_buffer.Priority.{
  Packet, Processing, Step, is_high, processes_high, processes_low, misses, here, next,
}
use ring_buffer.Priority.Workers.{Worker, consumer, workers, makes, pops, plays_by}
use ring_buffer.Priority.Accounts.{IsServing}
use ring_buffer.Priority.Steps.{Reach-IsServing}
use ring_buffer.Priority.Onward.{stay, Onward, Onward-after, with_system, goes_on_with, moves_to}

-- Thread 2 comes to a place, with so much in the buffer.
abbrev pub Comes : Processing → Pc Packet → ℕ → Type 0
Comes s p n =
    (t : Processing) × Onward 2 0 0 s t
    × (get_elem? t.system.threads 2 ≡ some p)
    × (t.system.ring.count ≡ n)

-- The consumer goes on with its function.
pub counted :
    {s t : Processing} {old : Pc Packet}
    → Step s t
    → t.terminated ≡ false
    → t.high_priority_count ≡ s.high_priority_count
    → t.low_priority_count ≡ s.low_priority_count
    → (new : Pc Packet) → t.system ≡ record s.system { threads = set s.system.threads 2 new }
    → get_elem? s.system.threads 2 ≡ some old
    → Comes s new s.system.ring.count
counted {s} {t} σ z h l new same e = (
  t,
  record {
    reach = next here σ;
    others = λ j apart f. rw same (get_elem?-set_ne s.system.threads 2 j new apart ∙ f);
    unterminated = z;
    high_more = omega (arith, h);
    low_more = omega (arith, l);
  },
  rw same (get_elem?-set_self s.system.threads 2 new (lt-of-get_elem? s.system.threads 2 e)),
  ap (λ sys. sys.ring.count) same,
)

after : {s t : Processing} {p : Pc Packet} {n : ℕ} → Onward 2 0 0 s t → Comes t p n → Comes s p n
after o (u, p, e, c) = (u, Onward-after o p, e, c)

from_answered :
    {s : Processing} (p : Packet)
    → s.terminated ≡ false
    → get_elem? s.system.threads 2 ≡ some (answered (value p))
    → Comes s idle s.system.ring.count
from_answered p z e = elim (Bool-cases (is_high p)) [
  | inl high ↦ counted (processes_high p e high z) z refl refl idle refl e
  | inr low ↦ counted (processes_low p e low z) z refl refl idle refl e
]

from_unlocked :
    {s : Processing} (xs : List Packet)
    → IsServing s xs
    → s.terminated ≡ false
    → get_elem? s.system.threads 2 ≡ some (unlocked pop_rest)
    → (t : Processing) × Onward 2 0 0 s t
      × (get_elem? t.system.threads 2 ≡ some idle)
      × (t.system.ring.count + 1 ≡ s.system.ring.count)
unfolding finish_rest
from_unlocked {s} [] h z e = absurd (
    omega (
      arith,
      h.served.backed,
      weigh-get makes pops plays_by workers s.system.threads 2 {w = consumer} refl e,
    ))
from_unlocked {s} (x ∷ xs) h z e =
    let (r1, f, v1, s1) = pop_front-Represents s.system.ring h.served.represents h.served.in_step in
    let rest : finish_rest pop_rest s.system.ring ≡ ok (finish r1 (value x) (one not_full)) =
      rw f refl in
    let (us, o, there) = goes_on_with 2 z e rest in
    let (t, p, e', c) = from_answered {s = with_system s r1 us} x z there in
    (t, Onward-after o p, e', omega (arith, c, count-pop_front s.system.ring f))

pub from_ready_left :
    {s : Processing} (xs : List Packet) (late : Bool)
    → IsServing s xs
    → s.terminated ≡ false
    → get_elem? s.system.threads 2 ≡ some (ready late pop_timed)
    → 0 < s.system.ring.count
    → (t : Processing) × Onward 2 0 0 s t
      × (get_elem? t.system.threads 2 ≡ some idle)
      × (t.system.ring.count + 1 ≡ s.system.ring.count)
unfolding attempt Ring.empty
from_ready_left {s} xs late h z e l =
    let some_left : (s.system.ring.count == 0) ≡ false = ground arith in
    let past : attempt late pop_timed s.system.ring ≡ ok (unlock pop_rest) = rw some_left refl in
    let (o, there) = moves_to 2 z (unlocked pop_rest) e (unlocks 2 late pop_timed e past) refl in
    let (ys, h') = Reach-IsServing o.reach h in
    let (t, p, e', c) = from_unlocked ys h' o.unterminated there in (t, Onward-after o p, e', c)

from_late :
    {s : Processing}
    → s.terminated ≡ false
    → get_elem? s.system.threads 2 ≡ some (ready true pop_timed)
    → s.system.ring.count ≡ 0
    → Comes s idle 0
unfolding attempt Ring.empty
from_late {s} z e c =
    let none_left : (s.system.ring.count == 0) ≡ true = ground arith in
    let over : attempt true pop_timed s.system.ring ≡ ok (finish s.system.ring nothing silent) =
      rw none_left refl in
    let (o, there) = moves_to 2 z (answered nothing) e (ends 2 true pop_timed e over quiet) refl in
    let (t, p, e', c') = counted (misses there z) z refl refl idle refl there in
    (t, Onward-after o p, e', c' ∙ c)

-- The consumer comes out of the buffer.
abbrev pub Settles : Processing → Type 0
Settles s =
    (t : Processing) × Onward 2 0 0 s t
    × (get_elem? t.system.threads 2 ≡ some idle)
    × (t.system.ring.count ≤ s.system.ring.count)

from_asleep :
    {s : Processing} (xs : List Packet) {v : Cv}
    → IsServing s xs
    → s.terminated ≡ false
    → get_elem? s.system.threads 2 ≡ some (asleep v pop_timed)
    → Settles s
from_asleep {s} xs {v} h z e =
    let (o, there) =
      moves_to 2 z (ready true pop_timed) e (moves (expires 2 v pop_timed refl e)) refl in
    let (ys, h') = Reach-IsServing o.reach h in
    elim (dec_lt 0 s.system.ring.count) [
      | yes left ↦
          let (t, p, e', c) = from_ready_left ys true h' o.unterminated there left in
          (t, Onward-after o p, e', omega (arith, c))
      | no all_gone ↦
          let (t, p, e', c) = from_late o.unterminated there (omega (arith, all_gone)) in
          (t, Onward-after o p, e', omega (arith, c))
    ]

from_empty :
    {s : Processing} (xs : List Packet) (late : Bool)
    → IsServing s xs
    → s.terminated ≡ false
    → get_elem? s.system.threads 2 ≡ some (ready late pop_timed)
    → s.system.ring.count ≡ 0
    → Settles s
unfolding attempt Ring.empty
from_empty xs true h z e c =
    let (t, p, e', c') = from_late z e c in (t, p, e', omega (arith, c, c'))
from_empty {s} xs false h z e c =
    let none_left : (s.system.ring.count == 0) ≡ true = ground arith in
    let waits : attempt false pop_timed s.system.ring ≡ ok (sleep not_empty) = rw none_left refl in
    let (o, there) =
      moves_to 2 z (asleep not_empty pop_timed) e (sleeps 2 false pop_timed e waits) refl in
    let (ys, h') = Reach-IsServing o.reach h in
    let (t, p, e', c') = from_asleep ys h' o.unterminated there in (t, Onward-after o p, e', c')

from_ready :
    {s : Processing} (xs : List Packet) (late : Bool)
    → IsServing s xs
    → s.terminated ≡ false
    → get_elem? s.system.threads 2 ≡ some (ready late pop_timed)
    → Settles s
from_ready {s} xs late h z e = elim (dec_lt 0 s.system.ring.count) [
  | yes left ↦
      let (t, p, e', c) = from_ready_left xs late h z e left in (t, p, e', omega (arith, c))
  | no all_gone ↦ from_empty xs late h z e (omega (arith, all_gone))
]

from_place :
    {s : Processing} (xs : List Packet) (p : Pc Packet)
    → IsServing s xs
    → s.terminated ≡ false
    → get_elem? s.system.threads 2 ≡ some p
    → Fits makes pops plays_by consumer p
    → Settles s
from_place {s} xs idle h z e f = (s, stay z, e, omega arith)
from_place xs (ready late pop_timed) h z e f = from_ready xs late h z e
from_place xs (asleep v pop_timed) h z e f = from_asleep xs h z e
from_place xs (unlocked pop_rest) h z e f =
    let (t, p, e', c) = from_unlocked xs h z e in (t, p, e', omega (arith, c))
from_place xs (answered (value x)) h z e f =
    let (t, p, e', c) = from_answered x z e in (t, p, e', omega (arith, c))
from_place xs (answered nothing) h z e f =
    let (t, p, e', c) = counted (misses e z) z refl refl idle refl e in (t, p, e', omega (arith, c))
from_place xs _ h z e f = cc

-- Each of the three has a place.
pub placed :
    {s : Processing} (xs : List Packet) (i : ℕ) {w : Worker}
    → IsServing s xs
    → get_elem? workers i ≡ some w
    → (p : Pc Packet) × (get_elem? s.system.threads i ≡ some p) × Fits makes pops plays_by w p
placed {s} xs i h e =
    AllFit-place (Fits makes pops plays_by) workers s.system.threads i h.served.fit e

pub settle : {s : Processing} (xs : List Packet) → IsServing s xs → s.terminated ≡ false → Settles s
settle xs h z = let (p, e, f) = placed xs 2 h refl in from_place xs p h z e f
