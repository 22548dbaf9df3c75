-- ===== src/ThreadSafe/Tests.antt =====
-- Threads at buffers of three numbers, and the theorems at them.
use ring_buffer.Base.{
  ◌≤◌, ◌+◌, ◌&&◌, length, ℕ, zero, suc, ◌<◌, ◌≡◌, refl, Bool, true, false, not, List, [], ◌∷◌, some,
  none, arith,
}
use ring_buffer.Result.{ok, pop_from_empty}
use ring_buffer.Memory.{block, read, destroy, construct}
use ring_buffer.Ring.{
  Ring, empty, push_back, pop_front, increment_head, increment_tail, decrement_index,
}
use ring_buffer.Ring.Holds.{Holds, Represents, IsInStep}
use ring_buffer.Ring.Tests.{filled, popped, filled-Represents, popped-Represents}
use ring_buffer.ThreadSafe.{
  clear, wait_not_empty, Call, attempt, push, push_timed, pop, pop_timed, wait_not_full, done, flag,
  value, raised, not_full, not_empty, one, finish, sleep,
}
use ring_buffer.ThreadSafe.Threads.{
  timed, System, Reach, ready, asleep, answered, woken, ends, sleeps, here, next,
}
use ring_buffer.ThreadSafe.Queue
use ring_buffer.ThreadSafe.Queue.{serve, replies}
use ring_buffer.ThreadSafe.Turns.{lets_go, attempt-Serves}
use ring_buffer.ThreadSafe.Refine.{Shows, shown, Reach-refines}
use ring_buffer.ThreadSafe.History.{drops, first_in_first_out}
use ring_buffer.ThreadSafe.Wakeups.{no_lost_wakeups}
use ring_buffer.ThreadSafe.Races.{
  at_work, alone, push_timed_race, pop_timed_race, wait_not_full_steals,
}

attempt-Serves_example :
    (r' : Ring ℕ) × (attempt false pop filled ≡ ok (finish r' (value 1) (one not_full)))
    × (r'.capacity ≡ 3)
    × Represents r' (2 ∷ 3 ∷ [])
    × IsInStep r'
unfolding serve
attempt-Serves_example =
    attempt-Serves false pop filled (1 ∷ 2 ∷ 3 ∷ []) refl filled-Represents refl

-- Clients that make neither of the calls that release the mutex early.
abbrev calm : Call ℕ → Bool
calm c = not (lets_go c)

not-eq-true : (b : Bool) → not b ≡ true → b ≡ false
not-eq-true true h = cc
not-eq-true false h = refl

-- A thread waits to push 4 while another pops.
abbrev contended : System ℕ
contended = at_work filled (ready false (push 4) ∷ ready false pop ∷ [])

abbrev refilled : Ring ℕ
refilled = record filled { buffer = block (some 4 ∷ some 2 ∷ some 3 ∷ []); head = 1; tail = 1 }

contended-Shows :
    {client : Call ℕ → Bool}
    → client (push 4) ≡ true
    → client pop ≡ true
    → Shows 3 client contended (1 ∷ 2 ∷ 3 ∷ [])
contended-Shows p q = record {
  capacity_is = refl;
  represents = filled-Represents;
  in_step = refl;
  whole = (p, (q, tt));
}

contended-pop : attempt false pop filled ≡ ok (finish popped (value 1) (one not_full))
unfolding attempt pop_front empty increment_head read destroy
contended-pop = refl

contended-push : attempt false (push 4) popped ≡ ok (finish refilled done (one not_empty))
unfolding attempt push_back increment_tail construct
contended-push = refl

contended-full : attempt false (push 4) filled ≡ ok (sleep not_full)
unfolding attempt
contended-full = refl

abbrev contended_run :
    {client : Call ℕ → Bool}
    → Reach client contended (at_work refilled (answered done ∷ answered (value 1) ∷ []))
contended_run =
    next
      (next (next here (sleeps 0 false (push 4) refl contended-full))
        (ends 1 false pop refl contended-pop (woken 0 (push 4) refl)))
      (ends 0 false (push 4) refl contended-push
        (alone (answered done ∷ answered (value 1) ∷ []) (refl, (refl, tt))))

Reach-refines_example :
    (ys : List ℕ) × Queue.Reach 3 calm
      (shown contended (1 ∷ 2 ∷ 3 ∷ []))
      (shown (at_work refilled (answered done ∷ answered (value 1) ∷ [])) ys)
    × Shows 3 calm (at_work refilled (answered done ∷ answered (value 1) ∷ [])) ys
Reach-refines_example =
    Reach-refines 3 calm (λ c. not-eq-true (lets_go c)) (contended-Shows refl refl) contended_run

-- Clients that make no call with a time limit and do not clear.
abbrev steady : Call ℕ → Bool
steady c = not (timed c) && not (drops c)

steady-lets_go : (c : Call ℕ) → steady c ≡ true → lets_go c ≡ false
steady-lets_go (push_timed x) h = cc
steady-lets_go pop_timed h = cc
steady-lets_go _ h = refl

steady-timed : (c : Call ℕ) → steady c ≡ true → timed c ≡ false
steady-timed (push_timed x) h = cc
steady-timed pop_timed h = cc
steady-timed wait_not_empty h = cc
steady-timed wait_not_full h = cc
steady-timed _ h = refl

steady-drops : (c : Call ℕ) → steady c ≡ true → drops c ≡ false
steady-drops clear h = cc
steady-drops _ h = refl

steady-Shows : Shows 3 steady contended (1 ∷ 2 ∷ 3 ∷ [])
steady-Shows = contended-Shows refl refl

abbrev steady_run :
    Reach steady contended (at_work refilled (answered done ∷ answered (value 1) ∷ []))
steady_run = contended_run

first_in_first_out_example :
    (ys : List ℕ) × (1 ∷ 2 ∷ 3 ∷ 4 ∷ [] ≡ 1 ∷ ys)
    × Shows 3 steady (at_work refilled (answered done ∷ answered (value 1) ∷ [])) ys
first_in_first_out_example =
    first_in_first_out 3 steady steady-lets_go steady-drops steady-Shows steady_run

-- The pushing thread sleeps.
abbrev waiting_run :
    Reach steady contended (at_work filled (asleep not_full (push 4) ∷ ready false pop ∷ []))
waiting_run = next here (sleeps 0 false (push 4) refl contended-full)

no_lost_wakeups_example :
    (ys : List ℕ) × Shows 3 steady
      (at_work filled (asleep not_full (push 4) ∷ ready false pop ∷ []))
      ys
    × (0 < 1 → 3 ≤ length ys + 0)
no_lost_wakeups_example = no_lost_wakeups 3 steady steady-timed steady-Shows refl waiting_run

-- The elements 2 and 3 and one free slot.
push_timed_race_example :
    (r' : Ring ℕ) × Reach
      (λ c. true)
      (at_work popped (ready false (push_timed 4) ∷ ready false (push_timed 5) ∷ []))
      (at_work r' (answered (flag true) ∷ answered (flag true) ∷ []))
    × Represents r' (3 ∷ 4 ∷ 5 ∷ [])
push_timed_race_example = push_timed_race popped (2 ∷ 3 ∷ []) 4 5 popped-Represents refl

-- One element.
abbrev single : Ring ℕ
single = record filled {
  buffer = block (some 1 ∷ none ∷ none ∷ []);
  tail = 1;
  count = 1;
  full = false;
}

single-Holds : Holds single (1 ∷ [])
single-Holds = record {
  valid = record {
    capacity_pos = omega arith;
    capacity_small = omega arith;
    storage = omega arith;
    head_in = omega arith;
    tail_in = omega arith;
    count_in = omega arith;
    full_is = refl;
    overwrite_in = λ e. cc;
  };
  counted = refl;
  layout = elim [
    | zero ↦ λ h. refl
    | suc zero ↦ λ h. refl
    | suc (suc zero) ↦ λ h. refl
    | suc (suc (suc i)) ↦ λ h. absurd (omega arith)
  ];
}

single-Represents : Represents single (1 ∷ [])
unfolding decrement_index
single-Represents = record { holds = single-Holds; write_at = λ e. refl; back_at = λ p. refl }

pop_timed_race_example :
    (r' : Ring ℕ) × Reach
      (λ c. true)
      (at_work single (ready false pop_timed ∷ ready false pop_timed ∷ []))
      (at_work r' (answered (value 1) ∷ answered (raised pop_from_empty) ∷ []))
    × Represents r' []
pop_timed_race_example = pop_timed_race single 1 single-Represents refl

wait_not_full_steals_example :
    (r' : Ring ℕ) × Reach
      (λ c. true)
      (at_work filled (ready false (push 4) ∷ ready false wait_not_full ∷ ready false pop ∷ []))
      (at_work r' (asleep not_full (push 4) ∷ answered (flag true) ∷ answered (value 1) ∷ []))
    × Represents r' (2 ∷ 3 ∷ [])
    × (2 < r'.capacity)
wait_not_full_steals_example =
    wait_not_full_steals filled 1 (2 ∷ 3 ∷ []) 4 filled-Represents refl refl
