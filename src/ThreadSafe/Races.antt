-- ===== src/ThreadSafe/Races.antt =====
-- Interleavings in include/thread_safe_ring_buffer.h of the calls with a time limit, whose `if`
-- statement releases the mutex, and of a waiter that takes nothing.
use ring_buffer.Base.{
  ℕ, zero, suc, ◌<◌, ◌≡◌, ◌≢◌, refl, sym, subst, Bool, true, false, List, [], ◌∷◌, ◌++◌, some,
  length, drop, get_elem?, ◌==◌, arith,
}
use ring_buffer.Result.{ok, pop_from_empty}
use ring_buffer.Window
use ring_buffer.Ring
use ring_buffer.Ring.{Ring}
use ring_buffer.Ring.Valid.{capacity-push_back, capacity-pop_front}
use ring_buffer.Ring.Holds.{Represents, IsInStep, Holds-room}
use ring_buffer.Ring.Push.{push_back-Represents}
use ring_buffer.Ring.Pop.{pop_front-empty, pop_front-Represents}
use ring_buffer.ThreadSafe.{
  Call, Cv, attempt, finish_rest, push, push_timed, pop, pop_timed, wait_not_full, flag, value,
  raised, not_full, not_empty, push_rest, pop_rest, sleep, unlock, finish, one, silent,
}
use ring_buffer.ThreadSafe.Threads.{
  Pc, Signals, System, Reach, ready, asleep, unlocked, answered, quiet, woken, nobody, ends, sleeps,
  unlocks, goes_on, here, next,
}

module _ {ℓ} {A : Type ℓ} where
  abbrev pub waits : Pc A → Bool
  waits (asleep v c) = true
  waits _ = false

  abbrev pub IsAwake : List (Pc A) → Type 0
  IsAwake [] = Unit
  IsAwake (p ∷ ps) = (waits p ≡ false) × IsAwake ps

  IsAwake-nobody :
      (ts : List (Pc A))
      → IsAwake ts
      → {v : Cv} (j : ℕ) (c : Call A) → get_elem? ts j ≢ some (asleep v c)
  IsAwake-nobody [] w j c e = cc
  IsAwake-nobody (p ∷ ps) w {v} zero c e =
      let same : p ≡ asleep v c = cc in
      let clash : true ≡ false = subst (λ q. waits q ≡ false) same w.0 in cc
  IsAwake-nobody (p ∷ ps) w (suc j) c e = IsAwake-nobody ps w.1 j c e

  -- A signal that no thread waits for.
  pub alone : (ts : List (Pc A)) → IsAwake ts → {v : Cv} → Signals ts (one v) ts
  alone ts w = nobody (IsAwake-nobody ts w)

  -- A system of a buffer and threads.
  abbrev pub at_work : Ring A → List (Pc A) → System A
  at_work r ts = record { ring = r; threads = ts }

  module _ {client : Call A → Bool} (r : Ring A) where
    -- Two threads call `push_back_with_timeout` on a buffer, its tail in step, with one free slot.
    -- Both can be told that their element was added while the second has overwritten the oldest.
    pub push_timed_race :
        (xs : List A) (a b : A)
        → Represents r xs
        → suc (length xs) ≡ r.capacity
        → (r' : Ring A) × Reach client
            (at_work r (ready false (push_timed a) ∷ ready false (push_timed b) ∷ []))
            (at_work r' (answered (flag true) ∷ answered (flag true) ∷ []))
          × Represents r' (drop 1 (xs ++ a ∷ []) ++ b ∷ [])
    unfolding attempt finish_rest
    push_timed_race xs a b v one_left =
        let room : r.full ≡ false = ground (arith, v.counted, v.full_is) in
        let (r1, e1, v1) = push_back-Represents r a v in
        let (r2, e2, v2) = push_back-Represents r1 b v1 in
        let full_twice : Window.push r1.capacity (Window.push r.capacity xs a) b
            ≡ drop 1 (xs ++ a ∷ []) ++ b ∷ [] =
          subst
            (λ n. Window.push n (Window.push r.capacity xs a) b ≡ drop 1 (xs ++ a ∷ []) ++ b ∷ [])
            (sym (capacity-push_back r a e1)) (Window.push-push r.capacity xs a b one_left) in
        let past0 : attempt false (push_timed a) r ≡ ok (unlock (push_rest a)) = rw room refl in
        let past1 : attempt false (push_timed b) r ≡ ok (unlock (push_rest b)) = rw room refl in
        let put0 : finish_rest (push_rest a) r ≡ ok (finish r1 (flag true) (one not_empty)) =
          rw e1 refl in
        let put1 : finish_rest (push_rest b) r1 ≡ ok (finish r2 (flag true) (one not_empty)) =
          rw e2 refl in
        let halfway : List (Pc A) = answered (flag true) ∷ unlocked (push_rest b) ∷ [] in
        let unheard : Signals halfway (one not_empty) halfway = alone halfway (refl, (refl, tt)) in
        (
          r2,
          next
              (next
                (next (next here (unlocks 0 false (push_timed a) refl past0))
                  (unlocks 1 false (push_timed b) refl past1))
                (goes_on 0 (push_rest a) refl put0 unheard))
              (goes_on 1 (push_rest b) refl put1
                (alone (answered (flag true) ∷ answered (flag true) ∷ []) (refl, (refl, tt)))),
          subst (Represents r2) full_twice v2,
        )

    -- Two threads call `pop_front_with_timeout` on a buffer, its tail in step, with one element. The
    -- second can meet the exception for an empty buffer, where the comment promises `std::nullopt`.
    pub pop_timed_race :
        (x : A)
        → Represents r (x ∷ [])
        → IsInStep r
        → (r' : Ring A) × Reach client
            (at_work r (ready false pop_timed ∷ ready false pop_timed ∷ []))
            (at_work r' (answered (value x) ∷ answered (raised pop_from_empty) ∷ []))
          × Represents r' []
    unfolding attempt finish_rest Ring.empty
    pop_timed_race x v s =
        let some_left : (r.count == 0) ≡ false = ground (arith, v.counted) in
        let (r1, e1, v1, s1) = pop_front-Represents r v s in
        let past : attempt false pop_timed r ≡ ok (unlock pop_rest) = rw some_left refl in
        let took : finish_rest pop_rest r ≡ ok (finish r1 (value x) (one not_full)) = rw e1 refl in
        let missed : finish_rest pop_rest r1 ≡ ok (finish r1 (raised pop_from_empty) silent) =
          rw (pop_front-empty r1 v1.holds) refl in
        let halfway : List (Pc A) = answered (value x) ∷ unlocked pop_rest ∷ [] in
        let unheard : Signals halfway (one not_full) halfway = alone halfway (refl, (refl, tt)) in
        (
          r1,
          next
              (next
                (next (next here (unlocks 0 false pop_timed refl past))
                  (unlocks 1 false pop_timed refl past))
                (goes_on 0 pop_rest refl took unheard))
              (goes_on 1 pop_rest refl missed quiet),
          v1,
        )

    -- On a full buffer, its tail in step, one thread waits in `push_back` and another in
    -- `wait_until_not_full`. A third pops, and its one wake-up can go to the second: the first then
    -- still sleeps while the buffer has a free slot and no thread is left to wake it.
    pub wait_not_full_steals :
        (x : A) (xs : List A) (a : A)
        → Represents r (x ∷ xs)
        → IsInStep r
        → r.full ≡ true
        → (r' : Ring A) × Reach client
            (at_work r (ready false (push a) ∷ ready false wait_not_full ∷ ready false pop ∷ []))
            (at_work r' (asleep not_full (push a) ∷ answered (flag true) ∷ answered (value x) ∷ []))
          × Represents r' xs
          × (length xs < r'.capacity)
    unfolding attempt
    wait_not_full_steals x xs a v s f =
        let (r1, e1, v1, s1) = pop_front-Represents r v s in
        let room : r1.full ≡ false =
          ground (arith, v.counted, v.full_is, v1.counted, v1.full_is, capacity-pop_front r e1) in
        let sleeps0 : attempt false (push a) r ≡ ok (sleep not_full) = rw f refl in
        let sleeps1 : attempt false wait_not_full r ≡ ok (sleep not_full) = rw f refl in
        let took : attempt false pop r ≡ ok (finish r1 (value x) (one not_full)) = rw e1 refl in
        let woke : attempt false wait_not_full r1 ≡ ok (finish r1 (flag true) silent) =
          rw room refl in
        (
          r1,
          next
              (next
                (next (next here (sleeps 0 false (push a) refl sleeps0))
                  (sleeps 1 false wait_not_full refl sleeps1))
                (ends 2 false pop refl took (woken 1 wait_not_full refl)))
              (ends 1 false wait_not_full refl woke quiet),
          v1,
          Holds-room v1.holds room,
        )
