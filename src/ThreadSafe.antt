-- ===== src/ThreadSafe.antt =====
-- include/thread_safe_ring_buffer.h: `ring_buffer_thread_safe`, a `ring_buffer` under a mutex with two
-- condition variables, shared by threads. What a thread does from taking the mutex to releasing it is
-- one step. The modules below prove what any interleaving of such steps can do.
pub mod Threads
pub mod Queue
pub mod Turns
pub mod Whole
pub mod Places
pub mod OneConsumer
pub mod Refine
pub mod History
pub mod Counts
pub mod Wakeups
pub mod Races
mod Tests
use ring_buffer.Base.{
  ℕ, ◌≡◌, ◌≢◌, Bool, true, false, List, map, some, if◌then◌else◌, get_elem?, set,
}
use ring_buffer.Result.{Result, ok, throw, fault, Exception, ◌>>=◌}
use ring_buffer.Ring
use ring_buffer.Ring.{Ring}

-- The calls of a client. `emplace` carries the object that its arguments construct.
pub data Call {ℓ} (A : Type ℓ) : Type ℓ where
  push emplace try_push push_timed : A → Call A
  pop try_pop pop_timed front back size capacity empty full available clear : Call A
  at : ℕ → Call A
  wait_not_empty wait_not_full : Call A

-- What a call comes to: no value, a Boolean, an element, `std::nullopt`, a number, or an exception.
pub data Answer {ℓ} (A : Type ℓ) : Type ℓ where
  done nothing : Answer A
  flag : Bool → Answer A
  value : A → Answer A
  number : ℕ → Answer A
  raised : Exception → Answer A

-- The condition variables `not_empty_` and `not_full_`.
pub data Cv : Type 0 where
  not_empty not_full : Cv

pub data Signal : Type 0 where
  silent : Signal
  one all : Cv → Signal

-- What is left to do of a call with a time limit once its `if` statement has released the mutex.
pub data Rest {ℓ} (A : Type ℓ) : Type ℓ where
  push_rest : A → Rest A
  pop_rest : Rest A

-- How a thread that holds the mutex gives it up: at the end of the call, with what it signals; to wait
-- for a condition variable; or with the rest of the call still to do.
pub data Outcome {ℓ} (A : Type ℓ) : Type ℓ where
  finish : Ring A → Answer A → Signal → Outcome A
  sleep : Cv → Outcome A
  unlock : Rest A → Outcome A

module _ {ℓ} {A : Type ℓ} where
  abbrev pub put : Result (Ring A) → Answer A → Result (Outcome A)
  put m a = m >>= λ r'. ok (finish r' a (one not_empty))

  abbrev pub take : Ring A → Result (A × Ring A) → Result (Outcome A)
  take r (ok (a, r')) = ok (finish r' (value a) (one not_full))
  take r (throw e) = ok (finish r (raised e) silent)
  take r fault = fault

  abbrev pub look : Ring A → Result A → Result (Outcome A)
  look r (ok a) = ok (finish r (value a) silent)
  look r (throw e) = ok (finish r (raised e) silent)
  look r fault = fault

  abbrev pub say : Ring A → Answer A → Result (Outcome A)
  say r a = ok (finish r a silent)

  -- What the methods do while they hold the mutex. `late` tells that the time limit has passed.
  abbrev pub locked_push_back : A → Ring A → Result (Outcome A)
  locked_push_back x r = if r.full then ok (sleep not_full) else put (Ring.push_back r x) done

  abbrev pub locked_emplace_back : A → Ring A → Result (Outcome A)
  locked_emplace_back x r =
      if r.full then ok (sleep not_full) else put (Ring.emplace_back r (ok x)) done

  abbrev pub locked_try_push_back : A → Ring A → Result (Outcome A)
  locked_try_push_back x r =
      if r.full then say r (flag false) else put (Ring.push_back r x) (flag true)

  -- The `if` statement of `push_back_with_timeout`, at whose end the mutex is released.
  abbrev pub locked_push_back_with_timeout : Bool → A → Ring A → Result (Outcome A)
  locked_push_back_with_timeout late x r =
      if r.full
      then (if late then say r (flag false) else ok (sleep not_full))
      else ok (unlock (push_rest x))

  abbrev pub locked_pop_front : Ring A → Result (Outcome A)
  locked_pop_front r = take r (Ring.pop_front r)

  abbrev pub locked_try_pop_front : Ring A → Result (Outcome A)
  locked_try_pop_front r = if Ring.empty r then say r nothing else take r (Ring.pop_front r)

  -- The `if` statement of `pop_front_with_timeout`.
  abbrev pub locked_pop_front_with_timeout : Bool → Ring A → Result (Outcome A)
  locked_pop_front_with_timeout late r =
      if Ring.empty r
      then (if late then say r nothing else ok (sleep not_empty))
      else ok (unlock pop_rest)

  abbrev pub locked_front : Ring A → Result (Outcome A)
  locked_front r = look r (Ring.front r)

  abbrev pub locked_back : Ring A → Result (Outcome A)
  locked_back r = look r (Ring.back r)

  abbrev pub locked_at : ℕ → Ring A → Result (Outcome A)
  locked_at i r = look r (Ring.at r i)

  abbrev pub locked_size : Ring A → Result (Outcome A)
  locked_size r = say r (number r.count)

  abbrev pub locked_capacity : Ring A → Result (Outcome A)
  locked_capacity r = say r (number r.capacity)

  abbrev pub locked_empty : Ring A → Result (Outcome A)
  locked_empty r = say r (flag (Ring.empty r))

  abbrev pub locked_full : Ring A → Result (Outcome A)
  locked_full r = say r (flag r.full)

  abbrev pub locked_available : Ring A → Result (Outcome A)
  locked_available r = say r (number (Ring.available r))

  abbrev pub locked_clear : Ring A → Result (Outcome A)
  locked_clear r = Ring.clear r >>= λ r'. ok (finish r' done (all not_full))

  abbrev pub locked_wait_until_not_empty : Bool → Ring A → Result (Outcome A)
  locked_wait_until_not_empty late r =
      if Ring.empty r
      then (if late then say r (flag false) else ok (sleep not_empty))
      else say r (flag true)

  abbrev pub locked_wait_until_not_full : Bool → Ring A → Result (Outcome A)
  locked_wait_until_not_full late r =
      if r.full
      then (if late then say r (flag false) else ok (sleep not_full))
      else say r (flag true)

  -- A thread has taken the mutex, for the first time or after a wait, and evaluates the predicate of
  -- its wait.
  unfoldable pub attempt : Bool → Call A → Ring A → Result (Outcome A)
  attempt late (push x) r = locked_push_back x r
  attempt late (emplace x) r = locked_emplace_back x r
  attempt late (try_push x) r = locked_try_push_back x r
  attempt late (push_timed x) r = locked_push_back_with_timeout late x r
  attempt late pop r = locked_pop_front r
  attempt late try_pop r = locked_try_pop_front r
  attempt late pop_timed r = locked_pop_front_with_timeout late r
  attempt late front r = locked_front r
  attempt late back r = locked_back r
  attempt late (at i) r = locked_at i r
  attempt late size r = locked_size r
  attempt late capacity r = locked_capacity r
  attempt late empty r = locked_empty r
  attempt late full r = locked_full r
  attempt late available r = locked_available r
  attempt late clear r = locked_clear r
  attempt late wait_not_empty r = locked_wait_until_not_empty late r
  attempt late wait_not_full r = locked_wait_until_not_full late r

  -- The statements of `push_back_with_timeout` and `pop_front_with_timeout` that follow the `if` run
  -- without the mutex. They are one step here; in the code another thread can come between any two of
  -- their reads and writes.
  unfoldable pub finish_rest : Rest A → Ring A → Result (Outcome A)
  finish_rest (push_rest x) r = put (Ring.push_back r x) (flag true)
  finish_rest pop_rest r = take r (Ring.pop_front r)
