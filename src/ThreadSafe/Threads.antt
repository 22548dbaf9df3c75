-- ===== src/ThreadSafe/Threads.antt =====
-- The threads that share a `ring_buffer_thread_safe`, and what each of them can do next: the mutex and
-- the condition variables of include/thread_safe_ring_buffer.h as a step relation.
use ring_buffer.Base.{ℕ, ◌≡◌, ◌≢◌, Bool, true, false, List, map, some, get_elem?, set}
use ring_buffer.Result.{ok}
use ring_buffer.Ring.{Ring}
use ring_buffer.ThreadSafe.{
  Answer, Call, Cv, Rest, Signal, all, attempt, finish, finish_rest, not_empty, not_full, one,
  pop_timed, push_timed, silent, sleep, unlock, wait_not_empty, wait_not_full,
}

-- Where a thread stands: outside, before the mutex, waiting, past the mutex, or with an answer.
pub data Pc {ℓ} (A : Type ℓ) : Type ℓ where
  idle : Pc A
  ready : Bool → Call A → Pc A
  asleep : Cv → Call A → Pc A
  unlocked : Rest A → Pc A
  answered : Answer A → Pc A

pub record System {ℓ} (A : Type ℓ) : Type ℓ where
  pub ring : Ring A
  pub threads : List (Pc A)

-- The calls with a time limit.
abbrev pub timed {ℓ} : {A : Type ℓ} → Call A → Bool
timed (push_timed x) = true
timed pop_timed = true
timed wait_not_empty = true
timed wait_not_full = true
timed _ = false

abbrev pub wake_all {ℓ} : {A : Type ℓ} → Cv → Pc A → Pc A
wake_all not_full (asleep not_full c) = ready false c
wake_all not_empty (asleep not_empty c) = ready false c
wake_all v p = p

-- What a signal does to the threads. `notify_one` wakes any one thread that waits, if one does.
pub data Signals {ℓ} {A : Type ℓ} (ts : List (Pc A)) : Signal → List (Pc A) → Type ℓ where
  quiet : Signals ts silent ts
  woken :
      {v : Cv} (j : ℕ) (c : Call A)
      → get_elem? ts j ≡ some (asleep v c)
      → Signals ts (one v) (set ts j (ready false c))
  nobody :
      {v : Cv} → ((j : ℕ) (c : Call A) → get_elem? ts j ≢ some (asleep v c)) → Signals ts (one v) ts
  everybody : {v : Cv} → Signals ts (all v) (map (wake_all v) ts)

-- What thread `i` does without the mutex: call what its client allows, wake by itself or, with a time
-- limit, when that has passed, and return.
pub data Moves {ℓ} {A : Type ℓ} (client : Call A → Bool) (ts : List (Pc A))
    : List (Pc A) → Type ℓ where
  starts :
      (i : ℕ) (c : Call A)
      → client c ≡ true
      → get_elem? ts i ≡ some idle
      → Moves client ts (set ts i (ready false c))
  wakes :
      (i : ℕ) (v : Cv) (c : Call A)
      → get_elem? ts i ≡ some (asleep v c)
      → Moves client ts (set ts i (ready false c))
  expires :
      (i : ℕ) (v : Cv) (c : Call A)
      → timed c ≡ true
      → get_elem? ts i ≡ some (asleep v c)
      → Moves client ts (set ts i (ready true c))
  returns :
      (i : ℕ) (a : Answer A) → get_elem? ts i ≡ some (answered a) → Moves client ts (set ts i idle)

-- One step of one thread.
pub data Step {ℓ} {A : Type ℓ} (client : Call A → Bool) (s : System A) : System A → Type ℓ where
  moves : {ts : List (Pc A)} → Moves client s.threads ts → Step client s (record s { threads = ts })
  ends :
      (i : ℕ) (late : Bool) (c : Call A) {r' : Ring A} {a : Answer A} {sig : Signal}
      {ts : List (Pc A)}
      → get_elem? s.threads i ≡ some (ready late c)
      → attempt late c s.ring ≡ ok (finish r' a sig)
      → Signals (set s.threads i (answered a)) sig ts
      → Step client s (record { ring = r'; threads = ts })
  sleeps :
      (i : ℕ) (late : Bool) (c : Call A) {v : Cv}
      → get_elem? s.threads i ≡ some (ready late c)
      → attempt late c s.ring ≡ ok (sleep v)
      → Step client s (record s { threads = set s.threads i (asleep v c) })
  unlocks :
      (i : ℕ) (late : Bool) (c : Call A) {k : Rest A}
      → get_elem? s.threads i ≡ some (ready late c)
      → attempt late c s.ring ≡ ok (unlock k)
      → Step client s (record s { threads = set s.threads i (unlocked k) })
  goes_on :
      (i : ℕ) (k : Rest A) {r' : Ring A} {a : Answer A} {sig : Signal} {ts : List (Pc A)}
      → get_elem? s.threads i ≡ some (unlocked k)
      → finish_rest k s.ring ≡ ok (finish r' a sig)
      → Signals (set s.threads i (answered a)) sig ts
      → Step client s (record { ring = r'; threads = ts })

-- In a program the calls return to the functions that make them: those steps are the program's.
abbrev pub returning {ℓ} :
    {A : Type ℓ} {client : Call A → Bool} {s t : System A} → Step client s t → Bool
returning (moves (returns i a e)) = true
returning _ = false

pub data Reach {ℓ} {A : Type ℓ} (client : Call A → Bool) (s : System A) : System A → Type ℓ where
  here : Reach client s s
  next : {t u : System A} → Reach client s t → Step client t u → Reach client s u
