-- ===== src/ThreadSafe/Queue.antt =====
-- What `ring_buffer_thread_safe` promises to its threads: a queue of at most `cap` elements, first in,
-- first out, that loses none. A call that finds no room or no element waits, answers or throws, as the
-- comments of include/thread_safe_ring_buffer.h say.
use ring_buffer.Base.{
  ℕ, ◌-◌, ◌≡◌, Bool, true, false, List, [], ◌∷◌, ◌++◌, Option, none, some, length, get_elem?, set,
  if◌then◌else◌, ◌==◌,
}
use ring_buffer.Result.{Exception, pop_from_empty, front_of_empty, back_of_empty, out_of_range}
use ring_buffer.ThreadSafe.{
  Call, Answer, Cv, Signal, push, emplace, try_push, push_timed, pop, try_pop, pop_timed, front,
  back, at, size, capacity, empty, full, available, clear, wait_not_empty, wait_not_full, done,
  nothing, flag, value, number, raised, not_empty, not_full, silent, one, all,
}
use ring_buffer.ThreadSafe.Threads.{Pc, ready, asleep, answered, Moves, Signals}

-- A turn at the queue: the thread waits, or gets an answer and leaves a queue and a signal.
pub data Turn {ℓ} (A : Type ℓ) : Type ℓ where
  stays : Cv → Turn A
  replies : Answer A → List A → Signal → Turn A

module _ {ℓ} {A : Type ℓ} where
  -- Without room the turn is `otherwise`, and with room the element goes to the end.
  abbrev pub offer : ℕ → List A → A → Answer A → Turn A → Turn A
  offer cap xs x a otherwise =
      if length xs == cap then otherwise else replies a (xs ++ x ∷ []) (one not_empty)

  -- The element at the front goes out, and without one the turn is `otherwise`.
  abbrev pub fetch : List A → Turn A → Turn A
  fetch [] otherwise = otherwise
  fetch (x ∷ xs) otherwise = replies (value x) xs (one not_full)

  -- A thread whose time limit has passed gives up, any other waits.
  abbrev pub patience : Bool → List A → Answer A → Cv → Turn A
  patience late xs a v = if late then replies a xs silent else stays v

  abbrev pub found : Option A → Exception → Answer A
  found none e = raised e
  found (some a) e = value a

  unfoldable pub serve : ℕ → Bool → Call A → List A → Turn A
  serve cap late (push x) xs = offer cap xs x done (stays not_full)
  serve cap late (emplace x) xs = offer cap xs x done (stays not_full)
  serve cap late (try_push x) xs = offer cap xs x (flag true) (replies (flag false) xs silent)
  serve cap late (push_timed x) xs =
      offer cap xs x (flag true) (patience late xs (flag false) not_full)
  serve cap late pop xs = fetch xs (replies (raised pop_from_empty) xs silent)
  serve cap late try_pop xs = fetch xs (replies nothing xs silent)
  serve cap late pop_timed xs = fetch xs (patience late xs nothing not_empty)
  serve cap late front xs = replies (found (get_elem? xs 0) front_of_empty) xs silent
  serve cap late back xs = replies (found (get_elem? xs (length xs - 1)) back_of_empty) xs silent
  serve cap late (at i) xs = replies (found (get_elem? xs i) (out_of_range i cap)) xs silent
  serve cap late size xs = replies (number (length xs)) xs silent
  serve cap late capacity xs = replies (number cap) xs silent
  serve cap late empty xs = replies (flag (length xs == 0)) xs silent
  serve cap late full xs = replies (flag (length xs == cap)) xs silent
  serve cap late available xs = replies (number (cap - length xs)) xs silent
  serve cap late clear xs = replies done [] (all not_full)
  serve cap late wait_not_empty xs =
      if length xs == 0
      then patience late xs (flag false) not_empty
      else replies (flag true) xs silent
  serve cap late wait_not_full xs =
      if length xs == cap
      then patience late xs (flag false) not_full
      else replies (flag true) xs silent

-- The queue and the threads that share it.
pub record State {ℓ} (A : Type ℓ) : Type ℓ where
  pub queue : List A
  pub threads : List (Pc A)

pub data Step {ℓ} {A : Type ℓ} (cap : ℕ) (client : Call A → Bool) (s : State A)
    : State A → Type ℓ where
  moves :
      {ts : List (Pc A)} → Moves client s.threads ts → Step cap client s (record s { threads = ts })
  ends :
      (i : ℕ) (late : Bool) (c : Call A) {xs : List A} {a : Answer A} {sig : Signal}
      {ts : List (Pc A)}
      → get_elem? s.threads i ≡ some (ready late c)
      → serve cap late c s.queue ≡ replies a xs sig
      → Signals (set s.threads i (answered a)) sig ts
      → Step cap client s (record { queue = xs; threads = ts })
  sleeps :
      (i : ℕ) (late : Bool) (c : Call A) {v : Cv}
      → get_elem? s.threads i ≡ some (ready late c)
      → serve cap late c s.queue ≡ stays v
      → Step cap client s (record s { threads = set s.threads i (asleep v c) })

pub data Reach {ℓ} {A : Type ℓ} (cap : ℕ) (client : Call A → Bool) (s : State A)
    : State A → Type ℓ where
  here : Reach cap client s s
  next : {t u : State A} → Reach cap client s t → Step cap client t u → Reach cap client s u
