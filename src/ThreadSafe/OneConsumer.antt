-- ===== src/ThreadSafe/OneConsumer.antt =====
-- Programs over include/thread_safe_ring_buffer.h in which one thread takes elements out, by
-- `pop_front_with_timeout`, and the others put elements in, by `push_back`. Each thread is a worker with
-- the calls that it makes.
pub mod Calls
pub mod History
pub mod Worth
use ring_buffer.Base.{
  ℕ, zero, suc, ◌+◌, ◌≡◌, ◌≤◌, ◌<◌, ◌∙◌, refl, sym, subst, ap, Bool-cases, inl, inr, Bool, true,
  false, List, [], ◌∷◌, ◌++◌, append-nil, length, length-append, some, get_elem?, set, total, ◌==◌,
  arith,
}
use ring_buffer.Result.{ok}
use ring_buffer.Ring
use ring_buffer.Ring.{Ring}
use ring_buffer.Ring.Holds.{Represents, IsInStep}
use ring_buffer.Ring.Pop.{pop_front-Represents}
use ring_buffer.ThreadSafe.{
  Call, Answer, Cv, Rest, Signal, attempt, finish_rest, push, pop_timed, push_rest, pop_rest, done,
  nothing, value, not_full, not_empty, finish, sleep, unlock, silent, one,
}
use ring_buffer.ThreadSafe.Threads.{
  Pc, Signals, System, Step, idle, ready, asleep, unlocked, answered, moves, ends, sleeps, unlocks,
  goes_on, quiet, starts, wakes, expires, returns,
}
use ring_buffer.ThreadSafe.Queue.{Turn, serve, offer, stays, replies}
use ring_buffer.ThreadSafe.Turns.{Serves, attempt-Serves}
use ring_buffer.ThreadSafe.Refine.{Serves-finish, Serves-sleep, Serves-unlock}
use ring_buffer.ThreadSafe.History.{step_added, step_removed, added, removed, rest_call}
use ring_buffer.ThreadSafe.Places.{
  AllFit, AllFit-thread, AllFit-get, AllFit-Signals, weigh, weigh-thread, weigh-Signals,
}
use ring_buffer.ThreadSafe.OneConsumer.Calls.{plays, hears, takes_out, played, let_in, taken}

abbrev pub one_if : Bool → ℕ
one_if true = 1
one_if false = 0

module _ {ℓ} {W : Type 0} {A : Type ℓ} where
  -- The threads that have passed the test of `pop_front_with_timeout`.
  abbrev pub opened : W → Pc A → ℕ
  opened w (unlocked k) = 1
  opened _ _ = 0

module _ {ℓ} {W : Type 0} {A : Type ℓ} (makes : W → Call A → Bool) (pops : W → Bool)
    (plays_by : (w : W) (c : Call A) → makes w c ≡ true → plays (pops w) c ≡ true) where
  abbrev pub Fits : W → Pc A → Type 0
  Fits w idle = Unit
  Fits w (ready late c) = makes w c ≡ true
  Fits w (asleep v c) = makes w c ≡ true
  Fits w (unlocked k) = takes_out (pops w) k ≡ true
  Fits w (answered a) = hears (pops w) a ≡ true

  abbrev pub popping : List W → ℕ
  popping = total (λ w. one_if (pops w))

  opened-Fits : (w : W) (p : Pc A) → Fits w p → opened w p ≤ one_if (pops w)
  opened-Fits w (unlocked pop_rest) h = rw h (omega arith)
  opened-Fits w (unlocked (push_rest x)) h = cc
  opened-Fits w idle h = omega arith
  opened-Fits w (ready late c) h = omega arith
  opened-Fits w (asleep v c) h = omega arith
  opened-Fits w (answered a) h = omega arith

  opened-le : (ws : List W) (ts : List (Pc A)) → AllFit Fits ws ts → weigh opened ws ts ≤ popping ws
  opened-le [] [] h = omega arith
  opened-le (w ∷ ws) (p ∷ ts) h = omega (arith, opened-Fits w p h.0, opened-le ws ts h.1)
  opened-le [] (p ∷ ts) h = elim h [ ]
  opened-le (w ∷ ws) [] h = elim h [ ]

  pub weigh-get :
      (ws : List W) (ts : List (Pc A)) (i : ℕ) {w : W} {p : Pc A}
      → get_elem? ws i ≡ some w
      → get_elem? ts i ≡ some p
      → opened w p ≤ weigh opened ws ts
  weigh-get ws ts i {w} {p} e f = omega (arith, weigh-thread opened ws ts i idle e f)

  -- Where the only thread that takes elements out has not passed the test, nobody has.
  opened-other :
      (ws : List W) (ts : List (Pc A)) (i : ℕ) {w : W} {p : Pc A}
      → AllFit Fits ws ts
      → get_elem? ws i ≡ some w
      → get_elem? ts i ≡ some p
      → weigh opened ws ts + one_if (pops w) ≤ popping ws + opened w p
  opened-other [] ts i h e f = cc
  opened-other (v ∷ ws) [] i h e f = cc
  opened-other (v ∷ ws) (q ∷ ts) zero {w} {p} h e f =
      let worker : v ≡ w = cc in
      let place : q ≡ p = cc in
      let same : opened {W = W} w q ≡ opened w p = ap (opened w) place in
      let same' : one_if (pops v) ≡ one_if (pops w) = ap (λ u. one_if (pops u)) worker in
      omega (arith, opened-le ws ts h.1)
  opened-other (v ∷ ws) (q ∷ ts) (suc i) h e f =
      omega (arith, opened-Fits v q h.0, opened-other ws ts i h.1 e f)

  -- The buffer represents a queue, its tail in step; each thread stands where its worker may; and where
  -- the one that takes elements out has passed the test, there is one to take.
  pub record IsServed (ws : List W) (s : System A) (xs : List A) : Type ℓ where
    pub represents : Represents s.ring xs
    pub in_step : IsInStep s.ring
    pub fit : AllFit Fits ws s.threads
    pub single : popping ws ≤ 1
    pub backed : weigh opened ws s.threads ≤ length xs

  -- A thread goes from one place to another, with what this does to the queue and whom it wakes.
  pub moved :
      {ws : List W} {s : System A} {xs : List A} {sig : Signal} {us : List (Pc A)} (r' : Ring A)
      (ys : List A) (i : ℕ) {w : W} {old : Pc A} (new : Pc A)
      → get_elem? ws i ≡ some w
      → get_elem? s.threads i ≡ some old
      → Fits w new
      → Represents r' ys
      → IsInStep r'
      → opened w new + length xs ≤ opened w old + length ys
      → Signals (set s.threads i new) sig us
      → IsServed ws s xs
      → IsServed ws (record { ring = r'; threads = us }) ys
  moved {ws} {s} {xs} r' ys i {w} new e f k v v' l g h = record {
    represents = v;
    in_step = v';
    fit =
        AllFit-Signals Fits (λ u cv c m. m) ws g
          (AllFit-thread Fits ws s.threads i new f
            (λ u e' m. let same : w ≡ u = cc in subst (λ u'. Fits u' new) same k) h.fit);
    single = h.single;
    backed = omega (
      arith,
      h.backed,
      l,
      weigh-thread opened ws s.threads i new e f,
      weigh-Signals opened (λ u cv c. refl) ws g,
    );
  }

  -- One step of a thread at the buffer: what was in the queue and what is put in, in order, are what is
  -- taken out and what is left.
  pub Step-IsServed :
      {ws : List W} {s t : System A} {xs : List A} (σ : Step (λ c. false) s t)
      → IsServed ws s xs
      → (ys : List A) × (xs ++ step_added σ ≡ step_removed σ ++ ys) × IsServed ws t ys
  Step-IsServed (moves (starts i c k e)) h = cc
  Step-IsServed {ws} {s} {xs = xs} (moves (wakes i v c e)) h =
      let (w, at, m) = AllFit-get Fits ws s.threads i h.fit e in
      (
        xs,
        append-nil xs,
        moved s.ring xs i (ready false c) at e m h.represents h.in_step (omega arith) quiet h,
      )
  Step-IsServed {ws} {s} {xs = xs} (moves (expires i v c k e)) h =
      let (w, at, m) = AllFit-get Fits ws s.threads i h.fit e in
      (
        xs,
        append-nil xs,
        moved s.ring xs i (ready true c) at e m h.represents h.in_step (omega arith) quiet h,
      )
  Step-IsServed {ws} {s} {xs = xs} (moves (returns i a e)) h =
      let (w, at, m) = AllFit-get Fits ws s.threads i h.fit e in
      (
        xs,
        append-nil xs,
        moved s.ring xs i idle at e tt h.represents h.in_step (omega arith) quiet h,
      )
  Step-IsServed {ws} {s} {xs = xs} (ends i late c {r'} {a} e f g) h =
      let (w, at, m) = AllFit-get Fits ws s.threads i h.fit e in
      let (ys, even, v, v', hears_it, longer) =
        played (pops w) late c s.ring xs (plays_by w c m) h.represents h.in_step f in
      (ys, even, moved r' ys i (answered a) at e hears_it v v' (omega (arith, longer)) g h)
  Step-IsServed {ws} {s} {xs = xs} (sleeps i late c {v} e f) h =
      let (w, at, m) = AllFit-get Fits ws s.threads i h.fit e in
      (
        xs,
        append-nil xs,
        moved s.ring xs i (asleep v c) at e m h.represents h.in_step (omega arith) quiet h,
      )
  Step-IsServed {ws} {s} {xs = xs} (unlocks i late c {k} e f) h =
      let (w, at, m) = AllFit-get Fits ws s.threads i h.fit e in
      let (takes, pops_w, left) =
        let_in (pops w) late c s.ring xs (plays_by w c m) h.represents h.in_step f in
      let alone : weigh opened ws s.threads + 1 ≤ popping ws =
        omega (arith, opened-other ws s.threads i h.fit at e, ap one_if pops_w) in
      (
        xs,
        append-nil xs,
        record {
          represents = h.represents;
          in_step = h.in_step;
          fit =
              AllFit-thread Fits ws s.threads i (unlocked k) e
                (λ u at' _. let same : w ≡ u = cc in subst (λ u'. Fits u' (unlocked k)) same takes)
                h.fit;
          single = h.single;
          backed =
              omega (
                arith,
                alone,
                h.single,
                left,
                weigh-thread opened ws s.threads i (unlocked k) at e,
              );
        },
      )
  Step-IsServed {ws} {s} {xs = xs} (goes_on i k {r'} {a} e f g) h =
      let (w, at, m) = AllFit-get Fits ws s.threads i h.fit e in
      let left : 0 < length xs = omega (arith, h.backed, weigh-get ws s.threads i at e) in
      let (ys, even, v, v', hears_it, shorter) =
        taken k s.ring xs (pops w) m left h.represents h.in_step f in
      (ys, even, moved r' ys i (answered a) at e hears_it v v' (omega (arith, shorter)) g h)
