-- ===== src/ThreadSafe/OneConsumer/Worth.antt =====
-- What the elements are worth that threads have put into the buffer of include/thread_safe_ring_buffer.h,
-- or taken out of it, and have not been told to their functions.
use ring_buffer.Base.{
  ℕ, ◌+◌, ◌≡◌, ◌<◌, refl, subst, Bool, true, false, List, length, some, get_elem?, set, total,
  arith,
}
use ring_buffer.ThreadSafe.{
  Call, Answer, Rest, Signal, push, pop_timed, push_rest, pop_rest, done, nothing, value,
}
use ring_buffer.ThreadSafe.Threads.{
  Pc, Signals, System, Step, ready, asleep, unlocked, answered, moves, ends, sleeps, unlocks,
  goes_on, quiet, returning, starts, wakes, expires, returns,
}
use ring_buffer.ThreadSafe.History.{step_added, step_removed, added, removed, rest_call}
use ring_buffer.ThreadSafe.Places.{AllFit-get, weigh, weigh-thread, weigh-Signals}
use ring_buffer.ThreadSafe.OneConsumer.Calls.{plays, hears, takes_out, played, taken}
use ring_buffer.ThreadSafe.OneConsumer.{Fits, IsServed, weigh-get}

module _ {ℓ} {A : Type ℓ} (worth : A → ℕ) where
  abbrev pub told : ℕ → Answer A → ℕ
  told n done = n
  told n _ = 0

  abbrev pub got : Answer A → ℕ
  got (value x) = worth x
  got _ = 0

  -- Nobody puts anything in where it takes something out.
  takes_out-pop_rest :
      (b : Bool) (k : Rest A)
      → takes_out b k ≡ true
      → ((x : A) (n : ℕ) → rest_call k ≡ push x → worth x ≡ n) × (plays b (rest_call k) ≡ true)
  takes_out-pop_rest true pop_rest h = ((λ x n e. cc), refl)
  takes_out-pop_rest false pop_rest h = cc
  takes_out-pop_rest b (push_rest x) h = cc

  answers-worth :
      (b : Bool) (n : ℕ) (c : Call A) (a : Answer A)
      → plays b c ≡ true
      → hears b a ≡ true
      → ((x : A) → c ≡ push x → worth x ≡ n)
      → (told n a ≡ total worth (added c a)) × (got a ≡ total worth (removed c a))
  answers-worth true n pop_timed (value x) p h k = (refl, omega arith)
  answers-worth true n pop_timed nothing p h k = (refl, refl)
  answers-worth false n (push x) done p h k = (omega (arith, k x refl), refl)
  answers-worth _ n c a p h k = cc

module _ {ℓ} {W : Type 0} {A : Type ℓ} (makes : W → Call A → Bool) (pops : W → Bool)
    (plays_by : (w : W) (c : Call A) → makes w c ≡ true → plays (pops w) c ≡ true) (worth : A → ℕ)
    (credit : W → ℕ) (fair : (w : W) (x : A) → makes w (push x) ≡ true → worth x ≡ credit w) where
  -- What a thread has put in, and what it has taken out.
  abbrev pub given : W → Pc A → ℕ
  given w (answered a) = told worth (credit w) a
  given w _ = 0

  abbrev pub held : W → Pc A → ℕ
  held w (answered a) = got worth a
  held w _ = 0

  -- A thread that has neither goes to another place, and may wake others.
  shifted :
      (ws : List W) (ts : List (Pc A)) {us : List (Pc A)} {sig : Signal} (i : ℕ) {w : W}
      {old : Pc A} (new : Pc A)
      → get_elem? ws i ≡ some w
      → get_elem? ts i ≡ some old
      → given w old ≡ 0
      → held w old ≡ 0
      → Signals (set ts i new) sig us
      → (weigh given ws us ≡ weigh given ws ts + given w new)
        × (weigh held ws us ≡ weigh held ws ts + held w new)
  shifted ws ts i new e f g h k = (
    omega (arith, weigh-thread given ws ts i new e f, weigh-Signals given (λ w v c. refl) ws k),
    omega (arith, weigh-thread held ws ts i new e f, weigh-Signals held (λ w v c. refl) ws k),
  )

  -- A step adds to these what it puts in and what it takes out.
  pub Step-worth :
      {ws : List W} {s t : System A} {xs : List A} (σ : Step (λ c. false) s t)
      → returning σ ≡ false
      → IsServed makes pops plays_by ws s xs
      → (weigh given ws t.threads ≡ weigh given ws s.threads + total worth (step_added σ))
        × (weigh held ws t.threads ≡ weigh held ws s.threads + total worth (step_removed σ))
  Step-worth (moves (starts i c k e)) q h = cc
  Step-worth {ws} {s} (moves (wakes i v c e)) q h =
      let (w, at, m) = AllFit-get (Fits makes pops plays_by) ws s.threads i h.fit e in
      shifted ws s.threads i (ready false c) at e refl refl quiet
  Step-worth {ws} {s} (moves (expires i v c k e)) q h =
      let (w, at, m) = AllFit-get (Fits makes pops plays_by) ws s.threads i h.fit e in
      shifted ws s.threads i (ready true c) at e refl refl quiet
  Step-worth (moves (returns i a e)) q h = cc
  Step-worth {ws} {s} {xs = xs} (ends i late c {a = a} e f g) q h =
      let (w, at, m) = AllFit-get (Fits makes pops plays_by) ws s.threads i h.fit e in
      let (ys, _, _, _, hears_it, _) =
        played (pops w) late c s.ring xs (plays_by w c m) h.represents h.in_step f in
      let (put, took) =
        answers-worth worth (pops w) (credit w) c a (plays_by w c m) hears_it
          (λ x same. fair w x (subst (λ d. makes w d ≡ true) same m)) in
      let (put', took') = shifted ws s.threads i (answered a) at e refl refl g in
      (omega (arith, put, put'), omega (arith, took, took'))
  Step-worth {ws} {s} (sleeps i late c {v} e f) q h =
      let (w, at, m) = AllFit-get (Fits makes pops plays_by) ws s.threads i h.fit e in
      shifted ws s.threads i (asleep v c) at e refl refl quiet
  Step-worth {ws} {s} (unlocks i late c {k} e f) q h =
      let (w, at, m) = AllFit-get (Fits makes pops plays_by) ws s.threads i h.fit e in
      shifted ws s.threads i (unlocked k) at e refl refl quiet
  Step-worth {ws} {s} {xs = xs} (goes_on i k {a = a} e f g) q h =
      let (w, at, m) = AllFit-get (Fits makes pops plays_by) ws s.threads i h.fit e in
      let left : 0 < length xs =
        omega (arith, h.backed, weigh-get makes pops plays_by ws s.threads i at e) in
      let (ys, _, _, _, hears_it, _) = taken k s.ring xs (pops w) m left h.represents h.in_step f in
      let (pop, own) = takes_out-pop_rest worth (pops w) k m in
      let (put, took) =
        answers-worth worth (pops w) (credit w) (rest_call k) a own hears_it
          (λ x same. pop x (credit w) same) in
      let (put', took') = shifted ws s.threads i (answered a) at e refl refl g in
      (omega (arith, put, put'), omega (arith, took, took'))
