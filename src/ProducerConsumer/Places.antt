-- ===== src/ProducerConsumer/Places.antt =====
-- Where the threads of examples/producer_consumer_example.cc can stand at the buffer, by their functions.
use ring_buffer.Base.{ℕ, ◌≡◌, ◌≤◌, refl, subst, Bool, true, false, List, [], ◌∷◌, total, arith}
use ring_buffer.Result.{ok}
use ring_buffer.Ring.{Ring}
use ring_buffer.ThreadSafe.{
  Call, Answer, Rest, attempt, push_timed, pop_timed, push_rest, pop_rest, flag, unlock,
}
use ring_buffer.ThreadSafe.Threads.{Pc, idle, ready, asleep, unlocked, answered}
use ring_buffer.ThreadSafe.History.{rest_call}
use ring_buffer.ThreadSafe.Places.{AllFit}
use ring_buffer.ProducerConsumer.{Worker, producing, finished, consuming, gone, producers_joined}

-- Whether a worker can get an answer that its packet was stored.
abbrev pub storing : Worker → ℕ
storing (producing n) = 1
storing _ = 0

module _ {ℓ} {A : Type ℓ} where
  -- The calls that a worker makes.
  abbrev pub makes : Worker → Call A → Bool
  makes (producing n) (push_timed x) = true
  makes consuming pop_timed = true
  makes _ _ = false

  -- The answers to a call that stored.
  abbrev pub told : Answer A → ℕ
  told (flag true) = 1
  told _ = 0

  -- The place of the thread of a worker.
  abbrev pub Fits : Worker → Pc A → Type 0
  Fits w idle = Unit
  Fits w (ready late c) = makes w c ≡ true
  Fits w (asleep v c) = makes w c ≡ true
  Fits w (unlocked k) = makes w (rest_call k) ≡ true
  Fits w (answered a) = told a ≤ storing w

  -- Of the two calls, each goes on with its own rest.
  pub unlock-rest_call :
      (w : Worker) (late : Bool) (c : Call A) (r : Ring A) {k : Rest A}
      → makes w c ≡ true
      → attempt late c r ≡ ok (unlock k)
      → makes w (rest_call k) ≡ true
  unfolding attempt
  unlock-rest_call (producing n) late (push_timed x) r {k = k} h e =
      let own : push_rest x ≡ k = ground arith in
      subst (λ l. makes (producing n) (rest_call l) ≡ true) own refl
  unlock-rest_call consuming late pop_timed r {k = k} h e =
      let own : pop_rest ≡ k = ground arith in
      subst (λ l. makes consuming (rest_call l) ≡ true) own refl
  unlock-rest_call _ late c r h e = cc

  -- Only a producer is told that a packet was stored.
  pub makes-push_rest : (w : Worker) (x : A) → makes w (push_timed x) ≡ true → storing w ≡ 1
  makes-push_rest (producing n) x h = refl
  makes-push_rest finished x h = cc
  makes-push_rest consuming x h = cc
  makes-push_rest gone x h = cc

  -- The threads with the answer that a packet was stored, which has not been counted.
  abbrev pub given : Pc A → ℕ
  given (answered a) = told a
  given _ = 0

  given-Fits : (w : Worker) (p : Pc A) → storing w ≡ 0 → Fits w p → given p ≡ 0
  given-Fits w (answered a) e h = omega arith
  given-Fits w idle e h = refl
  given-Fits w (ready late c) e h = refl
  given-Fits w (asleep v c) e h = refl
  given-Fits w (unlocked k) e h = refl

  -- There are none once all producers have returned.
  pub given-joined :
      (ws : List Worker) (ts : List (Pc A))
      → producers_joined ws ≡ true
      → AllFit Fits ws ts
      → total given ts ≡ 0
  given-joined [] [] j h = refl
  given-joined (producing n ∷ ws) (p ∷ ts) j h = cc
  given-joined (finished ∷ ws) (p ∷ ts) j h =
      omega (arith, given-Fits finished p refl h.0, given-joined ws ts j h.1)
  given-joined (consuming ∷ ws) (p ∷ ts) j h =
      omega (arith, given-Fits consuming p refl h.0, given-joined ws ts j h.1)
  given-joined (gone ∷ ws) (p ∷ ts) j h =
      omega (arith, given-Fits gone p refl h.0, given-joined ws ts j h.1)
  given-joined [] (p ∷ ts) j h = elim h [ ]
  given-joined (w ∷ ws) [] j h = elim h [ ]
