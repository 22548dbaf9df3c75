-- ===== src/ThreadSafe/Places.antt =====
-- Where each of the threads that call include/thread_safe_ring_buffer.h may stand, by what the program
-- has it do, and sums over the threads.
use ring_buffer.Base.{
  false, true, ℕ, zero, suc, ◌+◌, ◌≤◌, ◌≡◌, refl, subst, ap, List, [], ◌∷◌, map, some, get_elem?,
  set, arith, ◌∙◌,
}
use ring_buffer.ThreadSafe.{Call, Cv, Signal, not_full, not_empty}
use ring_buffer.ThreadSafe.Threads.{
  Pc, System, Step, Signals, returning, moves, ends, sleeps, unlocks, goes_on, starts, wakes,
  expires, returns, wake_all, idle, ready, asleep, unlocked, answered, quiet, woken, nobody,
  everybody,
}

module _ {ℓ κ} {W : Type κ} {A : Type ℓ} (Fits : W → Pc A → Type 0) where
  -- Each worker has a thread, and it stands in a place that fits.
  abbrev pub AllFit : List W → List (Pc A) → Type 0
  AllFit [] [] = Unit
  AllFit (w ∷ ws) (p ∷ ps) = Fits w p × AllFit ws ps
  AllFit _ _ = ⊥

  pub AllFit-thread :
      (ws : List W) (ts : List (Pc A)) (i : ℕ) {old : Pc A} (new : Pc A)
      → get_elem? ts i ≡ some old
      → ((w : W) → get_elem? ws i ≡ some w → Fits w old → Fits w new)
      → AllFit ws ts
      → AllFit ws (set ts i new)
  AllFit-thread ws [] i new e k h = h
  AllFit-thread (w ∷ ws) (p ∷ ts) zero {old} new e k h =
      let same : p ≡ old = cc in (k w refl (subst (Fits w) same h.0), h.1)
  AllFit-thread (w ∷ ws) (p ∷ ts) (suc i) new e k h = (h.0, AllFit-thread ws ts i new e k h.1)
  AllFit-thread [] (p ∷ ts) i new e k h = elim h [ ]

  pub AllFit-worker :
      (ws : List W) (ts : List (Pc A)) (i : ℕ) {p : Pc A} (w : W)
      → get_elem? ts i ≡ some p
      → Fits w p
      → AllFit ws ts
      → AllFit (set ws i w) ts
  AllFit-worker ws [] i w e k h = cc
  AllFit-worker (v ∷ ws) (q ∷ ts) zero {p} w e k h =
      let same : p ≡ q = cc in (subst (Fits w) same k, h.1)
  AllFit-worker (v ∷ ws) (q ∷ ts) (suc i) w e k h = (h.0, AllFit-worker ws ts i w e k h.1)
  AllFit-worker [] (p ∷ ts) i w e k h = elim h [ ]

  pub AllFit-get :
      (ws : List W) (ts : List (Pc A)) (i : ℕ) {p : Pc A}
      → AllFit ws ts
      → get_elem? ts i ≡ some p
      → (w : W) × (get_elem? ws i ≡ some w) × Fits w p
  AllFit-get ws [] i h e = cc
  AllFit-get (w ∷ ws) (q ∷ ts) zero {p} h e =
      let same : q ≡ p = cc in (w, refl, subst (Fits w) same h.0)
  AllFit-get (w ∷ ws) (q ∷ ts) (suc i) h e = AllFit-get ws ts i h.1 e
  AllFit-get [] (q ∷ ts) i h e = elim h [ ]

  pub AllFit-place :
      (ws : List W) (ts : List (Pc A)) (i : ℕ) {w : W}
      → AllFit ws ts
      → get_elem? ws i ≡ some w
      → (p : Pc A) × (get_elem? ts i ≡ some p) × Fits w p
  AllFit-place [] ts i h e = cc
  AllFit-place (v ∷ ws) (q ∷ ts) zero {w} h e =
      let same : v ≡ w = cc in (q, refl, subst (λ u. Fits u q) same h.0)
  AllFit-place (v ∷ ws) (q ∷ ts) (suc i) h e = AllFit-place ws ts i h.1 e
  AllFit-place (v ∷ ws) [] i h e = elim h [ ]

  -- A thread that wakes up stands before the mutex with the call that it slept in.
  module _
      (woken_up : (w : W) (v : Cv) (c : Call A)
        → Fits w (asleep v c)
        → Fits w (ready false c)) where
    Fits-wake_all : (w : W) (v : Cv) (p : Pc A) → Fits w p → Fits w (wake_all v p)
    Fits-wake_all w not_full (asleep not_full c) h = woken_up w not_full c h
    Fits-wake_all w not_empty (asleep not_empty c) h = woken_up w not_empty c h
    Fits-wake_all w not_full (asleep not_empty c) h = h
    Fits-wake_all w not_empty (asleep not_full c) h = h
    Fits-wake_all w not_full idle h = h
    Fits-wake_all w not_empty idle h = h
    Fits-wake_all w not_full (ready late c) h = h
    Fits-wake_all w not_empty (ready late c) h = h
    Fits-wake_all w not_full (unlocked k) h = h
    Fits-wake_all w not_empty (unlocked k) h = h
    Fits-wake_all w not_full (answered a) h = h
    Fits-wake_all w not_empty (answered a) h = h

    AllFit-wake_all :
        (v : Cv) (ws : List W) (ts : List (Pc A)) → AllFit ws ts → AllFit ws (map (wake_all v) ts)
    AllFit-wake_all v [] [] h = h
    AllFit-wake_all v (w ∷ ws) (p ∷ ts) h = (Fits-wake_all w v p h.0, AllFit-wake_all v ws ts h.1)
    AllFit-wake_all v [] (p ∷ ts) h = elim h [ ]
    AllFit-wake_all v (w ∷ ws) [] h = elim h [ ]

    pub AllFit-Signals :
        (ws : List W) {ts us : List (Pc A)} {sig : Signal}
        → Signals ts sig us
        → AllFit ws ts
        → AllFit ws us
    AllFit-Signals ws quiet h = h
    AllFit-Signals ws {ts} (woken {v} j c e) h =
        AllFit-thread ws ts j (ready false c) e (λ w _ k. woken_up w v c k) h
    AllFit-Signals ws (nobody k) h = h
    AllFit-Signals ws {ts} (everybody {v}) h = AllFit-wake_all v ws ts h

module _ {ℓ κ} {W : Type κ} {A : Type ℓ} (weight : W → Pc A → ℕ) where
  -- The sum over the threads of what they weigh.
  abbrev pub weigh : List W → List (Pc A) → ℕ
  weigh (w ∷ ws) (p ∷ ps) = weight w p + weigh ws ps
  weigh _ _ = 0

  pub weigh-thread :
      (ws : List W) (ts : List (Pc A)) (i : ℕ) {w : W} {old : Pc A} (new : Pc A)
      → get_elem? ws i ≡ some w
      → get_elem? ts i ≡ some old
      → weigh ws (set ts i new) + weight w old ≡ weigh ws ts + weight w new
  weigh-thread [] ts i new e f = cc
  weigh-thread (v ∷ ws) [] i new e f = cc
  weigh-thread (v ∷ ws) (q ∷ ts) zero {w} {old} new e f =
      let worker : v ≡ w = cc in
      let place : q ≡ old = cc in
      let there : weight v q ≡ weight w old = ap (weight v) place ∙ ap (λ u. weight u old) worker in
      let here : weight v new ≡ weight w new = ap (λ u. weight u new) worker in omega arith
  weigh-thread (v ∷ ws) (q ∷ ts) (suc i) new e f = omega (arith, weigh-thread ws ts i new e f)

  -- A thread goes to a place that weighs the same.
  pub weigh-same :
      (ws : List W) (ts : List (Pc A)) (i : ℕ) {old : Pc A} (new : Pc A)
      → get_elem? ts i ≡ some old
      → ((w : W) → weight w new ≡ weight w old)
      → weigh ws (set ts i new) ≡ weigh ws ts
  weigh-same ws [] i new e k = refl
  weigh-same [] (p ∷ ts) zero new e k = refl
  weigh-same [] (p ∷ ts) (suc i) new e k = refl
  weigh-same (w ∷ ws) (p ∷ ts) zero {old} new e k =
      let place : p ≡ old = cc in
      let there : weight w p ≡ weight w old = ap (weight w) place in omega (arith, k w)
  weigh-same (w ∷ ws) (p ∷ ts) (suc i) new e k = omega (arith, weigh-same ws ts i new e k)

  -- A weight that a thread keeps when it wakes up.
  module _
      (woken_up : (w : W) (v : Cv) (c : Call A)
        → weight w (ready false c) ≡ weight w (asleep v c)) where
    weight-wake_all : (w : W) (v : Cv) (p : Pc A) → weight w (wake_all v p) ≡ weight w p
    weight-wake_all w not_full (asleep not_full c) = woken_up w not_full c
    weight-wake_all w not_empty (asleep not_empty c) = woken_up w not_empty c
    weight-wake_all w not_full (asleep not_empty c) = refl
    weight-wake_all w not_empty (asleep not_full c) = refl
    weight-wake_all w not_full idle = refl
    weight-wake_all w not_empty idle = refl
    weight-wake_all w not_full (ready late c) = refl
    weight-wake_all w not_empty (ready late c) = refl
    weight-wake_all w not_full (unlocked k) = refl
    weight-wake_all w not_empty (unlocked k) = refl
    weight-wake_all w not_full (answered a) = refl
    weight-wake_all w not_empty (answered a) = refl

    weigh-wake_all :
        (v : Cv) (ws : List W) (ts : List (Pc A)) → weigh ws (map (wake_all v) ts) ≡ weigh ws ts
    weigh-wake_all v [] [] = refl
    weigh-wake_all v [] (p ∷ ts) = refl
    weigh-wake_all v (w ∷ ws) [] = refl
    weigh-wake_all v (w ∷ ws) (p ∷ ts) =
        omega (arith, weight-wake_all w v p, weigh-wake_all v ws ts)

    pub weigh-Signals :
        (ws : List W) {ts us : List (Pc A)} {sig : Signal}
        → Signals ts sig us
        → weigh ws us ≡ weigh ws ts
    weigh-Signals ws quiet = refl
    weigh-Signals ws {ts} (woken {v} j c e) =
        weigh-same ws ts j (ready false c) e (λ w. woken_up w v c)
    weigh-Signals ws (nobody k) = refl
    weigh-Signals ws {ts} (everybody {v}) = weigh-wake_all v ws ts

module _ {ℓ κ} {W : Type κ} {A : Type ℓ} (cost : W → ℕ) where
  -- What the threads with a call under way cost.
  abbrev pub busy : W → Pc A → ℕ
  busy w idle = 0
  busy w _ = cost w

  pub busy-free : (w : W) (p : Pc A) → cost w ≡ 0 → busy w p ≡ 0
  busy-free w idle e = refl
  busy-free w (ready late c) e = e
  busy-free w (asleep v c) e = e
  busy-free w (unlocked k) e = e
  busy-free w (answered a) e = e

  -- A thread at the buffer stays at its call.
  pub Step-busy :
      (ws : List W) {s t : System A} (σ : Step (λ c. false) s t)
      → returning σ ≡ false
      → weigh busy ws t.threads ≡ weigh busy ws s.threads
  Step-busy ws (moves (starts i c k e)) q = cc
  Step-busy ws {s} (moves (wakes i v c e)) q =
      weigh-same busy ws s.threads i (ready false c) e (λ w. refl)
  Step-busy ws {s} (moves (expires i v c k e)) q =
      weigh-same busy ws s.threads i (ready true c) e (λ w. refl)
  Step-busy ws (moves (returns i a e)) q = cc
  Step-busy ws {s} (ends i late c {a = a} e f g) q =
      weigh-Signals busy (λ w v d. refl) ws g
      ∙ weigh-same busy ws s.threads i (answered a) e (λ w. refl)
  Step-busy ws {s} (sleeps i late c {v} e f) q =
      weigh-same busy ws s.threads i (asleep v c) e (λ w. refl)
  Step-busy ws {s} (unlocks i late c {k} e f) q =
      weigh-same busy ws s.threads i (unlocked k) e (λ w. refl)
  Step-busy ws {s} (goes_on i k {a = a} e f g) q =
      weigh-Signals busy (λ w v d. refl) ws g
      ∙ weigh-same busy ws s.threads i (answered a) e (λ w. refl)

module _ {ℓ κ} {W : Type κ} {A : Type ℓ} where
  pub weigh-le :
      (lighter heavier : W → Pc A → ℕ)
      → ((w : W) (p : Pc A) → lighter w p ≤ heavier w p)
      → (ws : List W) (ts : List (Pc A)) → weigh lighter ws ts ≤ weigh heavier ws ts
  weigh-le lighter heavier h [] ts = omega arith
  weigh-le lighter heavier h (w ∷ ws) [] = omega arith
  weigh-le lighter heavier h (w ∷ ws) (p ∷ ts) =
      omega (arith, h w p, weigh-le lighter heavier h ws ts)
