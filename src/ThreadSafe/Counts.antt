-- ===== src/ThreadSafe/Counts.antt =====
-- The numbers of threads that sleep in `push_back` of include/thread_safe_ring_buffer.h, and that are on the
-- way to a free slot, over one turn.
use ring_buffer.Base.{
  ℕ, suc, ◌≡◌, ◌≤◌, ◌≢◌, refl, ap, inl, inr, Bool-cases, ◌==◌, Bool, true, false, List, [], ◌∷◌,
  length, length-append, map, some, get_elem?, All, total, arith,
}
use ring_buffer.ThreadSafe.{
  Call, Answer, Cv, not_full, not_empty, silent, one, all, push, emplace, try_push, push_timed, pop,
  try_pop, pop_timed, front, back, at, size, capacity, empty, full, available, clear,
  wait_not_empty, wait_not_full, done, flag,
}
use ring_buffer.ThreadSafe.Threads.{Pc, wake_all, timed, idle, ready, asleep, unlocked, answered}
use ring_buffer.ThreadSafe.Queue.{Turn, stays, replies, serve, offer}

module _ {ℓ} {A : Type ℓ} where
  -- The calls that wait for a free slot until they get one.
  abbrev pub pushes : Call A → Bool
  pushes (push x) = true
  pushes (emplace x) = true
  pushes _ = false

  -- How many threads of the state sleep, and how many have such a call before the mutex.
  abbrev pub sleeping : Pc A → ℕ
  sleeping (asleep v c) = 1
  sleeping _ = 0

  abbrev pub weight : Call A → ℕ
  weight (push x) = 1
  weight (emplace x) = 1
  weight _ = 0

  abbrev pub pushing : Pc A → ℕ
  pushing (ready late c) = weight c
  pushing _ = 0

  -- No call with a time limit is under way, and only a call that pushes sleeps.
  abbrev pub IsUntimed : Pc A → Type 0
  IsUntimed (ready late c) = timed c ≡ false
  IsUntimed (asleep v c) = (v ≡ not_full) × (pushes c ≡ true)
  IsUntimed _ = Unit

  pub weight-pushes : (c : Call A) → pushes c ≡ true → weight c ≡ 1
  weight-pushes (push x) h = refl
  weight-pushes (emplace x) h = refl
  weight-pushes _ h = cc

  pub timed-pushes : (c : Call A) → pushes c ≡ true → timed c ≡ false
  timed-pushes (push x) h = refl
  timed-pushes (emplace x) h = refl
  timed-pushes _ h = cc

  -- A turn of such a call, by what it does to the number of elements.
  abbrev pub Counted : ℕ → Call A → List A → Turn A → Type 0
  Counted cap c xs (stays v) = (v ≡ not_full) × (pushes c ≡ true) × (length xs ≡ cap)
  Counted cap c xs (replies a ys silent) = (weight c ≡ 0) × (length ys ≡ length xs)
  Counted cap c xs (replies a ys (one not_empty)) = (weight c ≤ 1) × (length ys ≡ suc (length xs))
  Counted cap c xs (replies a ys (one not_full)) = (weight c ≡ 0) × (length xs ≡ suc (length ys))
  Counted cap c xs (replies a ys (all v)) = v ≡ not_full

  offer-Counted :
      (cap : ℕ) (c : Call A) (xs : List A) (x : A) (a : Answer A) (otherwise : Turn A)
      → weight c ≤ 1
      → (length xs ≡ cap → Counted cap c xs otherwise)
      → Counted cap c xs (offer cap xs x a otherwise)
  offer-Counted cap c xs x a otherwise small h = elim (Bool-cases (length xs == cap)) [
    | inl whole ↦ rw whole (h (ground arith))
    | inr room ↦ rw room (small, omega (arith, length-append xs (x ∷ [])))
  ]

  pub serve-Counted :
      (cap : ℕ) (late : Bool) (c : Call A) (xs : List A)
      → timed c ≡ false
      → Counted cap c xs (serve cap late c xs)
  unfolding serve
  serve-Counted cap late (push x) xs k =
      offer-Counted cap (push x) xs x done (stays not_full) (omega arith) (λ e. (refl, refl, e))
  serve-Counted cap late (emplace x) xs k =
      offer-Counted cap (emplace x) xs x done (stays not_full) (omega arith) (λ e. (refl, refl, e))
  serve-Counted cap late (try_push x) xs k =
      offer-Counted cap (try_push x) xs x (flag true) (replies (flag false) xs silent) (omega arith)
        (λ e. (refl, refl))
  serve-Counted cap late (push_timed x) xs k = cc
  serve-Counted cap late pop [] k = (refl, refl)
  serve-Counted cap late pop (x ∷ xs) k = (refl, refl)
  serve-Counted cap late try_pop [] k = (refl, refl)
  serve-Counted cap late try_pop (x ∷ xs) k = (refl, refl)
  serve-Counted cap late pop_timed xs k = cc
  serve-Counted cap late front xs k = (refl, refl)
  serve-Counted cap late back xs k = (refl, refl)
  serve-Counted cap late (at i) xs k = (refl, refl)
  serve-Counted cap late size xs k = (refl, refl)
  serve-Counted cap late capacity xs k = (refl, refl)
  serve-Counted cap late empty xs k = (refl, refl)
  serve-Counted cap late full xs k = (refl, refl)
  serve-Counted cap late available xs k = (refl, refl)
  serve-Counted cap late clear xs k = refl
  serve-Counted cap late wait_not_empty xs k = cc
  serve-Counted cap late wait_not_full xs k = cc

  -- No thread sleeps where nobody waits for a slot.
  pub nobody-sleeping :
      (ts : List (Pc A))
      → All IsUntimed ts
      → ((j : ℕ) (c : Call A) → get_elem? ts j ≢ some (asleep not_full c))
      → total sleeping ts ≡ 0
  nobody-sleeping [] u h = refl
  nobody-sleeping (asleep v c ∷ ts) u h = absurd (h 0 c (ap (λ w. some (asleep w c)) u.0.0))
  nobody-sleeping (idle ∷ ts) u h = omega (arith, nobody-sleeping ts u.1 (λ j c. h (suc j) c))
  nobody-sleeping (ready late d ∷ ts) u h =
      omega (arith, nobody-sleeping ts u.1 (λ j c. h (suc j) c))
  nobody-sleeping (unlocked k ∷ ts) u h = omega (arith, nobody-sleeping ts u.1 (λ j c. h (suc j) c))
  nobody-sleeping (answered a ∷ ts) u h = omega (arith, nobody-sleeping ts u.1 (λ j c. h (suc j) c))

  -- A signal to all leaves nobody asleep.
  pub everybody-sleeping :
      (ts : List (Pc A)) → All IsUntimed ts → total sleeping (map (wake_all not_full) ts) ≡ 0
  everybody-sleeping [] u = refl
  everybody-sleeping (asleep not_full c ∷ ts) u = omega (arith, everybody-sleeping ts u.1)
  everybody-sleeping (asleep not_empty c ∷ ts) u =
      let clash : ◌≡◌ {A = Cv} not_empty not_full = u.0.0 in cc
  everybody-sleeping (idle ∷ ts) u = omega (arith, everybody-sleeping ts u.1)
  everybody-sleeping (ready late d ∷ ts) u = omega (arith, everybody-sleeping ts u.1)
  everybody-sleeping (unlocked k ∷ ts) u = omega (arith, everybody-sleeping ts u.1)
  everybody-sleeping (answered a ∷ ts) u = omega (arith, everybody-sleeping ts u.1)

  pub wake_all-IsUntimed : (p : Pc A) → IsUntimed p → IsUntimed (wake_all not_full p)
  wake_all-IsUntimed (asleep not_full c) u = timed-pushes c u.1
  wake_all-IsUntimed (asleep not_empty c) u = u
  wake_all-IsUntimed idle u = u
  wake_all-IsUntimed (ready late d) u = u
  wake_all-IsUntimed (unlocked k) u = u
  wake_all-IsUntimed (answered a) u = u
