-- ===== src/ThreadSafe/History.antt =====
-- What the threads of include/thread_safe_ring_buffer.h have put in and taken out over a run, in the
-- order of the critical sections.
use ring_buffer.Base.{
  All-get, ℕ, ◌≡◌, ◌∙◌, refl, subst, sym, ap, inl, inr, Bool-cases, ◌==◌, Bool, true, false, List,
  [], ◌∷◌, ◌++◌, append-nil, append_assoc, if◌then◌else◌, length,
}
use ring_buffer.ThreadSafe.{
  Call, Answer, Cv, Rest, not_full, not_empty, silent, push, emplace, try_push, push_timed, pop,
  try_pop, pop_timed, front, back, at, size, capacity, empty, full, available, clear,
  wait_not_empty, wait_not_full, done, nothing, flag, value, push_rest, pop_rest,
}
use ring_buffer.ThreadSafe.Threads.{
  System, Step, Reach, moves, ends, sleeps, unlocks, goes_on, here, next,
}
use ring_buffer.ThreadSafe.Queue.{Turn, stays, replies, serve, offer, patience}
use ring_buffer.ThreadSafe.Turns.{lets_go}
use ring_buffer.ThreadSafe.Whole.{IsWhole}
use ring_buffer.ThreadSafe.Refine.{Shows, Moves-Shows, ends-Shows, sleeps-Shows, unlocks-Shows}

module _ {ℓ} {A : Type ℓ} where
  -- What a call with that answer has added to the queue.
  abbrev pub added : Call A → Answer A → List A
  added (push x) a = x ∷ []
  added (emplace x) a = x ∷ []
  added (try_push x) (flag true) = x ∷ []
  added (push_timed x) (flag true) = x ∷ []
  added _ _ = []

  -- What it has taken from the queue.
  abbrev pub removed : Call A → Answer A → List A
  removed pop (value x) = x ∷ []
  removed try_pop (value x) = x ∷ []
  removed pop_timed (value x) = x ∷ []
  removed _ _ = []

  abbrev pub rest_call : Rest A → Call A
  rest_call (push_rest x) = push_timed x
  rest_call pop_rest = pop_timed

  abbrev pub step_added : {client : Call A → Bool} {s t : System A} → Step client s t → List A
  step_added (moves m) = []
  step_added (ends i late c {a = a} e f g) = added c a
  step_added (sleeps i late c e f) = []
  step_added (unlocks i late c e f) = []
  step_added (goes_on i k {a = a} e f g) = added (rest_call k) a

  abbrev pub step_removed : {client : Call A → Bool} {s t : System A} → Step client s t → List A
  step_removed (moves m) = []
  step_removed (ends i late c {a = a} e f g) = removed c a
  step_removed (sleeps i late c e f) = []
  step_removed (unlocks i late c e f) = []
  step_removed (goes_on i k {a = a} e f g) = removed (rest_call k) a

  -- The elements that were put in over a run, and those that were taken out.
  abbrev pub all_added : {client : Call A → Bool} {s t : System A} → Reach client s t → List A
  all_added here = []
  all_added (next before last) = all_added before ++ step_added last

  abbrev pub all_removed : {client : Call A → Bool} {s t : System A} → Reach client s t → List A
  all_removed here = []
  all_removed (next before last) = all_removed before ++ step_removed last

  -- The calls that a history of additions and removals is about: `clear` drops elements.
  abbrev pub drops : Call A → Bool
  drops clear = true
  drops _ = false

  -- A turn that replies: what was in the queue and what is added, in order, are what is removed and
  -- what is left.
  abbrev Balanced : Call A → List A → Turn A → Type ℓ
  Balanced c xs (stays v) = Unit
  Balanced c xs (replies a ys sig) = xs ++ added c a ≡ removed c a ++ ys

  offer-Balanced :
      (cap : ℕ) (c : Call A) (xs : List A) (x : A) (a : Answer A) (otherwise : Turn A)
      → added c a ≡ x ∷ []
      → removed c a ≡ []
      → Balanced c xs otherwise
      → Balanced c xs (offer cap xs x a otherwise)
  offer-Balanced cap c xs x a otherwise e f b = elim (Bool-cases (length xs == cap)) [
    | inl whole ↦ rw whole b
    | inr room ↦ rw (room, e, f) refl
  ]

  patience-Balanced :
      (late : Bool) (c : Call A) (xs : List A) (a : Answer A) (v : Cv)
      → added c a ≡ []
      → removed c a ≡ []
      → Balanced c xs (patience late xs a v)
  patience-Balanced true c xs a v e f = rw (e, f) (append-nil xs)
  patience-Balanced false c xs a v e f = tt

  branch-Balanced :
      (test : Bool) (c : Call A) (xs : List A) (w w' : Turn A)
      → Balanced c xs w
      → Balanced c xs w'
      → Balanced c xs (if test then w else w')
  branch-Balanced true c xs w w' b b' = b
  branch-Balanced false c xs w w' b b' = b'

  -- No turn but that of `clear` loses an element, makes one up, or changes their order.
  serve-Balanced :
      (cap : ℕ) (late : Bool) (c : Call A) (xs : List A)
      → drops c ≡ false
      → Balanced c xs (serve cap late c xs)
  unfolding serve
  serve-Balanced cap late (push x) xs k =
      offer-Balanced cap (push x) xs x done (stays not_full) refl refl tt
  serve-Balanced cap late (emplace x) xs k =
      offer-Balanced cap (emplace x) xs x done (stays not_full) refl refl tt
  serve-Balanced cap late (try_push x) xs k =
      offer-Balanced cap (try_push x) xs x (flag true) (replies (flag false) xs silent) refl refl
        (append-nil xs)
  serve-Balanced cap late (push_timed x) xs k =
      offer-Balanced cap (push_timed x) xs x (flag true) (patience late xs (flag false) not_full)
        refl refl (patience-Balanced late (push_timed x) xs (flag false) not_full refl refl)
  serve-Balanced cap late pop [] k = refl
  serve-Balanced cap late pop (x ∷ xs) k = append-nil (x ∷ xs)
  serve-Balanced cap late try_pop [] k = refl
  serve-Balanced cap late try_pop (x ∷ xs) k = append-nil (x ∷ xs)
  serve-Balanced cap late pop_timed [] k =
      patience-Balanced late pop_timed [] nothing not_empty refl refl
  serve-Balanced cap late pop_timed (x ∷ xs) k = append-nil (x ∷ xs)
  serve-Balanced cap late front xs k = append-nil xs
  serve-Balanced cap late back xs k = append-nil xs
  serve-Balanced cap late (at i) xs k = append-nil xs
  serve-Balanced cap late size xs k = append-nil xs
  serve-Balanced cap late capacity xs k = append-nil xs
  serve-Balanced cap late empty xs k = append-nil xs
  serve-Balanced cap late full xs k = append-nil xs
  serve-Balanced cap late available xs k = append-nil xs
  serve-Balanced cap late clear xs k = cc
  serve-Balanced cap late wait_not_empty xs k =
      branch-Balanced (length xs == 0) wait_not_empty xs (patience late xs (flag false) not_empty)
        (replies (flag true) xs silent)
        (patience-Balanced late wait_not_empty xs (flag false) not_empty refl refl) (append-nil xs)
  serve-Balanced cap late wait_not_full xs k =
      branch-Balanced (length xs == cap) wait_not_full xs (patience late xs (flag false) not_full)
        (replies (flag true) xs silent)
        (patience-Balanced late wait_not_full xs (flag false) not_full refl refl) (append-nil xs)

  module _ (cap : ℕ) (client : Call A → Bool)
      (stays_in : (c : Call A) → client c ≡ true → lets_go c ≡ false)
      (keeps : (c : Call A) → client c ≡ true → drops c ≡ false) where
    Step-balanced :
        {s t : System A} {xs : List A}
        → Shows cap client s xs
        → (σ : Step client s t)
        → (ys : List A) × (xs ++ step_added σ ≡ step_removed σ ++ ys) × Shows cap client t ys
    Step-balanced {xs = xs} v (moves m) = (xs, append-nil xs, Moves-Shows cap client stays_in v m)
    Step-balanced {s} {xs = xs} v (ends i late c {a = a} {sig = sig} e f g) =
        let (ys, w, v') = ends-Shows cap client stays_in v i late c e f g in
        let kept : drops c ≡ false = keeps c (All-get (IsWhole client) s.threads i v.whole e) in
        let even : Balanced c xs (replies a ys sig) =
          subst (Balanced c xs) w (serve-Balanced cap late c xs kept) in
        (ys, even, v')
    Step-balanced {xs = xs} v (sleeps i late c e f) =
        (xs, append-nil xs, (sleeps-Shows cap client stays_in v i late c e f).1)
    Step-balanced v (unlocks i late c e f) =
        absurd (unlocks-Shows cap client stays_in v i late c e f)
    Step-balanced {s} v (goes_on i k e f g) =
        absurd (All-get (IsWhole client) s.threads i v.whole e)

    -- The client makes neither of the two calls that release the mutex early, and does not clear. Its
    -- threads start at a buffer that represents a queue, its tail in step, with only calls of the client
    -- under way. However they interleave, what was in the queue and then all that was put in, in this
    -- order, is all that was taken out and then what the queue holds.
    pub first_in_first_out :
        {s t : System A} {xs : List A}
        → Shows cap client s xs
        → (ρ : Reach client s t)
        → (ys : List A) × (xs ++ all_added ρ ≡ all_removed ρ ++ ys) × Shows cap client t ys
    first_in_first_out {xs = xs} v here = (xs, append-nil xs, v)
    first_in_first_out {xs = xs} v (next before last) =
        let (ys, even, v') = first_in_first_out v before in
        let (zs, even', v'') = Step-balanced v' last in
        (
          zs,
          sym (append_assoc xs (all_added before) (step_added last))
              ∙ ap (λ l. l ++ step_added last) even
              ∙ append_assoc (all_removed before) ys (step_added last)
              ∙ ap (λ l. all_removed before ++ l) even'
              ∙ sym (append_assoc (all_removed before) (step_removed last) zs),
          v'',
        )
