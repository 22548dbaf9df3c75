-- ===== src/ThreadSafe/Turns.antt =====
-- Each critical section of include/thread_safe_ring_buffer.h, on a buffer that represents a queue,
-- against the turn of the queue.
use ring_buffer.Base.{
  ℕ, ◌-◌, ◌≡◌, refl, sym, Bool, true, false, if◌then◌else◌, List, [], ◌∷◌, ◌++◌, Option, none, some,
  length, get_elem?, ◌==◌, arith, subst,
}
use ring_buffer.Result.{Result, ok, Exception, front_of_empty, back_of_empty, out_of_range}
use ring_buffer.Window
use ring_buffer.Ring
use ring_buffer.Ring.{Ring, push_back, pop_front}
use ring_buffer.Ring.Valid.{capacity-push_back, capacity-pop_front, capacity-clear}
use ring_buffer.Ring.Holds.{Represents, IsInStep, Holds-room}
use ring_buffer.Ring.Push.{push_back-Represents, push_back-IsInStep, emplace_back-eq-push_back}
use ring_buffer.Ring.Pop.{pop_front-empty, pop_front-Represents}
use ring_buffer.Ring.Access.{or_throw, at-Holds, front-Holds, back-Represents, available-Holds}
use ring_buffer.Ring.Clear.{clear-Holds}
use ring_buffer.ThreadSafe.{
  Call, Answer, Cv, Outcome, attempt, put, take, look, say, push, emplace, try_push, push_timed,
  pop, try_pop, pop_timed, front, back, at, size, capacity, empty, full, available, clear,
  wait_not_empty, wait_not_full, done, nothing, flag, not_empty, not_full, silent, one, finish,
  sleep,
}
use ring_buffer.ThreadSafe.Queue.{Turn, stays, replies, serve, found, fetch, patience}

-- The calls that release the mutex before they touch the buffer.
abbrev pub lets_go {ℓ} : {A : Type ℓ} → Call A → Bool
lets_go (push_timed x) = true
lets_go pop_timed = true
lets_go _ = false

module _ {ℓ} {A : Type ℓ} where
  -- The code takes the turn `w` of a queue of that capacity.
  abbrev pub Serves : ℕ → Turn A → Result (Outcome A) → Type ℓ
  Serves cap (stays v) res = res ≡ ok (sleep v)
  Serves cap (replies a ys sig) res =
      (r' : Ring A) × (res ≡ ok (finish r' a sig))
      × (r'.capacity ≡ cap)
      × Represents r' ys
      × IsInStep r'

  -- A test that the queue and the code make alike.
  branch-Serves :
      (cap : ℕ) (test : Bool) (w w' : Turn A) (m m' : Result (Outcome A))
      → Serves cap w m
      → (test ≡ false → Serves cap w' m')
      → Serves cap (if test then w else w') (if test then m else m')
  branch-Serves n true w w' m m' p q = p
  branch-Serves n false w w' m m' p q = q refl

  module _ (r : Ring A) {xs : List A} (v : Represents r xs) (s : IsInStep r) where
    -- The flag of the buffer tells whether the queue has no room left.
    full-Represents : (length xs == r.capacity) ≡ r.full
    full-Represents = ground (arith, v.counted, v.full_is)

    empty-Represents : (length xs == 0) ≡ Ring.empty r
    unfolding Ring.empty
    empty-Represents = ground (arith, v.counted)

    put-Serves :
        (x : A) (a : Answer A)
        → r.full ≡ false
        → Serves r.capacity (replies a (xs ++ x ∷ []) (one not_empty)) (put (push_back r x) a)
    put-Serves x a room =
        let (r', e, v') = push_back-Represents r x v in
        (
          r',
          rw e,
          capacity-push_back r x e,
          subst (Represents r') (Window.push-room r.capacity xs x (Holds-room v.holds room)) v',
          push_back-IsInStep r x v room e,
        )

    look-Serves :
        (o : Option A) (e : Exception) {m : Result A}
        → m ≡ or_throw o e
        → Serves r.capacity (replies (found o e) xs silent) (look r m)
    look-Serves none e p = (r, rw p, refl, v, s)
    look-Serves (some a) e p = (r, rw p, refl, v, s)

    available-Represents : r.capacity - length xs ≡ Ring.available r
    available-Represents = omega (arith, available-Holds r v.holds)

    give_up-Serves :
        (late : Bool) (a : Answer A) (cv : Cv)
        → Serves r.capacity (patience late xs a cv) (if late then say r a else ok (sleep cv))
    give_up-Serves late a cv =
        branch-Serves r.capacity late _ _ _ _ (r, refl, refl, v, s) (λ _. refl)

  take-Serves :
      (r : Ring A) (xs : List A) {a : Answer A}
      → Represents r xs
      → IsInStep r
      → (xs ≡ [] → take r (pop_front r) ≡ ok (finish r a silent))
      → Serves r.capacity (fetch xs (replies a xs silent)) (take r (pop_front r))
  take-Serves r [] v s none_left = (r, none_left refl, refl, v, s)
  take-Serves r (x ∷ xs) v s none_left =
      let (r', e, v', s') = pop_front-Represents r v s in (r', rw e, capacity-pop_front r e, v', s')

  -- On a buffer that represents a queue, its tail in step, a critical section takes the turn that the
  -- queue promises for the call, and then represents the queue left, its tail in step, unless the
  -- call is one of the two that release the mutex before they touch the buffer.
  pub attempt-Serves :
      (late : Bool) (c : Call A) (r : Ring A) (xs : List A)
      → lets_go c ≡ false
      → Represents r xs
      → IsInStep r
      → Serves r.capacity (serve r.capacity late c xs) (attempt late c r)
  unfolding attempt serve
  attempt-Serves late (push x) r xs stays_in v s =
      rw (full-Represents r v s)
        (branch-Serves r.capacity r.full _ _ _ _ refl (put-Serves r v s x done))
  attempt-Serves late (emplace x) r xs stays_in v s =
      rw (full-Represents r v s, emplace_back-eq-push_back r x)
        (branch-Serves r.capacity r.full _ _ _ _ refl (put-Serves r v s x done))
  attempt-Serves late (try_push x) r xs stays_in v s = rw (full-Represents r v s) (
      branch-Serves r.capacity r.full _ _ _ _ (r, refl, refl, v, s)
        (put-Serves r v s x (flag true)))
  attempt-Serves late (push_timed x) r xs stays_in v s = cc
  attempt-Serves late pop r xs stays_in v s =
      take-Serves r xs v s (λ e. rw (pop_front-empty r (rw e at v).holds))
  attempt-Serves late try_pop r [] stays_in v s =
      rw (sym (empty-Represents r v s)) (r, refl, refl, v, s)
  attempt-Serves late try_pop r (x ∷ xs) stays_in v s =
      let left : (length (x ∷ xs) == 0) ≡ false = ground arith in
      rw (sym (empty-Represents r v s), left) (take-Serves r (x ∷ xs) {a = nothing} v s (λ e. cc))
  attempt-Serves late pop_timed r xs stays_in v s = cc
  attempt-Serves late front r xs stays_in v s =
      look-Serves r v s (get_elem? xs 0) front_of_empty (front-Holds r xs v.holds)
  attempt-Serves late back r xs stays_in v s =
      look-Serves r v s (get_elem? xs (length xs - 1)) back_of_empty (back-Represents r xs v)
  attempt-Serves late (at i) r xs stays_in v s =
      look-Serves r v s (get_elem? xs i) (out_of_range i r.capacity) (at-Holds r v.holds i)
  attempt-Serves late size r xs stays_in v s = (r, rw v.counted refl, refl, v, s)
  attempt-Serves late capacity r xs stays_in v s = (r, refl, refl, v, s)
  attempt-Serves late empty r xs stays_in v s = (r, rw (empty-Represents r v s) refl, refl, v, s)
  attempt-Serves late full r xs stays_in v s = (r, rw (full-Represents r v s) refl, refl, v, s)
  attempt-Serves late available r xs stays_in v s =
      (r, rw (available-Represents r v s) refl, refl, v, s)
  attempt-Serves late clear r xs stays_in v s =
      let (r', e, v', s') = clear-Holds r v.holds in (r', rw e, capacity-clear r e, v', s')
  attempt-Serves late wait_not_empty r xs stays_in v s = rw (empty-Represents r v s) (
      branch-Serves r.capacity (Ring.empty r) _ _ _ _
        (give_up-Serves r v s late (flag false) not_empty) (λ _. (r, refl, refl, v, s)))
  attempt-Serves late wait_not_full r xs stays_in v s = rw (full-Represents r v s) (
      branch-Serves r.capacity r.full _ _ _ _ (give_up-Serves r v s late (flag false) not_full)
        (λ _. (r, refl, refl, v, s)))
