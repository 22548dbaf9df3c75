-- ===== src/ThreadSafe/OneConsumer/Calls.antt =====
-- The calls of a program over include/thread_safe_ring_buffer.h in which one thread takes elements out, by
-- `pop_front_with_timeout`, and the others put elements in, by `push_back`.
use ring_buffer.Base.{
  ◌≢◌, ℕ, ◌+◌, ◌≡◌, ◌≤◌, ◌<◌, refl, subst, ap, Bool-cases, inl, inr, Bool, true, false, List, [],
  ◌∷◌, ◌++◌, append-nil, length, length-append, ◌==◌, arith,
}
use ring_buffer.Result.{Result, ok, fault, Exception}
use ring_buffer.Ring
use ring_buffer.Ring.{Ring}
use ring_buffer.Ring.Holds.{Represents, IsInStep}
use ring_buffer.Ring.Pop.{pop_front-Represents}
use ring_buffer.ThreadSafe.{
  Outcome, raised, Call, Answer, Rest, Signal, attempt, finish_rest, push, pop_timed, push_rest,
  pop_rest, done, nothing, value, not_full, not_empty, finish, unlock, one,
}
use ring_buffer.ThreadSafe.Queue.{Turn, serve, stays, replies}
use ring_buffer.ThreadSafe.Turns.{Serves, attempt-Serves}
use ring_buffer.ThreadSafe.Refine.{Serves-finish, Serves-unlock}
use ring_buffer.ThreadSafe.History.{added, removed, rest_call}

module _ {ℓ} {A : Type ℓ} where
  -- The calls of the thread that takes elements out, and of the others.
  abbrev pub plays : Bool → Call A → Bool
  plays true pop_timed = true
  plays false (push x) = true
  plays _ _ = false

  -- The answers that they get.
  abbrev pub hears : Bool → Answer A → Bool
  hears true (value x) = true
  hears true nothing = true
  hears false done = true
  hears _ _ = false

  abbrev pub takes_out : Bool → Rest A → Bool
  takes_out b pop_rest = b
  takes_out b (push_rest x) = false

  -- A critical section of such a call that ends.
  pub played :
      (b late : Bool) (c : Call A) (r : Ring A) (xs : List A) {r' : Ring A} {a : Answer A}
      {sig : Signal}
      → plays b c ≡ true
      → Represents r xs
      → IsInStep r
      → attempt late c r ≡ ok (finish r' a sig)
      → (ys : List A) × (xs ++ added c a ≡ removed c a ++ ys)
        × Represents r' ys
        × IsInStep r'
        × (hears b a ≡ true)
        × (length xs ≤ length ys)
  unfolding attempt serve
  played true late pop_timed r xs {r'} {a} k v s e =
      let same : r ≡ r' = ground arith in
      let answer : nothing ≡ a = ground arith in
      (
        xs,
        subst (λ b. xs ++ added pop_timed b ≡ removed pop_timed b ++ xs) answer (append-nil xs),
        subst (λ q. Represents q xs) same v,
        subst IsInStep same s,
        subst (λ b. hears true b ≡ true) answer refl,
        omega arith,
      )
  played false late (push x) r xs {r'} {a} k v s e =
      let (ys, w, _, v', s') =
        Serves-finish r.capacity (serve r.capacity late (push x) xs)
          (attempt-Serves late (push x) r xs refl v s) e in
      elim (Bool-cases (length xs == r.capacity)) [
        | inl whole ↦
            let clash : ◌≡◌ {A = Turn A} (stays not_full) (replies a ys _) = rw whole at w in cc
        | inr room ↦
            let turn : ◌≡◌ {A = Turn A} (replies done (xs ++ x ∷ []) (one not_empty))
                (replies a ys _) =
              rw room at w in
            let longer : xs ++ x ∷ [] ≡ ys = cc in
            let answer : done ≡ a = cc in
            (
              ys,
              subst (λ b. xs ++ x ∷ [] ≡ removed (push x) b ++ ys) answer longer,
              v',
              s',
              subst (λ b. hears false b ≡ true) answer refl,
              omega (arith, length-append xs (x ∷ []), ap length longer),
            )
      ]
  played _ late c r xs k v s e = cc

  -- A thread that passes the test of `pop_front_with_timeout` has seen an element.
  pub let_in :
      (b late : Bool) (c : Call A) (r : Ring A) (xs : List A) {k : Rest A}
      → plays b c ≡ true
      → Represents r xs
      → IsInStep r
      → attempt late c r ≡ ok (unlock k)
      → (takes_out b k ≡ true) × (b ≡ true) × (0 < length xs)
  unfolding attempt Ring.empty
  let_in true late pop_timed r xs {k} m v s e =
      let rest : pop_rest ≡ k = ground arith in
      let some_left : 0 < length xs = ground (arith, v.counted) in
      (subst (λ l. takes_out true l ≡ true) rest refl, refl, some_left)
  let_in false late (push x) r xs m v s e = absurd (
      Serves-unlock r.capacity (serve r.capacity late (push x) xs)
        (attempt-Serves late (push x) r xs refl v s) e)
  let_in _ late c r xs m v s e = cc

  -- The rest of `pop_front_with_timeout` at a queue with an element.
  pub taken :
      (k : Rest A) (r : Ring A) (xs : List A) (b : Bool) {r' : Ring A} {a : Answer A} {sig : Signal}
      → takes_out b k ≡ true
      → 0 < length xs
      → Represents r xs
      → IsInStep r
      → finish_rest k r ≡ ok (finish r' a sig)
      → (ys : List A) × (xs ++ added (rest_call k) a ≡ removed (rest_call k) a ++ ys)
        × Represents r' ys
        × IsInStep r'
        × (hears b a ≡ true)
        × (length xs ≤ 1 + length ys)
  unfolding finish_rest
  taken pop_rest r [] true k p v s e = elim p [ ]
  taken pop_rest r (x ∷ xs) true {r'} {a} k p v s e =
      let (r1, f, v1, s1) = pop_front-Represents r v s in
      let found : ok (finish r1 (value x) (one not_full)) ≡ ok (finish r' a _) = rw f at e in
      let same : r1 ≡ r' = cc in
      let answer : value x ≡ a = cc in
      (
        xs,
        subst (λ b. x ∷ (xs ++ []) ≡ removed pop_timed b ++ xs) answer (ap (◌∷◌ x) (append-nil xs)),
        subst (λ q. Represents q xs) same v1,
        subst IsInStep same s1,
        subst (λ b. hears true b ≡ true) answer refl,
        omega arith,
      )
  taken (push_rest y) r xs b k p v s e = cc
  taken pop_rest r xs false k p v s e = cc

  -- Neither has a wrong access to memory, and no answer is an exception.
  Serves-fault : (cap : ℕ) (w : Turn A) {res : Result (Outcome A)} → Serves cap w res → res ≢ fault
  Serves-fault cap (stays v) h e = cc
  Serves-fault cap (replies a ys sig) (r', f, _, _, _) e = cc

  pub attempt-ends :
      (b late : Bool) (c : Call A) (r : Ring A) (xs : List A)
      → plays b c ≡ true
      → Represents r xs
      → IsInStep r
      → attempt late c r ≢ fault
  unfolding attempt
  attempt-ends true late pop_timed r xs k v s e = ground arith
  attempt-ends false late (push x) r xs k v s e =
      Serves-fault r.capacity (serve r.capacity late (push x) xs)
        (attempt-Serves late (push x) r xs refl v s) e
  attempt-ends _ late c r xs k v s e = cc

  pub finish_rest-ends :
      (k : Rest A) (r : Ring A) (xs : List A) (b : Bool)
      → takes_out b k ≡ true
      → 0 < length xs
      → Represents r xs
      → IsInStep r
      → finish_rest k r ≢ fault
  unfolding finish_rest
  finish_rest-ends pop_rest r [] b k p v s e = elim p [ ]
  finish_rest-ends pop_rest r (x ∷ xs) b k p v s e =
      let (r1, f, v1, s1) = pop_front-Represents r v s in
      let found : ok (finish r1 (value x) (one not_full)) ≡ fault = rw f at e in cc
  finish_rest-ends (push_rest y) r xs b k p v s e = cc

pub hears-raised {ℓ} : (A : Type ℓ) (b : Bool) (x : Exception) → hears {A = A} b (raised x) ≢ true
hears-raised A true x e = cc
hears-raised A false x e = cc
