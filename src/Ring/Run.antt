-- ===== src/Ring/Run.antt =====
-- Scripts of calls on a `ring_buffer` against the window that it represents.
use ring_buffer.Base.{
  ℕ, ◌-◌, ◌≡◌, refl, subst, ◌∙◌, Bool, false, ◌&&◌, ◌||◌, List, [], ◌∷◌, Option, some, none, length,
  get_elem?, ◌==◌, arith,
}
use ring_buffer.Result.{
  Result, ok, throw, fault, Exception, front_of_empty, back_of_empty, out_of_range, ◌>>=◌,
}
use ring_buffer.Script.{
  Op, Reply, emplace, pop, wipe, read_front, read_back, read_at, done, got, threw,
}
use ring_buffer.Window
use ring_buffer.Window.{answer, overwrites, pops}
use ring_buffer.Ring.{Ring, push_back, emplace_back, pop_front, clear, front, back, at}
use ring_buffer.Ring.Valid.{capacity-push_back, capacity-pop_front, capacity-clear}
use ring_buffer.Ring.Holds.{Represents, IsInStep}
use ring_buffer.Ring.Push.{push_back-Represents, push_back-IsInStep, emplace_back-eq-push_back}
use ring_buffer.Ring.Pop.{pop_front-empty, pop_front-Represents}
use ring_buffer.Ring.Access.{or_throw, at-Holds, front-Holds, back-Represents}
use ring_buffer.Ring.Clear.{clear-Holds}

module _ {ℓ} {A : Type ℓ} where
  -- A client that catches what the buffer throws. A call that throws has changed nothing.
  abbrev pub quiet : Result (Ring A) → Result (Reply A × Ring A)
  quiet m = m >>= λ r'. ok (done, r')

  abbrev pub taking : Ring A → Result (A × Ring A) → Result (Reply A × Ring A)
  taking r (ok (a, r')) = ok (got a, r')
  taking r (throw e) = ok (threw e, r)
  taking r fault = fault

  abbrev pub reading : Ring A → Result A → Result (Reply A × Ring A)
  reading r (ok a) = ok (got a, r)
  reading r (throw e) = ok (threw e, r)
  reading r fault = fault

  unfoldable pub step : Ring A → Op A → Result (Reply A × Ring A)
  step r (Op.push x) = quiet (push_back r x)
  step r (emplace x) = quiet (emplace_back r (ok x))
  step r pop = taking r (pop_front r)
  step r wipe = quiet (clear r)
  step r read_front = reading r (front r)
  step r read_back = reading r (back r)
  step r (read_at i) = reading r (at r i)

  unfoldable pub run : Ring A → List (Op A) → Result (List (Reply A) × Ring A)
  run r [] = ok ([], r)
  run r (op ∷ ops) = do
    (reply, r1) ← step r op
    (replies, r2) ← run r1 ops
    ok (reply ∷ replies, r2)

  -- One call: the buffer does what the window does, and goes on representing it. The tail is in
  -- step as long as nothing was overwritten.
  pub record Agrees (cap : ℕ) (stale : Bool) (want : Reply A × List A)
      (res : Result (Reply A × Ring A)) : Type ℓ where
    pub after : Ring A
    pub same : res ≡ ok (want.0, after)
    pub capacity_kept : after.capacity ≡ cap
    pub represents : Represents after want.1
    pub in_step : stale ≡ false → IsInStep after

  reading-Agrees :
      {r : Ring A} {xs : List A} (stale : Bool)
      → Represents r xs
      → (stale ≡ false → IsInStep r)
      → (o : Option A) (e : Exception) {m : Result A} → m ≡ or_throw o e
      → Agrees r.capacity stale (answer o e, xs) (reading r m)
  reading-Agrees {r} stale v s none e p = record {
    after = r;
    same = rw p;
    capacity_kept = refl;
    represents = v;
    in_step = s;
  }
  reading-Agrees {r} stale v s (some a) e p = record {
    after = r;
    same = rw p;
    capacity_kept = refl;
    represents = v;
    in_step = s;
  }

  push-Agrees :
      (r : Ring A) (xs : List A) (stale : Bool) (x : A)
      → Represents r xs
      → (stale ≡ false → IsInStep r)
      → Agrees r.capacity
          (stale || length xs == r.capacity)
          (done, Window.push r.capacity xs x)
          (quiet (push_back r x))
  push-Agrees r xs stale x v s =
      let (r', e, v') = push_back-Represents r x v in
      record {
        after = r';
        same = rw e;
        capacity_kept = capacity-push_back r x e;
        represents = v';
        in_step = λ p. push_back-IsInStep r x v (ground (arith, v.counted)) e;
      }

  step-Agrees :
      (r : Ring A) (xs : List A) (stale : Bool) (op : Op A)
      → Represents r xs
      → (stale ≡ false → IsInStep r)
      → (stale && pops op) ≡ false
      → Agrees r.capacity
          (overwrites r.capacity xs stale op)
          (Window.step r.capacity xs op)
          (step r op)
  unfolding step Window.step
  step-Agrees r xs stale (Op.push x) v s safe = push-Agrees r xs stale x v s
  step-Agrees r xs stale (emplace x) v s safe =
      rw (emplace_back-eq-push_back r x) (push-Agrees r xs stale x v s)
  step-Agrees r [] stale pop v s safe = record {
    after = r;
    same = rw (pop_front-empty r v.holds);
    capacity_kept = refl;
    represents = v;
    in_step = s;
  }
  step-Agrees r (x ∷ xs) stale pop v s safe =
      let (r', e, v', s') = pop_front-Represents r v (s (ground arith)) in
      record {
        after = r';
        same = rw e;
        capacity_kept = capacity-pop_front r e;
        represents = v';
        in_step = λ _. s';
      }
  step-Agrees r xs stale wipe v s safe =
      let (r', e, v', s') = clear-Holds r v.holds in
      record {
        after = r';
        same = rw e;
        capacity_kept = capacity-clear r e;
        represents = v';
        in_step = λ _. s';
      }
  step-Agrees r xs stale read_front v s safe =
      reading-Agrees stale v s (get_elem? xs 0) front_of_empty (front-Holds r xs v.holds)
  step-Agrees r xs stale read_back v s safe =
      reading-Agrees stale v s (get_elem? xs (length xs - 1)) back_of_empty (back-Represents r xs v)
  step-Agrees r xs stale (read_at i) v s safe =
      reading-Agrees stale v s (get_elem? xs i) (out_of_range i r.capacity) (at-Holds r v.holds i)

  -- On a buffer that represents a list, its tail in step unless an element counts as overwritten: a
  -- script that pops nothing once an element was overwritten and the buffer not cleared since, gets
  -- from the buffer the replies that it gets from the window, exceptions included. It leaves the
  -- buffer with its capacity, representing what the window then holds.
  pub run_refines :
      (ops : List (Op A)) (r : Ring A) (xs : List A) (stale : Bool)
      → Represents r xs
      → (stale ≡ false → IsInStep r)
      → Window.IsSafe r.capacity xs stale ops
      → (r' : Ring A) × (run r ops ≡ ok ((Window.run r.capacity xs ops).0, r'))
        × Represents r' (Window.run r.capacity xs ops).1
        × (r'.capacity ≡ r.capacity)
  unfolding run Window.run
  run_refines [] r xs stale v s safe = (r, refl, v, refl)
  run_refines (op ∷ ops) r xs stale v s safe =
      let cap : ℕ = r.capacity in
      let a : Agrees cap (overwrites cap xs stale op) (Window.step cap xs op) (step r op) =
        step-Agrees r xs stale op v s safe.0 in
      let (r', e, v', kept) =
        run_refines ops a.after (Window.step cap xs op).1 (overwrites cap xs stale op) a.represents
          a.in_step (rw a.capacity_kept safe.1) in
      let ys : List A = (Window.step cap xs op).1 in
      let e' : run a.after ops ≡ ok ((Window.run cap ys ops).0, r') =
        subst (λ c. run a.after ops ≡ ok ((Window.run c ys ops).0, r')) a.capacity_kept e in
      (
        r',
        rw (a.same) (rw e'),
        subst (λ c. Represents r' (Window.run c ys ops).1) a.capacity_kept v',
        kept ∙ a.capacity_kept,
      )
