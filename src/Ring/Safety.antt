-- ===== src/Ring/Safety.antt =====
-- What holds of a `ring_buffer` after any script of calls.
use ring_buffer.Base.{◌≡◌, refl, subst, List, [], ◌∷◌, arith}
use ring_buffer.Result.{Result, ok, throw, fault, bind-returns}
use ring_buffer.Script.{Op, Reply, emplace, pop, wipe, read_front, read_back, read_at}
use ring_buffer.Ring.{Ring, push_back, pop_front, clear, front, back, at}
use ring_buffer.Ring.Valid.{IsValid, push_back-IsValid, pop_front-IsValid, clear-IsValid}
use ring_buffer.Ring.Push.{emplace_back-eq-push_back}
use ring_buffer.Ring.Run.{step, run, quiet, taking, reading}

module _ {ℓ} {A : Type ℓ} where
  reading-same :
      (r : Ring A) (m : Result A) {reply : Reply A} {r' : Ring A}
      → reading r m ≡ ok (reply, r')
      → r ≡ r'
  reading-same r (ok a) h = ground arith
  reading-same r (throw e) h = ground arith
  reading-same r fault h = cc

  quiet-IsValid :
      (m : Result (Ring A)) {reply : Reply A} {r' : Ring A}
      → ((r1 : Ring A) → m ≡ ok r1 → IsValid r1)
      → quiet m ≡ ok (reply, r')
      → IsValid r'
  quiet-IsValid (ok r1) keep h = subst IsValid (ground arith) (keep r1 refl)
  quiet-IsValid (throw e) keep h = cc
  quiet-IsValid fault keep h = cc

  taking-IsValid :
      (r : Ring A) (m : Result (A × Ring A)) {reply : Reply A} {r' : Ring A}
      → IsValid r
      → ((a : A) (r1 : Ring A) → m ≡ ok (a, r1) → IsValid r1)
      → taking r m ≡ ok (reply, r')
      → IsValid r'
  taking-IsValid r (ok (a, r1)) v keep h = subst IsValid (ground arith) (keep a r1 refl)
  taking-IsValid r (throw e) v keep h = subst IsValid (ground arith) v
  taking-IsValid r fault v keep h = cc

  step-IsValid :
      (op : Op A) {r r' : Ring A} {reply : Reply A}
      → IsValid r
      → step r op ≡ ok (reply, r')
      → IsValid r'
  unfolding step
  step-IsValid (Op.push x) {r} v h = quiet-IsValid (push_back r x) (λ r1. push_back-IsValid x v) h
  step-IsValid (emplace x) {r} v h =
      quiet-IsValid (push_back r x) (λ r1. push_back-IsValid x v)
        (rw (emplace_back-eq-push_back r x) at h)
  step-IsValid pop {r} v h = taking-IsValid r (pop_front r) v (λ a r1. pop_front-IsValid v) h
  step-IsValid wipe {r} v h = quiet-IsValid (clear r) (λ r1. clear-IsValid v) h
  step-IsValid read_front {r} v h = subst IsValid (reading-same r (front r) h) v
  step-IsValid read_back {r} v h = subst IsValid (reading-same r (back r) h) v
  step-IsValid (read_at i) {r} v h = subst IsValid (reading-same r (at r i) h) v

  -- A script of calls, in any order, on a buffer whose fields keep their bounds: if no call meets
  -- undefined behaviour, the indices stay below the capacity, the capacity within the storage, and
  -- the flag for a full buffer true to the count.
  pub run-IsValid :
      (ops : List (Op A)) {r r' : Ring A} {replies : List (Reply A)}
      → IsValid r
      → run r ops ≡ ok (replies, r')
      → IsValid r'
  unfolding run
  run-IsValid [] v h = subst IsValid (ground arith) v
  run-IsValid (op ∷ ops) {r} v h =
      let (first, e, f) = bind-returns (step r op) _ h in
      let (rest, e', f') = bind-returns (run first.1 ops) _ f in
      subst IsValid (ground arith)
        (run-IsValid ops {r = first.1} {r' = rest.1} {replies = rest.0} (step-IsValid op v e) e')
