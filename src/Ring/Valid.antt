-- ===== src/Ring/Valid.antt =====
-- The bounds on the fields of a `ring_buffer`, and the operations of include/ring_buffer.h on them.
use ring_buffer.Base.{
  refl, sym, ◌∙◌, Option, none, some, ◌⊎◌, ℕ, ◌+◌, ◌≡◌, ◌≤◌, ◌<◌, ◌%◌, true, false, inl, inr,
  Bool-cases, ◌==◌, length, max_size, add_size, arith, zero, suc,
}
use ring_buffer.Result.{ok, bind-returns}
use ring_buffer.Memory.{
  Storage, cells, write, read, construct, assign, destroy, assign-eq-ok, construct-eq-ok,
  destroy-eq-ok, length-cells-write,
}
use ring_buffer.Ring.{
  Ring, empty, push_back, pop_front, clear, destroy_all, increment_head, increment_tail,
  overwrite_advance_head,
}

pub record IsValid {ℓ} {A : Type ℓ} (r : Ring A) : Type 0 where
  pub capacity_pos : 0 < r.capacity
  pub capacity_small : r.capacity ≤ max_size
  pub storage : r.capacity ≤ length (cells r.buffer)
  pub head_in : r.head < r.capacity
  pub tail_in : r.tail < r.capacity
  pub count_in : r.count ≤ r.capacity
  pub full_is : r.full ≡ (r.count == r.capacity)
  pub overwrite_in : r.just_overwrote ≡ true → r.overwrite_position < r.capacity

module _ {ℓ} {A : Type ℓ} where
  -- The storage may hold other objects than before, in as many cells.
  pub write-IsValid :
      {r : Ring A} (i : ℕ) (c : Option A)
      → IsValid r
      → IsValid (record r { buffer = write r.buffer i c })
  write-IsValid {r} i c v = ground (arith, length-cells-write r.buffer i c)

  pub increment_head-IsValid : {r : Ring A} → IsValid r → IsValid (increment_head r)
  unfolding increment_head
  increment_head-IsValid v = ground arith

  pub increment_tail-IsValid : {r : Ring A} → IsValid r → IsValid (increment_tail r)
  unfolding increment_tail
  increment_tail-IsValid v = ground arith

  pub overwrite_advance_head-IsValid : {r : Ring A} → IsValid r → IsValid (overwrite_advance_head r)
  unfolding overwrite_advance_head
  overwrite_advance_head-IsValid v = ground arith

  -- What a call of `push_back` that returns has done.
  pub push_back-eq-ok :
      (r : Ring A) (x : A) {r' : Ring A}
      → push_back r x ≡ ok r'
      → ((r.full ≡ true)
          × (r' ≡ overwrite_advance_head (record r { buffer = write r.buffer r.head (some x) })))
        ⊎ ((r.full ≡ false)
            × (r' ≡ increment_tail (record r { buffer = write r.buffer r.tail (some x) })))
  unfolding push_back
  push_back-eq-ok r x h = elim (Bool-cases r.full) [
    | inl f ↦
        let (buf, e, e') = bind-returns (assign r.buffer r.head x) _ (rw f at h) in
        inl (f, ground (arith, assign-eq-ok r.buffer r.head x e))
    | inr f ↦
        let (buf, e, e') = bind-returns (construct r.buffer r.tail x) _ (rw f at h) in
        inr (f, ground (arith, construct-eq-ok r.buffer r.tail x e))
  ]

  pub push_back-IsValid : {r r' : Ring A} (x : A) → IsValid r → push_back r x ≡ ok r' → IsValid r'
  push_back-IsValid {r} x v h = elim (push_back-eq-ok r x h) [
    | inl (_, e) ↦ rw e (overwrite_advance_head-IsValid (write-IsValid r.head (some x) v))
    | inr (_, e) ↦ rw e (increment_tail-IsValid (write-IsValid r.tail (some x) v))
  ]

  -- What a call of `pop_front` that returns has done.
  pub pop_front-eq-ok :
      (r : Ring A) {x : A} {r' : Ring A}
      → pop_front r ≡ ok (x, r')
      → (0 < r.count)
        × (read r.buffer r.head ≡ ok x)
        × (r' ≡ increment_head (record r { buffer = write r.buffer r.head none }))
  unfolding pop_front empty
  pop_front-eq-ok r h = elim (Bool-cases (r.count == 0)) [
    | inl z ↦ absurd (ground arith)
    | inr nz ↦
        let (item, e, f) = bind-returns (read r.buffer r.head) _ (rw nz at h) in
        let (buf, e', f') = bind-returns (destroy r.buffer r.head) _ f in
        ground (arith, destroy-eq-ok r.buffer r.head e')
  ]

  pub pop_front-IsValid :
      {r r' : Ring A} {x : A} → IsValid r → pop_front r ≡ ok (x, r') → IsValid r'
  pop_front-IsValid {r} v h =
      let (_, _, e) = pop_front-eq-ok r h in
      rw e (increment_head-IsValid (write-IsValid r.head none v))

  -- The loop of `clear` leaves the storage as long as it was.
  pub length-destroy_all :
      (rounds : ℕ) (buf : Storage A) (c h i : ℕ) {buf' : Storage A}
      → destroy_all rounds buf c h i ≡ ok buf'
      → length (cells buf') ≡ length (cells buf)
  unfolding destroy_all
  length-destroy_all zero buf c h i e = ground arith
  length-destroy_all (suc rounds) buf c h i e =
      let k : ℕ = add_size h i % c in
      let (mid, d, e') = bind-returns (destroy buf k) _ e in
      ground (
        arith,
        length-destroy_all rounds mid c h (i + 1) e',
        destroy-eq-ok buf k d,
        length-cells-write buf k none,
      )

  pub clear-IsValid : {r r' : Ring A} → IsValid r → clear r ≡ ok r' → IsValid r'
  unfolding clear
  clear-IsValid {r} v h =
      let (buf, d, e) = bind-returns (destroy_all r.count r.buffer r.capacity r.head 0) _ h in
      ground (arith, length-destroy_all r.count r.buffer r.capacity r.head 0 d)

  -- No operation changes the capacity.
  pub capacity-push_back :
      (r : Ring A) (x : A) {r' : Ring A} → push_back r x ≡ ok r' → r'.capacity ≡ r.capacity
  unfolding increment_tail overwrite_advance_head
  capacity-push_back r x h = ground (arith, push_back-eq-ok r x h)

  pub capacity-pop_front :
      (r : Ring A) {x : A} {r' : Ring A} → pop_front r ≡ ok (x, r') → r'.capacity ≡ r.capacity
  unfolding increment_head
  capacity-pop_front r h = ground (arith, pop_front-eq-ok r h)

  -- A push adds at most one to the count, and a pop takes one.
  pub count-push_back :
      (r : Ring A) (x : A) {r' : Ring A} → push_back r x ≡ ok r' → r'.count ≤ r.count + 1
  unfolding increment_tail overwrite_advance_head
  count-push_back r x h = ground (arith, push_back-eq-ok r x h)

  pub count-pop_front :
      (r : Ring A) {x : A} {r' : Ring A} → pop_front r ≡ ok (x, r') → r'.count + 1 ≡ r.count
  unfolding increment_head
  count-pop_front r h = ground (arith, pop_front-eq-ok r h)

  pub capacity-clear : (r : Ring A) {r' : Ring A} → clear r ≡ ok r' → r'.capacity ≡ r.capacity
  unfolding clear
  capacity-clear r h =
      let (buf, d, e) = bind-returns (destroy_all r.count r.buffer r.capacity r.head 0) _ h in
      ground arith

  -- `clear` leaves the flag of an overwritten buffer as it was.
  pub flag-clear :
      (r : Ring A) {r' : Ring A}
      → clear r ≡ ok r'
      → (r'.just_overwrote ≡ r.just_overwrote) × (r'.overwrite_position ≡ r.overwrite_position)
  unfolding clear
  flag-clear r h =
      let (buf, d, e) = bind-returns (destroy_all r.count r.buffer r.capacity r.head 0) _ h in
      ground arith

  -- A push on a buffer that is not full clears the flag.
  pub flag-push_back :
      (r : Ring A) (x : A) {r' : Ring A}
      → r.full ≡ false
      → push_back r x ≡ ok r'
      → r'.just_overwrote ≡ false
  unfolding increment_tail
  flag-push_back r x f h = elim (push_back-eq-ok r x h) [
    | inl (whole, _) ↦ let clash : true ≡ false = sym whole ∙ f in cc
    | inr (_, e) ↦ rw e refl
  ]
