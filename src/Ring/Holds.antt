-- ===== src/Ring/Holds.antt =====
-- When a `ring_buffer` represents a list of elements, oldest first.
use ring_buffer.Base.{
  ℕ, ◌+◌, ◌-◌, ◌%◌, ◌<◌, ◌≡◌, true, false, List, [], ◌∷◌, some, length, get_elem?, slot, slot-zero,
  slot_cases, add_size, refl, ap, if◌then◌else◌, arith,
}
use ring_buffer.Memory.{cells}
use ring_buffer.Ring.{Ring, decrement_index}
use ring_buffer.Ring.Valid.{IsValid}
use ring_buffer.Ring.Layout.{Layout}

-- The storage holds exactly the elements of the list from the head on, and no other object.
pub record Holds {ℓ} {A : Type ℓ} (r : Ring A) (xs : List A) : Type ℓ where
  pub valid : IsValid r
  pub open valid use *
  pub counted : r.count ≡ length xs
  pub layout : Layout (cells r.buffer) r.capacity r.head xs

-- Where `back` looks for the newest element.
abbrev pub back_index {ℓ} : {A : Type ℓ} → Ring A → ℕ
back_index r = if r.just_overwrote then r.overwrite_position else decrement_index r r.tail

-- Beyond that, the next element is written after the last one, and `back` finds the last one. While
-- the buffer is full the tail may stand anywhere.
pub record Represents {ℓ} {A : Type ℓ} (r : Ring A) (xs : List A) : Type ℓ where
  pub holds : Holds r xs
  pub open holds use *
  pub write_at : r.full ≡ false → r.tail ≡ slot r.capacity r.head r.count
  pub back_at : 0 < r.count → back_index r ≡ slot r.capacity r.head (r.count - 1)

-- The tail follows the last element, as it does unless a full buffer was overwritten.
abbrev pub IsInStep {ℓ} : {A : Type ℓ} → Ring A → Type 0
IsInStep r = r.tail ≡ slot r.capacity r.head r.count

module _ {ℓ} {A : Type ℓ} where
  -- The cell at the head holds the oldest element.
  pub Holds-head :
      {r : Ring A} {x : A} {xs : List A}
      → Holds r (x ∷ xs)
      → get_elem? (cells r.buffer) r.head ≡ some (some x)
  Holds-head {r} {x} v =
      let e : slot r.capacity r.head 0 ≡ r.head = slot-zero r.capacity r.head v.head_in in
      rw e at (v.layout 0 v.capacity_pos)

  -- A buffer that is not empty represents a first element and a rest.
  pub Holds-cons :
      {r : Ring A} (xs : List A)
      → Holds r xs
      → 0 < r.count
      → (x : A) × (ys : List A) × (xs ≡ x ∷ ys)
  Holds-cons [] v h = absurd (omega (arith, v.counted))
  Holds-cons (x ∷ xs) v h = (x, xs, refl)

  -- A full buffer represents as many elements as its capacity, any other fewer.
  pub Holds-full : {r : Ring A} {xs : List A} → Holds r xs → r.full ≡ true → length xs ≡ r.capacity
  Holds-full v f = ground arith

  pub Holds-room : {r : Ring A} {xs : List A} → Holds r xs → r.full ≡ false → length xs < r.capacity
  Holds-room v f = ground arith

  -- `(head_ + 1) % capacity_`, with no wrap-around of `size_t`.
  pub next_head :
      {r : Ring A} → IsValid r → add_size r.head 1 % r.capacity ≡ (r.head + 1) % r.capacity
  next_head {r} v = ap (λ n. n % r.capacity) (omega arith)

  -- While the tail is in step, the index before it is that of the newest element.
  pub decrement_index-IsInStep :
      (r : Ring A)
      → IsValid r
      → IsInStep r
      → 0 < r.count
      → decrement_index r r.tail ≡ slot r.capacity r.head (r.count - 1)
  unfolding decrement_index
  decrement_index-IsInStep r v s p = ground (
    arith,
    slot_cases r.capacity r.head r.count v.head_in v.count_in,
    slot_cases r.capacity r.head (r.count - 1) v.head_in,
  )

  -- A buffer whose flag is not set represents what it holds, as long as its tail is in step.
  pub Represents-IsInStep :
      (r : Ring A) {xs : List A}
      → Holds r xs
      → IsInStep r
      → r.just_overwrote ≡ false
      → Represents r xs
  Represents-IsInStep r v s unset = record {
    holds = v;
    write_at = λ _. s;
    back_at = λ p. simp unset (decrement_index-IsInStep r v.valid s p);
  }
