-- ===== src/Objects/Move.antt =====
-- The move constructor, and what is left of a buffer that was moved from.
use ring_buffer.Base.{
  ℕ, ◌+◌, ◌-◌, ◌<◌, ◌≤◌, ◌≡◌, ◌≢◌, ◌∙◌, refl, sym, ap, true, false, List, none, length, get_elem?,
  slot_cases, max_size, get_elem?-of_lt, dec_lt, ◌⊎◌, arith, ◌==◌,
}
use ring_buffer.Result.{
  ok, throw, fault, pop_from_empty, front_of_empty, back_of_empty, out_of_range,
}
use ring_buffer.Memory.{construct, read}
use ring_buffer.Ring.{
  Ring, empty, push_back, pop_front, front, back, at, clear, destroy_all, decrement_index,
}
use ring_buffer.Ring.Layout.{slot_onto}
use ring_buffer.Ring.Access.{or_throw, back-read, read-slot}
use ring_buffer.Ring.Holds.{Holds, Represents, IsInStep, Represents-IsInStep, Holds-full}
use ring_buffer.Objects.{move_construct, reset, destruct}

module _ {ℓ} {A : Type ℓ} (r : Ring A) where
  -- The new buffer holds what the old one held.
  pub move_construct-Holds : {xs : List A} → Holds r xs → Holds (move_construct r).0 xs
  unfolding move_construct
  move_construct-Holds v = record { valid = ground arith; counted = v.counted; layout = v.layout }

  -- If a buffer holds a list and its tail is in step, the new buffer of the move constructor
  -- represents that list, its tail in step.
  move_construct-Represents :
      {xs : List A}
      → Holds r xs
      → IsInStep r
      → Represents (move_construct r).0 xs × IsInStep (move_construct r).0
  unfolding move_construct
  move_construct-Represents v s =
      (Represents-IsInStep (move_construct r).0 (move_construct-Holds v) s refl, s)

  -- A buffer that was moved from is empty: it throws where an empty buffer throws, is destroyed
  -- with nothing to deallocate, and has no memory for a new element.
  reset_lem :
      (x : A) (i : ℕ)
      → (pop_front (reset r) ≡ throw pop_from_empty)
        × (front (reset r) ≡ throw front_of_empty)
        × (back (reset r) ≡ throw back_of_empty)
        × (at (reset r) i ≡ throw (out_of_range i 0))
        × (push_back (reset r) x ≡ fault)
        × (destruct (reset r) ≡ ok none)
  unfolding reset pop_front front back at push_back destruct clear destroy_all empty construct
  reset_lem x i = (refl, refl, refl, ground arith, refl, refl)

  decrement_index-cases :
      (m : Ring A) (i : ℕ)
      → 0 < m.capacity
      → m.capacity ≤ max_size
      → ((i ≡ 0) × (decrement_index m i ≡ m.capacity - 1))
        ⊎ ((0 < i) × (decrement_index m i ≡ i - 1))
  unfolding decrement_index
  decrement_index-cases m i pos small = ground arith

  -- If a buffer holds a list that fills it and its tail is not at its head, `back` of the new buffer
  -- of the move constructor returns an element that is not the newest.
  pub move_construct-back_stale :
      (xs : List A)
      → Holds r xs
      → r.full ≡ true
      → r.tail ≢ r.head
      → (k : ℕ) × (k + 1 < length xs)
        × (back (move_construct r).0 ≡ or_throw (get_elem? xs k) back_of_empty)
  unfolding move_construct
  move_construct-back_stale xs v f ne =
      let c : ℕ = r.capacity in
      let m : Ring A = (move_construct r).0 in
      let j : ℕ = decrement_index m m.tail in
      let before : ((m.tail ≡ 0) × (j ≡ c - 1)) ⊎ ((0 < m.tail) × (j ≡ m.tail - 1)) =
        decrement_index-cases m m.tail v.capacity_pos v.capacity_small in
      let whole : length xs ≡ c = Holds-full v f in
      let some_left : (m.count == 0) ≡ false = ground (arith, v.counted, whole, v.capacity_pos) in
      let (k, hk, e) = slot_onto c r.head j v.head_in (omega (arith, before, v.tail_in)) in
      let (a, e') = get_elem?-of_lt xs k (omega (arith, whole)) in
      let inner : k + 1 < c = elim (dec_lt (k + 1) c) [
        | yes p ↦ p
        | no p ↦ absurd (
            ne (omega (arith, before, e, v.tail_in, slot_cases c r.head k v.head_in (omega arith))))
      ] in
      let there : read m.buffer j ≡ ok a = ap (read m.buffer) (sym e) ∙ read-slot r v k e' hk in
      (
        k,
        omega (arith, whole),
        back-read m some_left ∙ there ∙ ap (λ o. or_throw o back_of_empty) (sym e'),
      )
