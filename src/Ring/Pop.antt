-- ===== src/Ring/Pop.antt =====
-- `pop_front` on a buffer that represents a list.
use ring_buffer.Base.{
  ◌+◌, ◌-◌, ◌%◌, ◌≡◌, sym, ap, ◌∙◌, false, List, [], ◌∷◌, none, slot, slot-slot, add_size, ◌==◌,
  arith,
}
use ring_buffer.Result.{Result, ok, throw, pop_from_empty}
use ring_buffer.Memory.{cells, write, cells-write, length-cells-write, read-ok, destroy-ok}
use ring_buffer.Ring.{Ring, empty, pop_front, increment_head}
use ring_buffer.Ring.Layout.{Layout-remove}
use ring_buffer.Ring.Holds.{
  Holds, Represents, IsInStep, Holds-head, next_head, decrement_index-IsInStep,
}

module _ {ℓ} {A : Type ℓ} (r : Ring A) where
  -- The buffer without its oldest element.
  abbrev pub removed : Ring A
  removed = record r {
    buffer = write r.buffer r.head none;
    head = add_size r.head 1 % r.capacity;
    count = r.count - 1;
    full = false;
    just_overwrote = false;
  }

  pub pop_front-removed : {x : A} {xs : List A} → Holds r (x ∷ xs) → pop_front r ≡ ok (x, removed)
  unfolding pop_front empty increment_head
  pop_front-removed {x} {xs} v =
      let some_left : (r.count == 0) ≡ false = ground (arith, v.counted) in
      rw
        (
          some_left,
          read-ok r.buffer r.head x (Holds-head v),
          destroy-ok r.buffer r.head (Holds-head v),
        )
        (ground (arith, v.counted))

  pub removed-Holds : {x : A} {xs : List A} → Holds r (x ∷ xs) → Holds removed xs
  removed-Holds {x} {xs} v = record {
    valid = ground (arith, length-cells-write r.buffer r.head none);
    counted = omega (arith, v.counted);
    layout =
        rw (next_head v.valid, cells-write r.buffer r.head none)
          (Layout-remove (cells r.buffer) r.capacity r.head v.storage v.head_in x xs
            (omega (arith, v.counted)) v.layout);
  }

  removed-IsInStep : {x : A} {xs : List A} → Holds r (x ∷ xs) → IsInStep r → IsInStep removed
  removed-IsInStep {x} {xs} v s =
      let one_on : r.count ≡ 1 + (r.count - 1) = omega (arith, v.counted) in
      s
      ∙ ap (slot r.capacity r.head) one_on
      ∙ sym (slot-slot r.capacity r.head 1 (r.count - 1))
      ∙ ap (λ h. slot r.capacity h (r.count - 1)) (sym (next_head v.valid))

  removed-Represents : {x : A} {xs : List A} → Holds r (x ∷ xs) → IsInStep r → Represents removed xs
  removed-Represents {x} {xs} v s = record {
    holds = removed-Holds v;
    write_at = λ _. removed-IsInStep v s;
    back_at =
        λ p. decrement_index-IsInStep removed (removed-Holds v).valid (removed-IsInStep v s) p;
  }

  -- On a buffer that holds a list, `pop_front` takes the first element out, and throws if there is
  -- none.
  pub pop_front-Holds :
      {x : A} {xs : List A}
      → Holds r (x ∷ xs)
      → (r' : Ring A) × (pop_front r ≡ ok (x, r')) × Holds r' xs
  pop_front-Holds v = (removed, pop_front-removed v, removed-Holds v)

  pub pop_front-empty : Holds r [] → pop_front r ≡ throw pop_from_empty
  unfolding pop_front empty
  pop_front-empty v = ground (arith, v.counted)

  -- If the tail is in step, the buffer then represents the rest, its tail still in step.
  pub pop_front-Represents :
      {x : A} {xs : List A}
      → Represents r (x ∷ xs)
      → IsInStep r
      → (r' : Ring A) × (pop_front r ≡ ok (x, r')) × Represents r' xs × IsInStep r'
  pop_front-Represents v s =
      (removed, pop_front-removed v.holds, removed-Represents v.holds s, removed-IsInStep v.holds s)

-- What `pop_front` comes to, by the elements that are there: it throws if there is none, and otherwise
-- returns the first one and leaves a buffer for the rest, its tail in step.
abbrev pub Pops {ℓ} : {A : Type ℓ} → List A → Result (A × Ring A) → Type ℓ
Pops [] res = res ≡ throw pop_from_empty
Pops (x ∷ xs) res = (r' : Ring _) × (res ≡ ok (x, r')) × Represents r' xs × IsInStep r'

module _ {ℓ} {A : Type ℓ} (r : Ring A) where
  -- On a buffer that represents a list, its tail in step, `pop_front` throws if the list is empty.
  -- Otherwise it returns the first element, and the buffer then represents the rest, its tail still
  -- in step.
  pub pop_front-Pops : (xs : List A) → Represents r xs → IsInStep r → Pops xs (pop_front r)
  pop_front-Pops [] v s = pop_front-empty r v.holds
  pop_front-Pops (x ∷ xs) v s = pop_front-Represents r v s
