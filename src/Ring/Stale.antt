-- ===== src/Ring/Stale.antt =====
-- What becomes of a full buffer that was overwritten: `overwrite_advance_head` of
-- include/ring_buffer.h moves `head_` and leaves `tail_`.
use ring_buffer.Base.{
  ℕ, ◌-◌, ◌%◌, ◌≡◌, ◌≢◌, ◌∙◌, refl, sym, ap, true, false, List, ◌∷◌, Option, some, none, get_elem?,
  slot, slot_cases, slot-round, slot-last, add_size-slot, add_size, leb, get_elem?-of_lt,
  get_elem?-set_ne, get_elem?-set_self, arith,
}
use ring_buffer.Result.{ok, fault}
use ring_buffer.Memory.{cells, write, read-raw, cells-write}
use ring_buffer.Ring.{Ring, push_back, pop_front, at, overwrite_advance_head}
use ring_buffer.Ring.Holds.{Holds, Represents, IsInStep, Holds-full, next_head}
use ring_buffer.Ring.Pop.{removed, pop_front-removed, removed-Holds}
use ring_buffer.Ring.Push.{
  appended, push_back-appended, overwritten, push_back_full, overwritten-Represents,
}

module _ {ℓ} {A : Type ℓ} (r : Ring A) where
  -- After `pop_front` on a full buffer whose tail is not at its head, the freed cell stays raw: the
  -- next `push_back` writes over an element, and the last index then reads memory with no object.
  pub pop-push-at_stale :
      {x : A} {xs : List A}
      → Holds r (x ∷ xs)
      → r.full ≡ true
      → r.tail ≢ r.head
      → (y : A)
      → (r1 r2 : Ring A) × (pop_front r ≡ ok (x, r1))
        × (push_back r1 y ≡ ok r2)
        × (r2.count ≡ r2.capacity)
        × (at r2 (r2.capacity - 1) ≡ fault)
  pop-push-at_stale {x} {xs} v f ne y =
      let (o, e) = get_elem?-of_lt cs r.tail (omega (arith, v.tail_in, v.storage)) in
      let there : get_elem? (cells r1.buffer) r.tail ≡ some o =
        rw (cells-write r.buffer r.head none)
          (get_elem?-set_ne cs r.head r.tail none (λ q. ne (sym q)) ∙ e) in
      (
        r1,
        appended r1 y,
        pop_front-removed r v,
        push_back-appended r1 y refl there,
        count-full,
        last-raw,
      )
    where
      cs : List (Option A)
      cs = cells r.buffer

      r1 : Ring A
      r1 = removed r

      count-full : (appended r1 y).count ≡ r.capacity
      count-full = omega (arith, v.counted, Holds-full v f, v.capacity_small)

      raw : get_elem? (cells (appended r1 y).buffer) r.head ≡ some none
      raw = rw (cells-write (write r.buffer r.head none) r.tail (some y)) (
          get_elem?-set_ne (cells (write r.buffer r.head none)) r.tail r.head (some y) ne
          ∙ rw (cells-write r.buffer r.head none)
              (get_elem?-set_self cs r.head none (omega (arith, v.head_in, v.storage))))

      within : leb (appended r1 y).count (r.capacity - 1) ≡ false
      within = ground (arith, count-full, v.capacity_pos)

      index : add_size (appended r1 y).head (r.capacity - 1) % r.capacity ≡ r.head
      index =
          add_size-slot r.capacity r1.head (r.capacity - 1) v.capacity_small
            (removed-Holds r v).head_in (omega arith)
          ∙ ap (λ h. slot r.capacity h (r.capacity - 1)) (next_head v.valid)
          ∙ slot-last r.capacity r.head v.head_in

      last-raw : at (appended r1 y) (r.capacity - 1) ≡ fault
      last-raw = unfold at in rw (within, index) (read-raw (appended r1 y).buffer r.head raw)

module _ {ℓ} {A : Type ℓ} (r : Ring A) where
  -- A full buffer of two elements or more, its tail in step, is pushed to, popped from and pushed to
  -- again: the calls succeed, the buffer then counts as full, and its last index reads memory that
  -- holds no object.
  pub push-pop-push-at_fault :
      {x x' : A} {xs : List A}
      → Represents r (x ∷ x' ∷ xs)
      → r.full ≡ true
      → IsInStep r
      → (a b : A)
      → (r0 r1 r2 : Ring A) × (push_back r a ≡ ok r0)
        × (pop_front r0 ≡ ok (x', r1))
        × (push_back r1 b ≡ ok r2)
        × (r2.count ≡ r2.capacity)
        × (at r2 (r2.capacity - 1) ≡ fault)
  unfolding overwrite_advance_head
  push-pop-push-at_fault {x} {x'} {xs} v f s a b =
      let c : ℕ = r.capacity in
      let whole : r.count ≡ c = omega (arith, v.counted, Holds-full v.holds f) in
      let at_head : r.tail ≡ r.head =
        s ∙ ap (slot c r.head) whole ∙ slot-round c r.head v.head_in in
      let moved : r.tail ≢ (overwritten r a).head = λ e. absurd (
        omega (
          arith,
          at_head,
          e,
          next_head v.valid,
          slot_cases c r.head 1 v.head_in,
          v.counted,
          v.count_in,
        )) in
      let (r1, r2, p, q, counts, bad) =
        pop-push-at_stale (overwritten r a) (overwritten-Represents r a v.holds f).holds f moved
          b in
      (overwritten r a, r1, r2, push_back_full r a v.holds f, p, q, counts, bad)
