-- ===== src/Ring/Push.antt =====
-- `push_back` and `emplace_back` on a buffer that represents a list.
use ring_buffer.Base.{
  ◌+◌, ◌-◌, ◌%◌, ◌≡◌, sym, ap, subst, ◌∙◌, true, false, inl, inr, List, [], ◌∷◌, ◌++◌, some, Option,
  get_elem?, slot, slot-last, slot-slot, add_size-slot, add_size, Bool-cases, length-append, ◌==◌,
  arith,
}
use ring_buffer.Result.{ok, bind_assoc}
use ring_buffer.Memory.{
  cells, write, cells-write, length-cells-write, construct, destroy, assign-ok, construct-ok,
  destroy-construct,
}
use ring_buffer.Window
use ring_buffer.Ring.{vacate, Ring, push_back, emplace_back, overwrite_advance_head, increment_tail}
use ring_buffer.Ring.Valid.{IsValid, write-IsValid, overwrite_advance_head-IsValid}
use ring_buffer.Ring.Layout.{Layout-append, Layout-replace}
use ring_buffer.Ring.Holds.{
  Holds, Represents, IsInStep, Holds-head, Holds-full, Holds-room, next_head,
  decrement_index-IsInStep,
}

module _ {ℓ} {A : Type ℓ} (r : Ring A) (item : A) where
  abbrev pub overwritten : Ring A
  overwritten = overwrite_advance_head (record r { buffer = write r.buffer r.head (some item) })

  abbrev pub appended : Ring A
  appended = record r {
    buffer = write r.buffer r.tail (some item);
    tail = add_size r.tail 1 % r.capacity;
    count = add_size r.count 1;
    full = add_size r.count 1 == r.capacity;
    just_overwrote = false;
  }

  pub push_back_full :
      {x : A} {xs : List A} → Holds r (x ∷ xs) → r.full ≡ true → push_back r item ≡ ok overwritten
  unfolding push_back
  push_back_full v f = rw (f, assign-ok r.buffer r.head item (Holds-head v))

  pub overwritten-Represents :
      {x : A} {xs : List A}
      → Holds r (x ∷ xs)
      → r.full ≡ true
      → Represents overwritten (xs ++ item ∷ [])
  unfolding overwrite_advance_head
  overwritten-Represents {x} {xs} v f =
      let last : r.count - 1 ≡ r.capacity - 1 = omega (arith, v.counted, Holds-full v f) in
      record {
        holds = record {
          valid = overwrite_advance_head-IsValid (write-IsValid r.head (some item) v.valid);
          counted = omega (arith, length-append xs (item ∷ []), v.counted);
          layout =
              rw (next_head v.valid, cells-write r.buffer r.head (some item))
                (Layout-replace (cells r.buffer) r.capacity r.head v.storage v.head_in x xs item
                  (Holds-full v f) v.layout);
        };
        write_at = λ e. cc;
        back_at = λ p. rw (next_head v.valid, last) (sym (slot-last r.capacity r.head v.head_in));
      }

  -- Any allocated cell at the tail will do.
  pub push_back-appended :
      {o : Option A}
      → r.full ≡ false
      → get_elem? (cells r.buffer) r.tail ≡ some o
      → push_back r item ≡ ok appended
  unfolding push_back increment_tail
  push_back-appended f there = rw (f, construct-ok r.buffer r.tail item there)

  push_back_room : {xs : List A} → Represents r xs → r.full ≡ false → push_back r item ≡ ok appended
  push_back_room {xs} v f =
      push_back-appended {o = get_elem? xs r.count} f
        (rw (v.write_at f) (v.layout r.count (omega (arith, v.counted, Holds-room v.holds f))))

  appended-IsInStep : {xs : List A} → Represents r xs → r.full ≡ false → IsInStep appended
  appended-IsInStep v f =
      let count_up : r.count + 1 ≡ add_size r.count 1 = omega arith in
      add_size-slot r.capacity r.tail 1 v.capacity_small v.tail_in (omega arith)
      ∙ ap (λ t. slot r.capacity t 1) (v.write_at f)
      ∙ slot-slot r.capacity r.head r.count 1
      ∙ ap (slot r.capacity r.head) count_up

  appended-Represents :
      {xs : List A} → Represents r xs → r.full ≡ false → Represents appended (xs ++ item ∷ [])
  appended-Represents {xs} v f = record {
    holds = record {
      valid = valid;
      counted = omega (arith, length-append xs (item ∷ []), v.counted);
      layout =
          rw (cells-write r.buffer r.tail (some item), v.write_at f, v.counted)
            (Layout-append (cells r.buffer) r.capacity r.head v.storage v.head_in xs item
              (Holds-room v.holds f) v.layout);
    };
    write_at = λ _. appended-IsInStep v f;
    back_at = λ p. decrement_index-IsInStep appended valid (appended-IsInStep v f) p;
  }
    where
      valid : IsValid appended
      valid = ground (arith, length-cells-write r.buffer r.tail (some item))

  push_back-Represents_full :
      (xs : List A)
      → Holds r xs
      → r.full ≡ true
      → (r' : Ring A) × (push_back r item ≡ ok r') × Represents r' (Window.push r.capacity xs item)
  push_back-Represents_full [] v f = absurd (omega (arith, Holds-full v f, v.capacity_pos))
  push_back-Represents_full (x ∷ xs) v f = (
    overwritten,
    push_back_full v f,
    rw (Window.push-full r.capacity x xs item (Holds-full v f)) (overwritten-Represents v f),
  )

  -- On a buffer that represents a list, `push_back` succeeds, and the buffer then represents that
  -- list with the new element at its end, less its first element if the list was as long as the
  -- capacity.
  pub push_back-Represents :
      {xs : List A}
      → Represents r xs
      → (r' : Ring A) × (push_back r item ≡ ok r') × Represents r' (Window.push r.capacity xs item)
  push_back-Represents {xs} v = elim (Bool-cases r.full) [
    | inl f ↦ push_back-Represents_full xs v.holds f
    | inr f ↦ (
      appended,
      push_back_room v f,
      rw (Window.push-room r.capacity xs item (Holds-room v.holds f)) (appended-Represents v f),
    )
  ]

  -- While there is room, `push_back` also keeps the tail in step.
  pub push_back-IsInStep :
      {xs : List A} {r' : Ring A}
      → Represents r xs
      → r.full ≡ false
      → push_back r item ≡ ok r'
      → IsInStep r'
  push_back-IsInStep {xs} {r'} v f h =
      let e : appended ≡ r' = ground (arith, push_back_room v f) in
      subst IsInStep e (appended-IsInStep v f)

  -- On any buffer, if the constructor of the element returns it, `emplace_back`, which destroys and
  -- constructs where `push_back` assigns, has the result that `push_back` has.
  pub emplace_back-eq-push_back : emplace_back r (ok item) ≡ push_back r item
  unfolding emplace_back vacate push_back
  emplace_back-eq-push_back = rw (
    ← destroy-construct r.buffer r.head item,
    bind_assoc (destroy r.buffer r.head) (λ t. construct t r.head item),
    bind_assoc (destroy r.buffer r.head) (λ t. ok (record r { buffer = t })),
  )
