-- ===== src/Objects/Copy.antt =====
-- The copy constructor and copy assignment. Their loop copies the cells `0` to `count_ - 1`, not the
-- cells that hold elements: that is the same if the head is at cell 0 or the buffer is full.
use ring_buffer.Base.{
  ℕ, ◌+◌, ◌-◌, ◌<◌, ◌≤◌, ◌≡◌, ◌⊎◌, ◌↔◌, ◌∙◌, refl, sym, ap, subst, true, false, inl, inr, List,
  some, none, length, get_elem?, slot, slot_cases, slot-lt, get_elem?-of_lt, get_elem?-of_ge,
  dec_lt, arith,
}
use ring_buffer.Result.{ok, fault}
use ring_buffer.Memory.{Storage, cells}
use ring_buffer.Ring.{Ring}
use ring_buffer.Ring.Layout.{slot_onto}
use ring_buffer.Ring.Holds.{
  Holds-full, Holds-room, Represents-IsInStep, Holds, Represents, IsInStep,
}
use ring_buffer.Objects.{Traits, IsAllocator, copy_cells, copy_construct}
use ring_buffer.Objects.Cells.{AllLive, copy_cells-Copied, copy_cells-fault}

-- The cells `0` to `count_ - 1` are those that hold the elements.
abbrev pub IsFlush {ℓ} : {A : Type ℓ} → Ring A → Type 0
IsFlush r = (r.head ≡ 0) ⊎ (r.full ≡ true)

module _ {ℓ} {A : Type ℓ} (r : Ring A) {xs : List A} (v : Holds r xs) where
  -- Each cell of the ring is the place of some element, or of none.
  cell_place :
      (j : ℕ)
      → j < r.capacity
      → (k : ℕ) × (k < r.capacity)
        × (slot r.capacity r.head k ≡ j)
        × (get_elem? (cells r.buffer) j ≡ some (get_elem? xs k))
  cell_place j h =
      let (k, hk, e) = slot_onto r.capacity r.head j v.head_in h in
      (k, hk, e, rw e at (v.layout k hk))

  -- In a flush buffer the place of an element is below `count_` as its cell is.
  place_below :
      IsFlush r
      → (j k : ℕ) → k < r.capacity
      → slot r.capacity r.head k ≡ j
      → (j < r.count) ↔ (k < r.count)
  place_below (inl start) j k hk e =
      let same : k ≡ j =
        omega (arith, start, e, slot_cases r.capacity r.head k v.head_in (omega arith)) in
      (λ p. omega arith, λ p. omega arith)
  place_below (inr full) j k hk e =
      let whole : r.count ≡ r.capacity = omega (arith, v.counted, Holds-full v full) in
      (λ p. omega arith, λ p. omega (arith, slot-lt r.capacity r.head k v.capacity_pos))

  flush-live : IsFlush r → AllLive r.buffer r.count
  flush-live f j h =
      let (k, hk, e, cell) = cell_place j (omega (arith, v.count_in)) in
      let inside : k < r.count = (place_below f j k hk e).0 h in
      let (a, e') = get_elem?-of_lt xs k (omega (arith, v.counted)) in (a, cell ∙ ap some e')

  flush-raw :
      IsFlush r → (j : ℕ) → r.count ≤ j → j < r.capacity → get_elem? (cells r.buffer) j ≡ some none
  flush-raw f j h hj =
      let (k, hk, e, cell) = cell_place j hj in
      let below : (j < r.count) ↔ (k < r.count) = place_below f j k hk e in
      cell
      ∙ ap some (
          get_elem?-of_ge xs k (elim (dec_lt k r.count) [
            | yes p ↦ absurd (omega (arith, below.1 p))
            | no p ↦ omega (arith, v.counted)
          ]))

  -- A cell past the last element is raw.
  raw_slot :
      (k : ℕ)
      → r.count ≤ k
      → k < r.capacity
      → get_elem? (cells r.buffer) (slot r.capacity r.head k) ≡ some none
  raw_slot k h hk = v.layout k hk ∙ ap some (get_elem?-of_ge xs k (omega (arith, v.counted)))

  -- Otherwise a cell below `count_` is raw.
  hole_below :
      r.full ≡ false
      → 0 < r.count
      → 0 < r.head
      → (j : ℕ) × (j < r.count) × (get_elem? (cells r.buffer) j ≡ some none)
  hole_below f some_left moved = elim (dec_lt r.capacity (r.head + r.count)) [
    | yes wraps ↦
        (slot r.capacity r.head r.count, omega (arith, round), raw_slot r.count (omega arith) room)
    | no within ↦
        let k : ℕ = r.capacity - r.head in
        let start : slot r.capacity r.head k ≡ 0 =
          omega (arith, slot_cases r.capacity r.head k v.head_in (omega arith)) in
        (0, some_left, rw start at (raw_slot k (omega arith) (omega (arith, v.head_in))))
  ]
    where
      room : r.count < r.capacity
      room = omega (arith, v.counted, Holds-room v f)

      round :
          ((r.head + r.count < r.capacity) × (slot r.capacity r.head r.count ≡ r.head + r.count))
          ⊎ ((r.capacity ≤ r.head + r.count)
              × (slot r.capacity r.head r.count ≡ r.head + r.count - r.capacity))
      round = slot_cases r.capacity r.head r.count v.head_in v.count_in

-- A copy of `r` in other storage, with its flag reset.
abbrev pub copy {ℓ} : {A : Type ℓ} → Ring A → ℕ → Storage A → ℕ → Ring A
copy r allocator buf position = record r {
  allocator = allocator;
  buffer = buf;
  just_overwrote = false;
  overwrite_position = position;
}

module _ {ℓ} {A : Type ℓ} (r : Ring A) {xs : List A} (v : Holds r xs) (s : Storage A) where
  -- A copy of a flush buffer into raw memory agrees with it in every cell of the ring.
  pub copy_cells-same :
      IsFlush r
      → r.capacity ≤ length (cells s)
      → ((i : ℕ) → i < r.capacity → get_elem? (cells s) i ≡ some none)
      → (buf : Storage A) × (copy_cells r.count 0 s r.buffer ≡ ok buf)
        × (length (cells buf) ≡ length (cells s))
        × ((j : ℕ) → j < r.capacity → get_elem? (cells buf) j ≡ get_elem? (cells r.buffer) j)
  copy_cells-same f enough raw =
      let whole : r.count ≡ 0 + r.count = omega arith in
      let (buf, e, k) =
        copy_cells-Copied r.buffer r.count 0 s (subst (AllLive r.buffer) whole (flush-live r v f))
          (omega (arith, v.count_in)) in
      (
        buf,
        e,
        k.sized,
        λ j h. elim (dec_lt j r.count) [
          | yes p ↦ k.copies j (omega arith) (omega arith)
          | no p ↦ k.behind j (omega arith) ∙ raw j h ∙ sym (flush-raw r v f j (omega arith) h)
        ],
      )

  pub copy-Holds :
      (allocator : ℕ) (buf : Storage A) (position : ℕ)
      → r.capacity ≤ length (cells buf)
      → ((j : ℕ) → j < r.capacity → get_elem? (cells buf) j ≡ get_elem? (cells r.buffer) j)
      → Holds (copy r allocator buf position) xs
  copy-Holds allocator buf position enough same = record {
    valid = ground arith;
    counted = v.counted;
    layout = λ i hi.
        same (slot r.capacity r.head i) (slot-lt r.capacity r.head i v.capacity_pos)
        ∙ v.layout i hi;
  }

module _ {ℓ} {A : Type ℓ} (t : Traits A) (r : Ring A) {xs : List A} {s : Storage A} where
  -- If its elements start at cell 0 or it is full, the copy constructor makes a buffer that holds
  -- the same elements.
  pub copy_construct-Holds :
      IsAllocator t
      → Holds r xs
      → t.allocate (t.select_on_copy r.allocator) r.capacity ≡ ok s
      → IsFlush r
      → (r' : Ring A) × (copy_construct t r ≡ ok r')
        × Holds r' xs
        × (r'.tail ≡ r.tail)
        × (r'.just_overwrote ≡ false)
  unfolding copy_construct
  copy_construct-Holds alloc v given f =
      let a : ℕ = t.select_on_copy r.allocator in
      let enough : r.capacity ≤ length (cells s) = alloc.enough a r.capacity s given in
      let (buf, e, sized, same) = copy_cells-same r v s f enough (alloc.raw a r.capacity s given) in
      (copy r a buf 0, rw (given, e), copy-Holds r v s a buf 0 (omega arith) same, refl, refl)

  -- If the allocator gives memory and the buffer has an element, is not full, and its head is not
  -- cell 0, then the copy constructor reads memory that holds no object.
  pub copy_construct-fault :
      Holds r xs
      → t.allocate (t.select_on_copy r.allocator) r.capacity ≡ ok s
      → r.full ≡ false
      → 0 < r.count
      → 0 < r.head
      → copy_construct t r ≡ fault
  unfolding copy_construct
  copy_construct-fault v given f some_left moved =
      let (j, h, raw) = hole_below r v f some_left moved in
      rw (given, copy_cells-fault r.buffer r.count 0 s j (omega arith) (omega arith) raw)

  -- If the allocator gives memory, the buffer holds a list whose elements start at cell 0 or that
  -- fills it, and its tail is in step, then the copy constructor succeeds, and the copy represents
  -- that list, its tail in step.
  pub copy_construct-Represents :
      IsAllocator t
      → Holds r xs
      → t.allocate (t.select_on_copy r.allocator) r.capacity ≡ ok s
      → IsFlush r
      → IsInStep r
      → (r' : Ring A) × (copy_construct t r ≡ ok r') × Represents r' xs × IsInStep r'
  unfolding copy_construct
  copy_construct-Represents alloc v given f st =
      let a : ℕ = t.select_on_copy r.allocator in
      let enough : r.capacity ≤ length (cells s) = alloc.enough a r.capacity s given in
      let (buf, e, sized, same) = copy_cells-same r v s f enough (alloc.raw a r.capacity s given) in
      let h : Holds (copy r a buf 0) xs = copy-Holds r v s a buf 0 (omega arith) same in
      (copy r a buf 0, rw (given, e), Represents-IsInStep (copy r a buf 0) h st refl, st)
