-- ===== src/Objects/Assign.antt =====
-- Copy assignment and move assignment between two buffers.
use ring_buffer.Base.{
  ℕ, ◌<◌, ◌≤◌, ◌≡◌, ◌∙◌, refl, ap, if◌then◌else◌, true, false, List, some, length, arith,
}
use ring_buffer.Result.{ok}
use ring_buffer.Memory.{Storage, cells, read}
use ring_buffer.Ring.{Ring}
use ring_buffer.Ring.Holds.{Represents-IsInStep, Holds, Represents, IsInStep}
use ring_buffer.Objects.{Traits, IsAllocator, copy_assign}
use ring_buffer.Objects.Copy.{IsFlush, copy, copy-Holds, copy_cells-same}
use ring_buffer.Objects.Lifetime.{IsRaw, clear-deallocated}
use ring_buffer.Objects.{move_assign, reset}
use ring_buffer.Ring.{back}
use ring_buffer.Ring.Access.{back-read}
use ring_buffer.Ring.Valid.{flag-clear}

module _ {ℓ} {A : Type ℓ} (t : Traits A) (self other : Ring A) {xs ys : List A}
    {s : Storage A} where
  -- A buffer that holds a list is assigned another one, which also holds a list: if the allocator
  -- gives memory, the other's elements start at cell 0 or fill it, and its tail is in step, then the
  -- assignment succeeds, and the buffer represents the other's list, its tail in step. The old
  -- storage is deallocated with no object left in it.
  pub copy_assign-Represents :
      IsAllocator t
      → Holds self ys
      → Holds other xs
      → t.allocate (if t.propagate_on_copy then other.allocator else self.allocator) other.capacity
        ≡ ok s
      → IsFlush other
      → IsInStep other
      → (self' : Ring A) × (old : Storage A) × (copy_assign t self other false
          ≡ ok (self', some (old, self.capacity)))
        × Represents self' xs
        × IsInStep self'
        × IsRaw old self.capacity
  unfolding copy_assign
  copy_assign-Represents alloc w v given f st =
      let a : ℕ = if t.propagate_on_copy then other.allocator else self.allocator in
      let (r, e, d, raw, _) = clear-deallocated self w in
      let enough : other.capacity ≤ length (cells s) = alloc.enough a other.capacity s given in
      let (buf, e', sized, same) =
        copy_cells-same other v s f enough (alloc.raw a other.capacity s given) in
      let self' : Ring A = copy other a buf r.overwrite_position in
      let h : Holds self' xs = copy-Holds other v s a buf r.overwrite_position (omega arith) same in
      (
        self',
        r.buffer,
        rw (e, given, e') (ap (λ z. ok (self', z)) d),
        Represents-IsInStep self' h st refl,
        st,
        raw,
      )

module _ {ℓ} {A : Type ℓ} (self other : Ring A) where
  -- What a buffer becomes that the contents of another are moved into: the flags stay its own.
  abbrev taken : Ring A
  taken = record other {
    just_overwrote = self.just_overwrote;
    overwrite_position = self.overwrite_position;
  }

  move_assign-taken :
      {ys : List A}
      → Holds self ys
      → (old : Storage A) × (move_assign self other false
          ≡ ok (taken, reset other, some (old, self.capacity)))
        × IsRaw old self.capacity
  unfolding move_assign
  move_assign-taken w =
      let (r, e, d, raw, _) = clear-deallocated self w in
      let (flag, position) = flag-clear self e in (r.buffer, rw (e, d, flag, position), raw)

  -- A buffer that holds a list, and whose last write overwrote nothing, is assigned by a move from
  -- another one that holds a list, its tail in step: the buffer then represents that list, its tail
  -- in step. The old storage is deallocated with no object left in it.
  pub move_assign-Represents :
      {xs ys : List A}
      → Holds self ys
      → self.just_overwrote ≡ false
      → Holds other xs
      → IsInStep other
      → (self' : Ring A) × (old : Storage A) × (move_assign self other false
          ≡ ok (self', reset other, some (old, self.capacity)))
        × Represents self' xs
        × IsInStep self'
        × IsRaw old self.capacity
  move_assign-Represents {xs} w unset v st =
      let (old, e, raw) = move_assign-taken w in
      let h : Holds taken xs = record {
        valid = ground arith;
        counted = v.counted;
        layout = v.layout;
      } in
      (taken, old, e, Represents-IsInStep taken h st unset, st, raw)

  -- If the last write to a buffer that holds a list overwrote an element, then after move assignment
  -- from a buffer that has elements `back` reads the cell of that write, in the storage that came
  -- from the other buffer.
  pub move_assign-back_stale :
      {ys : List A}
      → Holds self ys
      → self.just_overwrote ≡ true
      → 0 < other.count
      → (self' : Ring A) × (old : Storage A) × (move_assign self other false
          ≡ ok (self', reset other, some (old, self.capacity)))
        × (back self' ≡ read other.buffer self.overwrite_position)
  move_assign-back_stale w flag some_left =
      let (old, e, raw) = move_assign-taken w in
      (taken, old, e, back-read taken (ground arith) ∙ simp flag)
