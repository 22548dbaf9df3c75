-- ===== src/Objects/Tests.antt =====
-- An allocator, and the theorems about whole objects at small buffers.
use ring_buffer.Base.{
  ℕ, ◌≡◌, ◌≤◌, ◌<◌, refl, inl, true, false, [], ◌∷◌, none, some, Option, arith, get_elem?, length,
  replicate, length-replicate, get_elem?-replicate, leb, if◌then◌else◌, max_size, subst, ◌+◌,
}
use ring_buffer.Result.{ok, throw, fault, bad_alloc, back_of_empty}
use ring_buffer.Memory.{Storage, block, cells, read}
use ring_buffer.Window
use ring_buffer.Ring.{Ring, back}
use ring_buffer.Ring.Access.{or_throw}
use ring_buffer.Ring.Holds.{Represents, IsInStep}
use ring_buffer.Ring.Tests.{
  filled, overwritten, popped, filled-Holds, overwritten-Holds, popped-Holds,
}
use ring_buffer.Objects.{
  Traits, IsAllocator, copy_construct, copy_assign, move_construct, move_assign, reset,
}
use ring_buffer.Objects.Lifetime.{IsRaw}
use ring_buffer.Objects.Copy.{copy_construct-Represents, copy_construct-fault}
use ring_buffer.Objects.Assign.{
  copy_assign-Represents, move_assign-Represents, move_assign-back_stale,
}
use ring_buffer.Objects.Move.{move_construct-back_stale}

-- An allocator with as much raw memory as can be counted.
abbrev heap : Traits ℕ
heap = record {
  allocate = λ a n. if leb n max_size then ok (block (replicate n none)) else throw bad_alloc;
  select_on_copy = λ a. a;
  propagate_on_copy = true;
}

-- An allocator that has no memory left.
abbrev exhausted : Traits ℕ
exhausted = record heap { allocate = λ a n. throw bad_alloc }

abbrev larger : Ring ℕ
larger = record filled { capacity = 5; buffer = block (replicate 5 none); count = 0; full = false }

heap-cases :
    (a n : ℕ) (s : Storage ℕ)
    → heap.allocate a n ≡ ok s
    → (n ≤ max_size) × (block (replicate n none) ≡ s)
heap-cases a n s e = ground arith

heap-IsAllocator : IsAllocator heap
heap-IsAllocator = record {
  total = λ a n e. ground arith;
  enough = λ a n s e.
      subst (λ s. n ≤ length (cells s)) (heap-cases a n s e).1
        (omega (arith, length-replicate {A = Option ℕ} n none));
  raw = λ a n s e i h.
      subst (λ s. get_elem? (cells s) i ≡ some none) (heap-cases a n s e).1
        (get_elem?-replicate n none i h);
  countable = λ a n s e. (heap-cases a n s e).0;
}

copy_construct-Represents_example :
    (r' : Ring ℕ) × (copy_construct heap filled ≡ ok r')
    × Represents r' (1 ∷ 2 ∷ 3 ∷ [])
    × IsInStep r'
copy_construct-Represents_example =
    copy_construct-Represents heap filled heap-IsAllocator filled-Holds refl (inl refl) refl

copy_construct-fault_example : copy_construct heap popped ≡ fault
copy_construct-fault_example =
    copy_construct-fault heap popped popped-Holds refl refl (omega arith) (omega arith)

copy_assign-Represents_example :
    (self' : Ring ℕ) × (old : Storage ℕ) × (copy_assign heap popped filled false
      ≡ ok (self', some (old, 3)))
    × Represents self' (1 ∷ 2 ∷ 3 ∷ [])
    × IsInStep self'
    × IsRaw old 3
copy_assign-Represents_example =
    copy_assign-Represents heap popped filled heap-IsAllocator popped-Holds filled-Holds refl
      (inl refl) refl

move_construct-back_stale_example :
    (k : ℕ) × (k + 1 < 3)
    × (back (move_construct overwritten).0 ≡ or_throw (get_elem? (2 ∷ 3 ∷ 4 ∷ []) k) back_of_empty)
move_construct-back_stale_example =
    move_construct-back_stale overwritten (2 ∷ 3 ∷ 4 ∷ []) overwritten-Holds refl
      (λ e. absurd (omega arith))

move_assign-Represents_example :
    (self' : Ring ℕ) × (old : Storage ℕ) × (move_assign filled popped false
      ≡ ok (self', reset popped, some (old, 3)))
    × Represents self' (2 ∷ 3 ∷ [])
    × IsInStep self'
    × IsRaw old 3
move_assign-Represents_example =
    move_assign-Represents filled popped filled-Holds refl popped-Holds refl

move_assign-back_stale_example :
    (self' : Ring ℕ) × (old : Storage ℕ) × (move_assign overwritten filled false
      ≡ ok (self', reset filled, some (old, 3)))
    × (back self' ≡ read filled.buffer 0)
move_assign-back_stale_example =
    move_assign-back_stale overwritten filled overwritten-Holds refl (omega arith)
