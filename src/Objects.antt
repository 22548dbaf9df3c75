-- ===== src/Objects.antt =====
-- include/ring_buffer.h: how `ring_buffer` objects begin, are copied, moved, assigned and destroyed.
-- An operation on two objects takes and returns both; `same` tells whether they are one object, as
-- `this != &other` asks. The modules below prove what these operations do.
pub mod Cells
pub mod Copy
pub mod Assign
pub mod Move
pub mod Lifetime
pub mod Tests
use ring_buffer.Base.{
  ℕ, zero, suc, ◌+◌, Bool, true, false, Option, none, some, if◌then◌else◌, ◌==◌, ◌≡◌, ◌≤◌, ◌<◌, ◌≢◌,
  max_size, length, get_elem?,
}
use ring_buffer.Result.{Result, ok, throw, fault, ◌>>=◌, zero_capacity}
use ring_buffer.Memory.{Storage, nullptr, cells, read, construct}
use ring_buffer.Ring.{Ring, clear}

-- What the class asks of `Allocator` and `std::allocator_traits`, code that stands elsewhere. A
-- number names an allocator object.
pub record Traits {ℓ} (A : Type ℓ) : Type ℓ where
  pub allocate : ℕ → ℕ → Result (Storage A)
  pub select_on_copy : ℕ → ℕ
  pub propagate_on_copy : Bool

-- What an allocator documents: it returns raw memory for at least the number of objects that was
-- asked for, a number that `std::ptrdiff_t` can count, or it throws.
pub record IsAllocator {ℓ} {A : Type ℓ} (t : Traits A) : Type ℓ where
  pub total : (a n : ℕ) → t.allocate a n ≢ fault
  pub enough : (a n : ℕ) (s : Storage A) → t.allocate a n ≡ ok s → n ≤ length (cells s)
  pub raw :
      (a n : ℕ) (s : Storage A)
      → t.allocate a n ≡ ok s
      → (i : ℕ) → i < n
      → get_elem? (cells s) i ≡ some none
  pub countable : (a n : ℕ) (s : Storage A) → t.allocate a n ≡ ok s → n ≤ max_size

-- The arguments of a call of `deallocate`, if there is one.
abbrev pub Freed {ℓ} : Type ℓ → Type ℓ
Freed A = Option (Storage A × ℕ)

module _ {ℓ} {A : Type ℓ} where
  -- The loop of a copy, with `rounds` of its rounds left.
  unfoldable pub copy_cells : ℕ → ℕ → Storage A → Storage A → Result (Storage A)
  copy_cells zero i buf from = ok buf
  copy_cells (suc rounds) i buf from = do
    a ← read from i
    buf' ← construct buf i a
    copy_cells rounds (i + 1) buf' from

  -- `if (buffer_) allocator_.deallocate(buffer_, capacity_)`
  abbrev pub deallocated : Ring A → Freed A
  deallocated r = elim r.buffer [ nullptr ↦ none | _ ↦ some (r.buffer, r.capacity) ]

  -- The destructor, by what it hands to the allocator.
  unfoldable pub destruct : Ring A → Result (Freed A)
  destruct r = do r' ← clear r; ok (deallocated r')

  -- A moved-from buffer. The flags that the code leaves alone stay.
  unfoldable pub reset : Ring A → Ring A
  reset r = record r { buffer = nullptr; capacity = 0; head = 0; tail = 0; count = 0; full = false }

  -- The new buffer, and the one that was moved from.
  unfoldable pub move_construct : Ring A → Ring A × Ring A
  unfolding reset
  move_construct other =
      (record other { just_overwrote = false; overwrite_position = 0 }, reset other)

  -- The buffer that is assigned to, the other, and what was deallocated.
  unfoldable pub move_assign : Ring A → Ring A → Bool → Result (Ring A × Ring A × Freed A)
  unfolding reset
  move_assign self other same = if same then ok (self, other, none) else moved
    where
      moved : Result (Ring A × Ring A × Freed A)
      moved = do
        r ← clear self
        ok (
          record r {
            capacity = other.capacity;
            buffer = other.buffer;
            head = other.head;
            tail = other.tail;
            count = other.count;
            full = other.full;
            allocator = other.allocator;
          },
          reset other,
          deallocated r,
        )

module _ {ℓ} {A : Type ℓ} (t : Traits A) where
  -- The members as the constructor initialises them, before its body. Where the body throws, no
  -- destructor runs for them.
  unfoldable pub members : ℕ → ℕ → Result (Ring A)
  members capacity allocator = do
    buf ← t.allocate allocator capacity
    ok (record {
      capacity = capacity;
      allocator = allocator;
      buffer = buf;
      head = 0;
      tail = 0;
      count = 0;
      full = false;
      just_overwrote = false;
      overwrite_position = 0;
    })

  unfoldable pub create : ℕ → ℕ → Result (Ring A)
  unfolding members
  create capacity allocator = do
    r ← members capacity allocator
    if r.capacity == 0 then throw zero_capacity else ok r

  unfoldable pub copy_construct : Ring A → Result (Ring A)
  copy_construct other = do
    let allocator = t.select_on_copy other.allocator
    buf ← t.allocate allocator other.capacity
    buf' ← copy_cells other.count 0 buf other.buffer
    ok (record other {
      allocator = allocator;
      buffer = buf';
      just_overwrote = false;
      overwrite_position = 0;
    })

  -- Copy assignment before its allocation: the buffer as it is left if that throws, and what was
  -- deallocated.
  unfoldable pub release : Ring A → Ring A → Result (Ring A × Freed A)
  release self other = do
    r ← clear self
    let allocator = if t.propagate_on_copy then other.allocator else self.allocator
    ok (record r { allocator = allocator; capacity = other.capacity }, deallocated r)

  -- The buffer that is assigned to, and what was deallocated.
  unfoldable pub copy_assign : Ring A → Ring A → Bool → Result (Ring A × Freed A)
  unfolding release
  copy_assign self other same = if same then ok (self, none) else copied
    where
      copied : Result (Ring A × Freed A)
      copied = do
        (r, freed) ← release self other
        buf ← t.allocate r.allocator r.capacity
        buf' ← copy_cells other.count 0 buf other.buffer
        ok (
          record r {
            buffer = buf';
            head = other.head;
            tail = other.tail;
            count = other.count;
            full = other.full;
            just_overwrote = false;
          },
          freed,
        )
