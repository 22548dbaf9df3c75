-- ===== src/StaticAllocator.antt =====
-- examples/embedded_static_allocator_example.cc: an allocator of storage that stands elsewhere, and the
-- program that collects samples in a buffer over it and then processes them. What is printed is
-- returned or left out.
pub mod Samples
pub mod Tests
use ring_buffer.Base.{
  ℕ, zero, suc, ◌+◌, ◌-◌, ◌*◌, ◌%◌, ◌^◌, ◌≡◌, ◌≢◌, ◌≤◌, ◌<◌, refl, Bool, true, false, ◌||◌, inl,
  inr, Bool-cases, List, [], ◌∷◌, Option, some, none, ltb, lt→ltb, if◌then◌else◌, max_size, length,
  get_elem?, arith,
}
use ring_buffer.Result.{Result, ok, throw, fault, bad_alloc, ◌>>=◌, followed}
use ring_buffer.Memory.{Storage, nullptr, block, cells}
use ring_buffer.Ring
use ring_buffer.Ring.{Ring}
use ring_buffer.Objects.{Traits, IsAllocator, Freed, create, destruct}

-- The storage is what `storage_` points to, raw memory before the program starts.
pub record StaticAllocator {ℓ} (A : Type ℓ) : Type ℓ where
  pub storage : Storage A
  pub capacity : ℕ

module _ {ℓ} {A : Type ℓ} where
  abbrev pub is_null : Storage A → Bool
  is_null nullptr = true
  is_null (block cs) = false

  unfoldable pub allocate : StaticAllocator A → ℕ → Result (Storage A)
  allocate t n = if is_null t.storage || ltb t.capacity n then throw bad_alloc else ok t.storage

  -- A copy of the allocator is the same allocator, and assignment does not replace it.
  abbrev pub traits : StaticAllocator A → Traits A
  traits t = record {
    allocate = λ a n. allocate t n;
    select_on_copy = λ a. a;
    propagate_on_copy = false;
  }

  -- The loop over `tick`, with the samples that it makes.
  unfoldable pub collect : List A → Ring A → Result (Ring A)
  collect [] r = ok r
  collect (x ∷ xs) r = do r' ← Ring.emplace_back r (ok x); collect xs r'

  -- One round of the loop that processes samples: the sample, and the buffer after `pop_front`.
  unfoldable pub process : Ring A → Result (A × Ring A)
  process r = do sample ← Ring.front r; popped ← Ring.pop_front r; ok (sample, popped.1)

  abbrev pub after : A → Option (Result (List A × Ring A)) → Option (Result (List A × Ring A))
  after a none = none
  after a (some m) = some (m >>= λ p. ok (a ∷ p.0, p.1))

  -- A round that throws ends the loop.
  abbrev pub continue :
      Result (A × Ring A)
      → (Ring A → Option (Result (List A × Ring A)))
      → Option (Result (List A × Ring A))
  continue fault rest = some fault
  continue (throw e) rest = some (throw e)
  continue (ok (a, r)) rest = after a (rest r)

  abbrev pub until_empty :
      Bool → Ring A → Option (Result (List A × Ring A)) → Option (Result (List A × Ring A))
  until_empty true r rounds = some (ok ([], r))
  until_empty false r rounds = rounds

  -- `while (!sample_buffer.empty())`, by the samples that it processes; `none` when the fuel runs out.
  unfoldable pub drain : ℕ → Ring A → Option (Result (List A × Ring A))
  drain zero r = none
  drain (suc fuel) r = until_empty (Ring.empty r) r (continue (process r) (drain fuel))

  -- The program with the capacity of its buffer, the samples that it collects, and fuel for the loop
  -- that processes them: what it processes, and what the destructor of the buffer deallocates at the
  -- end. The static allocator does nothing with that.
  unfoldable pub program : ℕ → StaticAllocator A → ℕ → List A → Option (Result (List A × Freed A))
  program fuel allocator capacity samples =
      followed (some (create (traits allocator) capacity 0 >>= λ r. collect samples r))
        (λ r. followed (drain fuel r) (λ p. some (destruct (p.1) >>= λ freed. ok (p.0, freed))))

-- The numbers are those of the bits: `adc_value` is a number of 16 bits with a sign.
pub record SensorSample : Type 0 where
  pub timestamp_us : ℕ
  pub adc_value : ℕ

-- `1'023 - tick` is computed in 32 bits without a sign.
abbrev pub sample_at : ℕ → SensorSample
sample_at tick = record {
  timestamp_us = tick * 125 % 2 ^ 32;
  adc_value = (1023 + 2 ^ 32 - tick) % 2 ^ 32 % 2 ^ 16;
}

-- The samples of some ticks from one on.
abbrev pub ticked : ℕ → ℕ → List SensorSample
ticked zero tick = []
ticked (suc rounds) tick = sample_at tick ∷ ticked rounds (tick + 1)

abbrev pub buffer_capacity : ℕ
buffer_capacity = 8

unfoldable pub main :
    ℕ → StaticAllocator SensorSample → Option (Result (List SensorSample × Freed SensorSample))
main fuel allocator = program fuel allocator buffer_capacity (ticked 12 0)
