-- ===== src/Result.antt =====
-- How a call can end: with a value, by one of the exceptions that `include/ring_buffer.h` throws,
-- or in undefined behaviour, such as a read of memory that holds no object.
use ring_buffer.Base.{ℕ, ◌≡◌, refl, Option, none, some}

pub data Exception : Type 0 where
  -- `ring_buffer_exception`, thrown by `pop_front`, `front` and `back`
  pop_from_empty front_of_empty back_of_empty : Exception
  -- `std::invalid_argument` of the constructor
  zero_capacity : Exception
  -- `std::out_of_range` of `operator[]`: the index, and the number that the text calls the size
  out_of_range : ℕ → ℕ → Exception
  -- `std::bad_alloc`, from an allocator
  bad_alloc : Exception
  -- what a constructor of an element throws, by its number
  of_element : ℕ → Exception

pub data Result {ℓ} (A : Type ℓ) : Type ℓ where
  ok : A → Result A
  throw : Exception → Result A
  fault : Result A

-- The next step runs on a value; an exception and undefined behaviour end the sequence.
infixl 5 ◌>>=◌
abbrev pub ◌>>=◌ {ℓ κ} : {A : Type ℓ} {B : Type κ} → Result A → (A → Result B) → Result B
fault >>= next = fault
throw x >>= next = throw x
ok a >>= next = next a

-- What follows a part of the code that can run out of fuel, where `none` stands for that.
abbrev pub followed {ℓ κ} :
    {A : Type ℓ} {B : Type κ} → Option (Result A) → (A → Option (Result B)) → Option (Result B)
followed none next = none
followed (some fault) next = some fault
followed (some (throw e)) next = some (throw e)
followed (some (ok a)) next = next a

module _ {ℓ κ} {A : Type ℓ} {B : Type κ} where
  -- A sequence that returns has returned from its first step.
  pub bind-returns :
      (first : Result A) (next : A → Result B) {b : B}
      → (first >>= next) ≡ ok b
      → (a : A) × (first ≡ ok a) × (next a ≡ ok b)
  bind-returns fault next returned = cc
  bind-returns (throw x) next returned = cc
  bind-returns (ok a) next returned = (a, refl, returned)

  pub bind_assoc {μ} :
      {C : Type μ} (first : Result A) (next : A → Result B) (last : B → Result C)
      → ((first >>= next) >>= last) ≡ (first >>= λ a. next a >>= last)
  bind_assoc fault next last = refl
  bind_assoc (throw x) next last = refl
  bind_assoc (ok a) next last = refl
