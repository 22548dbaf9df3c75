-- ===== src/Memory.antt =====
-- The storage behind `buffer_`, and the operations of `std::allocator_traits` on its cells.
-- A cell of an allocated block is `none` while it is raw memory and `some a` while it holds a live
-- object. Touching a cell outside of the block, or an object that is not there, is a fault.
use ring_buffer.Base.{
  ◌⊎◌, inl, inr, Option-cases, ℕ, ◌≡◌, refl, List, [], Option, none, some, length, get_elem?, set,
  length-set, ap, get_elem?-set_self, lt-of-get_elem?, set-set, ◌∙◌, arith,
}
use ring_buffer.Result.{Result, ok, fault, ◌>>=◌}

pub data Storage {ℓ} (A : Type ℓ) : Type ℓ where
  nullptr : Storage A
  block : List (Option A) → Storage A

module _ {ℓ} {A : Type ℓ} where
  abbrev pub cells : Storage A → List (Option A)
  cells nullptr = []
  cells (block cs) = cs

  abbrev pub write : Storage A → ℕ → Option A → Storage A
  write nullptr i c = nullptr
  write (block cs) i c = block (set cs i c)

  -- What the object in a cell is: none in raw memory, and none out of bounds.
  abbrev pub live : Option (Option A) → Result A
  live none = fault
  live (some none) = fault
  live (some (some a)) = ok a

  -- `buffer_[i]`, as a value
  unfoldable pub read : Storage A → ℕ → Result A
  read s i = live (get_elem? (cells s) i)

  -- `allocator_traits::construct(allocator_, &buffer_[i], a)`: an object that lives there already
  -- is lost without its destructor.
  unfoldable pub construct : Storage A → ℕ → A → Result (Storage A)
  construct s i a = elim (get_elem? (cells s) i) [ none ↦ fault | some _ ↦ ok (write s i (some a)) ]

  -- `buffer_[i] = a`
  unfoldable pub assign : Storage A → ℕ → A → Result (Storage A)
  assign s i a = do _ ← live (get_elem? (cells s) i); ok (write s i (some a))

  -- `allocator_traits::destroy(allocator_, &buffer_[i])`
  unfoldable pub destroy : Storage A → ℕ → Result (Storage A)
  destroy s i = do _ ← live (get_elem? (cells s) i); ok (write s i none)

  pub cells-write : (s : Storage A) (i : ℕ) (c : Option A) → cells (write s i c) ≡ set (cells s) i c
  cells-write nullptr i c = refl
  cells-write (block cs) i c = refl

  pub length-cells-write :
      (s : Storage A) (i : ℕ) (c : Option A) → length (cells (write s i c)) ≡ length (cells s)
  length-cells-write nullptr i c = refl
  length-cells-write (block cs) i c = length-set cs i c

  pub read-ok :
      (s : Storage A) (i : ℕ) (a : A) → get_elem? (cells s) i ≡ some (some a) → read s i ≡ ok a
  unfolding read
  read-ok s i a h = rw h

  pub read-raw : (s : Storage A) (i : ℕ) → get_elem? (cells s) i ≡ some none → read s i ≡ fault
  unfolding read
  read-raw s i h = rw h

  pub destroy-raw :
      (s : Storage A) (i : ℕ) → get_elem? (cells s) i ≡ some none → destroy s i ≡ fault
  unfolding destroy
  destroy-raw s i h = rw h

  pub construct-ok :
      (s : Storage A) (i : ℕ) (a : A) {c : Option A}
      → get_elem? (cells s) i ≡ some c
      → construct s i a ≡ ok (write s i (some a))
  unfolding construct
  construct-ok s i a h = rw (h, construct)

  pub assign-ok :
      (s : Storage A) (i : ℕ) (a : A) {b : A}
      → get_elem? (cells s) i ≡ some (some b)
      → assign s i a ≡ ok (write s i (some a))
  unfolding assign
  assign-ok s i a h = rw h

  pub destroy-ok :
      (s : Storage A) (i : ℕ) {b : A}
      → get_elem? (cells s) i ≡ some (some b)
      → destroy s i ≡ ok (write s i none)
  unfolding destroy
  destroy-ok s i h = rw h

  -- What a successful operation on a cell has done.
  pub construct-eq-ok :
      (s : Storage A) (i : ℕ) (a : A) {t : Storage A}
      → construct s i a ≡ ok t
      → t ≡ write s i (some a)
  unfolding construct
  construct-eq-ok s i a h = ground arith

  pub assign-eq-ok :
      (s : Storage A) (i : ℕ) (a : A) {t : Storage A} → assign s i a ≡ ok t → t ≡ write s i (some a)
  unfolding assign
  assign-eq-ok s i a h = ground arith

  pub destroy-eq-ok :
      (s : Storage A) (i : ℕ) {t : Storage A} → destroy s i ≡ ok t → t ≡ write s i none
  unfolding destroy
  destroy-eq-ok s i h = ground arith

  write-write : (s : Storage A) (i : ℕ) (c d : Option A) → write (write s i c) i d ≡ write s i d
  write-write nullptr i c d = refl
  write-write (block cs) i c d = ap block (set-set cs i c d)

  -- The cell that was written.
  pub get_elem?-write_self :
      (s : Storage A) (i : ℕ) (c : Option A) {b : Option A}
      → get_elem? (cells s) i ≡ some b
      → get_elem? (cells (write s i c)) i ≡ some c
  get_elem?-write_self s i c h =
      rw (cells-write s i c) (get_elem?-set_self (cells s) i c (lt-of-get_elem? (cells s) i h))

  -- Destroying an object and constructing another in its place is assigning to it.
  pub destroy-construct :
      (s : Storage A) (i : ℕ) (a : A) → (destroy s i >>= λ t. construct t i a) ≡ assign s i a
  destroy-construct s i a = go (get_elem? (cells s) i) refl
    where
      go :
          (o : Option (Option A))
          → get_elem? (cells s) i ≡ o
          → (destroy s i >>= λ t. construct t i a) ≡ assign s i a
      go none e = unfold destroy assign in rw e
      go (some none) e = unfold destroy assign in rw e
      go (some (some b)) e =
          rw (destroy-ok s i e, assign-ok s i a e)
            (construct-ok (write s i none) i a (get_elem?-write_self s i none e)
              ∙ ap ok (write-write s i none (some a)))

  -- No operation on a cell throws.
  pub read-cases : (s : Storage A) (i : ℕ) → (read s i ≡ fault) ⊎ ((a : A) × (read s i ≡ ok a))
  unfolding read
  read-cases s i = live-cases (get_elem? (cells s) i)
    where
      live-cases : (o : Option (Option A)) → (live o ≡ fault) ⊎ ((a : A) × (live o ≡ ok a))
      live-cases none = inl refl
      live-cases (some none) = inl refl
      live-cases (some (some a)) = inr (a, refl)

  pub construct-cases :
      (s : Storage A) (i : ℕ) (a : A)
      → (construct s i a ≡ fault) ⊎ (construct s i a ≡ ok (write s i (some a)))
  unfolding construct
  construct-cases s i a = elim (Option-cases (get_elem? (cells s) i)) [
    | inl e ↦ inl (rw (e, construct))
    | inr (o, e) ↦ inr (rw (e, construct))
  ]
