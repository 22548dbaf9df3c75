-- ===== src/StaticAllocator/Samples.antt =====
-- What the program of examples/embedded_static_allocator_example.cc processes.
use ring_buffer.Base.{
  ℕ, zero, suc, ◌≡◌, ◌≢◌, ◌≤◌, ◌<◌, ◌∙◌, refl, ap, sym, subst, true, false, inl, inr, Bool-cases,
  List, [], ◌∷◌, ◌++◌, append_assoc, append-nil, some, none, ltb, ◌||◌, max_size, length,
  length-drop, get_elem?, ◌-◌, arith,
}
use ring_buffer.Result.{ok, fault}
use ring_buffer.Memory.{Storage, nullptr, block, cells}
use ring_buffer.Window.Latest.{latest, drop-nil}
use ring_buffer.Ring
use ring_buffer.Ring.{Ring}
use ring_buffer.Ring.Valid.{capacity-pop_front}
use ring_buffer.Ring.Holds.{Holds, Represents}
use ring_buffer.Ring.Push.{emplace_back-eq-push_back}
use ring_buffer.Ring.Latest.{push_back-latest}
use ring_buffer.Ring.Pop.{pop_front-Holds}
use ring_buffer.Ring.Access.{front-Holds}
use ring_buffer.StaticAllocator.{
  collect, process, continue, until_empty, after, drain, allocate, traits, is_null, StaticAllocator,
  program,
}
use ring_buffer.Objects.{IsAllocator}
use ring_buffer.Objects.Lifetime.{IsRaw, create-Represents, destruct-Holds}

module _ {ℓ} {A : Type ℓ} where
  -- To collect samples in a buffer that represents the latest of some leaves it with the latest of all.
  collect-Represents :
      (new : List A) (r : Ring A) (old : List A) (n : ℕ)
      → r.capacity ≡ n
      → Represents r (latest n old)
      → (r' : Ring A) × (collect new r ≡ ok r')
        × (r'.capacity ≡ n)
        × Represents r' (latest n (old ++ new))
  unfolding collect
  collect-Represents [] r old n c v =
      (r, refl, c, subst (λ xs. Represents r (latest n xs)) (sym (append-nil old)) v)
  collect-Represents (x ∷ new) r old n c v =
      let (r1, e, c1, v1) = push_back-latest r n old x c v in
      let (r2, e2, c2, v3) = collect-Represents new r1 (old ++ x ∷ []) n c1 v1 in
      (
        r2,
        rw (emplace_back-eq-push_back r x, e) e2,
        c2,
        subst (λ xs. Represents r2 (latest n xs)) (append_assoc old (x ∷ []) new) v3,
      )

  empty-nil : (r : Ring A) → Holds r [] → Ring.empty r ≡ true
  unfolding Ring.empty
  empty-nil r v = ground (arith, v.counted)

  empty-cons : (r : Ring A) (x : A) (xs : List A) → Holds r (x ∷ xs) → Ring.empty r ≡ false
  unfolding Ring.empty
  empty-cons r x xs v = ground (arith, v.counted)

  process-Holds :
      (r : Ring A) (x : A) (xs : List A)
      → Holds r (x ∷ xs)
      → (r' : Ring A) × (process r ≡ ok (x, r')) × (r'.capacity ≡ r.capacity) × Holds r' xs
  unfolding process
  process-Holds r x xs v =
      let (r', e, v') = pop_front-Holds r v in
      (r', rw (front-Holds r (x ∷ xs) v, e) refl, capacity-pop_front r e, v')

  -- On a buffer that holds a list, given more fuel than elements, the loop ends, processes the elements
  -- in order, and leaves the buffer holding none.
  drain-Holds :
      (fuel : ℕ) (r : Ring A) (xs : List A)
      → Holds r xs
      → length xs < fuel
      → (r' : Ring A) × (drain fuel r ≡ some (ok (xs, r')))
        × (r'.capacity ≡ r.capacity)
        × Holds r' []
  unfolding drain
  drain-Holds zero r xs v h = absurd (omega arith)
  drain-Holds (suc fuel) r [] v h =
      (r, ap (λ b. until_empty b r (continue (process r) (drain fuel))) (empty-nil r v), refl, v)
  drain-Holds (suc fuel) r (x ∷ xs) v h =
      let (r1, e1, c1, v1) = process-Holds r x xs v in
      let (r2, e2, c2, v2) = drain-Holds fuel r1 xs v1 (omega arith) in
      (
        r2,
        ap (λ b. until_empty b r (continue (process r) (drain fuel))) (empty-cons r x xs v)
            ∙ ap (λ m. continue m (drain fuel)) e1
            ∙ ap (after x) e2,
        c2 ∙ c1,
        v2,
      )

  -- On a buffer that represents the empty list: to collect samples and then process them, given more
  -- fuel than the buffer has room for samples, succeeds and processes the latest of the samples, as many
  -- as the capacity, oldest first. It leaves the buffer holding none.
  collect-drain :
      (r : Ring A) (samples : List A) (fuel : ℕ)
      → Represents r []
      → r.capacity < fuel
      → (r1 r2 : Ring A) × (collect samples r ≡ ok r1)
        × (drain fuel r1 ≡ some (ok (latest r.capacity samples, r2)))
        × (r2.capacity ≡ r.capacity)
        × Holds r2 []
  collect-drain r samples fuel v enough =
      let n : ℕ = r.capacity in
      let v0 : Represents r (latest n []) = subst (Represents r) (sym (drop-nil (0 - n))) v in
      let (r1, e1, c1, v1) = collect-Represents samples r [] n refl v0 in
      let few : length (latest n samples) < fuel =
        omega (arith, length-drop (length samples - n) samples) in
      let (r2, e2, c2, v2) = drain-Holds fuel r1 (latest n samples) v1.holds few in
      (r1, r2, e1, e2, c2 ∙ c1, v2)

  allocate-eq-ok :
      (t : StaticAllocator A) (n : ℕ) {s : Storage A}
      → allocate t n ≡ ok s
      → (s ≡ t.storage) × (n ≤ t.capacity)
  unfolding allocate
  allocate-eq-ok t n h = elim (Bool-cases (is_null t.storage || ltb t.capacity n)) [
    | inl refused ↦ absurd (ground (arith, refused))
    | inr given ↦ ground arith
  ]

  allocate-total : (t : StaticAllocator A) (n : ℕ) → allocate t n ≢ fault
  unfolding allocate
  allocate-total t n h = elim (Bool-cases (is_null t.storage || ltb t.capacity n)) [
    | inl refused ↦ ground arith
    | inr given ↦ ground arith
  ]

  -- Raw storage for the capacity, one that `std::ptrdiff_t` can count.
  pub record IsFresh (t : StaticAllocator A) : Type ℓ where
    pub sized : t.capacity ≤ length (cells t.storage)
    pub small : t.capacity ≤ max_size
    pub raw : IsRaw t.storage t.capacity

  -- Over such storage the static allocator does what an allocator documents.
  IsFresh-IsAllocator : (t : StaticAllocator A) → IsFresh t → IsAllocator (traits t)
  IsFresh-IsAllocator t f = record {
    total = λ a n. allocate-total t n;
    enough = λ a n s h.
        let (e, within) = allocate-eq-ok t n h in
        subst (λ u. n ≤ length (cells u)) (sym e) (omega (arith, f.sized));
    raw = λ a n s h i below.
        let (e, within) = allocate-eq-ok t n h in
        subst (λ u. get_elem? (cells u) i ≡ some none) (sym e) (f.raw i (omega arith));
    countable = λ a n s h. let (e, within) = allocate-eq-ok t n h in omega (arith, f.small);
  }

  allocate-ok :
      (t : StaticAllocator A) (n : ℕ)
      → IsFresh t
      → 0 < n
      → n ≤ t.capacity
      → allocate t n ≡ ok t.storage
  unfolding allocate
  allocate-ok t n f pos within = go t.storage refl
    where
      go : (s : Storage A) → t.storage ≡ s → allocate t n ≡ ok t.storage
      go nullptr e = absurd (omega (arith, f.sized, ap (λ u. length (cells u)) e))
      go (block cs) e = let less : ltb t.capacity n ≡ false = ground arith in rw (e, less)

  -- Over fresh storage with room for a buffer that has some capacity, and given more fuel than that,
  -- the program ends and processes the latest of its samples, as many as the capacity, oldest first. At
  -- its end the buffer gives back storage with no sample left in it.
  pub program_lem :
      (t : StaticAllocator A) (n fuel : ℕ) (samples : List A)
      → IsFresh t
      → 0 < n
      → n ≤ t.capacity
      → n < fuel
      → (s : Storage A) × (program fuel t n samples ≡ some (ok (latest n samples, some (s, n))))
        × IsRaw s n
  unfolding program
  program_lem t n fuel samples f pos within enough =
      let (r, e, c, v, _) =
        create-Represents (traits t) (IsFresh-IsAllocator t f) n 0 (allocate-ok t n f pos within)
          pos in
      let (r1, r2, e1, e2, c2, v2) = collect-drain r samples fuel v (omega (arith, c)) in
      let (s, d, raw) = destruct-Holds r2 v2 in
      let same : r2.capacity ≡ n = c2 ∙ c in
      let processed : drain fuel r1 ≡ some (ok (latest n samples, r2)) =
        e2 ∙ ap (λ k. some (ok (latest k samples, r2))) c in
      (
        s,
        rw (e, e1, processed, d) (ap (λ k. some (ok (latest n samples, some (s, k)))) same),
        subst (IsRaw s) same raw,
      )
