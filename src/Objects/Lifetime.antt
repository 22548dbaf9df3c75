-- ===== src/Objects/Lifetime.antt =====
-- The constructor, the destructor, and the life of an object between them.
use ring_buffer.Base.{
  max_size, ℕ, ◌<◌, ◌≤◌, ◌≡◌, ◌∙◌, refl, sym, ap, subst, false, List, [], some, none, length,
  get_elem?, slot, slot-zero, slot-lt, arith, ◌==◌,
}
use ring_buffer.Result.{ok, throw, zero_capacity}
use ring_buffer.Memory.{Storage, nullptr, block, cells}
use ring_buffer.Script.{Op}
use ring_buffer.Window
use ring_buffer.Ring.{Ring, clear, destroy_all}
use ring_buffer.Ring.Layout.{slot_onto}
use ring_buffer.Ring.Valid.{IsValid, capacity-clear}
use ring_buffer.Ring.Holds.{Holds, Represents, IsInStep}
use ring_buffer.Ring.Clear.{clear-Holds}
use ring_buffer.Ring.Run.{run}
use ring_buffer.Objects.{Traits, IsAllocator, deallocated, members, create, destruct}

-- No object lives in the first `n` cells.
abbrev pub IsRaw {ℓ} : {A : Type ℓ} → Storage A → ℕ → Type ℓ
IsRaw s n = (i : ℕ) → i < n → get_elem? (cells s) i ≡ some none

module _ {ℓ} {A : Type ℓ} (r : Ring A) where
  -- A buffer that holds nothing has raw storage.
  pub Holds-nil-IsRaw : Holds r [] → IsRaw r.buffer r.capacity
  Holds-nil-IsRaw v i h =
      let (k, hk, e) = slot_onto r.capacity r.head i v.head_in h in rw (← e) (v.layout k hk)

  -- A buffer with storage hands it to the allocator, with the capacity that it was allocated for.
  deallocated-valid : IsValid r → deallocated r ≡ some (r.buffer, r.capacity)
  deallocated-valid v = go r.buffer refl
    where
      go : (s : Storage A) → r.buffer ≡ s → deallocated r ≡ some (r.buffer, r.capacity)
      go nullptr e = absurd (omega (arith, ap (λ s. length (cells s)) e, v.storage, v.capacity_pos))
      go (block cs) e = rw e

module _ {ℓ} {A : Type ℓ} (r : Ring A) where
  -- `clear` and the deallocation that follows it in the destructor and in the assignments.
  pub clear-deallocated :
      {xs : List A}
      → Holds r xs
      → (r' : Ring A) × (clear r ≡ ok r')
        × (deallocated r' ≡ some (r'.buffer, r.capacity))
        × IsRaw r'.buffer r.capacity
        × Represents r' []
  clear-deallocated v =
      let (r', e, v', _) = clear-Holds r v in
      let cap : r'.capacity ≡ r.capacity = capacity-clear r e in
      (
        r',
        e,
        deallocated-valid r' v'.valid ∙ ap (λ c. some (r'.buffer, c)) cap,
        subst (IsRaw r'.buffer) cap (Holds-nil-IsRaw r' v'.holds),
        v',
      )

  -- The destructor of a buffer that holds a list hands its storage to the allocator, with the
  -- capacity of the buffer, and leaves no object in it.
  pub destruct-Holds :
      {xs : List A}
      → Holds r xs
      → (s : Storage A) × (destruct r ≡ ok (some (s, r.capacity))) × IsRaw s r.capacity
  unfolding destruct
  destruct-Holds v = let (r', e, d, raw, _) = clear-deallocated v in (r'.buffer, rw (e, d), raw)

module _ {ℓ} {A : Type ℓ} (r : Ring A) where
  -- Storage goes back to the allocator with the capacity that the buffer has then.
  pub deallocated-capacity :
      (n : ℕ) {s : Storage A} {m : ℕ}
      → deallocated r ≡ some (s, m)
      → deallocated (record r { capacity = n }) ≡ some (r.buffer, n)
  deallocated-capacity n {s} {m} d = go r.buffer refl
    where
      go :
          (b : Storage A)
          → r.buffer ≡ b
          → deallocated (record r { capacity = n }) ≡ some (r.buffer, n)
      go nullptr e = cc (rw e at d)
      go (block cs) e = rw e (ap (λ b. some (b, n)) e)

  -- The destructor of a buffer that counts no element only deallocates.
  pub destruct-empty : r.count ≡ 0 → destruct r ≡ ok (deallocated r)
  unfolding destruct clear destroy_all
  destruct-empty e = rw e

-- A script and the destructor after it, on a buffer of capacity `n` that starts out empty.
abbrev Ends {ℓ} : {A : Type ℓ} → Ring A → List (Op A) → ℕ → Type ℓ
Ends {A} r ops n =
    (r' : Ring A) × (back : Storage A) × (run r ops ≡ ok ((Window.run n [] ops).0, r'))
    × (destruct r' ≡ ok (some (back, n)))
    × IsRaw back n

-- With the capacity 0, an allocator that returns storage for no objects has returned it before the
-- constructor throws, and nothing gives that storage back.
create-zero {ℓ} :
    {A : Type ℓ} (t : Traits A) (a : ℕ) {s : Storage A}
    → t.allocate a 0 ≡ ok s
    → (r : Ring A) × (members t 0 a ≡ ok r) × (r.buffer ≡ s) × (create t 0 a ≡ throw zero_capacity)
unfolding create members
create-zero t a {s} given = (
  record {
    capacity = 0;
    allocator = a;
    buffer = s;
    head = 0;
    tail = 0;
    count = 0;
    full = false;
    just_overwrote = false;
    overwrite_position = 0;
  },
  rw given,
  refl,
  rw given,
)

module _ {ℓ} {A : Type ℓ} (t : Traits A) (alloc : IsAllocator t) (n a : ℕ) where
  -- With memory from the allocator and a capacity above 0 the constructor makes a buffer that
  -- represents the empty list.
  pub create-Represents :
      {s : Storage A}
      → t.allocate a n ≡ ok s
      → 0 < n
      → (r : Ring A) × (create t n a ≡ ok r) × (r.capacity ≡ n) × Represents r [] × IsInStep r
  unfolding create members
  create-Represents {s} given pos =
      let start : 0 ≡ slot n 0 0 = sym (slot-zero n 0 pos) in
      let enough : n ≤ length (cells s) = alloc.enough a n s given in
      let small : n ≤ max_size = alloc.countable a n s given in
      let proper : (n == 0) ≡ false = ground arith in
      (
        record {
          capacity = n;
          allocator = a;
          buffer = s;
          head = 0;
          tail = 0;
          count = 0;
          full = false;
          just_overwrote = false;
          overwrite_position = 0;
        },
        rw (given, proper),
        refl,
        record {
          holds = record {
            valid = ground arith;
            counted = refl;
            layout = λ i hi. alloc.raw a n s given (slot n 0 i) (slot-lt n 0 i pos);
          };
          write_at = λ _. start;
          back_at = λ p. absurd (omega arith);
        },
        start,
      )
