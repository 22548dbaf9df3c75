-- ===== src/Base/Words.antt =====
-- `std::size_t` of a 64-bit platform, with its wrap-around, and steps round a ring of indices.
use Prim.Native.Nat.{ℕ, ◌+◌, ◌-◌, ◌%◌, ◌^◌, ◌≤◌, ◌<◌}
use mathlib.Core.Path.{◌≡◌, ap, ◌∙◌}
use mathlib.Core.Logic.{◌⊎◌, inl, inr}
use native.Mathlib.Nat.{mod-add-mod, mod-eq_of_lt, mod-eq-sub-mod, mod-lt}
use native.Mathlib.Decide.{dec_lt}
use native.Mathlib.Omega.{arith}

abbrev pub add_size : ℕ → ℕ → ℕ
add_size a b = (a + b) % 2 ^ 64

abbrev pub sub_size : ℕ → ℕ → ℕ
sub_size a b = (a + 2 ^ 64 - b) % 2 ^ 64

-- No allocation has more elements than `std::ptrdiff_t` can count.
abbrev pub max_size : ℕ
max_size = 2 ^ 63 - 1

-- The `k`-th index from `h` on, going round at `c`.
abbrev pub slot : ℕ → ℕ → ℕ → ℕ
slot c h k = (h + k) % c

-- A step of at most one round wraps once or not at all.
pub slot_cases :
    (c h k : ℕ)
    → h < c
    → k ≤ c
    → ((h + k < c) × (slot c h k ≡ h + k)) ⊎ ((c ≤ h + k) × (slot c h k ≡ h + k - c))
slot_cases c h k hh hk = elim (dec_lt (h + k) c) [
  | yes p ↦ inl (p, mod-eq_of_lt p)
  | no p ↦ inr (
    omega arith,
    mod-eq-sub-mod {n = h + k} {m = c} (omega arith)
        ∙ mod-eq_of_lt {n = h + k - c} {m = c} (omega arith),
  )
]

pub slot-lt : (c h k : ℕ) → 0 < c → slot c h k < c
slot-lt c h k hc = mod-lt (h + k) hc

-- Within one round every step lands on an index of its own.
pub slot_injective : (c h i j : ℕ) → h < c → i < c → j < c → slot c h i ≡ slot c h j → i ≡ j
slot_injective c h i j hh hi hj e =
    omega (arith, slot_cases c h i hh (omega arith), slot_cases c h j hh (omega arith))

-- Starting one index later is taking one step more.
pub slot-next : (c h i : ℕ) → slot c ((h + 1) % c) i ≡ slot c h (i + 1)
slot-next c h i = rw mod-add-mod (ap (λ k. k % c) (omega arith))

pub slot-zero : (c h : ℕ) → h < c → slot c h 0 ≡ h
slot-zero c h hh = omega (arith, slot_cases c h 0 hh (omega arith))

-- Once round the ring is where the walk began.
pub slot-round : (c h : ℕ) → h < c → slot c h c ≡ h
slot-round c h hh = omega (arith, slot_cases c h c hh (omega arith))

-- From the index after `h`, the last step of the round is `h` itself.
pub slot-last : (c h : ℕ) → h < c → slot c ((h + 1) % c) (c - 1) ≡ h
slot-last c h hh =
    let whole : c - 1 + 1 ≡ c = omega arith in
    slot-next c h (c - 1) ∙ ap (slot c h) whole ∙ slot-round c h hh

pub slot-slot : (c h n k : ℕ) → slot c (slot c h n) k ≡ slot c h (n + k)
slot-slot c h n k = rw mod-add-mod (ap (λ m. m % c) (omega arith))

-- `add_size` does not wrap on indices of an allocation.
pub add_size-slot : (c h k : ℕ) → c ≤ max_size → h < c → k ≤ c → add_size h k % c ≡ slot c h k
add_size-slot c h k hc hh hk = ap (λ n. n % c) (omega arith)
