-- ===== src/Ring/Layout.antt =====
-- The cells of the storage seen from `head_`: the stored elements in order, then raw memory.
use ring_buffer.Base.{
  ℕ, suc, ◌+◌, ◌-◌, ◌%◌, ◌≤◌, ◌<◌, ◌≡◌, refl, sym, ap, ◌∙◌, ◌≢◌, List, [], ◌∷◌, ◌++◌, Option, none,
  some, length, get_elem?, set, slot, slot_cases, slot-lt, slot_injective, slot-next, slot-round,
  slot-zero, get_elem?-set_self, get_elem?-set_ne, get_elem?-snoc_ne, get_elem?-snoc_self,
  get_elem?-of_ge, dec_lt, ℕ_discrete, arith,
}

-- The cell `i` places after the head holds the `i`-th element, and is raw past the last one.
abbrev pub Layout {ℓ} : {A : Type ℓ} → List (Option A) → ℕ → ℕ → List A → Type ℓ
Layout cs c h xs = (i : ℕ) → i < c → get_elem? cs (slot c h i) ≡ some (get_elem? xs i)

module _ {ℓ} {A : Type ℓ} (cs : List (Option A)) (c h : ℕ) (fits : c ≤ length cs) (hh : h < c) where
  -- Constructing an object in the first raw cell adds it at the end.
  pub Layout-append :
      (xs : List A) (x : A)
      → length xs < c
      → Layout cs c h xs
      → Layout (set cs (slot c h (length xs)) (some x)) c h (xs ++ x ∷ [])
  Layout-append xs x room l i hi = elim (ℕ_discrete i n) [
    | yes e ↦ rw e (
        get_elem?-set_self cs (slot c h n) (some x) (omega (arith, slot-lt c h n (omega arith)))
        ∙ ap some (sym (get_elem?-snoc_self xs x n refl)))
    | no ne ↦
        get_elem?-set_ne cs (slot c h n) (slot c h i) (some x)
          (λ e. ne (sym (slot_injective c h n i hh room hi e)))
        ∙ l i hi
        ∙ ap some (sym (get_elem?-snoc_ne xs x i ne))
  ]
    where
      n : ℕ
      n = length xs

  -- The cell of the oldest element is written. Seen from the cell after it, what was second is
  -- first, and the written cell is the last one.
  module _ (x : A) (xs : List A) (v : Option A) (l : Layout cs c h (x ∷ xs)) where
    advance_inner :
        (i : ℕ)
        → i + 1 < c
        → get_elem? (set cs h v) (slot c ((h + 1) % c) i) ≡ some (get_elem? xs i)
    advance_inner i hi =
        let step : i + 1 ≡ suc i = omega arith in
        let away : h ≢ slot c h (i + 1) = λ e. absurd (
          omega (arith, slot_injective c h 0 (i + 1) hh (omega arith) hi (slot-zero c h hh ∙ e))) in
        rw (slot-next c h i) (
          get_elem?-set_ne cs h (slot c h (i + 1)) v away
          ∙ l (i + 1) hi
          ∙ ap (λ k. some (get_elem? (x ∷ xs) k)) step)

    advance_last : (i : ℕ) → i + 1 ≡ c → get_elem? (set cs h v) (slot c ((h + 1) % c) i) ≡ some v
    advance_last i hi =
        let here : slot c h (i + 1) ≡ h = rw hi (slot-round c h hh) in
        rw (slot-next c h i, here) (get_elem?-set_self cs h v (omega arith))

  -- Destroying the oldest element and moving the head past it removes it.
  pub Layout-remove :
      (x : A) (xs : List A)
      → length xs < c
      → Layout cs c h (x ∷ xs)
      → Layout (set cs h none) c ((h + 1) % c) xs
  Layout-remove x xs room l i hi = elim (dec_lt (i + 1) c) [
    | yes p ↦ advance_inner x xs none l i p
    | no p ↦
        advance_last x xs none l i (omega arith)
        ∙ ap some (sym (get_elem?-of_ge xs i (omega arith)))
  ]

  -- Assigning to the oldest element of a full buffer and moving the head past it drops the oldest
  -- element and adds the new one at the end.
  pub Layout-replace :
      (x : A) (xs : List A) (y : A)
      → suc (length xs) ≡ c
      → Layout cs c h (x ∷ xs)
      → Layout (set cs h (some y)) c ((h + 1) % c) (xs ++ y ∷ [])
  Layout-replace x xs y all l i hi = elim (dec_lt (i + 1) c) [
    | yes p ↦
        advance_inner x xs (some y) l i p
        ∙ ap some (sym (get_elem?-snoc_ne xs y i (λ e. absurd (omega arith))))
    | no p ↦
        advance_last x xs (some y) l i (omega arith)
        ∙ ap some (sym (get_elem?-snoc_self xs y i (omega arith)))
  ]

-- Every cell of the ring is some number of steps away.
pub slot_onto : (c h j : ℕ) → h < c → j < c → (i : ℕ) × (i < c) × (slot c h i ≡ j)
slot_onto c h j hh hj = elim (dec_lt j h) [
  | yes p ↦ (j + c - h, omega arith, omega (arith, slot_cases c h (j + c - h) hh (omega arith)))
  | no p ↦ (j - h, omega arith, omega (arith, slot_cases c h (j - h) hh (omega arith)))
]

-- A layout with no element is raw memory, from whichever cell it is seen.
pub Layout-nil {ℓ} :
    {A : Type ℓ} (cs : List (Option A)) (c h h' : ℕ)
    → h < c
    → h' < c
    → Layout cs c h []
    → Layout cs c h' []
Layout-nil cs c h h' hh hh' l i hi =
    let (k, hk, e) = slot_onto c h (slot c h' i) hh (slot-lt c h' i (omega arith)) in
    rw (← e) (l k hk)
