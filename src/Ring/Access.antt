-- ===== src/Ring/Access.antt =====
-- `operator[]`, `front`, `back`, `size`, `available`: what they read from a buffer that represents
-- a list.
use ring_buffer.Base.{
  ℕ, ◌+◌, ◌-◌, ◌<◌, ◌≡◌, ◌∙◌, ap, false, inl, inr, List, [], ◌∷◌, Option, some, none, length,
  get_elem?, slot, add_size-slot, Bool-cases, leb, leb→le, ◌==◌, get_elem?-of_ge, get_elem?-of_lt,
  arith,
}
use ring_buffer.Result.{Result, ok, throw, Exception, front_of_empty, back_of_empty, out_of_range}
use ring_buffer.Memory.{read, read-ok}
use ring_buffer.Ring.{Ring, empty, front, back, at, available}
use ring_buffer.Ring.Holds.{Holds, Represents, back_index, Holds-head}

-- A value that may be missing, as a call that throws where it is.
abbrev pub or_throw {ℓ} : {A : Type ℓ} → Option A → Exception → Result A
or_throw none e = throw e
or_throw (some a) e = ok a

module _ {ℓ} {A : Type ℓ} (r : Ring A) where
  -- The cell that holds an element is read as that element.
  pub read-slot :
      {xs : List A}
      → Holds r xs
      → (i : ℕ) {a : A} → get_elem? xs i ≡ some a
      → i < r.capacity
      → read r.buffer (slot r.capacity r.head i) ≡ ok a
  read-slot v i {a} e h = read-ok r.buffer (slot r.capacity r.head i) a (v.layout i h ∙ ap some e)

  -- On a buffer that holds a list, `operator[]` returns the element at the index, and throws from
  -- the number of elements on, with the capacity in its message.
  pub at-Holds :
      {xs : List A}
      → Holds r xs
      → (i : ℕ) → at r i ≡ or_throw (get_elem? xs i) (out_of_range i r.capacity)
  unfolding at
  at-Holds {xs} v i = elim (Bool-cases (leb r.count i)) [
    | inl past ↦
        let over : get_elem? xs i ≡ none =
          get_elem?-of_ge xs i (omega (arith, v.counted, leb→le r.count i past)) in
        rw (past, over)
    | inr within ↦
        let inside : i < r.count = ground arith in
        let (a, e) = get_elem?-of_lt xs i (omega (arith, v.counted)) in
        rw
          (
            within,
            e,
            add_size-slot r.capacity r.head i v.capacity_small v.head_in
                (omega (arith, v.count_in)),
          )
          (read-slot v i e (omega (arith, v.count_in)))
  ]

  -- `front` returns the oldest element, and throws if there is none.
  pub front-Holds : (xs : List A) → Holds r xs → front r ≡ or_throw (get_elem? xs 0) front_of_empty
  unfolding front empty
  front-Holds [] v = ground (arith, v.counted)
  front-Holds (x ∷ xs) v = ground (arith, v.counted, read-ok r.buffer r.head x (Holds-head v))

  pub back-read : (r.count == 0) ≡ false → back r ≡ read r.buffer (back_index r)
  unfolding back empty
  back-read h = elim (Bool-cases r.just_overwrote) [ inl o ↦ rw (h, o) | inr o ↦ rw (h, o) ]

  -- On a buffer that represents a list, `back` returns the last element, and throws if there is
  -- none.
  pub back-Represents :
      (xs : List A)
      → Represents r xs
      → back r ≡ or_throw (get_elem? xs (length xs - 1)) back_of_empty
  unfolding back empty
  back-Represents [] v = ground (arith, v.counted)
  back-Represents (x ∷ xs) v =
      let (a, e) = get_elem?-of_lt (x ∷ xs) (length (x ∷ xs) - 1) (omega arith) in
      let last : r.count - 1 ≡ length (x ∷ xs) - 1 = omega (arith, v.counted) in
      rw e (
        back-read (ground (arith, v.counted))
        ∙ ap (read r.buffer)
            (v.back_at (omega (arith, v.counted)) ∙ ap (slot r.capacity r.head) last)
        ∙ read-slot v.holds (length (x ∷ xs) - 1) e (omega (arith, v.counted, v.count_in)))

  pub available-Holds : {xs : List A} → Holds r xs → available r + length xs ≡ r.capacity
  unfolding available
  available-Holds v = ground (arith, v.counted)
