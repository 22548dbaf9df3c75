-- ===== src/Audio/Behind.antt =====
-- A buffer of examples/audio_buffer_example.cc that was overwritten, and its tail left behind.
use ring_buffer.Base.{
  ℕ, suc, ◌+◌, ◌≤◌, ◌≡◌, ◌∙◌, refl, sym, ap, subst, true, List, [], ◌∷◌, ◌++◌, length, length-set,
  set, slot, slot-zero, slot-slot, arith,
}
use ring_buffer.Result.{ok, fault}
use ring_buffer.Ring.{Ring, overwrite_advance_head}
use ring_buffer.Ring.Holds.{Holds, Represents, next_head, Holds-full}
use ring_buffer.Ring.Push.{appended, overwritten, push_back_full, overwritten-Represents}
use ring_buffer.Ring.Phantom.{Phantoms, push_back-Phantoms, pop_front-Phantoms_nil}
use ring_buffer.Audio.{Arithmetic, push_samples, pop_samples}

module _ {ℓ} {F : Type ℓ} where
  -- What pushes on a full buffer leave, and what they do not touch.
  pub record Overwritten (r : Ring F) (items : List F) : Type ℓ where
    pub after : Ring F
    pub pushes : push_samples items r ≡ ok after
    pub elements : List F
    pub holds : Holds after elements
    pub full_kept : after.full ≡ true
    pub tail_kept : after.tail ≡ r.tail
    pub head_moved : after.head ≡ slot r.capacity r.head (length items)
    pub capacity_kept : after.capacity ≡ r.capacity

  pub push_samples-Overwritten :
      (items : List F) (r : Ring F) (xs : List F) → Holds r xs → r.full ≡ true → Overwritten r items
  unfolding push_samples overwrite_advance_head
  push_samples-Overwritten [] r xs v f = record {
    after = r;
    pushes = refl;
    elements = xs;
    holds = v;
    full_kept = f;
    tail_kept = refl;
    head_moved = sym (slot-zero r.capacity r.head v.head_in);
    capacity_kept = refl;
  }
  push_samples-Overwritten (a ∷ items) r [] v f =
      absurd (omega (arith, Holds-full v f, v.capacity_pos))
  push_samples-Overwritten (a ∷ items) r (x ∷ xs) v f =
      let v1 : Represents (overwritten r a) (xs ++ a ∷ []) = overwritten-Represents r a v f in
      let moved : (overwritten r a).head ≡ slot r.capacity r.head 1 = next_head v.valid in
      let rest : Overwritten (overwritten r a) items =
        push_samples-Overwritten items (overwritten r a) (xs ++ a ∷ []) v1.holds f in
      record {
        after = rest.after;
        pushes = rw (push_back_full r a v f) (rest.pushes);
        elements = rest.elements;
        holds = rest.holds;
        full_kept = rest.full_kept;
        tail_kept = rest.tail_kept;
        head_moved =
            rest.head_moved
            ∙ ap (λ h. slot r.capacity h (length items)) moved
            ∙ slot-slot r.capacity r.head 1 (length items)
            ∙ ap (slot r.capacity r.head) (omega arith);
        capacity_kept = rest.capacity_kept;
      }

  -- Pushes behind the elements: they replace elements, and the count runs ahead.
  pub push_samples-Phantoms :
      (items : List F) (r : Ring F) (xs : List F) (extra d : ℕ)
      → Phantoms r xs extra
      → r.tail ≡ slot r.capacity r.head d
      → d + length items ≤ length xs
      → r.count + length items ≤ r.capacity
      → (r' : Ring F) × (ys : List F) × (push_samples items r ≡ ok r')
        × (length ys ≡ length xs)
        × Phantoms r' ys (extra + length items)
  unfolding push_samples
  push_samples-Phantoms [] r xs extra d v at_tail inside room =
      (r, xs, refl, refl, subst (Phantoms r xs) (omega arith) v)
  push_samples-Phantoms (a ∷ items) r xs extra d v at_tail inside room =
      let (e, v1, at_tail1) =
        push_back-Phantoms r xs extra d a v at_tail (omega arith) (omega arith) in
      let (r', ys, e', same, v') =
        push_samples-Phantoms items (appended r a) (set xs d a) (suc extra) (suc d) v1 at_tail1
          (omega (arith, length-set xs d a)) (omega (arith, v.capacity_small)) in
      (r', ys, rw e e', same ∙ length-set xs d a, subst (Phantoms r' ys) (omega arith) v')

  -- Pops past the elements that are there meet memory that holds no object.
  pub pop_samples-past :
      (t : Arithmetic F) (more : ℕ) (r : Ring F) (extra : ℕ)
      → Phantoms r [] (suc extra)
      → pop_samples t (suc more) r ≡ fault
  unfolding pop_samples
  pop_samples-past t more r extra v = rw (pop_front-Phantoms_nil r extra v) refl
