-- ===== src/Ring/Phantom.antt =====
-- A `ring_buffer` whose tail has fallen behind: `count_` tells of more elements than the storage holds.
use ring_buffer.Base.{
  ℕ, suc, ◌+◌, ◌<◌, ◌≤◌, ◌≡◌, ◌∙◌, sym, ap, false, List, [], ◌∷◌, Option, some, none, length,
  length-set, set, get_elem?, get_elem?-of_lt, get_elem?-set_self, get_elem?-set_ne, slot, slot-lt,
  slot-zero, slot-slot, slot_injective, add_size-slot, ℕ_discrete, ◌==◌, arith,
}
use ring_buffer.Result.{ok, fault}
use ring_buffer.Memory.{cells, cells-write, length-cells-write, read-ok, read-raw, destroy-ok}
use ring_buffer.Ring.{Ring, empty, push_back, pop_front, increment_head}
use ring_buffer.Ring.Valid.{IsValid}
use ring_buffer.Ring.Layout.{Layout, Layout-remove}
use ring_buffer.Ring.Holds.{Holds, next_head}
use ring_buffer.Ring.Push.{appended, push_back-appended}
use ring_buffer.Ring.Pop.{removed}

-- The storage holds the list from the head on, and the count is by `extra` too large.
pub record Phantoms {ℓ} {A : Type ℓ} (r : Ring A) (xs : List A) (extra : ℕ) : Type ℓ where
  pub valid : IsValid r
  pub open valid use *
  pub counted : r.count ≡ length xs + extra
  pub layout : Layout (cells r.buffer) r.capacity r.head xs

module _ {ℓ} {A : Type ℓ} where
  pub Holds-Phantoms : {r : Ring A} {xs : List A} → Holds r xs → Phantoms r xs 0
  Holds-Phantoms v = record {
    valid = v.valid;
    counted = omega (arith, v.counted);
    layout = v.layout;
  }

  -- To write over an element of a layout is to replace it in the list.
  Layout-set :
      (cs : List (Option A)) (c h : ℕ) (xs : List A) (d : ℕ) (x : A)
      → c ≤ length cs
      → h < c
      → d < length xs
      → d < c
      → Layout cs c h xs
      → Layout (set cs (slot c h d) (some x)) c h (set xs d x)
  Layout-set cs c h xs d x fits hh inside hd l i hi = elim (ℕ_discrete i d) [
    | yes e ↦ rw e (
        get_elem?-set_self cs (slot c h d) (some x) (omega (arith, slot-lt c h d (omega arith)))
        ∙ ap some (sym (get_elem?-set_self xs d x inside)))
    | no ne ↦
        get_elem?-set_ne cs (slot c h d) (slot c h i) (some x)
          (λ e. ne (sym (slot_injective c h d i hh hd hi e)))
        ∙ l i hi
        ∙ ap some (sym (get_elem?-set_ne xs d i x (λ e. ne (sym e))))
  ]

  module _ (r : Ring A) where
    -- A push whose tail stands on an element replaces that element, and counts one more.
    pub push_back-Phantoms :
        (xs : List A) (extra d : ℕ) (x : A)
        → Phantoms r xs extra
        → r.tail ≡ slot r.capacity r.head d
        → d < length xs
        → r.count < r.capacity
        → (push_back r x ≡ ok (appended r x))
          × Phantoms (appended r x) (set xs d x) (suc extra)
          × ((appended r x).tail ≡ slot r.capacity r.head (suc d))
    push_back-Phantoms xs extra d x v at_tail inside room =
        let hd : d < r.capacity = omega (arith, v.counted) in
        let (old, e) = get_elem?-of_lt xs d inside in
        let there : get_elem? (cells r.buffer) r.tail ≡ some (some old) =
          ap (get_elem? (cells r.buffer)) at_tail ∙ v.layout d hd ∙ ap some e in
        (
          push_back-appended r x (ground (arith, v.full_is)) there,
          record {
            valid = ground (arith, length-cells-write r.buffer r.tail (some x));
            counted = omega (arith, v.counted, length-set xs d x, v.capacity_small);
            layout =
                rw (cells-write r.buffer r.tail (some x), at_tail)
                  (Layout-set (cells r.buffer) r.capacity r.head xs d x v.storage v.head_in inside
                    hd v.layout);
          },
          add_size-slot r.capacity r.tail 1 v.capacity_small v.tail_in (omega arith)
              ∙ ap (λ t. slot r.capacity t 1) at_tail
              ∙ slot-slot r.capacity r.head d 1
              ∙ ap (slot r.capacity r.head) (omega arith),
        )

    -- A pop of an element that is there takes it out.
    pub pop_front-Phantoms :
        (x : A) (xs : List A) (extra : ℕ)
        → Phantoms r (x ∷ xs) extra
        → (pop_front r ≡ ok (x, removed r)) × Phantoms (removed r) xs extra
    unfolding pop_front empty increment_head
    pop_front-Phantoms x xs extra v =
        let some_left : (r.count == 0) ≡ false = ground (arith, v.counted) in
        let there : get_elem? (cells r.buffer) r.head ≡ some (some x) =
          ap (get_elem? (cells r.buffer)) (sym (slot-zero r.capacity r.head v.head_in))
          ∙ v.layout 0 v.capacity_pos in
        (
          rw (some_left, read-ok r.buffer r.head x there, destroy-ok r.buffer r.head there)
              (ground (arith, v.counted)),
          record {
            valid = ground (arith, length-cells-write r.buffer r.head none);
            counted = omega (arith, v.counted);
            layout =
                rw (next_head v.valid, cells-write r.buffer r.head none)
                  (Layout-remove (cells r.buffer) r.capacity r.head v.storage v.head_in x xs
                    (omega (arith, v.counted, v.count_in)) v.layout);
          },
        )

    -- A pop of an element that is only counted reads memory that holds no object.
    pub pop_front-Phantoms_nil : (extra : ℕ) → Phantoms r [] (suc extra) → pop_front r ≡ fault
    unfolding pop_front empty
    pop_front-Phantoms_nil extra v =
        let some_left : (r.count == 0) ≡ false = ground (arith, v.counted) in
        let there : get_elem? (cells r.buffer) r.head ≡ some none =
          ap (get_elem? (cells r.buffer)) (sym (slot-zero r.capacity r.head v.head_in))
          ∙ v.layout 0 v.capacity_pos in
        rw (some_left, read-raw r.buffer r.head there)
