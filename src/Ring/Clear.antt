-- ===== src/Ring/Clear.antt =====
-- `clear` on a buffer that holds a list: every object is destroyed, once, and no other.
use ring_buffer.Base.{
  ℕ, suc, ◌+◌, ◌<◌, ◌≤◌, ◌≡◌, ◌∙◌, refl, sym, ap, subst, max_size, false, List, [], ◌∷◌, some, none,
  length, get_elem?, slot, slot-zero, slot-slot, slot-lt, add_size-slot, arith,
}
use ring_buffer.Result.{ok}
use ring_buffer.Memory.{Storage, cells, write, destroy-ok, cells-write, length-cells-write}
use ring_buffer.Ring.{Ring, clear, destroy_all}
use ring_buffer.Ring.Layout.{Layout, Layout-remove, Layout-nil}
use ring_buffer.Ring.Holds.{Holds, Represents, IsInStep}

module _ {ℓ} {A : Type ℓ} (c h : ℕ) (small : c ≤ max_size) (hh : h < c) where
  -- The loop, with the objects of `xs` still there from its `i`-th round on.
  destroy_all-Layout :
      (xs : List A) (buf : Storage A) (i : ℕ)
      → c ≤ length (cells buf)
      → i + length xs ≤ c
      → Layout (cells buf) c (slot c h i) xs
      → (buf' : Storage A) × (destroy_all (length xs) buf c h i ≡ ok buf')
        × (length (cells buf') ≡ length (cells buf))
        × Layout (cells buf') c (slot c h (i + length xs)) []
  unfolding destroy_all
  destroy_all-Layout [] buf i fits room l =
      let stay : i ≡ i + 0 = omega arith in
      (buf, refl, refl, subst (λ k. Layout (cells buf) c (slot c h k) []) stay l)
  destroy_all-Layout (x ∷ xs) buf i fits room l =
      let k : ℕ = slot c h i in
      let hk : k < c = slot-lt c h i (omega arith) in
      let buf' : Storage A = write buf k none in
      let here : get_elem? (cells buf) k ≡ some (some x) =
        ap (get_elem? (cells buf)) (sym (slot-zero c k hk)) ∙ l 0 (omega arith) in
      let rest : Layout (cells buf') c (slot c h (i + 1)) xs =
        rw (← slot-slot c h i 1, cells-write buf k none)
          (Layout-remove (cells buf) c k fits hk x xs (omega arith) l) in
      let same : length (cells buf') ≡ length (cells buf) = length-cells-write buf k none in
      let (end, e, len, l') =
        destroy_all-Layout xs buf' (i + 1) (omega (arith, same)) (omega arith) rest in
      let step : i + 1 + length xs ≡ i + suc (length xs) = omega arith in
      (
        end,
        rw (add_size-slot c h i small hh (omega arith), destroy-ok buf k here) e,
        len ∙ same,
        subst (λ n. Layout (cells end) c (slot c h n) []) step l',
      )

module _ {ℓ} {A : Type ℓ} (r : Ring A) where
  -- `clear` on a buffer that holds a list succeeds, leaves no object in the storage, and the buffer
  -- represents the empty list, its tail in step.
  pub clear-Holds :
      {xs : List A}
      → Holds r xs
      → (r' : Ring A) × (clear r ≡ ok r') × Represents r' [] × IsInStep r'
  unfolding clear
  clear-Holds {xs} v =
      let c : ℕ = r.capacity in
      let start : slot c r.head 0 ≡ r.head = slot-zero c r.head v.head_in in
      let (buf, e, len, l) =
        destroy_all-Layout c r.head v.capacity_small v.head_in xs r.buffer 0 v.storage
          (omega (arith, v.counted, v.count_in)) (rw start v.layout) in
      let zero_step : slot c 0 0 ≡ 0 = slot-zero c 0 v.capacity_pos in
      let last : slot c r.head (0 + length xs) < c =
        slot-lt c r.head (0 + length xs) v.capacity_pos in
      (
        record r { buffer = buf; head = 0; tail = 0; count = 0; full = false },
        rw (v.counted, e),
        record {
          holds = record {
            valid = ground (arith, len);
            counted = refl;
            layout =
                Layout-nil (cells buf) c (slot c r.head (0 + length xs)) 0 last v.capacity_pos l;
          };
          write_at = λ _. sym zero_step;
          back_at = λ p. absurd (omega arith);
        },
        sym zero_step,
      )
