-- ===== src/Audio/Loops.antt =====
-- The loops of examples/audio_buffer_example.cc over a buffer whose tail is in step.
use ring_buffer.Base.{
  ℕ, zero, suc, ◌+◌, ◌≤◌, ◌≡◌, ◌∙◌, refl, sym, ap, subst, true, false, List, [], ◌∷◌, ◌++◌, map,
  length, length-append, length-drop, take, drop, slot, slot-zero, slot-slot, min, ◌==◌, arith,
}
use ring_buffer.Result.{Result, ok, ◌>>=◌}
use ring_buffer.Window
use ring_buffer.Ring
use ring_buffer.Ring.{Ring}
use ring_buffer.Ring.Valid.{capacity-push_back, flag-push_back}
use ring_buffer.Ring.Holds.{Holds, Represents, IsInStep, Represents-IsInStep, next_head}
use ring_buffer.Ring.Push.{push_back-Represents, push_back-IsInStep}
use ring_buffer.Ring.Pop.{removed}
use ring_buffer.Ring.Phantom.{Phantoms, Holds-Phantoms, pop_front-Phantoms}
use ring_buffer.Audio.{
  Arithmetic, AudioBufferExample, chunk, push_samples, pop_samples, processed,
  process_audio_samples, chunk_size,
}

-- The buffer holds `n` elements, its tail is in step, and its last write overwrote nothing.
pub record Filled {ℓ} {F : Type ℓ} (cap n : ℕ) (r : Ring F) : Type ℓ where
  pub capacity_is : r.capacity ≡ cap
  pub elements : List F
  pub many : length elements ≡ n
  pub holds : Holds r elements
  pub in_step : IsInStep r
  pub unset : r.just_overwrote ≡ false

module _ {ℓ} {F : Type ℓ} where
  pub length-chunk : (samples : ℕ → F) (rounds i : ℕ) → length (chunk samples rounds i) ≡ rounds
  unfolding chunk
  length-chunk samples zero i = refl
  length-chunk samples (suc rounds) i = ap suc (length-chunk samples rounds (i + 1))

  -- Where there is room for all samples, all are kept.
  pub push_samples-Filled :
      (cap : ℕ) (items : List F) (n : ℕ) (r : Ring F)
      → Filled cap n r
      → n + length items ≤ cap
      → (r' : Ring F) × (push_samples items r ≡ ok r') × Filled cap (n + length items) r'
  unfolding push_samples
  push_samples-Filled cap [] n r v room = (r, refl, subst (λ k. Filled cap k r) (omega arith) v)
  push_samples-Filled cap (x ∷ items) n r v room =
      let xs : List F = v.elements in
      let h : Holds r xs = v.holds in
      let free : r.full ≡ false = ground (arith, h.full_is, h.counted, v.many, v.capacity_is) in
      let rep : Represents r xs = Represents-IsInStep r h v.in_step v.unset in
      let (r1, e, v1) = push_back-Represents r x rep in
      let next : Filled cap (n + 1) r1 = record {
        capacity_is = capacity-push_back r x e ∙ v.capacity_is;
        elements = xs ++ x ∷ [];
        many = omega (arith, length-append xs (x ∷ []), v.many);
        holds =
            subst (λ ys. Holds r1 ys)
              (Window.push-room r.capacity xs x (omega (arith, v.many, v.capacity_is))) v1.holds;
        in_step = push_back-IsInStep r x rep free e;
        unset = flag-push_back r x free e;
      } in
      let (r2, e2, v2) = push_samples-Filled cap items (n + 1) r1 next (omega arith) in
      (r2, rw e e2, subst (λ k. Filled cap k r2) (omega arith) v2)

  -- What `k` pops leave of a buffer, and what they do not touch.
  pub record Popped (t : Arithmetic F) (r : Ring F) (xs : List F) (extra k : ℕ) : Type ℓ where
    pub after : Ring F
    pub pops : pop_samples t k r ≡ ok (map (processed t) (take k xs), after)
    pub phantoms : Phantoms after (drop k xs) extra
    pub tail_kept : after.tail ≡ r.tail
    pub head_moved : after.head ≡ slot r.capacity r.head k
    pub capacity_kept : after.capacity ≡ r.capacity
    pub unset_kept : r.just_overwrote ≡ false → after.just_overwrote ≡ false

  pub pop_samples-Popped :
      (t : Arithmetic F) (k : ℕ) (r : Ring F) (xs : List F) (extra : ℕ)
      → Phantoms r xs extra
      → k ≤ length xs
      → Popped t r xs extra k
  unfolding pop_samples
  pop_samples-Popped t zero r xs extra v h = record {
    after = r;
    pops = refl;
    phantoms = v;
    tail_kept = refl;
    head_moved = sym (slot-zero r.capacity r.head v.head_in);
    capacity_kept = refl;
    unset_kept = λ u. u;
  }
  pop_samples-Popped t (suc k) r [] extra v h = absurd (omega arith)
  pop_samples-Popped t (suc k) r (x ∷ xs) extra v h =
      let (e, v1) = pop_front-Phantoms r x xs extra v in
      let rest : Popped t (removed r) xs extra k =
        pop_samples-Popped t k (removed r) xs extra v1 (omega arith) in
      record {
        after = rest.after;
        pops = rw (e, rest.pops) refl;
        phantoms = rest.phantoms;
        tail_kept = rest.tail_kept;
        head_moved =
            rest.head_moved
            ∙ ap (λ n. slot r.capacity n k) (next_head v.valid)
            ∙ slot-slot r.capacity r.head 1 k
            ∙ ap (slot r.capacity r.head) (omega arith);
        capacity_kept = rest.capacity_kept;
        unset_kept = λ u. rest.unset_kept refl;
      }

  pub pop_samples-Filled :
      (t : Arithmetic F) (cap k n : ℕ) (r : Ring F)
      → Filled cap (k + n) r
      → (out : List F) × (r' : Ring F) × (pop_samples t k r ≡ ok (out, r')) × Filled cap n r'
  pop_samples-Filled t cap k n r v =
      let xs : List F = v.elements in
      let p : Popped t r xs 0 k =
        pop_samples-Popped t k r xs 0 (Holds-Phantoms v.holds) (omega (arith, v.many)) in
      let left : length (drop k xs) ≡ n = omega (arith, length-drop k xs, v.many) in
      let q : Phantoms p.after (drop k xs) 0 = p.phantoms in
      let whole : r.count ≡ k + p.after.count =
        omega (arith, q.counted, left, v.holds.counted, v.many) in
      (
        map (processed t) (take k xs),
        p.after,
        p.pops,
        record {
          capacity_is = p.capacity_kept ∙ v.capacity_is;
          elements = drop k xs;
          many = left;
          holds = record { valid = q.valid; counted = omega (arith, q.counted); layout = q.layout };
          in_step =
              p.tail_kept
              ∙ v.in_step
              ∙ ap (slot r.capacity r.head) whole
              ∙ sym (slot-slot r.capacity r.head k p.after.count)
              ∙ ap (λ h. slot r.capacity h p.after.count) (sym p.head_moved)
              ∙ ap (λ c. slot c p.after.head p.after.count) (sym p.capacity_kept);
          unset = p.unset_kept v.unset;
        },
      )

  -- What `process_audio_samples` does on a buffer that is not empty.
  pub process_audio_samples-pop_samples :
      (t : Arithmetic F) (s : AudioBufferExample F)
      → (s.audio_buffer.count == 0) ≡ false
      → process_audio_samples t s ≡ (
          pop_samples t (min chunk_size s.audio_buffer.count) s.audio_buffer >>= λ p.
          ok (p.0, record s { audio_buffer = p.1 }))
  unfolding process_audio_samples Ring.empty
  process_audio_samples-pop_samples t s some_left = rw some_left refl

  -- On a buffer that holds a list, `process_audio_samples` returns the processed samples of the first
  -- chunk of it, or of all if there are fewer, in order, and leaves the buffer holding the others.
  pub process_audio_samples-Holds :
      (t : Arithmetic F) (s : AudioBufferExample F) (xs : List F)
      → Holds s.audio_buffer xs
      → (r' : Ring F) × (process_audio_samples t s
          ≡ ok (
            map (processed t) (take (min chunk_size (length xs)) xs),
            record s { audio_buffer = r' },
          ))
        × Holds r' (drop (min chunk_size (length xs)) xs)
  unfolding process_audio_samples Ring.empty
  process_audio_samples-Holds t s [] v =
      let none_left : (s.audio_buffer.count == 0) ≡ true = ground (arith, v.counted) in
      (s.audio_buffer, rw none_left refl, v)
  process_audio_samples-Holds t s (x ∷ xs) v =
      let k : ℕ = min chunk_size (length (x ∷ xs)) in
      let p : Popped t s.audio_buffer (x ∷ xs) 0 k =
        pop_samples-Popped t k s.audio_buffer (x ∷ xs) 0 (Holds-Phantoms v) (omega arith) in
      let q : Phantoms p.after (drop k (x ∷ xs)) 0 = p.phantoms in
      let end : List F × Ring F → Result (List F × AudioBufferExample F) =
        λ p. ok (p.0, record s { audio_buffer = p.1 }) in
      (
        p.after,
        process_audio_samples-pop_samples t s (ground (arith, v.counted))
            ∙ ap (λ n. pop_samples t (min chunk_size n) s.audio_buffer >>= end) v.counted
            ∙ ap (λ m. m >>= end) p.pops,
        record { valid = q.valid; counted = omega (arith, q.counted); layout = q.layout },
      )
