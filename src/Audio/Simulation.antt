-- ===== src/Audio/Simulation.antt =====
-- The run of `AudioBufferExample::run_simulation` of examples/audio_buffer_example.cc, round by round.
use ring_buffer.Base.{
  ℕ, suc, ◌+◌, ◌≤◌, ◌≡◌, ◌∙◌, refl, sym, ap, subst, true, List, [], ◌∷◌, length, length-drop, drop,
  slot, slot-zero, slot-slot, slot-round, min, ◌==◌, arith,
}
use ring_buffer.Result.{Result, ok, fault, ◌>>=◌}
use ring_buffer.Ring
use ring_buffer.Ring.{Ring}
use ring_buffer.Ring.Holds.{Holds, Holds-full}
use ring_buffer.Ring.Phantom.{Phantoms, Holds-Phantoms}
use ring_buffer.Audio.{
  Arithmetic, AudioBufferExample, buffer_size, chunk_size, chunk, pop_samples,
  generate_audio_samples, process_audio_samples, process, repeat, simulation_step, simulate,
  run_simulation,
}
use ring_buffer.Audio.Loops.{
  Filled, Popped, length-chunk, push_samples-Filled, pop_samples-Filled, pop_samples-Popped,
  process_audio_samples-pop_samples,
}
use ring_buffer.Audio.Behind.{
  Overwritten, push_samples-Overwritten, push_samples-Phantoms, pop_samples-past,
}

nil_of_length {ℓ} : {A : Type ℓ} (xs : List A) → length xs ≡ 0 → xs ≡ []
nil_of_length [] h = refl
nil_of_length (x ∷ xs) h = absurd (omega arith)

module _ {ℓ} {F : Type ℓ} (t : Arithmetic F) (source : ℕ → ℕ → F) where
  abbrev At : ℕ → AudioBufferExample F → Type ℓ
  At n s = Filled buffer_size n s.audio_buffer

  generate-At :
      (n : ℕ) (s : AudioBufferExample F)
      → At n s
      → n + chunk_size ≤ buffer_size
      → (s' : AudioBufferExample F) × (generate_audio_samples source s ≡ ok s')
        × At (n + chunk_size) s'
  unfolding generate_audio_samples
  generate-At n s v room =
      let items : List F = chunk (source s.generated) chunk_size 0 in
      let many : length items ≡ chunk_size = length-chunk (source s.generated) chunk_size 0 in
      let (r', e, v') =
        push_samples-Filled buffer_size items n s.audio_buffer v (omega (arith, many)) in
      (
        record { audio_buffer = r'; generated = s.generated + 1 },
        rw e refl,
        subst (λ k. Filled buffer_size (n + k) r') many v',
      )

  -- A round of `process_audio_samples` that takes a whole chunk.
  process-popped :
      (s : AudioBufferExample F) {out : List F} {r' : Ring F} (k : ℕ)
      → s.audio_buffer.count ≡ chunk_size + k
      → pop_samples t chunk_size s.audio_buffer ≡ ok (out, r')
      → process t source s ≡ ok (record s { audio_buffer = r' })
  process-popped s k h e =
      let whole : min chunk_size s.audio_buffer.count ≡ chunk_size = omega arith in
      ap (λ m. m >>= λ p. ok (p.1))
        (process_audio_samples-pop_samples t s (ground arith)
          ∙ ap
              (λ n.
                pop_samples t n s.audio_buffer >>= λ p. ok (p.0, record s { audio_buffer = p.1 }))
              whole
          ∙ ap (λ m. m >>= λ p. ok (p.0, record s { audio_buffer = p.1 })) e)

  process-At :
      (n : ℕ) (s : AudioBufferExample F)
      → At (chunk_size + n) s
      → (s' : AudioBufferExample F) × (process t source s ≡ ok s') × At n s'
  process-At n s v =
      let (out, r', e, v') = pop_samples-Filled t buffer_size chunk_size n s.audio_buffer v in
      (
        record s { audio_buffer = r' },
        process-popped s n (omega (arith, v.holds.counted, v.many)) e,
        v',
      )

  process-At_zero : (s : AudioBufferExample F) → At 0 s → process t source s ≡ ok s
  unfolding process_audio_samples Ring.empty
  process-At_zero s v =
      let none_left : (s.audio_buffer.count == 0) ≡ true =
        ground (arith, v.holds.counted, v.many) in
      rw none_left refl

  -- The rounds that generate a chunk and process it, or generate none and process none.
  step_idle : (s : AudioBufferExample F) → simulation_step t source 0 s ≡ ok s
  unfolding simulation_step repeat
  step_idle s = refl

  -- Each of these rounds starts and ends with an empty buffer.
  record Round (step m : ℕ) (s : AudioBufferExample F) : Type ℓ where
    after : AudioBufferExample F
    runs : simulation_step t source step s ≡ ok after
    filled : At m after

  one_each :
      (s : AudioBufferExample F)
      → At 0 s
      → (s' : AudioBufferExample F) × ((repeat 1 (generate_audio_samples source) s >>= λ s1.
            repeat 1 (process t source) s1)
          ≡ ok s')
        × At 0 s'
  unfolding repeat
  one_each s v =
      let (s1, e1, v1) = generate-At 0 s v (omega arith) in
      let (s2, e2, v2) = process-At 0 s1 v1 in (s2, rw (e1, e2) refl, v2)

  step_one : (s : AudioBufferExample F) → At 0 s → Round 1 0 s
  unfolding simulation_step
  step_one s v = let (s', e, v') = one_each s v in record { after = s'; runs = e; filled = v' }

  step_two : (s : AudioBufferExample F) → At 0 s → Round 2 0 s
  unfolding simulation_step
  step_two s v = let (s', e, v') = one_each s v in record { after = s'; runs = e; filled = v' }

  step_three : (s : AudioBufferExample F) → At 0 s → Round 3 0 s
  unfolding simulation_step repeat
  step_three s v =
      let (s1, e1, v1) = generate-At 0 s v (omega arith) in
      let (s2, e2, v2) = process-At 0 s1 v1 in
      let e3 : process t source s2 ≡ ok s2 = process-At_zero s2 v2 in
      record { after = s2; runs = rw (e1, e2, e3) refl; filled = v2 }

  step_four : (s : AudioBufferExample F) → At 0 s → Round 4 chunk_size s
  unfolding simulation_step repeat
  step_four s v =
      let (s1, e1, v1) = generate-At 0 s v (omega arith) in
      record { after = s1; runs = rw e1 refl; filled = v1 }

  -- The fifth round overwrites a chunk and takes one: the tail stands on the oldest element.
  record Behind (s : AudioBufferExample F) : Type ℓ where
    capacity_is : s.audio_buffer.capacity ≡ buffer_size
    elements : List F
    many : length elements ≡ chunk_size
    phantoms : Phantoms s.audio_buffer elements 0
    tail_at : s.audio_buffer.tail ≡ slot s.audio_buffer.capacity s.audio_buffer.head 0

  generate-Overwritten :
      (s : AudioBufferExample F)
      → At buffer_size s
      → (s' : AudioBufferExample F) × (generate_audio_samples source s ≡ ok s')
        × (s'.audio_buffer.capacity ≡ buffer_size)
        × ((xs : List F) × Holds s'.audio_buffer xs × (length xs ≡ buffer_size))
        × (s'.audio_buffer.tail ≡ slot s'.audio_buffer.capacity s'.audio_buffer.head chunk_size)
  unfolding generate_audio_samples
  generate-Overwritten s v =
      let r : Ring F = s.audio_buffer in
      let h : Holds r v.elements = v.holds in
      let items : List F = chunk (source s.generated) chunk_size 0 in
      let many : length items ≡ chunk_size = length-chunk (source s.generated) chunk_size 0 in
      let o : Overwritten r items =
        push_samples-Overwritten items r v.elements h
          (ground (arith, h.full_is, h.counted, v.many, v.capacity_is)) in
      let c : ℕ = r.capacity in
      let size : c ≡ buffer_size = v.capacity_is in
      let start : r.tail ≡ r.head =
        v.in_step
        ∙ ap (slot c r.head) (omega (arith, h.counted, v.many, size))
        ∙ slot-round c r.head h.head_in in
      let back_there : slot c o.after.head chunk_size ≡ r.head =
        ap (λ n. slot c n chunk_size) (o.head_moved ∙ ap (slot c r.head) many)
        ∙ slot-slot c r.head chunk_size chunk_size
        ∙ ap (slot c r.head) (omega (arith, size))
        ∙ slot-round c r.head h.head_in in
      (
        record { audio_buffer = o.after; generated = s.generated + 1 },
        rw o.pushes refl,
        o.capacity_kept ∙ size,
        (o.elements, o.holds, Holds-full o.holds o.full_kept ∙ o.capacity_kept ∙ size),
        o.tail_kept
            ∙ start
            ∙ sym back_there
            ∙ ap (λ n. slot n o.after.head chunk_size) (sym o.capacity_kept),
      )

  process-Behind :
      (s : AudioBufferExample F) (xs : List F)
      → s.audio_buffer.capacity ≡ buffer_size
      → Holds s.audio_buffer xs
      → length xs ≡ buffer_size
      → s.audio_buffer.tail ≡ slot s.audio_buffer.capacity s.audio_buffer.head chunk_size
      → (s' : AudioBufferExample F) × (process t source s ≡ ok s') × Behind s'
  process-Behind s xs size h many at_tail =
      let r : Ring F = s.audio_buffer in
      let p : Popped t r xs 0 chunk_size =
        pop_samples-Popped t chunk_size r xs 0 (Holds-Phantoms h) (omega (arith, many)) in
      (
        record s { audio_buffer = p.after },
        process-popped s chunk_size (omega (arith, h.counted, many)) p.pops,
        record {
          capacity_is = p.capacity_kept ∙ size;
          elements = drop chunk_size xs;
          many = omega (arith, length-drop chunk_size xs, many);
          phantoms = p.phantoms;
          tail_at =
              p.tail_kept
              ∙ at_tail
              ∙ sym p.head_moved
              ∙ sym (slot-zero p.after.capacity p.after.head p.phantoms.head_in);
        },
      )

  step_five :
      (s : AudioBufferExample F)
      → At chunk_size s
      → (s' : AudioBufferExample F) × (simulation_step t source 5 s ≡ ok s') × Behind s'
  unfolding simulation_step repeat
  step_five s v =
      let (s1, e1, v1) = generate-At chunk_size s v (omega arith) in
      let (s2, e2, size, held, at_tail) = generate-Overwritten s1 v1 in
      let (s3, e3, v3) = process-Behind s2 held.0 size held.1 held.2 at_tail in
      (s3, rw (e1, e2, e3) refl, v3)

  process-fault :
      (s : AudioBufferExample F) → Phantoms s.audio_buffer [] (suc 511) → process t source s ≡ fault
  process-fault s v =
      let whole : min chunk_size s.audio_buffer.count ≡ suc 511 = omega (arith, v.counted) in
      let end : List F × Ring F → Result (List F × AudioBufferExample F) =
        λ p. ok (p.0, record s { audio_buffer = p.1 }) in
      ap (λ m. m >>= λ p. ok (p.1))
        (process_audio_samples-pop_samples t s (ground (arith, v.counted))
          ∙ ap (λ n. pop_samples t n s.audio_buffer >>= end) whole
          ∙ ap (λ m. m >>= end) (pop_samples-past t 511 s.audio_buffer 511 v))

  -- Both rounds of processing after one chunk was pushed from there: the first takes what that push
  -- left, the second meets memory that holds no object.
  step_six : (s : AudioBufferExample F) → Behind s → simulation_step t source 6 s ≡ fault
  unfolding simulation_step repeat generate_audio_samples
  step_six s v =
      let r : Ring F = s.audio_buffer in
      let items : List F = chunk (source s.generated) chunk_size 0 in
      let many : length items ≡ chunk_size = length-chunk (source s.generated) chunk_size 0 in
      let (r1, ys, e1, same, v1) =
        push_samples-Phantoms items r v.elements 0 0 v.phantoms v.tail_at
          (omega (arith, many, v.many))
          (omega (arith, many, v.many, v.phantoms.counted, v.capacity_is)) in
      let s1 : AudioBufferExample F = record { audio_buffer = r1; generated = s.generated + 1 } in
      let p : Popped t r1 ys (0 + length items) chunk_size =
        pop_samples-Popped t chunk_size r1 ys (0 + length items) v1 (omega (arith, same, v.many)) in
      let e2 : process t source s1 ≡ ok (record s1 { audio_buffer = p.after }) =
        process-popped s1 chunk_size (omega (arith, v1.counted, same, v.many, many)) p.pops in
      let none_left : drop chunk_size ys ≡ [] =
        nil_of_length (drop chunk_size ys)
          (omega (arith, length-drop chunk_size ys, same, v.many)) in
      let left : Phantoms p.after [] (suc 511) =
        subst (λ zs. Phantoms p.after zs (suc 511)) none_left
          (subst (Phantoms p.after (drop chunk_size ys)) (omega (arith, many)) p.phantoms) in
      let e3 : process t source (record s1 { audio_buffer = p.after }) ≡ fault =
        process-fault (record s1 { audio_buffer = p.after }) left in
      rw (e1, e2, e3) refl

  -- On a new buffer of `BUFFER_SIZE` samples, whatever the sound, `run_simulation` meets undefined
  -- behaviour: it reads samples that were destroyed.
  pub run_simulation-fault :
      (s : AudioBufferExample F)
      → Filled buffer_size 0 s.audio_buffer
      → run_simulation t source s ≡ fault
  unfolding run_simulation simulate
  run_simulation-fault s v =
      let r1 : Round 1 0 s = step_one s v in
      let r2 : Round 2 0 r1.after = step_two r1.after r1.filled in
      let r3 : Round 3 0 r2.after = step_three r2.after r2.filled in
      let r4 : Round 4 chunk_size r3.after = step_four r3.after r3.filled in
      let (s5, e5, behind) = step_five r4.after r4.filled in
      rw (step_idle s, r1.runs, r2.runs, r3.runs, r4.runs, e5, step_six s5 behind) refl
