-- ===== src/Audio.antt =====
-- examples/audio_buffer_example.cc: the class `AudioBufferExample`. A sample is a `float`, a type that is
-- a parameter with the operations that the code uses; sound and noise enter as `source`, which gives
-- the samples of each chunk. What is printed is returned or left out.
pub mod Loops
pub mod Behind
pub mod Simulation
pub mod Analysis
pub mod Windows
pub mod Tests
use ring_buffer.Base.{
  ℕ, zero, suc, ◌+◌, ◌*◌, ◌%◌, Bool, true, false, List, [], ◌∷◌, ltb, ◌==◌, if◌then◌else◌, min,
}
use ring_buffer.Result.{Result, ok, throw, fault, ◌>>=◌}
use ring_buffer.Ring
use ring_buffer.Ring.{Ring}

-- The arithmetic on samples: `sample * gain`, the comparisons with 1 and -1, and these two.
pub record Arithmetic {ℓ} (F : Type ℓ) : Type ℓ where
  pub amplified : F → F
  pub above_one : F → Bool
  pub below_minus_one : F → Bool
  pub one : F
  pub minus_one : F

abbrev pub buffer_size : ℕ
buffer_size = 1024

abbrev pub chunk_size : ℕ
chunk_size = 512

-- The buffer, and the number of chunks that were generated.
pub record AudioBufferExample {ℓ} (F : Type ℓ) : Type ℓ where
  pub audio_buffer : Ring F
  pub generated : ℕ

pub data Warning : Type 0 where
  nearly_full nearly_empty fine : Warning

module _ {ℓ} {F : Type ℓ} where
  -- The samples of a chunk from the position `i` on.
  unfoldable pub chunk : (ℕ → F) → ℕ → ℕ → List F
  chunk samples zero i = []
  chunk samples (suc rounds) i = samples i ∷ chunk samples rounds (i + 1)

  unfoldable pub push_samples : List F → Ring F → Result (Ring F)
  push_samples [] r = ok r
  push_samples (x ∷ xs) r = do r' ← Ring.push_back r x; push_samples xs r'

  unfoldable pub generate_audio_samples :
      (ℕ → ℕ → F) → AudioBufferExample F → Result (AudioBufferExample F)
  generate_audio_samples source s = do
    r ← push_samples (chunk (source s.generated) chunk_size 0) s.audio_buffer
    ok (record { audio_buffer = r; generated = s.generated + 1 })

  -- The gain, and the clamp to the range from -1 to 1.
  unfoldable pub processed : Arithmetic F → F → F
  processed t sample =
      let louder : F = t.amplified sample in
      let capped : F = if t.above_one louder then t.one else louder in
      if t.below_minus_one capped then t.minus_one else capped

  unfoldable pub pop_samples : Arithmetic F → ℕ → Ring F → Result (List F × Ring F)
  pop_samples t zero r = ok ([], r)
  pop_samples t (suc rounds) r = do
    (sample, r1) ← Ring.pop_front r
    (rest, r2) ← pop_samples t rounds r1
    ok (processed t sample ∷ rest, r2)

  -- The processed samples, and what is left.
  unfoldable pub process_audio_samples :
      Arithmetic F → AudioBufferExample F → Result (List F × AudioBufferExample F)
  process_audio_samples t s = if Ring.empty s.audio_buffer then ok ([], s) else some_samples
    where
      some_samples : Result (List F × AudioBufferExample F)
      some_samples = do
        (samples, r) ← pop_samples t (min chunk_size s.audio_buffer.count) s.audio_buffer
        ok (samples, record s { audio_buffer = r })

  -- The utilization is at most 100, and its `float` is exact at this capacity.
  unfoldable pub monitor_audio_buffer : AudioBufferExample F → Warning
  monitor_audio_buffer s =
      let size : ℕ = s.audio_buffer.count in
      let capacity : ℕ = s.audio_buffer.capacity in
      if ltb (90 * capacity) (100 * size)
      then nearly_full
      else if ltb (100 * size) (10 * capacity)
      then nearly_empty
      else fine

  -- `for (int i = 0; i < factor; ++i)`
  unfoldable pub repeat :
      ℕ
      → (AudioBufferExample F → Result (AudioBufferExample F))
      → AudioBufferExample F
      → Result (AudioBufferExample F)
  repeat zero body s = ok s
  repeat (suc rounds) body s = do s' ← body s; repeat rounds body s'

abbrev pub generation_factor : ℕ → ℕ
generation_factor step = if step % 7 == 0 then 0 else if step % 5 == 0 then 2 else 1

abbrev pub processing_factor : ℕ → ℕ
processing_factor step = if step % 4 == 0 then 0 else if step % 3 == 0 then 2 else 1

module _ {ℓ} {F : Type ℓ} (t : Arithmetic F) (source : ℕ → ℕ → F) where
  abbrev pub process : AudioBufferExample F → Result (AudioBufferExample F)
  process s = process_audio_samples t s >>= λ p. ok (p.1)

  -- A round of the loop of `run_simulation`, less what it prints.
  unfoldable pub simulation_step : ℕ → AudioBufferExample F → Result (AudioBufferExample F)
  simulation_step step s = do
    s1 ← repeat (generation_factor step) (generate_audio_samples source) s
    repeat (processing_factor step) process s1

  -- With `rounds` of the rounds left.
  unfoldable pub simulate : ℕ → ℕ → AudioBufferExample F → Result (AudioBufferExample F)
  simulate zero step s = ok s
  simulate (suc rounds) step s = do s' ← simulation_step step s; simulate rounds (step + 1) s'

  unfoldable pub run_simulation : AudioBufferExample F → Result (AudioBufferExample F)
  run_simulation s = simulate 20 0 s
