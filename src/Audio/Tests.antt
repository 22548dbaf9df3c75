-- ===== src/Audio/Tests.antt =====
-- A new audio buffer, a small arithmetic on numbers, and the theorems at them.
use ring_buffer.Base.{
  Option, ℕ, ◌+◌, ◌%◌, ◌≡◌, ◌<◌, ◌≤◌, refl, sym, false, some, ◌-◌, ◌*◌, if◌then◌else◌, [], ◌∷◌,
  none, ltb, replicate, length-replicate, get_elem?-replicate, slot-lt, slot-zero, max_size, map,
  arith,
}
use ring_buffer.Result.{ok, fault}
use ring_buffer.Memory.{block}
use ring_buffer.Ring.{Ring}
use ring_buffer.Ring.Holds.{Holds, Represents, Represents-IsInStep}
use ring_buffer.Ring.Tests.{filled, filled-Holds}
use ring_buffer.Audio.{Arithmetic, buffer_size, process_audio_samples, processed, run_simulation}
use ring_buffer.Audio.Loops.{Filled, process_audio_samples-Holds}
use ring_buffer.Audio.Simulation.{run_simulation-fault}
use ring_buffer.Audio.Analysis.{Floats, analysis_size, analysis_windows, demonstrate_audio_analysis}
use ring_buffer.Audio.Windows.{windows, drawn, demonstrate_audio_analysis-windows}
use ring_buffer.Window.Latest.{latest}

new_buffer : ℕ → Ring ℕ
new_buffer n = record {
  capacity = n;
  allocator = 0;
  buffer = block (replicate n none);
  head = 0;
  tail = 0;
  count = 0;
  full = false;
  just_overwrote = false;
  overwrite_position = 0;
}

new_buffer-Holds : (n : ℕ) → 0 < n → n ≤ max_size → Holds (new_buffer n) []
unfolding new_buffer
new_buffer-Holds n pos small = record {
  valid = ground (arith, length-replicate {A = Option ℕ} n none);
  counted = refl;
  layout = λ i h. get_elem?-replicate n none _ (slot-lt n 0 i pos);
}

new_buffer-Filled : (n : ℕ) → 0 < n → n ≤ max_size → Filled n 0 (new_buffer n)
unfolding new_buffer
new_buffer-Filled n pos small = record {
  capacity_is = refl;
  elements = [];
  many = refl;
  holds = new_buffer-Holds n pos small;
  in_step = sym (slot-zero n 0 pos);
  unset = refl;
}

-- Samples are the numbers from 0 to 4, where 2 stands for silence, 3 for 1 and 1 for -1.
abbrev small : Arithmetic ℕ
small = record {
  amplified = λ x. x;
  above_one = λ x. ltb 3 x;
  below_minus_one = λ x. ltb x 1;
  one = 3;
  minus_one = 1;
}

run_simulation-fault_example :
    run_simulation small
      (λ k i. (k + i) % 5)
      (record { audio_buffer = new_buffer buffer_size; generated = 0 })
    ≡ fault
run_simulation-fault_example =
    run_simulation-fault small (λ k i. (k + i) % 5)
      (record { audio_buffer = new_buffer buffer_size; generated = 0 })
      (new_buffer-Filled buffer_size (omega arith) (omega arith))

process_audio_samples-Holds_example :
    (r' : Ring ℕ) × (process_audio_samples small (record { audio_buffer = filled; generated = 1 })
      ≡ ok (map (processed small) (1 ∷ 2 ∷ 3 ∷ []), record { audio_buffer = r'; generated = 1 }))
    × Holds r' []
process_audio_samples-Holds_example =
    process_audio_samples-Holds small (record { audio_buffer = filled; generated = 1 })
      (1 ∷ 2 ∷ 3 ∷ []) filled-Holds

new_buffer-Represents : (n : ℕ) → 0 < n → n ≤ max_size → Represents (new_buffer n) []
new_buffer-Represents n pos small =
    let v : Filled n 0 (new_buffer n) = new_buffer-Filled n pos small in
    Represents-IsInStep (new_buffer n) (new_buffer-Holds n pos small) v.in_step v.unset

-- A division that forgets its divisor and a root that changes nothing.
abbrev naturals : Floats ℕ
naturals = record {
  nought = 0;
  plus = λ x y. x + y;
  minus = λ x y. x - y;
  times = λ x y. x * y;
  over = λ x n. x;
  larger = λ x y. if ltb x y then y else x;
  root = λ x. x;
}

demonstrate_audio_analysis-windows_example :
    (r' : Ring ℕ) × (demonstrate_audio_analysis naturals
        (λ k i. (k + i) % 5)
        257
        7
        (new_buffer analysis_size)
      ≡ some (
          ok (record {
            analysis_buffer = r';
            printed = windows naturals (λ k i. (k + i) % 5) analysis_windows;
          })))
    × Represents r' (latest analysis_size (drawn (λ k i. (k + i) % 5) analysis_windows))
unfolding new_buffer
demonstrate_audio_analysis-windows_example =
    demonstrate_audio_analysis-windows naturals (λ k i. (k + i) % 5) 257 7
      (new_buffer analysis_size) (new_buffer-Represents analysis_size (omega arith) (omega arith))
      refl (omega arith)
