-- ===== src/Audio/Analysis.antt =====
-- examples/audio_buffer_example.cc: `demonstrate_audio_analysis`. The arithmetic on `float` is a
-- parameter, and `source` gives the random sample of each round and each position. What is printed is
-- returned; pauses are left out.
use ring_buffer.Base.{
  ℕ, zero, suc, ◌+◌, List, [], ◌∷◌, ◌++◌, Option, some, add_size, ◌==◌, if◌then◌else◌,
}
use ring_buffer.Result.{Result, ok, followed}
use ring_buffer.Ring.{Ring}
use ring_buffer.Iterate.{begin, end, visit}
use ring_buffer.Audio.{chunk, push_samples}

-- `+`, `-` and `*` on samples, `/` by a count, `std::max` and `std::sqrt`.
pub record Floats {ℓ} (F : Type ℓ) : Type ℓ where
  pub nought : F
  pub plus : F → F → F
  pub minus : F → F → F
  pub times : F → F → F
  pub over : F → ℕ → F
  pub larger : F → F → F
  pub root : F → F

abbrev pub analysis_size : ℕ
analysis_size = 256

abbrev pub new_samples : ℕ
new_samples = 32

abbrev pub analysis_windows : ℕ
analysis_windows = 10

-- The variables of a round.
pub record Sums {ℓ} (F : Type ℓ) : Type ℓ where
  pub sum : F
  pub sum_sq : F
  pub count : ℕ

-- What is printed of a window. `rms` is the name that the code gives to a standard deviation.
pub record AnalysisWindow {ℓ} (F : Type ℓ) : Type ℓ where
  pub number : ℕ
  pub mean : F
  pub rms : F
  pub size : ℕ

pub record Analysis {ℓ} (F : Type ℓ) : Type ℓ where
  pub analysis_buffer : Ring F
  pub printed : List (AnalysisWindow F)

module _ {ℓ} {F : Type ℓ} (t : Floats F) where
  -- The body of the range-based `for` loop, for each of the samples.
  unfoldable pub add_up : List F → Sums F → Sums F
  add_up [] s = s
  add_up (sample ∷ samples) s = add_up samples (record {
    sum = t.plus s.sum sample;
    sum_sq = t.plus s.sum_sq (t.times sample sample);
    count = add_size s.count 1;
  })

  -- `i` is the number of the round, from 0 on.
  unfoldable pub analysed : ℕ → Ring F → Sums F → List (AnalysisWindow F)
  analysed i r s = if s.count == 0 then [] else window ∷ []
    where
      mean : F
      mean = t.over s.sum s.count

      variance : F
      variance = t.minus (t.over s.sum_sq s.count) (t.times mean mean)

      window : AnalysisWindow F
      window = record {
        number = i + 1;
        mean = mean;
        rms = t.root (t.larger t.nought variance);
        size = r.count;
      }

  module _ (source : ℕ → ℕ → F) (fuel name : ℕ) where
    -- A round of the loop; `name` is that of the buffer.
    unfoldable pub analysis_round : ℕ → Analysis F → Option (Result (Analysis F))
    analysis_round i s =
        followed (some (push_samples (chunk (source i) new_samples 0) s.analysis_buffer)) (λ r.
          followed (visit fuel r (begin name r) (end name r)) (λ samples.
            let sums : Sums F =
              add_up samples (record { sum = t.nought; sum_sq = t.nought; count = 0 }) in
            some (ok (record { analysis_buffer = r; printed = s.printed ++ analysed i r sums }))))

    -- With `rounds` of the rounds left.
    unfoldable pub analysis_rounds : ℕ → ℕ → Analysis F → Option (Result (Analysis F))
    analysis_rounds zero i s = some (ok s)
    analysis_rounds (suc rounds) i s =
        followed (analysis_round i s) (λ s'. analysis_rounds rounds (i + 1) s')

    -- From the new buffer on.
    unfoldable pub demonstrate_audio_analysis : Ring F → Option (Result (Analysis F))
    demonstrate_audio_analysis r =
        analysis_rounds analysis_windows 0 (record { analysis_buffer = r; printed = [] })
