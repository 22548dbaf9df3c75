-- ===== src/Audio/Windows.antt =====
-- What `demonstrate_audio_analysis` of examples/audio_buffer_example.cc prints.
use ring_buffer.Base.{
  ℕ, zero, suc, ◌+◌, ◌-◌, ◌≤◌, ◌<◌, ◌≡◌, ◌∙◌, refl, sym, ap, subst, false, List, [], ◌∷◌, ◌++◌, map,
  append_assoc, append-nil, some, length, length-append, length-drop, add_size, max_size, ◌==◌,
  arith,
}
use mathlib.Core.List.{foldl}
use ring_buffer.Result.{ok, followed}
use ring_buffer.Window.Latest.{latest, drop-nil}
use ring_buffer.Ring.{Ring}
use ring_buffer.Ring.Holds.{Represents}
use ring_buffer.Ring.Latest.{push_back-latest}
use ring_buffer.Iterate.{begin, end, visit, visit-Holds}
use ring_buffer.Audio.{chunk, push_samples}
use ring_buffer.Audio.Loops.{length-chunk}
use ring_buffer.Audio.Analysis.{
  Floats, Sums, AnalysisWindow, Analysis, analysis_size, new_samples, analysis_windows, add_up,
  analysed, analysis_round, analysis_rounds, demonstrate_audio_analysis,
}

module _ {ℓ} {F : Type ℓ} where
  -- The samples of the first rounds.
  abbrev pub drawn : (ℕ → ℕ → F) → ℕ → List F
  drawn source zero = []
  drawn source (suc n) = drawn source n ++ chunk (source n) new_samples 0

  -- The buffer has a capacity, and represents the latest of some samples.
  record Latest (n : ℕ) (r : Ring F) (xs : List F) : Type ℓ where
    capacity_is : r.capacity ≡ n
    represents : Represents r (latest n xs)

  push_samples-Latest :
      (items : List F) (n : ℕ) (r : Ring F) (old : List F)
      → Latest n r old
      → (r' : Ring F) × (push_samples items r ≡ ok r') × Latest n r' (old ++ items)
  unfolding push_samples
  push_samples-Latest [] n r old v = (r, refl, subst (Latest n r) (sym (append-nil old)) v)
  push_samples-Latest (x ∷ items) n r old v =
      let (r1, e1, c, v1) = push_back-latest r n old x v.capacity_is v.represents in
      let (r2, e2, v2) =
        push_samples-Latest items n r1 (old ++ x ∷ [])
          (record { capacity_is = c; represents = v1 }) in
      (r2, rw e1 e2, subst (Latest n r2) (append_assoc old (x ∷ []) items) v2)

  length-drawn : (source : ℕ → ℕ → F) (n : ℕ) → n ≤ length (drawn source n)
  length-drawn source zero = omega arith
  length-drawn source (suc n) =
      let more : List F = chunk (source n) new_samples 0 in
      omega (
        arith,
        length-drawn source n,
        length-append (drawn source n) more,
        length-chunk (source n) new_samples 0,
      )

module _ {ℓ} {F : Type ℓ} (t : Floats F) where
  abbrev pub square : F → F
  square x = t.times x x

  abbrev pub sum_of : List F → F
  sum_of xs = foldl t.plus t.nought xs

  -- The mean of some samples, and their standard deviation, which the code calls `rms`.
  abbrev pub window_of : ℕ → List F → AnalysisWindow F
  window_of number xs =
      let mean : F = t.over (sum_of xs) (length xs) in
      let mean_sq : F = t.over (sum_of (map square xs)) (length xs) in
      record {
        number = number;
        mean = mean;
        rms = t.root (t.larger t.nought (t.minus mean_sq (square mean)));
        size = length xs;
      }

  add_up-foldl :
      (xs : List F) (s : Sums F)
      → s.count + length xs ≤ max_size
      → add_up t xs s ≡ record {
        sum = foldl t.plus s.sum xs;
        sum_sq = foldl t.plus s.sum_sq (map square xs);
        count = s.count + length xs;
      }
  unfolding add_up
  add_up-foldl [] s h = ap (λ n. record s { count = n }) (omega arith)
  add_up-foldl (x ∷ xs) s h =
      let next : add_size s.count 1 ≡ s.count + 1 = omega arith in
      add_up-foldl xs
        (record {
          sum = t.plus s.sum x;
          sum_sq = t.plus s.sum_sq (t.times x x);
          count = add_size s.count 1;
        })
        (omega arith)
      ∙ ap
          (λ n. record {
            sum = foldl t.plus s.sum (x ∷ xs);
            sum_sq = foldl t.plus s.sum_sq (map square (x ∷ xs));
            count = n;
          })
          (omega arith)

  analysed-latest :
      (i : ℕ) (r : Ring F) (xs : List F)
      → Represents r xs
      → 0 < length xs
      → analysed t i r (add_up t xs (record { sum = t.nought; sum_sq = t.nought; count = 0 }))
        ≡ window_of (i + 1) xs ∷ []
  unfolding analysed
  analysed-latest i r xs v some_left =
      let few : 0 + length xs ≤ max_size = omega (arith, v.counted, v.count_in, v.capacity_small) in
      let proper : (length xs == 0) ≡ false = ground arith in
      let whole : 0 + length xs ≡ length xs = omega arith in
      ap (analysed t i r) (
        add_up-foldl xs (record { sum = t.nought; sum_sq = t.nought; count = 0 }) few
        ∙ ap (λ n. record { sum = sum_of xs; sum_sq = sum_of (map square xs); count = n }) whole)
      ∙ rw (proper, v.counted) refl

  -- What is printed in the first rounds.
  abbrev pub windows : (ℕ → ℕ → F) → ℕ → List (AnalysisWindow F)
  windows source zero = []
  windows source (suc n) =
      windows source n ++ window_of (n + 1) (latest analysis_size (drawn source (suc n))) ∷ []

  module _ (source : ℕ → ℕ → F) (fuel name : ℕ) where
    analysis_round-Latest :
        (i : ℕ) (s : Analysis F)
        → analysis_size < fuel
        → Latest analysis_size s.analysis_buffer (drawn source i)
        → (r' : Ring F) × (analysis_round t source fuel name i s
            ≡ some (
                ok (record {
                  analysis_buffer = r';
                  printed =
                      s.printed
                      ++ window_of (i + 1) (latest analysis_size (drawn source (suc i))) ∷ [];
                })))
          × Latest analysis_size r' (drawn source (suc i))
    unfolding analysis_round
    analysis_round-Latest i s enough v =
        let all : List F = drawn source (suc i) in
        let xs : List F = latest analysis_size all in
        let (r', e, v') =
          push_samples-Latest (chunk (source i) new_samples 0) analysis_size s.analysis_buffer
            (drawn source i) v in
        let rep : Represents r' xs = v'.represents in
        let within : length xs ≤ analysis_size =
          omega (arith, rep.counted, rep.count_in, v'.capacity_is) in
        let some_left : 0 < length xs =
          omega
            (arith, length-drop (length all - analysis_size) all, length-drawn source (suc i)) in
        let seen : visit fuel r' (begin name r') (end name r') ≡ some (ok xs) =
          visit-Holds name r' xs fuel rep.holds (omega arith) in
        (r', rw (e, seen, analysed-latest i r' xs rep some_left) refl, v')

    abbrev state : Ring F → ℕ → Analysis F
    state r n = record { analysis_buffer = r; printed = windows source n }

    analysis_rounds-Latest :
        (rounds i : ℕ) (r : Ring F)
        → analysis_size < fuel
        → Latest analysis_size r (drawn source i)
        → (r' : Ring F) × (analysis_rounds t source fuel name rounds i (state r i)
            ≡ some (ok (state r' (rounds + i))))
          × Latest analysis_size r' (drawn source (rounds + i))
    unfolding analysis_rounds
    analysis_rounds-Latest zero i r enough v =
        let sum : i ≡ 0 + i = omega arith in
        (
          r,
          ap (λ n. some (ok (state r n))) sum,
          subst (λ n. Latest analysis_size r (drawn source n)) sum v,
        )
    analysis_rounds-Latest (suc rounds) i r enough v =
        let (r1, e1, v1) = analysis_round-Latest i (state r i) enough v in
        let next : i + 1 ≡ suc i = omega arith in
        let (r2, e2, v2) = analysis_rounds-Latest rounds (suc i) r1 enough v1 in
        let sum : rounds + suc i ≡ suc rounds + i = omega arith in
        (
          r2,
          ap (λ m. followed m (λ s'. analysis_rounds t source fuel name rounds (i + 1) s')) e1
              ∙ ap (λ n. analysis_rounds t source fuel name rounds n (state r1 (suc i))) next
              ∙ e2
              ∙ ap (λ n. some (ok (state r2 n))) sum,
          subst (λ n. Latest analysis_size r2 (drawn source n)) sum v2,
        )

    -- On a new buffer of capacity 256 that represents the empty list, and with more fuel than that for
    -- each loop over the buffer, the audio analysis ends and throws nothing. For each of its ten rounds it
    -- prints the mean, the standard deviation (the root of the mean of the squares less the square of the
    -- mean, or of 0 if that is larger) and the number of the latest 256 of the samples that were drawn so
    -- far, or of all if they are fewer, added up oldest first.
    pub demonstrate_audio_analysis-windows :
        (r : Ring F)
        → Represents r []
        → r.capacity ≡ analysis_size
        → analysis_size < fuel
        → (r' : Ring F) × (demonstrate_audio_analysis t source fuel name r
            ≡ some
                (ok (record { analysis_buffer = r'; printed = windows source analysis_windows })))
          × Represents r' (latest analysis_size (drawn source analysis_windows))
    unfolding demonstrate_audio_analysis
    demonstrate_audio_analysis-windows r v c enough =
        let start : Latest analysis_size r (drawn source 0) = record {
          capacity_is = c;
          represents = subst (Represents r) (sym (drop-nil (0 - analysis_size))) v;
        } in
        let (r', e, v') = analysis_rounds-Latest analysis_windows 0 r enough start in
        (r', e, v'.represents)
