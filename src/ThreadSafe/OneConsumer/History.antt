-- ===== src/ThreadSafe/OneConsumer/History.antt =====
-- The runs of a program over include/thread_safe_ring_buffer.h with one thread that takes elements out.
use ring_buffer.Base.{
  ◌≢◌, append_assoc, ℕ, ◌≡◌, ◌<◌, ◌∙◌, sym, ap, Bool, true, false, List, [], ◌++◌, append-nil,
  length, some, get_elem?, set, arith,
}
use ring_buffer.Result.{fault, Exception}
use ring_buffer.Ring.Holds.{Represents}
use ring_buffer.ThreadSafe.{raised, Call, Rest, attempt, finish_rest}
use ring_buffer.ThreadSafe.Threads.{System, Step, idle, ready, unlocked, answered, quiet}
use ring_buffer.ThreadSafe.History.{step_added, step_removed}
use ring_buffer.ThreadSafe.Places.{AllFit-get}
use ring_buffer.ThreadSafe.OneConsumer.Calls.{plays, attempt-ends, finish_rest-ends, hears-raised}
use ring_buffer.ThreadSafe.OneConsumer.{Fits, IsServed, Step-IsServed, moved, weigh-get}

-- The program runs: a thread is at the buffer, or one that is outside makes a call of its worker.
pub data Run {ℓ} {W : Type 0} {A : Type ℓ} (makes : W → Call A → Bool) (ws : List W) (s : System A)
    : System A → Type ℓ where
  here : Run makes ws s s
  at_buffer : {t u : System A} → Run makes ws s t → Step (λ c. false) t u → Run makes ws s u
  calls :
      {t : System A}
      → Run makes ws s t
      → (i : ℕ) (w : W) (c : Call A) → get_elem? ws i ≡ some w
      → makes w c ≡ true
      → get_elem? t.threads i ≡ some idle
      → Run makes ws s (record t { threads = set t.threads i (ready false c) })

module _ {ℓ} {W : Type 0} {A : Type ℓ} {makes : W → Call A → Bool} {ws : List W} where
  -- What was put in over a run, and what was taken out.
  abbrev pub put_in : {s t : System A} → Run makes ws s t → List A
  put_in here = []
  put_in (at_buffer before σ) = put_in before ++ step_added σ
  put_in (calls before i w c at m e) = put_in before

  abbrev pub taken_out : {s t : System A} → Run makes ws s t → List A
  taken_out here = []
  taken_out (at_buffer before σ) = taken_out before ++ step_removed σ
  taken_out (calls before i w c at m e) = taken_out before

-- No thread holds an exception, and none has a wrong access to memory in its next step.
pub record IsSafe {ℓ} {A : Type ℓ} (s : System A) : Type ℓ where
  pub no_exception : (i : ℕ) (x : Exception) → get_elem? s.threads i ≢ some (answered (raised x))
  pub turn_ends :
      (i : ℕ) (late : Bool) (c : Call A)
      → get_elem? s.threads i ≡ some (ready late c)
      → attempt late c s.ring ≢ fault
  pub rest_ends :
      (i : ℕ) (k : Rest A)
      → get_elem? s.threads i ≡ some (unlocked k)
      → finish_rest k s.ring ≢ fault

module _ {ℓ} {W : Type 0} {A : Type ℓ} (makes : W → Call A → Bool) (pops : W → Bool)
    (plays_by : (w : W) (c : Call A) → makes w c ≡ true → plays (pops w) c ≡ true) where
  Run-IsServed :
      {ws : List W} {s t : System A} {xs : List A}
      → IsServed makes pops plays_by ws s xs
      → (ρ : Run makes ws s t)
      → (ys : List A) × (xs ++ put_in ρ ≡ taken_out ρ ++ ys) × IsServed makes pops plays_by ws t ys
  Run-IsServed {xs = xs} h here = (xs, append-nil xs, h)
  Run-IsServed {xs = xs} h (at_buffer before σ) =
      let (ys, even, h') = Run-IsServed h before in
      let (zs, even', h'') = Step-IsServed makes pops plays_by σ h' in
      (
        zs,
        sym (append_assoc xs (put_in before) (step_added σ))
            ∙ ap (λ l. l ++ step_added σ) even
            ∙ append_assoc (taken_out before) ys (step_added σ)
            ∙ ap (λ l. taken_out before ++ l) even'
            ∙ sym (append_assoc (taken_out before) (step_removed σ) zs),
        h'',
      )
  Run-IsServed {ws} h (calls {t} before i w c at m e) =
      let (ys, even, h') = Run-IsServed h before in
      (
        ys,
        even,
        moved makes pops plays_by t.ring ys i (ready false c) at e m h'.represents h'.in_step
            (omega arith) quiet h',
      )

  pub IsServed-IsSafe :
      {ws : List W} {s : System A} {xs : List A} → IsServed makes pops plays_by ws s xs → IsSafe s
  IsServed-IsSafe {ws} {s} {xs} h = record {
    no_exception = λ i x e.
        let (w, _, m) = AllFit-get (Fits makes pops plays_by) ws s.threads i h.fit e in
        hears-raised A (pops w) x m;
    turn_ends = λ i late c e.
        let (w, _, m) = AllFit-get (Fits makes pops plays_by) ws s.threads i h.fit e in
        attempt-ends (pops w) late c s.ring xs (plays_by w c m) h.represents h.in_step;
    rest_ends = λ i k e.
        let (w, at, m) = AllFit-get (Fits makes pops plays_by) ws s.threads i h.fit e in
        let left : 0 < length xs =
          omega (arith, h.backed, weigh-get makes pops plays_by ws s.threads i at e) in
        finish_rest-ends k s.ring xs (pops w) m left h.represents h.in_step;
  }

  -- Each worker of a program makes calls of `push_back`, except one, which makes calls of
  -- `pop_front_with_timeout`, and may already be under way. The buffer represents a queue, its tail in
  -- step, that has an element if that one has passed its test. What a call does without the mutex is
  -- one step. However the threads interleave, no call ends in an exception or in a wrong access to
  -- memory, and what was in the queue and then what was put in, in this order, is what was taken out
  -- and then what the queue holds.
  pub one_consumer :
      {ws : List W} {s t : System A} {xs : List A}
      → IsServed makes pops plays_by ws s xs
      → (ρ : Run makes ws s t)
      → IsSafe t × ((ys : List A) × (xs ++ put_in ρ ≡ taken_out ρ ++ ys) × Represents t.ring ys)
  one_consumer h ρ =
      let (ys, even, h') = Run-IsServed h ρ in (IsServed-IsSafe h', (ys, even, h'.represents))
