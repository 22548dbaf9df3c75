-- ===== src/Priority/Onward.antt =====
-- How `demonstrate_priority_processing` of examples/producer_consumer_example.cc can go on: one thread at a
-- time, the others where they are.
use ring_buffer.Base.{
  ℕ, zero, suc, ◌+◌, ◌≡◌, ◌≢◌, ◌∙◌, refl, ap, Bool, true, false, inl, inr, ◌⊎◌, List, [], ◌∷◌, some,
  get_elem?, get_elem?-set_self, get_elem?-set_ne, lt-of-get_elem?, set, arith,
}
use ring_buffer.Result.{ok}
use ring_buffer.Ring.{Ring}
use ring_buffer.ThreadSafe.{
  Call, Answer, Cv, Rest, attempt, finish_rest, one, not_full, not_empty, finish,
}
use ring_buffer.ThreadSafe.Threads
use ring_buffer.ThreadSafe.Threads.{
  Pc, System, Signals, idle, ready, asleep, unlocked, answered, quiet, woken, nobody, moves, ends,
  sleeps, unlocks, goes_on, wakes, expires, returning,
}
use ring_buffer.ThreadSafe.Races.{waits}
use ring_buffer.Priority.{Packet, Processing, Reach, buffers, here, next}

module _ {ℓ} {A : Type ℓ} where
  left_alone :
      (v : Cv) (ts : List (Pc A)) (i j : ℕ) (c : Call A) (p : Pc A)
      → get_elem? ts i ≡ some (asleep v c)
      → get_elem? ts j ≡ some p
      → waits p ≡ false
      → get_elem? (set ts i (ready false c)) j ≡ some p
  left_alone v ts i j c p e f w =
      get_elem?-set_ne ts i j (ready false c) (λ same.
        let there : get_elem? ts i ≡ some p = rw same f in
        let place : asleep v c ≡ p = cc in let clash : true ≡ false = ap waits place ∙ w in cc)
      ∙ f

  asleep_or :
      (v : Cv) (p : Pc A) → ((c : Call A) × (p ≡ asleep v c)) ⊎ ((c : Call A) → p ≢ asleep v c)
  asleep_or not_full (asleep not_full c) = inl (c, refl)
  asleep_or not_empty (asleep not_empty c) = inl (c, refl)
  asleep_or not_full (asleep not_empty c) = inr (λ d e. cc)
  asleep_or not_empty (asleep not_full c) = inr (λ d e. cc)
  asleep_or v idle = inr (λ d e. cc)
  asleep_or v (ready late c) = inr (λ d e. cc)
  asleep_or v (unlocked k) = inr (λ d e. cc)
  asleep_or v (answered a) = inr (λ d e. cc)

  nobody-cons :
      (v : Cv) (p : Pc A) (ts : List (Pc A))
      → ((c : Call A) → p ≢ asleep v c)
      → ((j : ℕ) (c : Call A) → get_elem? ts j ≢ some (asleep v c))
      → (j : ℕ) (c : Call A) → get_elem? (p ∷ ts) j ≢ some (asleep v c)
  nobody-cons v p ts h k zero c e = h c (cc)
  nobody-cons v p ts h k (suc j) c e = k j c e

  -- Some thread waits, or none does.
  sleeper :
      (v : Cv) (ts : List (Pc A))
      → ((j : ℕ) × (c : Call A) × (get_elem? ts j ≡ some (asleep v c)))
        ⊎ ((j : ℕ) (c : Call A) → get_elem? ts j ≢ some (asleep v c))
  sleeper v [] = inr (λ j c e. cc)
  sleeper v (p ∷ ts) = elim (sleeper v ts) [
    | inl (j, c, e) ↦ inl (suc j, c, e)
    | inr none_later ↦ elim (asleep_or v p) [
      | inl (c, e) ↦ inl (0, c, ap some e)
      | inr not_here ↦ inr (nobody-cons v p ts not_here none_later)
    ]
  ]

  -- A signal can be given, and a thread that does not wait stays where it is.
  pub signal_given :
      (v : Cv) (ts : List (Pc A))
      → (us : List (Pc A)) × Signals ts (one v) us
        × ((j : ℕ) (p : Pc A) → get_elem? ts j ≡ some p → waits p ≡ false → get_elem? us j ≡ some p)
  signal_given v ts = elim (sleeper v ts) [
    | inl (i, c, e) ↦
        (set ts i (ready false c), woken i c e, λ j p f w. left_alone v ts i j c p e f w)
    | inr none_there ↦ (ts, nobody none_there, λ j p f w. f)
  ]

  -- A thread gets its answer, and a signal is given.
  answers :
      (ts : List (Pc A)) (i : ℕ) (a : Answer A) (v : Cv) {old : Pc A}
      → get_elem? ts i ≡ some old
      → (us : List (Pc A)) × Signals (set ts i (answered a)) (one v) us
        × (get_elem? us i ≡ some (answered a))
        × ((j : ℕ) → i ≢ j → get_elem? ts j ≡ some idle → get_elem? us j ≡ some idle)
  answers ts i a v e =
      let (us, given, stay) = signal_given v (set ts i (answered a)) in
      (
        us,
        given,
        stay i (answered a) (get_elem?-set_self ts i (answered a) (lt-of-get_elem? ts i e)) refl,
        λ j apart f. stay j idle (get_elem?-set_ne ts i j (answered a) apart ∙ f) refl,
      )

-- The program goes on by thread `i` only, which adds to the counters of the producers: the threads
-- outside stay there.
pub record Onward (i more_high more_low : ℕ) (s t : Processing) : Type 0 where
  pub reach : Reach s t
  pub others :
      (j : ℕ)
      → i ≢ j
      → get_elem? s.system.threads j ≡ some idle
      → get_elem? t.system.threads j ≡ some idle
  pub unterminated : t.terminated ≡ false
  pub high_more : t.high_priority_count ≡ s.high_priority_count + more_high
  pub low_more : t.low_priority_count ≡ s.low_priority_count + more_low

pub Reach-trans : {s t u : Processing} → Reach s t → Reach t u → Reach s u
Reach-trans r here = r
Reach-trans r (next q σ) = next (Reach-trans r q) σ

pub Onward-after :
    {i h l : ℕ} {s t u : Processing} → Onward i 0 0 s t → Onward i h l t u → Onward i h l s u
Onward-after o p = record {
  reach = Reach-trans o.reach p.reach;
  others = λ j apart e. p.others j apart (o.others j apart e);
  unterminated = p.unterminated;
  high_more = omega (arith, o.high_more, p.high_more);
  low_more = omega (arith, o.low_more, p.low_more);
}

pub stay : {i : ℕ} {s : Processing} → s.terminated ≡ false → Onward i 0 0 s s
stay z = record {
  reach = here;
  others = λ j apart e. e;
  unterminated = z;
  high_more = omega arith;
  low_more = omega arith;
}

-- One step of a thread at the buffer.
goes :
    {s : Processing} {sys : System Packet} (i : ℕ) (σ : Threads.Step (λ c. false) s.system sys)
    → returning σ ≡ false
    → s.terminated ≡ false
    → ((j : ℕ)
        → i ≢ j
        → get_elem? s.system.threads j ≡ some idle
        → get_elem? sys.threads j ≡ some idle)
    → Onward i 0 0 s (record s { system = sys })
goes i σ q z k = record {
  reach = next here (buffers σ q z);
  others = k;
  unterminated = z;
  high_more = omega arith;
  low_more = omega arith;
}

-- The states that differ in the buffer and the threads only.
abbrev pub with_system : Processing → Ring Packet → List (Pc Packet) → Processing
with_system s r ts = record s { system = record { ring = r; threads = ts } }

module _ {s : Processing} (i : ℕ) (z : s.terminated ≡ false) where
  pub ends_with :
      {late : Bool} {c : Call Packet} {r' : Ring Packet} {a : Answer Packet} {v : Cv}
      → get_elem? s.system.threads i ≡ some (ready late c)
      → attempt late c s.system.ring ≡ ok (finish r' a (one v))
      → (us : List (Pc Packet)) × Onward i 0 0 s (with_system s r' us)
        × (get_elem? us i ≡ some (answered a))
  ends_with {late} {c} {a = a} {v} e f =
      let (us, given, there, stay) = answers s.system.threads i a v e in
      (us, goes i (ends i late c e f given) refl z stay, there)

  pub goes_on_with :
      {k : Rest Packet} {r' : Ring Packet} {a : Answer Packet} {v : Cv}
      → get_elem? s.system.threads i ≡ some (unlocked k)
      → finish_rest k s.system.ring ≡ ok (finish r' a (one v))
      → (us : List (Pc Packet)) × Onward i 0 0 s (with_system s r' us)
        × (get_elem? us i ≡ some (answered a))
  goes_on_with {k} {a = a} {v} e f =
      let (us, given, there, stay) = answers s.system.threads i a v e in
      (us, goes i (goes_on i k e f given) refl z stay, there)

  -- A step that only moves the thread.
  pub moves_to :
      {old : Pc Packet} (new : Pc Packet)
      → get_elem? s.system.threads i ≡ some old
      → (σ : Threads.Step
          (λ c. false)
          s.system
          (record s.system { threads = set s.system.threads i new }))
      → returning σ ≡ false
      → Onward i 0 0 s (with_system s s.system.ring (set s.system.threads i new))
        × (get_elem? (set s.system.threads i new) i ≡ some new)
  moves_to new e σ q = (
    goes i σ q z (λ j apart f. get_elem?-set_ne s.system.threads i j new apart ∙ f),
    get_elem?-set_self s.system.threads i new (lt-of-get_elem? s.system.threads i e),
  )
