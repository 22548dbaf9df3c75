-- ===== src/ThreadSafe/Refine.antt =====
-- The interleavings of threads that call include/thread_safe_ring_buffer.h, without the calls that
-- release the mutex early, against those of threads at the queue.
use ring_buffer.Base.{
  All-get, All-set, ℕ, ◌≡◌, subst, Bool, true, false, List, some, get_elem?, set, ◌≢◌,
}
use ring_buffer.Result.{Result, ok}
use ring_buffer.Ring.{Ring}
use ring_buffer.Ring.Holds.{Represents, IsInStep}
use ring_buffer.ThreadSafe.{Call, Answer, Cv, Signal, Rest, Outcome, attempt, finish, sleep, unlock}
use ring_buffer.ThreadSafe.Threads.{
  Pc, Moves, Signals, System, Step, Reach, ready, asleep, answered, moves, ends, sleeps, unlocks,
  goes_on, here, next,
}
use ring_buffer.ThreadSafe.Queue
use ring_buffer.ThreadSafe.Queue.{Turn, State, stays, replies, serve}
use ring_buffer.ThreadSafe.Turns.{lets_go, Serves, attempt-Serves}
use ring_buffer.ThreadSafe.Whole.{IsWhole, AreWhole, AreWhole-Signals, AreWhole-Moves}

module _ {ℓ} {A : Type ℓ} where
  -- What the end of a critical section tells of the turn that it took.
  pub Serves-finish :
      (cap : ℕ) (w : Turn A) {res : Result (Outcome A)} {r' : Ring A} {a : Answer A} {sig : Signal}
      → Serves cap w res
      → res ≡ ok (finish r' a sig)
      → (ys : List A) × (w ≡ replies a ys sig)
        × (r'.capacity ≡ cap)
        × Represents r' ys
        × IsInStep r'
  Serves-finish cap (stays v) h e = cc
  Serves-finish cap (replies b ys sig') {r' = r'} (r'', f, kept, v, s) e =
      let same : r'' ≡ r' = cc in
      (
        ys,
        cc,
        subst (λ r. r.capacity ≡ cap) same kept,
        subst (λ r. Represents r ys) same v,
        subst IsInStep same s,
      )

  pub Serves-sleep :
      (cap : ℕ) (w : Turn A) {res : Result (Outcome A)} {v : Cv}
      → Serves cap w res
      → res ≡ ok (sleep v)
      → w ≡ stays v
  Serves-sleep cap (stays v) h e = cc
  Serves-sleep cap (replies b ys sig') (r'', f, _, _, _) e = cc

  pub Serves-unlock :
      (cap : ℕ) (w : Turn A) {res : Result (Outcome A)} {k : Rest A}
      → Serves cap w res
      → res ≡ ok (unlock k)
      → ⊥
  Serves-unlock cap (stays v) h e = cc
  Serves-unlock cap (replies b ys sig') (r'', f, _, _, _) e = cc

  abbrev pub shown : System A → List A → State A
  shown s xs = record { queue = xs; threads = s.threads }

  -- The buffer represents a queue, its tail in step, and the calls under way are the client's, none of
  -- which has released the mutex early.
  pub record Shows (cap : ℕ) (client : Call A → Bool) (s : System A) (xs : List A) : Type ℓ where
    pub capacity_is : s.ring.capacity ≡ cap
    pub represents : Represents s.ring xs
    pub in_step : IsInStep s.ring
    pub whole : AreWhole client s.threads

  module _ (cap : ℕ) (client : Call A → Bool)
      (stays_in : (c : Call A) → client c ≡ true → lets_go c ≡ false) where
    turn-Serves :
        {s : System A} {xs : List A}
        → Shows cap client s xs
        → (i : ℕ) (late : Bool) (c : Call A) → get_elem? s.threads i ≡ some (ready late c)
        → Serves cap (serve cap late c xs) (attempt late c s.ring)
    turn-Serves {s} {xs} v i late c e =
        subst (λ n. Serves n (serve n late c xs) (attempt late c s.ring)) v.capacity_is
          (attempt-Serves late c s.ring xs
            (stays_in c (All-get (IsWhole client) s.threads i v.whole e)) v.represents v.in_step)

    pub Moves-Shows :
        {s : System A} {xs : List A} {ts : List (Pc A)}
        → Shows cap client s xs
        → Moves client s.threads ts
        → Shows cap client (record s { threads = ts }) xs
    Moves-Shows v m = record {
      capacity_is = v.capacity_is;
      represents = v.represents;
      in_step = v.in_step;
      whole = AreWhole-Moves client m v.whole;
    }

    -- The end of a critical section is the end of the turn that the queue promises.
    pub ends-Shows :
        {s : System A} {xs : List A}
        → Shows cap client s xs
        → (i : ℕ) (late : Bool) (c : Call A) {r' : Ring A} {a : Answer A} {sig : Signal}
          {ts : List (Pc A)}
        → get_elem? s.threads i ≡ some (ready late c)
        → attempt late c s.ring ≡ ok (finish r' a sig)
        → Signals (set s.threads i (answered a)) sig ts
        → (ys : List A) × (serve cap late c xs ≡ replies a ys sig)
          × Shows cap client (record { ring = r'; threads = ts }) ys
    ends-Shows {s} {xs} v i late c {a = a} e f g =
        let (ys, w, kept, v', s') =
          Serves-finish cap (serve cap late c xs) (turn-Serves v i late c e) f in
        (
          ys,
          w,
          record {
            capacity_is = kept;
            represents = v';
            in_step = s';
            whole =
                AreWhole-Signals client g
                  (All-set (IsWhole client) s.threads i (answered a) v.whole tt);
          },
        )

    pub sleeps-Shows :
        {s : System A} {xs : List A}
        → Shows cap client s xs
        → (i : ℕ) (late : Bool) (c : Call A) {cv : Cv} → get_elem? s.threads i ≡ some (ready late c)
        → attempt late c s.ring ≡ ok (sleep cv)
        → (serve cap late c xs ≡ stays cv)
          × Shows cap client (record s { threads = set s.threads i (asleep cv c) }) xs
    sleeps-Shows {s} {xs} v i late c {cv} e f = (
      Serves-sleep cap (serve cap late c xs) (turn-Serves v i late c e) f,
      record {
        capacity_is = v.capacity_is;
        represents = v.represents;
        in_step = v.in_step;
        whole =
            All-set (IsWhole client) s.threads i (asleep cv c) v.whole
              (All-get (IsWhole client) s.threads i v.whole e);
      },
    )

    pub unlocks-Shows :
        {s : System A} {xs : List A}
        → Shows cap client s xs
        → (i : ℕ) (late : Bool) (c : Call A) {k : Rest A}
        → get_elem? s.threads i ≡ some (ready late c)
        → attempt late c s.ring ≢ ok (unlock k)
    unlocks-Shows {xs = xs} v i late c e f =
        Serves-unlock cap (serve cap late c xs) (turn-Serves v i late c e) f

    -- Each step of the threads at the buffer is one that the queue promises.
    Step-refines :
        {s t : System A} {xs : List A}
        → Shows cap client s xs
        → Step client s t
        → (ys : List A) × Queue.Step cap client (shown s xs) (shown t ys) × Shows cap client t ys
    Step-refines {xs = xs} v (moves m) = (xs, Queue.moves m, Moves-Shows v m)
    Step-refines v (ends i late c e f g) =
        let (ys, w, v') = ends-Shows v i late c e f g in (ys, Queue.ends i late c e w g, v')
    Step-refines {xs = xs} v (sleeps i late c e f) =
        let (w, v') = sleeps-Shows v i late c e f in (xs, Queue.sleeps i late c e w, v')
    Step-refines v (unlocks i late c e f) = absurd (unlocks-Shows v i late c e f)
    Step-refines {s} v (goes_on i k e f g) = absurd (All-get (IsWhole client) s.threads i v.whole e)

    -- The client makes neither of the two calls that release the mutex early. Its threads start at a
    -- buffer that represents a queue, its tail in step, with only calls of the client under way. However
    -- they interleave, the answers, the waits and the signals are those that the queue promises, and the
    -- buffer represents what the queue then holds.
    pub Reach-refines :
        {s t : System A} {xs : List A}
        → Shows cap client s xs
        → Reach client s t
        → (ys : List A) × Queue.Reach cap client (shown s xs) (shown t ys) × Shows cap client t ys
    Reach-refines {xs = xs} v here = (xs, Queue.here, v)
    Reach-refines v (next before last) =
        let (ys, reached, v') = Reach-refines v before in
        let (zs, stepped, v'') = Step-refines v' last in (zs, Queue.next reached stepped, v'')
