-- ===== src/ThreadSafe/Wakeups.antt =====
-- No thread is left asleep in `push_back` of include/thread_safe_ring_buffer.h for want of a signal, if
-- no call has a time limit.
use ring_buffer.Base.{
  ℕ, ◌+◌, ◌≡◌, ◌≤◌, ◌<◌, ◌∙◌, refl, sym, subst, Bool, true, false, List, [], ◌∷◌, length, set, All,
  All-get, All-set, All-map, total, total-set, arith,
}
use ring_buffer.ThreadSafe.{
  Call, Answer, Signal, not_full, not_empty, push_timed, pop_timed, wait_not_empty, wait_not_full,
}
use ring_buffer.ThreadSafe.Threads.{
  Pc, Moves, Signals, wake_all, timed, idle, ready, asleep, unlocked, answered, starts, wakes,
  expires, returns, quiet, woken, nobody, everybody,
}
use ring_buffer.ThreadSafe.Queue
use ring_buffer.ThreadSafe.Queue.{
  Turn, State, stays, replies, serve, moves, ends, sleeps, here, next,
}
use ring_buffer.ThreadSafe.Counts.{
  sleeping, weight, pushing, IsUntimed, weight-pushes, timed-pushes, Counted, serve-Counted,
  nobody-sleeping, everybody-sleeping, wake_all-IsUntimed,
}
use ring_buffer.ThreadSafe.Threads
use ring_buffer.ThreadSafe.Threads.{System}
use ring_buffer.ThreadSafe.Turns.{lets_go}
use ring_buffer.ThreadSafe.Whole.{AreWhole}
use ring_buffer.ThreadSafe.Refine.{Shows, shown, Reach-refines}

module _ {ℓ} {A : Type ℓ} where
  -- While a thread sleeps, at least as many threads are on the way to a slot as slots are free.
  record Covered (cap : ℕ) (s : State A) : Type 0 where
    untimed : All IsUntimed s.threads
    covered : 0 < total sleeping s.threads → cap ≤ length s.queue + total pushing s.threads

  Signals-Covered :
      (cap : ℕ) (c : Call A) (a : Answer A) (xs ys : List A) {sig : Signal} {ts us : List (Pc A)}
      → Counted cap c xs (replies a ys sig)
      → All IsUntimed ts
      → (0 < total sleeping ts → cap ≤ length xs + total pushing ts + weight c)
      → Signals ts sig us
      → Covered cap (record { queue = ys; threads = us })
  Signals-Covered cap c a xs ys k u h quiet = record {
    untimed = u;
    covered = λ w. omega (arith, k.0, k.1, h w);
  }
  Signals-Covered cap c a xs ys {ts = ts} k u h (woken {v = not_full} j d e) =
      let (_, p) = All-get IsUntimed ts j u e in
      record {
        untimed = All-set IsUntimed ts j (ready false d) u (timed-pushes d p);
        covered = λ w. omega (
          arith,
          k.0,
          k.1,
          weight-pushes d p,
          total-set sleeping ts j (ready false d) e,
          total-set pushing ts j (ready false d) e,
          h (omega (arith, total-set sleeping ts j (ready false d) e)),
        );
      }
  Signals-Covered cap c a xs ys {ts = ts} k u h (woken {v = not_empty} j d e) =
      let (clash, _) = All-get IsUntimed ts j u e in cc
  Signals-Covered cap c a xs ys {ts = ts} k u h (nobody {v = not_full} n) = record {
    untimed = u;
    covered = λ w. absurd (omega (arith, nobody-sleeping ts u n));
  }
  Signals-Covered cap c a xs ys k u h (nobody {v = not_empty} n) = record {
    untimed = u;
    covered = λ w. omega (arith, k.0, k.1, h w);
  }
  Signals-Covered cap c a xs ys {ts = ts} k u h (everybody {v = not_full}) = record {
    untimed = All-map IsUntimed (wake_all not_full) ts wake_all-IsUntimed u;
    covered = λ w. absurd (omega (arith, everybody-sleeping ts u));
  }
  Signals-Covered cap c a xs ys k u h (everybody {v = not_empty}) = cc

  Moves-Covered :
      (cap : ℕ) {client : Call A → Bool}
      → ((c : Call A) → client c ≡ true → timed c ≡ false)
      → (s : State A) {ts : List (Pc A)} → Covered cap s
      → Moves client s.threads ts
      → Covered cap (record s { threads = ts })
  Moves-Covered cap untimed_client s v (starts i c allowed e) = record {
    untimed = All-set IsUntimed s.threads i (ready false c) v.untimed (untimed_client c allowed);
    covered = λ w. omega (
      arith,
      total-set sleeping s.threads i (ready false c) e,
      total-set pushing s.threads i (ready false c) e,
      v.covered (omega (arith, total-set sleeping s.threads i (ready false c) e)),
    );
  }
  Moves-Covered cap untimed_client s v (wakes i cv c e) =
      let (_, p) = All-get IsUntimed s.threads i v.untimed e in
      record {
        untimed = All-set IsUntimed s.threads i (ready false c) v.untimed (timed-pushes c p);
        covered = λ w. omega (
          arith,
          total-set sleeping s.threads i (ready false c) e,
          total-set pushing s.threads i (ready false c) e,
          v.covered (omega (arith, total-set sleeping s.threads i (ready false c) e)),
        );
      }
  Moves-Covered cap untimed_client s v (expires i cv c limited e) =
      let (_, p) = All-get IsUntimed s.threads i v.untimed e in
      let clash : true ≡ false = sym limited ∙ timed-pushes c p in cc
  Moves-Covered cap untimed_client s v (returns i a e) = record {
    untimed = All-set IsUntimed s.threads i idle v.untimed tt;
    covered = λ w. omega (
      arith,
      total-set sleeping s.threads i idle e,
      total-set pushing s.threads i idle e,
      v.covered (omega (arith, total-set sleeping s.threads i idle e)),
    );
  }

  Step-Covered :
      (cap : ℕ) {client : Call A → Bool}
      → ((c : Call A) → client c ≡ true → timed c ≡ false)
      → (s : State A) {t : State A} → Covered cap s
      → Queue.Step cap client s t
      → Covered cap t
  Step-Covered cap untimed_client s v (moves m) = Moves-Covered cap untimed_client s v m
  Step-Covered cap untimed_client s v (ends i late c {xs = ys} {a = a} {sig = sig} e f g) =
      let k : timed c ≡ false = All-get IsUntimed s.threads i v.untimed e in
      let counted : Counted cap c s.queue (replies a ys sig) =
        subst (Counted cap c s.queue) f (serve-Counted cap late c s.queue k) in
      let untimed : All IsUntimed (set s.threads i (answered a)) =
        All-set IsUntimed s.threads i (answered a) v.untimed tt in
      Signals-Covered cap c a s.queue ys counted untimed
        (λ w. omega (
          arith,
          total-set sleeping s.threads i (answered a) e,
          total-set pushing s.threads i (answered a) e,
          v.covered (omega (arith, total-set sleeping s.threads i (answered a) e)),
        ))
        g
  Step-Covered cap untimed_client s v (sleeps i late c {v = cv} e f) =
      let k : timed c ≡ false = All-get IsUntimed s.threads i v.untimed e in
      let (full_cv, p, whole) : Counted cap c s.queue (stays cv) =
        subst (Counted cap c s.queue) f (serve-Counted cap late c s.queue k) in
      record {
        untimed = All-set IsUntimed s.threads i (asleep cv c) v.untimed (full_cv, p);
        covered = λ w. omega (arith, whole);
      }

  Reach-Covered :
      (cap : ℕ) {client : Call A → Bool}
      → ((c : Call A) → client c ≡ true → timed c ≡ false)
      → {s t : State A} → Covered cap s
      → Queue.Reach cap client s t
      → Covered cap t
  Reach-Covered cap untimed_client v here = v
  Reach-Covered cap untimed_client v (next {t} before last) =
      Step-Covered cap untimed_client t (Reach-Covered cap untimed_client v before) last

  IsUntimed-awake :
      {client : Call A → Bool}
      → ((c : Call A) → client c ≡ true → timed c ≡ false)
      → (ts : List (Pc A)) → AreWhole client ts
      → total sleeping ts ≡ 0
      → All IsUntimed ts
  IsUntimed-awake limits [] w h = tt
  IsUntimed-awake limits (asleep v c ∷ ts) w h = absurd (omega arith)
  IsUntimed-awake limits (idle ∷ ts) w h = (tt, IsUntimed-awake limits ts w.1 (omega arith))
  IsUntimed-awake limits (ready late c ∷ ts) w h =
      (limits c w.0, IsUntimed-awake limits ts w.1 (omega arith))
  IsUntimed-awake limits (unlocked k ∷ ts) w h = absurd w.0
  IsUntimed-awake limits (answered a ∷ ts) w h = (tt, IsUntimed-awake limits ts w.1 (omega arith))

  lets_go-timed : (c : Call A) → timed c ≡ false → lets_go c ≡ false
  lets_go-timed (push_timed x) h = cc
  lets_go-timed pop_timed h = cc
  lets_go-timed wait_not_empty h = refl
  lets_go-timed wait_not_full h = refl
  lets_go-timed _ h = refl

  -- The client makes no call with a time limit. Its threads start at a buffer that represents a queue,
  -- its tail in step, with only calls of the client under way, none of them asleep. Whenever a thread
  -- sleeps after that, at least as many threads have a `push_back` or `emplace_back` before the mutex as
  -- the buffer has free slots: none sleeps beside a free slot that nobody is about to take.
  pub no_lost_wakeups :
      (cap : ℕ) (client : Call A → Bool)
      → ((c : Call A) → client c ≡ true → timed c ≡ false)
      → {s t : System A} {xs : List A} → Shows cap client s xs
      → total sleeping s.threads ≡ 0
      → Threads.Reach client s t
      → (ys : List A) × Shows cap client t ys
        × (0 < total sleeping t.threads → cap ≤ length ys + total pushing t.threads)
  no_lost_wakeups cap client limits {s} {xs = xs} v awake ρ =
      let (ys, reached, v') =
        Reach-refines cap client (λ c allowed. lets_go-timed c (limits c allowed)) v ρ in
      let none_asleep : ¬ (0 < total sleeping s.threads) = λ w. omega (arith, awake, w) in
      let start : Covered cap (shown s xs) = record {
        untimed = IsUntimed-awake limits s.threads v.whole awake;
        covered = λ w. absurd (none_asleep w);
      } in
      (ys, v', (Reach-Covered cap limits start reached).covered)
