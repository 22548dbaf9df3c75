-- ===== src/ThreadSafe/Whole.antt =====
-- Which threads of include/thread_safe_ring_buffer.h have only calls of their client under way, and
-- none that has released the mutex early.
use ring_buffer.Base.{◌≡◌, Bool, true, false, List, All, All-get, All-set, All-map}
use ring_buffer.ThreadSafe.{Call, Cv, Signal, not_empty, not_full}
use ring_buffer.ThreadSafe.Threads.{
  Pc, Moves, Signals, wake_all, idle, ready, asleep, unlocked, answered, starts, wakes, expires,
  returns, quiet, woken, nobody, everybody,
}

module _ {ℓ} {A : Type ℓ} (client : Call A → Bool) where
  -- The call under way is one that the client makes, and has not released the mutex.
  abbrev pub IsWhole : Pc A → Type 0
  IsWhole idle = Unit
  IsWhole (ready late c) = client c ≡ true
  IsWhole (asleep v c) = client c ≡ true
  IsWhole (unlocked k) = ⊥
  IsWhole (answered a) = Unit

  abbrev pub AreWhole : List (Pc A) → Type 0
  AreWhole = All IsWhole

  wake_all-IsWhole : (v : Cv) (p : Pc A) → IsWhole p → IsWhole (wake_all v p)
  wake_all-IsWhole not_full idle h = h
  wake_all-IsWhole not_full (ready late c) h = h
  wake_all-IsWhole not_full (asleep not_full c) h = h
  wake_all-IsWhole not_full (asleep not_empty c) h = h
  wake_all-IsWhole not_full (unlocked k) h = elim h [ ]
  wake_all-IsWhole not_full (answered a) h = h
  wake_all-IsWhole not_empty idle h = h
  wake_all-IsWhole not_empty (ready late c) h = h
  wake_all-IsWhole not_empty (asleep not_full c) h = h
  wake_all-IsWhole not_empty (asleep not_empty c) h = h
  wake_all-IsWhole not_empty (unlocked k) h = elim h [ ]
  wake_all-IsWhole not_empty (answered a) h = h

  pub AreWhole-Signals :
      {ts us : List (Pc A)} {sig : Signal} → Signals ts sig us → AreWhole ts → AreWhole us
  AreWhole-Signals quiet w = w
  AreWhole-Signals {ts} (woken j c e) w =
      All-set IsWhole ts j (ready false c) w (All-get IsWhole ts j w e)
  AreWhole-Signals (nobody h) w = w
  AreWhole-Signals {ts} (everybody {v}) w = All-map IsWhole (wake_all v) ts (wake_all-IsWhole v) w

  pub AreWhole-Moves : {ts us : List (Pc A)} → Moves client ts us → AreWhole ts → AreWhole us
  AreWhole-Moves {ts} (starts i c allowed e) w = All-set IsWhole ts i (ready false c) w allowed
  AreWhole-Moves {ts} (wakes i v c e) w =
      All-set IsWhole ts i (ready false c) w (All-get IsWhole ts i w e)
  AreWhole-Moves {ts} (expires i v c t e) w =
      All-set IsWhole ts i (ready true c) w (All-get IsWhole ts i w e)
  AreWhole-Moves {ts} (returns i a e) w = All-set IsWhole ts i idle w tt
