-- ===== src/Logger/Dump.antt =====
-- What a `CircularLogger` of examples/logging_example.cc prints and returns of the entries it keeps.
use ring_buffer.Base.{
  ℕ, ◌+◌, ◌-◌, ◌<◌, ◌≡◌, ◌∙◌, refl, sym, ap, Bool, true, false, inl, inr, Bool-cases, List, [], ◌∷◌,
  some, length, get_elem?, get_elem?-of_lt, ◌==◌, if◌then◌else◌, arith,
}
use ring_buffer.Result.{ok}
use ring_buffer.Ring
use ring_buffer.Ring.{Ring}
use ring_buffer.Ring.Holds.{Represents}
use ring_buffer.Ring.Access.{front-Holds, back-Represents}
use ring_buffer.Iterate.{visit-Holds}
use ring_buffer.Logger.{
  Level, LogEntry, CircularLogger, get_oldest_entry, get_newest_entry, numbered, numbered_at,
  after_loop, dump_logs, dump_logs_by_level, rank,
}
use ring_buffer.Window.Latest.{latest}
use ring_buffer.Logger.History.{Keeps}

abbrev pub at_level : Level → List LogEntry → List LogEntry
at_level level [] = []
at_level level (e ∷ es) =
    let rest = at_level level es in if rank e.level == rank level then e ∷ rest else rest

numbered_at-numbered :
    (level : Level) (n : ℕ) (es : List LogEntry)
    → numbered_at level n es ≡ numbered n (at_level level es)
numbered_at-numbered level n [] = refl
numbered_at-numbered level n (e ∷ es) = elim (Bool-cases (rank e.level == rank level)) [
  | inl same ↦ rw same (ap (λ rest. (n, e) ∷ rest) (numbered_at-numbered level (n + 1) es))
  | inr other ↦ rw other (numbered_at-numbered level n es)
]

empty-cons :
    (r : Ring LogEntry) (y : LogEntry) (ys : List LogEntry)
    → Represents r (y ∷ ys)
    → Ring.empty r ≡ false
unfolding Ring.empty
empty-cons r y ys v = ground (arith, v.counted)

empty-nil : (r : Ring LogEntry) → Represents r [] → Ring.empty r ≡ true
unfolding Ring.empty
empty-nil r v = ground (arith, v.counted)

dump_logs-Represents :
    (l : CircularLogger) (fuel : ℕ) (ys : List LogEntry)
    → Represents l.log_buffer ys
    → length ys < fuel
    → dump_logs fuel l ≡ some (ok (numbered 0 ys))
unfolding dump_logs
dump_logs-Represents l fuel [] v h = rw (empty-nil l.log_buffer v) refl
dump_logs-Represents l fuel (y ∷ ys) v h =
    rw (empty-cons l.log_buffer y ys v)
      (ap (after_loop (numbered 0)) (visit-Holds 0 l.log_buffer (y ∷ ys) fuel v.holds h))

-- A logger that keeps the latest of the entries, dumped with more fuel than it has room for entries,
-- prints those, numbered from 0, and by level only those of the level, numbered from 0.
pub dump_logs-Keeps :
    (cap : ℕ) (l : CircularLogger) (on : Bool) (es : List LogEntry) (fuel : ℕ) (level : Level)
    → Keeps cap l on es
    → cap < fuel
    → (dump_logs fuel l ≡ some (ok (numbered 0 (latest cap es))))
      × (dump_logs_by_level fuel level l ≡ some (ok (numbered 0 (at_level level (latest cap es)))))
unfolding dump_logs_by_level
dump_logs-Keeps cap l on es fuel level v h =
    let r : Ring LogEntry = l.log_buffer in
    let ys : List LogEntry = latest cap es in
    let enough : length ys < fuel =
      omega (arith, v.represents.counted, v.represents.count_in, v.capacity_is) in
    (
      dump_logs-Represents l fuel ys v.represents enough,
      ap (after_loop (numbered_at level 0)) (visit-Holds 0 r ys fuel v.represents.holds enough)
          ∙ ap (λ lines. some (ok lines)) (numbered_at-numbered level 0 ys),
    )

oldest-Represents :
    (l : CircularLogger) (ys : List LogEntry)
    → Represents l.log_buffer ys
    → get_oldest_entry l ≡ ok (get_elem? ys 0)
unfolding get_oldest_entry
oldest-Represents l [] v = rw (empty-nil l.log_buffer v) refl
oldest-Represents l (y ∷ ys) v =
    rw (empty-cons l.log_buffer y ys v, front-Holds l.log_buffer (y ∷ ys) v.holds) refl

newest-Represents :
    (l : CircularLogger) (ys : List LogEntry)
    → Represents l.log_buffer ys
    → get_newest_entry l ≡ ok (get_elem? ys (length ys - 1))
unfolding get_newest_entry
newest-Represents l [] v = rw (empty-nil l.log_buffer v) refl
newest-Represents l (y ∷ ys) v =
    let (a, there) = get_elem?-of_lt (y ∷ ys) (length (y ∷ ys) - 1) (omega arith) in
    let read : Ring.back l.log_buffer ≡ ok a =
      rw there at (back-Represents l.log_buffer (y ∷ ys) v) in
    rw (empty-cons l.log_buffer y ys v, read) (ap ok (sym there))

-- A logger that keeps the latest of the entries returns the first of those as the oldest entry and the
-- last as the newest, and none if there is none.
pub ends-Keeps :
    (cap : ℕ) (l : CircularLogger) (on : Bool) (es : List LogEntry)
    → Keeps cap l on es
    → (get_oldest_entry l ≡ ok (get_elem? (latest cap es) 0))
      × (get_newest_entry l ≡ ok (get_elem? (latest cap es) (length (latest cap es) - 1)))
ends-Keeps cap l on es v = (
  oldest-Represents l (latest cap es) v.represents,
  newest-Represents l (latest cap es) v.represents,
)
