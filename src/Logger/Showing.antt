-- ===== src/Logger/Showing.antt =====
-- What the program of examples/logging_example.cc shows.
use ring_buffer.Base.{
  ℕ, zero, suc, ◌+◌, ◌<◌, ◌≡◌, refl, sym, subst, true, List, [], ◌∷◌, ◌++◌, append-nil, drop,
  get_elem?, append_assoc, some, length, length-append, ◌==◌, if◌then◌else◌, arith,
}
use ring_buffer.Result.{ok}
use ring_buffer.Logger.{LogEntry, CircularLogger, info, warning, error, numbered}
use ring_buffer.Logger.History.{Keeps, log-Keeps, calls-Keeps}
use ring_buffer.Logger.Dump.{at_level, dump_logs-Keeps}
use Prim.Native.String.{String}
use ring_buffer.Logger.Statuses.{Status, status_after, status-Keeps}
use ring_buffer.Logger.Components.{Chance}
use ring_buffer.Logger.Demonstration.{Operations, demonstrate_advanced_logging_lem}
use ring_buffer.Logger.Application.{Outside, basic_entries, logged, filling, fill, main}

module _ (o : Outside) where
  -- What the loop logs.
  abbrev pub fillings : ℕ → ℕ → List LogEntry
  fillings zero i = []
  fillings (suc rounds) i = filling o i ∷ fillings rounds (i + 1)

  -- What it prints, when `n` entries were logged before it.
  abbrev statuses : ℕ → ℕ → ℕ → List Status
  statuses zero i n = []
  statuses (suc rounds) i n =
      let rest = statuses rounds (i + 1) (n + 1) in
      if i == 5 then status_after 10 (n + 1) ∷ rest else rest

  fill-Keeps :
      (rounds i : ℕ) (l : CircularLogger) (es : List LogEntry)
      → Keeps 10 l true es
      → (l' : CircularLogger) × (fill o rounds i l ≡ ok (l', statuses rounds i (length es)))
        × Keeps 10 l' true (es ++ fillings rounds i)
  unfolding fill
  fill-Keeps zero i l es v = (l, refl, subst (Keeps 10 l true) (sym (append-nil es)) v)
  fill-Keeps (suc rounds) i l es v =
      let e : LogEntry = filling o i in
      let (l1, e1, v1) = log-Keeps 10 l true es (o.opens (5 + i)) e v in
      let (l2, e2, v2) = fill-Keeps rounds (i + 1) l1 (es ++ e ∷ []) v1 in
      let longer : length (es ++ e ∷ []) ≡ length es + 1 = length-append es (e ∷ []) in
      (
        l2,
        rw (e1, e2, status-Keeps 10 l1 true (es ++ e ∷ []) v1, longer) refl,
        subst (Keeps 10 l2 true) (append_assoc es (e ∷ []) (fillings rounds (i + 1))) v2,
      )

-- Two new loggers are given, with room for ten entries and for 50, and more fuel than 50. Whatever the
-- clock, the file system, the random values and the texts of the numbers are, no call fails.
-- All five entries are shown at first. The status that is printed inside the loop is that of a full
-- buffer, after eleven entries, and after the loop its last ten entries are shown, all of them again at
-- their level. The demonstration logs 60 entries, the components in turn, each one of the messages with
-- its level, prints its status after 3, 18, 33 and 48 of them, and shows the errors and then the warnings of the latest 50, numbered from 0, and the
-- eleventh and the last entry as the oldest and the newest.
pub main_lem :
    (fuel : ℕ) (o : Outside) (chances : ℕ → String → Chance) (l k : CircularLogger)
    → Keeps 10 l true []
    → Keeps 50 k true []
    → 50 < fuel
    → (es : List LogEntry) × Operations 20 es
      × (length es ≡ 60)
      × (main fuel o chances l k
          ≡ some (
              ok (record {
                basic_status = status_after 10 5;
                basic_dump = numbered 0 (basic_entries o);
                filling_status = status_after 10 11 ∷ [];
                filled_status = status_after 10 20;
                filled_dump = numbered 0 (fillings o 10 5);
                info_dump = numbered 0 (fillings o 10 5);
                advanced = record {
                  statuses =
                      status_after 50 3
                      ∷ status_after 50 18
                      ∷ status_after 50 33
                      ∷ status_after 50 48
                      ∷ [];
                  errors = numbered 0 (at_level error (drop 10 es));
                  warnings = numbered 0 (at_level warning (drop 10 es));
                  oldest = get_elem? es 10;
                  newest = get_elem? es 59;
                };
              })))
unfolding main
main_lem fuel o chances l k v w h =
    let enough : 10 < fuel = omega arith in
    let (l1, e1, v1) = calls-Keeps 10 (logged o 0 (basic_entries o)) l true [] v in
    let (l2, e2, v2) = fill-Keeps o 15 0 l1 (basic_entries o) v1 in
    let (basic, _) = dump_logs-Keeps 10 l1 true (basic_entries o) fuel info v1 enough in
    let (filled, at_info) =
      dump_logs-Keeps 10 l2 true (basic_entries o ++ fillings o 15 0) fuel info v2 enough in
    let before = status-Keeps 10 l1 true (basic_entries o) v1 in
    let after = status-Keeps 10 l2 true (basic_entries o ++ fillings o 15 0) v2 in
    let (es, ops, sixty, e) = demonstrate_advanced_logging_lem fuel chances k w h in
    (es, ops, sixty, rw (e1, basic, e2, filled, at_info, before, after, e) refl)
