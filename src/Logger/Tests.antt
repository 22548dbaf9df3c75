-- ===== src/Logger/Tests.antt =====
-- Loggers with little and with more room, and the theorems at them.
use Prim.Native.String.{String}
use ring_buffer.Base.{
  ◌+◌, ◌-◌, ◌<◌, ◌≤◌, max_size, subst, ◌*◌, Option, sym, replicate, length, length-replicate,
  get_elem?, get_elem?-replicate, slot-lt, slot-zero, drop, ℕ, zero, suc, ◌≡◌, refl, true, false,
  List, [], ◌∷◌, none, some, arith,
}
use ring_buffer.Result.{ok}
use ring_buffer.Memory.{block}
use ring_buffer.Ring.Holds.{Holds, Represents, Represents-IsInStep}
use ring_buffer.Logger.{
  Level, LogEntry, CircularLogger, Call, info, warning, error, numbered, logs, enables, calls,
  dump_logs, dump_logs_by_level,
}
use ring_buffer.Logger.History.{Keeps, calls-Keeps}
use ring_buffer.Logger.Dump.{at_level, dump_logs-Keeps}
use ring_buffer.Logger.Components.{Chance}
use ring_buffer.Logger.Application.{Outside, basic_entries, main}
use ring_buffer.Logger.Statuses.{status_after}
use ring_buffer.Logger.Showing.{fillings, main_lem}
use ring_buffer.Window.Latest.{drop-nil}
use ring_buffer.Logger.Demonstration.{Operations}

abbrev entry : ℕ → Level → LogEntry
entry n level = record { timestamp = n; level = level; message = n ∷ []; source = [] }

-- Room for two entries, and none logged.
abbrev fresh : CircularLogger
fresh = record {
  log_buffer = record {
    capacity = 2;
    allocator = 0;
    buffer = block (none ∷ none ∷ []);
    head = 0;
    tail = 0;
    count = 0;
    full = false;
    just_overwrote = false;
    overwrite_position = 0;
  };
  enabled = true;
  log_file = [];
  write_to_file = false;
}

fresh-Holds : Holds fresh.log_buffer []
fresh-Holds = record {
  valid = ground arith;
  counted = refl;
  layout = elim [
    | zero ↦ λ h. refl
    | suc zero ↦ λ h. refl
    | suc (suc i) ↦ λ h. absurd (omega arith)
  ];
}

fresh-Represents : Represents fresh.log_buffer []
fresh-Represents = record {
  holds = fresh-Holds;
  write_at = λ e. refl;
  back_at = λ p. absurd (omega arith);
}

fresh-Keeps : Keeps 2 fresh true []
fresh-Keeps = record { capacity_is = refl; represents = fresh-Represents; enabled_is = refl }

-- Three entries, and one that is not logged.
abbrev session : List Call
session =
    logs true (entry 1 info)
    ∷ logs true (entry 2 error)
    ∷ logs true (entry 3 info)
    ∷ enables false
    ∷ logs true (entry 4 info)
    ∷ []

calls-Keeps_example :
    (l' : CircularLogger) × (calls session fresh ≡ ok l')
    × Keeps 2 l' false (entry 1 info ∷ entry 2 error ∷ entry 3 info ∷ [])
calls-Keeps_example = calls-Keeps 2 session fresh true [] fresh-Keeps

-- The logger after those calls.
abbrev used : CircularLogger
used = record fresh {
  log_buffer = record {
    capacity = 2;
    allocator = 0;
    buffer = block (some (entry 3 info) ∷ some (entry 2 error) ∷ []);
    head = 1;
    tail = 0;
    count = 2;
    full = true;
    just_overwrote = true;
    overwrite_position = 0;
  };
  enabled = false;
}

used-Holds : Holds used.log_buffer (entry 2 error ∷ entry 3 info ∷ [])
used-Holds = record {
  valid = ground arith;
  counted = refl;
  layout = elim [
    | zero ↦ λ h. refl
    | suc zero ↦ λ h. refl
    | suc (suc i) ↦ λ h. absurd (omega arith)
  ];
}

used-Represents : Represents used.log_buffer (entry 2 error ∷ entry 3 info ∷ [])
used-Represents = record { holds = used-Holds; write_at = λ e. cc; back_at = λ p. refl }

used-Keeps : Keeps 2 used false (entry 1 info ∷ entry 2 error ∷ entry 3 info ∷ [])
used-Keeps = record { capacity_is = refl; represents = used-Represents; enabled_is = refl }

dump_logs-Keeps_example :
    (dump_logs 3 used ≡ some (ok ((0, entry 2 error) ∷ (1, entry 3 info) ∷ [])))
    × (dump_logs_by_level 3 info used ≡ some (ok ((0, entry 3 info) ∷ [])))
dump_logs-Keeps_example =
    dump_logs-Keeps 2 used false (entry 1 info ∷ entry 2 error ∷ entry 3 info ∷ []) 3 info
      used-Keeps (omega arith)

-- Room for some entries, and none logged.
abbrev empty_logger : ℕ → CircularLogger
empty_logger n = record {
  log_buffer = record {
    capacity = n;
    allocator = 0;
    buffer = block (replicate n none);
    head = 0;
    tail = 0;
    count = 0;
    full = false;
    just_overwrote = false;
    overwrite_position = 0;
  };
  enabled = true;
  log_file = 97 ∷ [];
  write_to_file = true;
}

empty_logger-Holds : (n : ℕ) → 0 < n → n ≤ max_size → Holds ((empty_logger n).log_buffer) []
empty_logger-Holds n pos small = record {
  valid = ground (arith, length-replicate {A = Option LogEntry} n none);
  counted = refl;
  layout = λ i h. get_elem?-replicate n none _ (slot-lt n 0 i pos);
}

empty_logger-Keeps : (n : ℕ) → 0 < n → n ≤ max_size → Keeps n (empty_logger n) true []
empty_logger-Keeps n pos small = record {
  capacity_is = refl;
  represents = subst (Represents ((empty_logger n).log_buffer)) (sym (drop-nil (0 - n))) (
      Represents-IsInStep ((empty_logger n).log_buffer) (empty_logger-Holds n pos small)
        (sym (slot-zero n 0 pos)) refl);
  enabled_is = refl;
}

-- Random values that go through the messages.
abbrev in_turn : ℕ → String → Chance
in_turn i name = record { random = 7 * i + 3; now = i; opens = true }

abbrev quiet_night : Outside
quiet_night = record { now = λ n. n; opens = λ n. false; entry_text = λ i. i ∷ [] }

main_lem_example :
    (es : List LogEntry) × Operations 20 es
    × (length es ≡ 60)
    × (main 51 quiet_night in_turn (empty_logger 10) (empty_logger 50)
        ≡ some (
            ok (record {
              basic_status = status_after 10 5;
              basic_dump = numbered 0 (basic_entries quiet_night);
              filling_status = status_after 10 11 ∷ [];
              filled_status = status_after 10 20;
              filled_dump = numbered 0 (fillings quiet_night 10 5);
              info_dump = numbered 0 (fillings quiet_night 10 5);
              advanced = record {
                statuses =
                    status_after 50 3
                    ∷ status_after 50 18
                    ∷ status_after 50 33
                    ∷ status_after 50 48
                    ∷ [];
                errors = numbered 0 (at_level error (drop 10 es));
                warnings = numbered 0 (at_level warning (drop 10 es));
                oldest = get_elem? es 10;
                newest = get_elem? es 59;
              };
            })))
main_lem_example =
    main_lem 51 quiet_night in_turn (empty_logger 10) (empty_logger 50)
      (empty_logger-Keeps 10 (omega arith) (omega arith))
      (empty_logger-Keeps 50 (omega arith) (omega arith)) (omega arith)
