-- ===== src/Logger/Application.antt =====
-- examples/logging_example.cc: `main`.
-- The clock, the file system and what `std::format` makes of a number are parameters.
use ring_buffer.Base.{
  ℕ, zero, suc, ◌+◌, Bool, List, [], ◌∷◌, Option, some, none, ◌==◌, if◌then◌else◌,
}
use Prim.Native.String.{String}
use ring_buffer.Result.{Result, ok, throw, fault, ◌>>=◌, followed}
use ring_buffer.Logger.{
  Level, LogEntry, CircularLogger, Text, debug, info, warning, error, critical, Call, logs, call,
  calls, dump_logs, dump_logs_by_level,
}
use ring_buffer.Logger.Statuses.{Status, status_of}
use ring_buffer.Logger.Components.{codes, Chance, Report, demonstrate_advanced_logging}

-- The time of each entry, whether the file can be opened for it, and the text "Log entry i".
pub record Outside : Type 0 where
  pub now : ℕ → ℕ
  pub opens : ℕ → Bool
  pub entry_text : ℕ → Text

module _ (o : Outside) where
  -- The `n`-th entry of the program, from 0 on.
  abbrev pub entry_of : ℕ → Level → Text → Text → LogEntry
  entry_of n level message source = record {
    timestamp = o.now n;
    level = level;
    message = message;
    source = source;
  }

  abbrev pub basic_entries : List LogEntry
  basic_entries =
      entry_of 0 info (codes "Application started") (codes "Main")
      ∷ entry_of 1 debug (codes "Initializing components") (codes "Main")
      ∷ entry_of 2 warning (codes "Low disk space detected") (codes "System")
      ∷ entry_of 3 error (codes "Failed to load configuration") (codes "Config")
      ∷ entry_of 4 critical (codes "System shutdown required") (codes "System")
      ∷ []

  -- Entries are logged one after another, the first as the `n`-th of the program.
  abbrev pub logged : ℕ → List LogEntry → List Call
  logged n [] = []
  logged n (e ∷ es) = logs (o.opens n) e ∷ logged (n + 1) es

  abbrev pub filling : ℕ → LogEntry
  filling i = entry_of (5 + i) info (o.entry_text i) (codes "Test")

  -- The loop that fills the buffer, with `rounds` of its rounds left, and what it prints.
  unfoldable pub fill : ℕ → ℕ → CircularLogger → Result (CircularLogger × List Status)
  fill zero i l = ok (l, [])
  fill (suc rounds) i l = do
    l1 ← call (logs (o.opens (5 + i)) (filling i)) l
    (l2, shown) ← fill rounds (i + 1) l1
    ok (l2, if i == 5 then status_of l1 ∷ shown else shown)

-- What the program prints, in this order.
pub record Output : Type 0 where
  pub basic_status : Status
  pub basic_dump : List (ℕ × LogEntry)
  pub filling_status : List Status
  pub filled_status : Status
  pub filled_dump : List (ℕ × LogEntry)
  pub info_dump : List (ℕ × LogEntry)
  pub advanced : Report

abbrev pub fuel_first {ℓ} : {A : Type ℓ} → Result (Option A) → Option (Result A)
fuel_first fault = some fault
fuel_first (throw e) = some (throw e)
fuel_first (ok none) = none
fuel_first (ok (some a)) = some (ok a)

-- From new loggers with room for ten entries and for 50 on, the second that of
-- `demonstrate_advanced_logging`. `fuel` is for the loops that print.
unfoldable pub main :
    ℕ → Outside → (ℕ → String → Chance) → CircularLogger → CircularLogger → Option (Result Output)
main fuel o chances logger advanced_logger =
    followed (some (calls (logged o 0 (basic_entries o)) logger)) (λ l1.
      followed (dump_logs fuel l1) (λ basic_dump. followed (some (fill o 15 0 l1)) (λ filled.
        let l2 : CircularLogger = filled.0 in
        followed (dump_logs fuel l2) (λ filled_dump.
          followed (dump_logs_by_level fuel info l2) (λ info_dump.
            followed (fuel_first (demonstrate_advanced_logging fuel chances advanced_logger))
              (λ report. some (
                ok (record {
                  basic_status = status_of l1;
                  basic_dump = basic_dump;
                  filling_status = filled.1;
                  filled_status = status_of l2;
                  filled_dump = filled_dump;
                  info_dump = info_dump;
                  advanced = report;
                }))))))))
