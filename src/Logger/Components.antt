-- ===== src/Logger/Components.antt =====
-- examples/logging_example.cc: `SystemComponent`, and `demonstrate_advanced_logging`. What the random generators, the clock and the file system give is a parameter, by
-- the number of the operation.
use Prim.Native.Char.{code}
use Prim.Native.String.{String}
use ring_buffer.Base.{
  ℕ, zero, suc, ◌+◌, ◌%◌, Bool, List, [], ◌∷◌, Option, none, some, length, get_elem?, ◌==◌,
  if◌then◌else◌,
}
use ring_buffer.Result.{Result, ok, fault, ◌>>=◌}
use ring_buffer.Logger.Statuses.{Status, status_of}
use ring_buffer.Logger.{
  Level, LogEntry, CircularLogger, Text, debug, info, warning, error, critical, logs, call,
  dump_logs_by_level, get_oldest_entry, get_newest_entry,
}

abbrev pub codes : String → Text
codes String.[] = []
codes (String.◌∷◌ c s) = code c ∷ codes s

abbrev pub messages : List String
messages =
    "System initialization complete" ∷ "Configuration loaded successfully"
    ∷ "Network connection established" ∷ "Processing batch job" ∷ "Memory usage at 75%"
    ∷ "Warning: High CPU usage detected" ∷ "Error: Failed to connect to database"
    ∷ "Critical: System overload detected" ∷ "Debug: Variable state updated"
    ∷ "Info: User action logged" ∷ []

abbrev pub levels : List Level
levels = info ∷ info ∷ info ∷ debug ∷ info ∷ warning ∷ error ∷ critical ∷ debug ∷ info ∷ []

-- `operator[]` of a vector, which is undefined out of bounds.
module _ {ℓ} {A : Type ℓ} where
  abbrev pub found : Option A → Result A
  found none = fault
  found (some a) = ok a

  abbrev pub element : List A → ℕ → Result A
  element xs i = found (get_elem? xs i)

-- What an operation gets from outside: a random value, the time, and whether the file can be opened.
pub record Chance : Type 0 where
  pub random : ℕ
  pub now : ℕ
  pub opens : Bool

unfoldable pub simulate_operation : Chance → String → CircularLogger → Result CircularLogger
simulate_operation chance name l = do
  let message_index : ℕ = chance.random % length messages
  level ← element levels message_index
  message ← element messages message_index
  let entry : LogEntry = record {
    timestamp = chance.now;
    level = level;
    message = codes message;
    source = codes name;
  }
  call (logs chance.opens entry) l

-- The loop over the three components, by the rounds that are left, and what it prints.
unfoldable pub simulate_operations :
    ℕ → ℕ → (ℕ → String → Chance) → CircularLogger → Result (CircularLogger × List Status)
simulate_operations zero i chances l = ok (l, [])
simulate_operations (suc k) i chances l = do
  l1 ← simulate_operation (chances i "Network") "Network" l
  l2 ← simulate_operation (chances i "Database") "Database" l1
  l3 ← simulate_operation (chances i "UI") "UI" l2
  (l4, shown) ← simulate_operations k (i + 1) chances l3
  ok (l4, if i % 5 == 0 then status_of l3 ∷ shown else shown)

-- What the demonstration prints: the statuses inside its loop, and the rest at its end.
pub record Report : Type 0 where
  pub statuses : List Status
  pub errors : List (ℕ × LogEntry)
  pub warnings : List (ℕ × LogEntry)
  pub oldest : Option LogEntry
  pub newest : Option LogEntry

-- `none` stands for too little fuel in the loops that print.
abbrev pub report_of :
    Option (Result (List (ℕ × LogEntry)))
    → Option (Result (List (ℕ × LogEntry)))
    → CircularLogger
    → List Status
    → Result (Option Report)
report_of (some m) (some n) l shown = do
  errors ← m
  warnings ← n
  oldest ← get_oldest_entry l
  newest ← get_newest_entry l
  ok (
      some (record {
        statuses = shown;
        errors = errors;
        warnings = warnings;
        oldest = oldest;
        newest = newest;
      }))
report_of _ _ l shown = ok none

-- From a new logger with room for 50 entries on.
unfoldable pub demonstrate_advanced_logging :
    ℕ → (ℕ → String → Chance) → CircularLogger → Result (Option Report)
demonstrate_advanced_logging fuel chances advanced_logger =
    simulate_operations 20 0 chances advanced_logger >>= λ p.
    let l : CircularLogger = p.0 in
    report_of (dump_logs_by_level fuel error l) (dump_logs_by_level fuel warning l) l (p.1)
