-- ===== src/Logger.antt =====
-- examples/logging_example.cc: `CircularLogger`, a log of the latest entries over a `ring_buffer`. What
-- it prints is the list of the entries that it prints; their text, and the clock, are not modelled.
pub mod History
pub mod Dump
pub mod Statuses
pub mod Components
pub mod Application
pub mod Showing
pub mod Demonstration
pub mod Tests
use ring_buffer.Base.{
  ℕ, zero, suc, ◌+◌, Bool, true, false, ◌&&◌, not, List, [], ◌∷◌, ◌++◌, Option, some, none, ◌==◌,
  if◌then◌else◌, map,
}
use ring_buffer.Result.{Result, ok, throw, fault, ◌>>=◌}
use ring_buffer.Ring
use ring_buffer.Ring.{Ring}
use ring_buffer.Iterate.{visit, begin, end}

pub data Level : Type 0 where
  debug info warning error critical : Level

-- The values of the enumeration, in its order.
abbrev pub rank : Level → ℕ
rank debug = 0
rank info = 1
rank warning = 2
rank error = 3
rank critical = 4

-- A `std::string`, by the codes of its characters.
abbrev pub Text : Type 0
Text = List ℕ

pub record LogEntry : Type 0 where
  pub timestamp : ℕ
  pub level : Level
  pub message : Text
  pub source : Text

pub record CircularLogger : Type 0 where
  pub log_buffer : Ring LogEntry
  pub enabled : Bool
  pub log_file : Text
  pub write_to_file : Bool

pub data Sink : Type 0 where
  console file : Sink

abbrev pub empty_text : Text → Bool
empty_text [] = true
empty_text (c ∷ cs) = false

-- `opens` tells whether the file can be opened. The result has what is printed, and where.
unfoldable pub log :
    Bool → LogEntry → CircularLogger → Result (CircularLogger × List (Sink × LogEntry))
log opens entry l = if l.enabled then write_entry else ok (l, [])
  where
    to_file : List (Sink × LogEntry)
    to_file =
        if l.write_to_file && not (empty_text l.log_file) && opens then (file, entry) ∷ [] else []

    write_entry : Result (CircularLogger × List (Sink × LogEntry))
    write_entry = do
      buf ← Ring.push_back l.log_buffer entry
      ok (record l { log_buffer = buf }, (console, entry) ∷ to_file)

unfoldable pub clear : CircularLogger → Result CircularLogger
clear l = do buf ← Ring.clear l.log_buffer; ok (record l { log_buffer = buf })

abbrev pub set_enabled : Bool → CircularLogger → CircularLogger
set_enabled on l = record l { enabled = on }

-- `none` stands for the text "No entries available".
unfoldable pub get_oldest_entry : CircularLogger → Result (Option LogEntry)
get_oldest_entry l =
    if Ring.empty l.log_buffer then ok none else Ring.front l.log_buffer >>= λ e. ok (some e)

unfoldable pub get_newest_entry : CircularLogger → Result (Option LogEntry)
get_newest_entry l =
    if Ring.empty l.log_buffer then ok none else Ring.back l.log_buffer >>= λ e. ok (some e)

-- The body of the loop of `dump_logs` over the entries that the loop visits.
abbrev pub numbered : ℕ → List LogEntry → List (ℕ × LogEntry)
numbered count [] = []
numbered count (e ∷ es) = (count, e) ∷ numbered (count + 1) es

-- The same of `dump_logs_by_level`, which counts only what it prints.
abbrev pub numbered_at : Level → ℕ → List LogEntry → List (ℕ × LogEntry)
numbered_at level count [] = []
numbered_at level count (e ∷ es) =
    let skipped = numbered_at level count es in
    let printed = numbered_at level (count + 1) es in
    if rank e.level == rank level then (count, e) ∷ printed else skipped

abbrev pub after_loop :
    (List LogEntry → List (ℕ × LogEntry))
    → Option (Result (List LogEntry))
    → Option (Result (List (ℕ × LogEntry)))
after_loop body none = none
after_loop body (some m) = some (m >>= λ es. ok (body es))

-- The lines that are printed for entries, with fuel for the loop.
unfoldable pub dump_logs : ℕ → CircularLogger → Option (Result (List (ℕ × LogEntry)))
dump_logs fuel l =
    let r : Ring LogEntry = l.log_buffer in
    if Ring.empty r
    then some (ok [])
    else after_loop (numbered 0) (visit fuel r (begin 0 r) (end 0 r))

unfoldable pub dump_logs_by_level :
    ℕ → Level → CircularLogger → Option (Result (List (ℕ × LogEntry)))
dump_logs_by_level fuel level l =
    let r : Ring LogEntry = l.log_buffer in
    after_loop (numbered_at level 0) (visit fuel r (begin 0 r) (end 0 r))

-- What a program does with a logger.
pub data Call : Type 0 where
  logs : Bool → LogEntry → Call
  clears : Call
  enables : Bool → Call

unfoldable pub call : Call → CircularLogger → Result CircularLogger
call (logs opens entry) l = log opens entry l >>= λ p. ok (p.0)
call clears l = clear l
call (enables on) l = ok (set_enabled on l)

unfoldable pub calls : List Call → CircularLogger → Result CircularLogger
calls [] l = ok l
calls (c ∷ cs) l = do l' ← call c l; calls cs l'
