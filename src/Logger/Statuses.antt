-- ===== src/Logger/Statuses.antt =====
-- examples/logging_example.cc: `print_status`, and what it prints of a logger that keeps the latest entries.
use ring_buffer.Base.{ℕ, ◌-◌, ◌≡◌, Bool, List, length, length-drop, min, ◌==◌, leb, arith}
use ring_buffer.Window.Latest.{latest}
use ring_buffer.Ring
use ring_buffer.Ring.{Ring}
use ring_buffer.Ring.Holds.{Represents}
use ring_buffer.Logger.{LogEntry, CircularLogger}
use ring_buffer.Logger.History.{Keeps}

-- What `print_status` prints of the buffer; the line on the file is left out.
pub record Status : Type 0 where
  pub size : ℕ
  pub capacity : ℕ
  pub is_full : Bool
  pub is_empty : Bool
  pub available_slots : ℕ

abbrev pub status_of : CircularLogger → Status
status_of l =
    let r : Ring LogEntry = l.log_buffer in
    record {
      size = r.count;
      capacity = r.capacity;
      is_full = r.full;
      is_empty = Ring.empty r;
      available_slots = Ring.available r;
    }

-- The status of a logger of some capacity when that many entries were logged.
abbrev pub status_after : ℕ → ℕ → Status
status_after cap n = record {
  size = min n cap;
  capacity = cap;
  is_full = leb cap n;
  is_empty = n == 0;
  available_slots = cap - n;
}

pub status-Keeps :
    (cap : ℕ) (l : CircularLogger) (on : Bool) (es : List LogEntry)
    → Keeps cap l on es
    → status_of l ≡ status_after cap (length es)
unfolding Ring.empty Ring.available
status-Keeps cap l on es v =
    let rep : Represents l.log_buffer (latest cap es) = v.represents in
    let many : l.log_buffer.count ≡ min (length es) cap =
      omega (arith, rep.counted, length-drop (length es - cap) es) in
    let full : l.log_buffer.full ≡ leb cap (length es) =
      ground (arith, rep.full_is, many, v.capacity_is) in
    let empty : (l.log_buffer.count == 0) ≡ (length es == 0) =
      ground (arith, many, v.capacity_is, rep.capacity_pos) in
    let free : Ring.available l.log_buffer ≡ cap - length es =
      ground (arith, full, many, v.capacity_is, rep.capacity_small) in
    cc (many, full, empty, free, v.capacity_is)
