-- ===== src/Ring/Throws.antt =====
-- include/ring_buffer.h: `emplace_back` when the constructor of the element throws.
use ring_buffer.Base.{none}
use ring_buffer.Memory.{write}
use ring_buffer.Ring.{Ring}
use ring_buffer.Ring.Holds.{Holds}

module _ {ℓ} {A : Type ℓ} (r : Ring A) where
  -- A full buffer less the object in its first cell.
  abbrev vacated : Ring A
  vacated = record r { buffer = write r.buffer r.head none }
