-- ===== src/Priority/Tests.antt =====
-- The buffer of `demonstrate_priority_processing` of examples/producer_consumer_example.cc when its threads start,
-- and the theorems at it.
use ring_buffer.Base.{
  Option, ◌≡◌, ◌++◌, refl, sym, false, List, [], none, replicate, length-replicate,
  get_elem?-replicate, slot-lt, slot-zero, arith,
}
use ring_buffer.Memory.{block}
use ring_buffer.Ring.{Ring}
use ring_buffer.Ring.Holds.{Holds, Represents, IsInStep, Represents-IsInStep}
use ring_buffer.ThreadSafe.{push}
use ring_buffer.ThreadSafe.OneConsumer.History.{
  Run, IsSafe, one_consumer, put_in, taken_out, here, calls,
}
use ring_buffer.Priority
use ring_buffer.Priority.{
  Packet, Processing, Reach, IsFinished, start, items, high_packet, pushes_high, next,
}
use ring_buffer.Priority.Workers.{workers, makes, pops, plays_by, high_producer}
use ring_buffer.Priority.Accounts.{start-IsServing}
use ring_buffer.Priority.Results.{never_fails, finished_counts}
use ring_buffer.Priority.Finish.{can_finish}

abbrev priority_buffer : Ring Packet
priority_buffer = record {
  capacity = 100;
  allocator = 0;
  buffer = block (replicate 100 none);
  head = 0;
  tail = 0;
  count = 0;
  full = false;
  just_overwrote = false;
  overwrite_position = 0;
}

priority_buffer-IsInStep : IsInStep priority_buffer
priority_buffer-IsInStep = sym (slot-zero 100 0 (omega arith))

priority_buffer-Holds : Holds priority_buffer []
priority_buffer-Holds = record {
  valid = ground (arith, length-replicate {A = Option Packet} 100 none);
  counted = refl;
  layout = λ i h. get_elem?-replicate 100 none _ (slot-lt 100 0 i (omega arith));
}

priority_buffer-Represents : Represents priority_buffer []
priority_buffer-Represents =
    Represents-IsInStep priority_buffer priority_buffer-Holds priority_buffer-IsInStep refl

-- The first producer has called `push_back`.
abbrev called : Processing
called = record (start priority_buffer) {
  system = Priority.enters (start priority_buffer) 0 (push (high_packet 0));
}

called-Reach : Reach (start priority_buffer) called
called-Reach = next Priority.here (pushes_high (omega arith) refl refl)

can_finish_example : (u : Processing) × Reach called u × IsFinished u
can_finish_example = can_finish priority_buffer-Represents priority_buffer-IsInStep called-Reach

-- A run to the end.
abbrev at_end : Processing
at_end = (can_finish priority_buffer-Represents priority_buffer-IsInStep Priority.here).0

abbrev to_end : Reach (start priority_buffer) at_end
to_end = (can_finish priority_buffer-Represents priority_buffer-IsInStep Priority.here).1

never_fails_example : (at_end.terminated ≡ false) × IsSafe at_end.system
never_fails_example = never_fails priority_buffer-Represents priority_buffer-IsInStep to_end

finished_counts_example :
    (at_end.processed_high ≡ items)
    × (at_end.processed_low ≡ items)
    × (at_end.system.ring.count ≡ 0)
finished_counts_example =
    finished_counts priority_buffer-Represents priority_buffer-IsInStep to_end
      (can_finish priority_buffer-Represents priority_buffer-IsInStep Priority.here).2

abbrev called_run : Run makes workers (start priority_buffer).system called.system
called_run = calls here 0 high_producer (push (high_packet 0)) refl refl refl

one_consumer_example :
    IsSafe called.system
    × ((ys : List Packet) × ([] ++ put_in called_run ≡ taken_out called_run ++ ys)
        × Represents called.system.ring ys)
one_consumer_example =
    one_consumer makes pops plays_by
      (start-IsServing priority_buffer priority_buffer-Represents priority_buffer-IsInStep).served
      called_run
