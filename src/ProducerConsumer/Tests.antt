-- ===== src/ProducerConsumer/Tests.antt =====
-- The buffer of examples/producer_consumer_example.cc when the threads start, and the theorems at it.
use ring_buffer.Base.{
  Option, ℕ, ◌*◌, ◌≡◌, refl, sym, true, false, [], none, replicate, length-replicate,
  get_elem?-replicate, slot-lt, slot-zero, arith,
}
use ring_buffer.Memory.{block}
use ring_buffer.Ring.{Ring}
use ring_buffer.Ring.Holds.{Holds, Represents-IsInStep}
use ring_buffer.ProducerConsumer.{
  DataPacket, start, Simulation, Reach, num_producers, items_per_producer, producers_joined,
  consumers_joined, here,
}
use ring_buffer.ProducerConsumer.Results.{results, never_reported}
use ring_buffer.ProducerConsumer.Run.{IsOpen}
use ring_buffer.ProducerConsumer.Outcomes.{NeverReports, outcomes}

abbrev new_buffer : Ring (DataPacket ℕ)
new_buffer = record {
  capacity = 1000;
  allocator = 0;
  buffer = block (replicate 1000 none);
  head = 0;
  tail = 0;
  count = 0;
  full = false;
  just_overwrote = false;
  overwrite_position = 0;
}

new_buffer-Holds : Holds new_buffer []
new_buffer-Holds = record {
  valid = ground (arith, length-replicate {A = Option (DataPacket ℕ)} 1000 none);
  counted = refl;
  layout = λ i h. get_elem?-replicate 1000 none _ (slot-lt 1000 0 i (omega arith));
}

new_buffer-IsOpen : IsOpen new_buffer []
new_buffer-IsOpen = record {
  represents =
      Represents-IsInStep new_buffer new_buffer-Holds (sym (slot-zero 1000 0 (omega arith))) refl;
  room = omega arith;
}

outcomes_example :
    ((t : Simulation ℕ) × Reach (start new_buffer) t
      × (t.reported ≡ true)
      × (t.total_produced ≡ 3000)
      × (t.total_consumed ≡ 3000))
    × ((t : Simulation ℕ) × Reach (start new_buffer) t
        × (consumers_joined t.workers ≡ true)
        × (t.system.ring.count ≡ 1)
        × (t.total_produced ≡ 3000)
        × (t.total_consumed ≡ 2999)
        × NeverReports t)
outcomes_example = outcomes new_buffer 7 new_buffer-IsOpen

-- A run that prints the results, and one that comes to an end without them.
abbrev printed : Simulation ℕ
printed = (outcomes new_buffer 7 new_buffer-IsOpen).0.0

abbrev short : Simulation ℕ
short = (outcomes new_buffer 7 new_buffer-IsOpen).1.0

results_example :
    (producers_joined printed.workers ≡ true)
    × (printed.total_produced ≡ num_producers * items_per_producer)
    × (printed.total_consumed ≡ num_producers * items_per_producer)
    × (printed.system.ring.count ≡ 0)
results_example =
    results refl (outcomes new_buffer 7 new_buffer-IsOpen).0.1
      (outcomes new_buffer 7 new_buffer-IsOpen).0.2

never_reported_example : (short.monitored ≡ false) × (short.reported ≡ false)
never_reported_example =
    never_reported (outcomes new_buffer 7 new_buffer-IsOpen).1.1
      (outcomes new_buffer 7 new_buffer-IsOpen).1.2
      (omega (arith, (outcomes new_buffer 7 new_buffer-IsOpen).1.5)) here
