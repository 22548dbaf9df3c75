-- ===== src/StaticAllocator/Tests.antt =====
-- Fresh storage for the samples of the program, and the theorem at it.
use ring_buffer.Base.{◌≡◌, none, some, replicate, get_elem?-replicate, arith}
use ring_buffer.Result.{ok}
use ring_buffer.Memory.{Storage, block}
use ring_buffer.Objects.Lifetime.{IsRaw}
use ring_buffer.StaticAllocator.{StaticAllocator, SensorSample, buffer_capacity, ticked, main}
use ring_buffer.StaticAllocator.Samples.{IsFresh, program_lem}

abbrev sample_storage : StaticAllocator SensorSample
sample_storage = record {
  storage = block (replicate buffer_capacity none);
  capacity = buffer_capacity;
}

sample_storage-IsFresh : IsFresh sample_storage
sample_storage-IsFresh = record {
  sized = omega arith;
  small = omega arith;
  raw = λ i h. get_elem?-replicate buffer_capacity none i h;
}

-- The program of the file processes the samples of the last eight of its twelve ticks.
program_lem_example :
    (s : Storage SensorSample) × (main 9 sample_storage ≡ some (ok (ticked 8 4, some (s, 8))))
    × IsRaw s 8
unfolding main
program_lem_example =
    program_lem sample_storage 8 9 (ticked 12 0) sample_storage-IsFresh (omega arith) (omega arith)
      (omega arith)
