-- ===== src/Lib.antt =====
-- RingBuffer: a header library with a circular buffer of fixed capacity, `ring_buffer`
-- (include/ring_buffer.h), and a wrapper of it for threads, `ring_buffer_thread_safe`
-- (include/thread_safe_ring_buffer.h). This library models both and proves what they do.
--
-- The parts and their files:
--   Base, with Base/Tests, Base/Lists, Base/Words: names passed on from the libraries, Boolean tests
--     on numbers, lemmas on lists, the arithmetic of `size_t` and of positions modulo the capacity.
--   Result: how a call ends, `ok`, `throw` with the exception, or `fault` for undefined behaviour.
--   Memory: the storage that `buffer_` points to. A cell is `none` while it is raw memory and `some`
--     while an object lives in it; `construct`, `assign`, `read` and `destroy` are the accesses. To
--     construct over a live object, which C++ allows, loses that object; every other access to a cell
--     in the wrong state, or outside the storage, is `fault`.
--   Ring: one `ring_buffer`. The record `Ring` has the data members of the class, and each method is
--     the definition of its name (`at` is `operator[]`; `empty`, `front`, `back`, `clear`,
--     `increment_head`, `overwrite_advance_head`, `increment_tail`, `decrement_index`). `full`, `size`
--     and `capacity` of the class are the fields `full`, `count` and `capacity`.
--   Ring/Valid, Ring/Layout, Ring/Holds: the bounds on the fields; which cells hold the elements; when
--     a buffer represents a list, oldest element first.
--   Ring/Push, Ring/Pop, Ring/Access, Ring/Clear: each operation on a buffer that represents a list.
--   Ring/Latest, Window/Latest: a buffer that only sees pushes. Ring/Throws: `emplace_back` when the
--     constructor of the element throws.
--   Script, Window, Ring/Run, Ring/Safety: sequences of calls, the sliding window of elements that a
--     ring buffer promises, and the two side by side.
--   Ring/Stale, Ring/Phantom: what follows when an element was overwritten and another is popped, for
--     one push after it and for any number.
--   Iterate: `iterator` and `const_iterator`, `begin` and `end`, and a range-based `for` loop.
--   Objects, with Objects/Cells, Copy, Assign, Move, Lifetime: the constructors, assignments and the
--     destructor, over an allocator that is a parameter (`Traits`), with what an allocator documents
--     as `IsAllocator`: it returns raw memory for at least as many objects as asked, or throws.
--   ThreadSafe: what each method of the wrapper does from taking the mutex to giving it up, as one
--     step on the buffer that it guards. ThreadSafe/Threads makes of these steps, of the waits and of
--     the signals of the two condition variables a step relation on any number of threads.
--   ThreadSafe/Queue, Turns, Whole, Refine: the blocking queue that the wrapper promises, and the
--     interleavings of the two. ThreadSafe/History: what went in and came out over a run.
--     ThreadSafe/Counts, Wakeups: the threads that sleep and the free slots. ThreadSafe/Races:
--     interleavings that the queue does not have. ThreadSafe/Places: one worker for each thread, and
--     sums over the places of the threads. ThreadSafe/OneConsumer, with Calls, History, Worth:
--     programs in which one thread calls `pop_front_with_timeout` and the others call `push_back`.
--   Logger, Logger/History, Logger/Dump: `CircularLogger` of examples/logging_example.cc over `Ring`,
--     with what it prints as a list of entries; what it keeps after any calls, and what it shows.
--     Logger/Components, Logger/Demonstration: `SystemComponent` and `demonstrate_advanced_logging`,
--     with the random values, the clock and the file system as a parameter.
--     Logger/Statuses: `print_status`. Logger/Application, Logger/Showing: `main`, over a clock and a
--     file system that are parameters, and what the program shows.
--   Audio, with Audio/Loops, Behind, Simulation: the class of examples/audio_buffer_example.cc. A
--     sample is an element of a type that is a parameter with its arithmetic, and the sound is a
--     parameter too; the schedule of `run_simulation` is the code's.
--     Audio/Analysis, Windows: `demonstrate_audio_analysis` of the same file, with the random samples
--     and the arithmetic on them as parameters, and what it prints.
--   ProducerConsumer, with Counts, Places, Ledger, Balance, Results, Run, Outcomes: the threads of
--     examples/producer_consumer_example.cc as steps around those of ThreadSafe/Threads, with their
--     counters and flags; what the counters say of the buffer, and runs of three producers and two
--     consumers. Pauses are not modelled, that of five seconds before the stop neither: a thread may
--     be kept from its next step for any time, so the flag may be set before the consumers have taken
--     the last packets.
--   Priority, with Workers, Accounts, Steps, Results, Onward, Settle, Drain, Deliver, Calm, Finish:
--     `demonstrate_priority_processing` of the same file as steps of its three threads; what each
--     worker may call, the accounts of the packets of either priority, and how a run can be brought
--     to its end.
--   StaticAllocator, StaticAllocator/Samples: the allocator and the program of
--     examples/embedded_static_allocator_example.cc, from the constructor of its buffer to the
--     destructor. The storage is used by one buffer at a time: that two buffers over one such
--     allocator share it is not shown.
--   The Tests module below each part: runs of the code and the theorems at them.
--
-- How the model stands to the code:
--   Numbers of type `size_t` are natural numbers, with the wrap-around modulo 2 ^ 64 where the code
--   adds or subtracts. `max_size`, 2 ^ 63 - 1, is the largest number of objects that an allocator
--   gives memory for, so that no sum of two positions wraps around.
--   An element is a value of a type `A`: its copies, moves and destructor are taken to succeed, but
--   the constructor that `emplace_back` calls may throw. In scripts and in the wrapper it does not.
--   The overloads for `T const&` and `T&&` are one definition. A reference that a method returns is
--   the value that it reads. An argument is not an element of the same buffer.
--   Loops up to `count_` recur on the number of rounds left. A range-based `for` loop and a `while`
--     loop take fuel: one round for each element and one for the last test.
--   Assignment takes a Boolean that tells whether the two objects are one.
--   A thread that runs code after it has released the mutex runs that code as one step. In the code
--   it races with any other thread that is in a method, with the mutex or without, which is undefined
--   behaviour: the model shows what can happen at best, and `fault` does not stand for such a race.
--   A time limit may pass at any moment, a waiting thread may wake by itself, and `notify_one` wakes
--   any one of the threads that wait.
--
-- Not modelled: exceptions of copies and moves of elements, and of their constructors in the wrapper;
-- include/ring_buffer_to_string.h, which names methods that the class does not have; the text of log
-- entries and its colours; the `main` functions of the audio example and of the producer and consumer
-- example; the averages that `process_audio_samples` prints; benchmarks/, which measure; the tests;
-- TypeTraits/, another library, of which these files use nothing; the build files.
mod Base
pub mod Result
pub mod Memory
pub mod Script
pub mod Window
pub mod Ring
pub mod Iterate
pub mod Logger
pub mod Objects
pub mod Audio
pub mod ProducerConsumer
pub mod Priority
pub mod StaticAllocator
pub mod ThreadSafe
