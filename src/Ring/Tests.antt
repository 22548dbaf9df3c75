-- ===== src/Ring/Tests.antt =====
-- Buffers of three numbers, runs of the code on them, and the theorems at them.
use ring_buffer.Base.{◌-◌, ℕ, zero, suc, ◌≡◌, refl, true, false, List, [], ◌∷◌, none, some, arith}
use ring_buffer.Result.{ok, fault, pop_from_empty, out_of_range}
use ring_buffer.Memory.{block, cells, read, assign, destroy}
use ring_buffer.Script.{Op, emplace, pop, wipe, read_back, read_at, done, got, threw}
use ring_buffer.Window
use ring_buffer.Ring.{
  Ring, empty, push_back, emplace_back, pop_front, back, at, clear, increment_head,
  overwrite_advance_head, decrement_index,
}
use ring_buffer.Ring.Valid.{IsValid}
use ring_buffer.Ring.Layout.{Layout}
use ring_buffer.Ring.Holds.{Holds, Represents, IsInStep}
use ring_buffer.Ring.Push.{push_back-Represents, emplace_back-eq-push_back}
use ring_buffer.Ring.Pop.{Pops, pop_front-Pops}
use ring_buffer.Ring.Access.{at-Holds, back-Represents}
use ring_buffer.Ring.Clear.{clear-Holds}
use ring_buffer.Ring.Stale.{push-pop-push-at_fault}
use ring_buffer.Ring.Run.{step, run, run_refines}
use ring_buffer.Ring.Safety.{run-IsValid}

-- Full, and never overwritten.
abbrev pub filled : Ring ℕ
filled = record {
  capacity = 3;
  allocator = 0;
  buffer = block (some 1 ∷ some 2 ∷ some 3 ∷ []);
  head = 0;
  tail = 0;
  count = 3;
  full = true;
  just_overwrote = false;
  overwrite_position = 0;
}

-- The same after `push_back(4)`.
abbrev pub overwritten : Ring ℕ
overwritten = record filled {
  buffer = block (some 4 ∷ some 2 ∷ some 3 ∷ []);
  head = 1;
  just_overwrote = true;
}

-- `filled` after `pop_front()`: the elements start at cell 1.
abbrev pub popped : Ring ℕ
popped = record filled {
  buffer = block (none ∷ some 2 ∷ some 3 ∷ []);
  head = 1;
  count = 2;
  full = false;
}

abbrev numbers : List ℕ
numbers = 1 ∷ 2 ∷ 3 ∷ []

filled-Layout : Layout (cells filled.buffer) 3 0 numbers
filled-Layout zero h = refl
filled-Layout (suc zero) h = refl
filled-Layout (suc (suc zero)) h = refl
filled-Layout (suc (suc (suc i))) h = absurd (omega arith)

overwritten-Layout : Layout (cells overwritten.buffer) 3 1 (2 ∷ 3 ∷ 4 ∷ [])
overwritten-Layout zero h = refl
overwritten-Layout (suc zero) h = refl
overwritten-Layout (suc (suc zero)) h = refl
overwritten-Layout (suc (suc (suc i))) h = absurd (omega arith)

popped-Layout : Layout (cells popped.buffer) 3 1 (2 ∷ 3 ∷ [])
popped-Layout zero h = refl
popped-Layout (suc zero) h = refl
popped-Layout (suc (suc zero)) h = refl
popped-Layout (suc (suc (suc i))) h = absurd (omega arith)

filled-IsValid : IsValid filled
filled-IsValid = ground arith

pub filled-Holds : Holds filled numbers
filled-Holds = record { valid = ground arith; counted = refl; layout = filled-Layout }

pub filled-Represents : Represents filled numbers
unfolding decrement_index
filled-Represents = record { holds = filled-Holds; write_at = λ e. cc; back_at = λ p. refl }

pub overwritten-Holds : Holds overwritten (2 ∷ 3 ∷ 4 ∷ [])
overwritten-Holds = record { valid = ground arith; counted = refl; layout = overwritten-Layout }

pub overwritten-Represents : Represents overwritten (2 ∷ 3 ∷ 4 ∷ [])
overwritten-Represents = record {
  holds = overwritten-Holds;
  write_at = λ e. cc;
  back_at = λ p. refl;
}

pub popped-Holds : Holds popped (2 ∷ 3 ∷ [])
popped-Holds = record { valid = ground arith; counted = refl; layout = popped-Layout }

pub popped-Represents : Represents popped (2 ∷ 3 ∷ [])
unfolding decrement_index
popped-Represents = record { holds = popped-Holds; write_at = λ e. refl; back_at = λ p. refl }

-- Pushes, a pop and reads, with no element overwritten before the pop.
abbrev script : List (Op ℕ)
script = pop ∷ emplace 4 ∷ Op.push 5 ∷ read_back ∷ read_at 0 ∷ read_at 7 ∷ wipe ∷ pop ∷ []

run-filled :
    (Window.run 3 numbers script).0
    ≡ got 1
      ∷ done
      ∷ done
      ∷ got 5
      ∷ got 3
      ∷ threw (out_of_range 7 3)
      ∷ done
      ∷ threw pop_from_empty
      ∷ []
unfolding Window.run Window.step Window.push
run-filled = refl

run_refines_example :
    (r' : Ring ℕ) × (run filled script ≡ ok ((Window.run 3 numbers script).0, r'))
    × Represents r' (Window.run 3 numbers script).1
    × (r'.capacity ≡ 3)
unfolding Window.step Window.push
run_refines_example =
    run_refines script filled numbers false filled-Represents (λ _. refl)
      (refl, (refl, (refl, (refl, (refl, (refl, (refl, (refl, tt))))))))

-- A push on the full buffer, which leaves the tail out of step.
run-IsValid_example : IsValid overwritten
unfolding run step push_back assign overwrite_advance_head
run-IsValid_example =
    run-IsValid (Op.push 4 ∷ []) {r = filled} {replies = done ∷ []} filled-IsValid refl

push_back-Represents_example :
    (r' : Ring ℕ) × (push_back overwritten 5 ≡ ok r')
    × Represents r' (Window.push 3 (2 ∷ 3 ∷ 4 ∷ []) 5)
push_back-Represents_example = push_back-Represents overwritten 5 overwritten-Represents

emplace_back-eq-push_back_example : emplace_back overwritten (ok 5) ≡ push_back overwritten 5
emplace_back-eq-push_back_example = emplace_back-eq-push_back overwritten 5

pop_front-Pops_example : Pops numbers (pop_front filled)
pop_front-Pops_example = pop_front-Pops filled numbers filled-Represents refl

at-Holds_example : at popped 1 ≡ ok 3
at-Holds_example = at-Holds popped popped-Holds 1

back-Represents_example : back overwritten ≡ ok 4
back-Represents_example = back-Represents overwritten (2 ∷ 3 ∷ 4 ∷ []) overwritten-Represents

clear-Holds_example : (r' : Ring ℕ) × (clear overwritten ≡ ok r') × Represents r' [] × IsInStep r'
clear-Holds_example = clear-Holds overwritten overwritten-Holds

push-pop-push-at_fault_example :
    (r0 r1 r2 : Ring ℕ) × (push_back filled 4 ≡ ok r0)
    × (pop_front r0 ≡ ok (2, r1))
    × (push_back r1 5 ≡ ok r2)
    × (r2.count ≡ r2.capacity)
    × (at r2 (r2.capacity - 1) ≡ fault)
push-pop-push-at_fault_example = push-pop-push-at_fault filled filled-Represents refl refl 4 5

-- The same by evaluation, with what `back` then returns: not the element pushed last.
after_overwrite :
    run filled (Op.push 4 ∷ pop ∷ read_back ∷ [])
    ≡ ok (
      done ∷ got 2 ∷ got 3 ∷ [],
      record popped { buffer = block (some 4 ∷ none ∷ some 3 ∷ []); head = 2 },
    )
unfolding run step push_back assign overwrite_advance_head pop_front empty read destroy
    increment_head back decrement_index
after_overwrite = refl
