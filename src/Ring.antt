-- ===== src/Ring.antt =====
-- include/ring_buffer.h: the state of `ring_buffer` and the operations on one buffer. A method that
-- changes the buffer returns the new one. The modules below prove what they do.
pub mod Valid
pub mod Layout
pub mod Holds
pub mod Push
pub mod Latest
pub mod Pop
pub mod Access
pub mod Clear
pub mod Throws
pub mod Stale
pub mod Phantom
pub mod Run
pub mod Safety
pub mod Tests
use ring_buffer.Base.{
  ℕ, zero, suc, ◌+◌, ◌-◌, ◌%◌, Bool, true, false, if◌then◌else◌, ltb, leb, ◌==◌, add_size, sub_size,
}
use ring_buffer.Result.{
  Result, ok, throw, ◌>>=◌, pop_from_empty, front_of_empty, back_of_empty, out_of_range,
}
use ring_buffer.Memory.{Storage, read, construct, assign, destroy}

-- `allocator` stands for the allocator object that `allocator_` holds.
pub record Ring {ℓ} (A : Type ℓ) : Type ℓ where
  pub capacity : ℕ
  pub allocator : ℕ
  pub buffer : Storage A
  pub head : ℕ
  pub tail : ℕ
  pub count : ℕ
  pub full : Bool
  pub just_overwrote : Bool
  pub overwrite_position : ℕ

module _ {ℓ} {A : Type ℓ} where
  unfoldable pub empty : Ring A → Bool
  empty r = r.count == 0

  unfoldable pub available : Ring A → ℕ
  available r = if r.full then 0 else sub_size r.capacity r.count

  unfoldable pub increment_head : Ring A → Ring A
  increment_head r =
      let r1 : Ring A = record r { head = add_size r.head 1 % r.capacity } in
      let r2 : Ring A = if r1.full then record r1 { full = false } else r1 in
      let r3 : Ring A = if ltb 0 r2.count then record r2 { count = r2.count - 1 } else r2 in
      record r3 { just_overwrote = false }

  unfoldable pub overwrite_advance_head : Ring A → Ring A
  overwrite_advance_head r =
      let r1 : Ring A = record r { overwrite_position = r.head } in
      let r2 : Ring A = record r1 { head = add_size r1.head 1 % r1.capacity } in
      record r2 { just_overwrote = true }

  unfoldable pub increment_tail : Ring A → Ring A
  increment_tail r =
      let r1 : Ring A = record r { tail = add_size r.tail 1 % r.capacity } in
      let r2 : Ring A = if r1.full then r1 else (record r1 {
        count = add_size r1.count 1;
        full = add_size r1.count 1 == r1.capacity;
      }) in
      record r2 { just_overwrote = false }

  unfoldable pub decrement_index : Ring A → ℕ → ℕ
  decrement_index r index = if index == 0 then sub_size r.capacity 1 else index - 1

  -- Both overloads: copying and moving give the cell the same value.
  unfoldable pub push_back : Ring A → A → Result (Ring A)
  push_back r item = if r.full then overwrite else append
    where
      overwrite : Result (Ring A)
      overwrite = do
        buf ← assign r.buffer r.head item
        ok (overwrite_advance_head (record r { buffer = buf }))

      append : Result (Ring A)
      append = do
        buf ← construct r.buffer r.tail item
        ok (increment_tail (record r { buffer = buf }))

  -- `emplace_back` on a full buffer before it constructs: the buffer as it is left if that throws.
  unfoldable pub vacate : Ring A → Result (Ring A)
  vacate r = do buf ← destroy r.buffer r.head; ok (record r { buffer = buf })

  -- `made` is how the constructor of the element ends on the forwarded arguments: with an object, or by
  -- an exception.
  unfoldable pub emplace_back : Ring A → Result A → Result (Ring A)
  unfolding vacate
  emplace_back r made = if r.full then overwrite else append
    where
      overwrite : Result (Ring A)
      overwrite = do
        r1 ← vacate r
        item ← made
        buf ← construct r1.buffer r1.head item
        ok (overwrite_advance_head (record r1 { buffer = buf }))

      append : Result (Ring A)
      append = do
        item ← made
        buf ← construct r.buffer r.tail item
        ok (increment_tail (record r { buffer = buf }))

  unfoldable pub pop_front : Ring A → Result (A × Ring A)
  pop_front r = if empty r then throw pop_from_empty else remove
    where
      remove : Result (A × Ring A)
      remove = do
        item ← read r.buffer r.head
        buf ← destroy r.buffer r.head
        ok (item, increment_head (record r { buffer = buf }))

  -- Both overloads of each accessor. What stands for a reference is the value that it reads.
  unfoldable pub front : Ring A → Result A
  front r = if empty r then throw front_of_empty else read r.buffer r.head

  unfoldable pub back : Ring A → Result A
  back r =
      if empty r
      then throw back_of_empty
      else if r.just_overwrote
      then read r.buffer r.overwrite_position
      else read r.buffer (decrement_index r r.tail)

  -- `operator[]`, whose message names the capacity as the size
  unfoldable pub at : Ring A → ℕ → Result A
  at r index =
      if leb r.count index
      then throw (out_of_range index r.capacity)
      else read r.buffer (add_size r.head index % r.capacity)

  -- The loop of `clear`, with `rounds` of its rounds left.
  unfoldable pub destroy_all : ℕ → Storage A → ℕ → ℕ → ℕ → Result (Storage A)
  destroy_all zero buf capacity head i = ok buf
  destroy_all (suc rounds) buf capacity head i = do
    buf' ← destroy buf (add_size head i % capacity)
    destroy_all rounds buf' capacity head (i + 1)

  unfoldable pub clear : Ring A → Result (Ring A)
  clear r = do
    buf ← destroy_all r.count r.buffer r.capacity r.head 0
    ok (record r { buffer = buf; head = 0; tail = 0; count = 0; full = false })
