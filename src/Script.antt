-- ===== src/Script.antt =====
-- A client's calls on a `ring_buffer` in order, and what it sees of each.
use ring_buffer.Base.{ℕ}
use ring_buffer.Result.{Exception}

pub data Op {ℓ} (A : Type ℓ) : Type ℓ where
  push emplace : A → Op A
  pop wipe read_front read_back : Op A
  read_at : ℕ → Op A

pub data Reply {ℓ} (A : Type ℓ) : Type ℓ where
  done : Reply A
  got : A → Reply A
  threw : Exception → Reply A
