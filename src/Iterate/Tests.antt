-- ===== src/Iterate/Tests.antt =====
-- Loops and iterators over buffers of three numbers, and the theorems at them.
use ring_buffer.Base.{◌≡◌, [], ◌∷◌, some, arith}
use ring_buffer.Result.{ok}
use ring_buffer.Ring.Tests.{overwritten, overwritten-Holds}
use ring_buffer.Iterate.{begin, end, visit, visit-Holds}

visit-Holds_example :
    visit 4 overwritten (begin 7 overwritten) (end 7 overwritten) ≡ some (ok (2 ∷ 3 ∷ 4 ∷ []))
visit-Holds_example = visit-Holds 7 overwritten (2 ∷ 3 ∷ 4 ∷ []) 4 overwritten-Holds (omega arith)
