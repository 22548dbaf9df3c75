-- ===== src/Ring/Latest.antt =====
-- include/ring_buffer.h: `push_back` on a buffer that keeps the latest of all elements that were pushed.
use ring_buffer.Base.{ℕ, ◌≡◌, ◌<◌, ◌∙◌, ap, subst, List, [], ◌∷◌, ◌++◌, arith}
use ring_buffer.Result.{ok}
use ring_buffer.Window
use ring_buffer.Window.Latest.{latest, push-latest}
use ring_buffer.Ring.{Ring, push_back}
use ring_buffer.Ring.Valid.{capacity-push_back}
use ring_buffer.Ring.Holds.{Represents}
use ring_buffer.Ring.Push.{push_back-Represents}

module _ {ℓ} {A : Type ℓ} where
  -- One more element, and the buffer keeps the latest with that one.
  pub push_back-latest :
      (r : Ring A) (n : ℕ) (old : List A) (x : A)
      → r.capacity ≡ n
      → Represents r (latest n old)
      → (r' : Ring A) × (push_back r x ≡ ok r')
        × (r'.capacity ≡ n)
        × Represents r' (latest n (old ++ x ∷ []))
  push_back-latest r n old x c v =
      let (r', e, v') = push_back-Represents r x v in
      let pos : 0 < n = omega (arith, v.capacity_pos, c) in
      (
        r',
        e,
        capacity-push_back r x e ∙ c,
        subst (Represents r') (ap (λ k. Window.push k (latest n old) x) c ∙ push-latest n old x pos)
            v',
      )
