-- ===== src/Window.antt =====
-- What a ring buffer promises: a queue of at most `capacity` elements, oldest first, that drops the
-- oldest element to make room for a new one.
pub mod Latest
use ring_buffer.Script.{
  Op, Reply, emplace, pop, wipe, read_front, read_back, read_at, done, got, threw,
}
use ring_buffer.Result.{Exception, pop_from_empty, front_of_empty, back_of_empty, out_of_range}
use ring_buffer.Base.{
  Bool, true, false, ◌||◌, ◌&&◌, Option, some, none, get_elem?, ◌-◌, ℕ, suc, ◌≡◌, ◌≤◌, ◌<◌,
  length-append, length-drop, arith, List, [], ◌∷◌, ◌++◌, if◌then◌else◌, ◌==◌, length, drop,
}

module _ {ℓ} {A : Type ℓ} where
  unfoldable pub push : ℕ → List A → A → List A
  push cap xs x = if length xs == cap then drop 1 xs ++ x ∷ [] else xs ++ x ∷ []

  pub push-full :
      (cap : ℕ) (x : A) (xs : List A) (y : A)
      → suc (length xs) ≡ cap
      → push cap (x ∷ xs) y ≡ xs ++ y ∷ []
  unfolding push
  push-full cap x xs y h = ground arith

  pub push-room : (cap : ℕ) (xs : List A) (y : A) → length xs < cap → push cap xs y ≡ xs ++ y ∷ []
  unfolding push
  push-room cap xs y h = ground arith

  -- The second of two pushes on a window with one free place drops the oldest element.
  pub push-push :
      (cap : ℕ) (xs : List A) (x y : A)
      → suc (length xs) ≡ cap
      → push cap (push cap xs x) y ≡ drop 1 (xs ++ x ∷ []) ++ y ∷ []
  unfolding push
  push-push cap xs x y h = ground (arith, length-append xs (x ∷ []))

  -- A window never holds more than its capacity.
  pub length-push :
      (cap : ℕ) (xs : List A) (y : A) → length xs ≤ cap → 0 < cap → length (push cap xs y) ≤ cap
  unfolding push
  length-push cap xs y h pos =
      ground
        (arith, length-append xs (y ∷ []), length-append (drop 1 xs) (y ∷ []), length-drop 1 xs)

  -- What a client sees of a read that throws where there is no element.
  abbrev pub answer : Option A → Exception → Reply A
  answer none e = threw e
  answer (some a) e = got a

  unfoldable pub step : ℕ → List A → Op A → Reply A × List A
  step cap xs (Op.push x) = (done, push cap xs x)
  step cap xs (emplace x) = (done, push cap xs x)
  step cap xs pop = (answer (get_elem? xs 0) pop_from_empty, drop 1 xs)
  step cap xs wipe = (done, [])
  step cap xs read_front = (answer (get_elem? xs 0) front_of_empty, xs)
  step cap xs read_back = (answer (get_elem? xs (length xs - 1)) back_of_empty, xs)
  step cap xs (read_at i) = (answer (get_elem? xs i) (out_of_range i cap), xs)

  unfoldable pub run : ℕ → List A → List (Op A) → List (Reply A) × List A
  run cap xs [] = ([], xs)
  run cap xs (op ∷ ops) =
      let (reply, ys) = step cap xs op in
      let (replies, zs) = run cap ys ops in (reply ∷ replies, zs)

  -- Whether an element has been overwritten since the window was last empty by `wipe`.
  abbrev pub overwrites : ℕ → List A → Bool → Op A → Bool
  overwrites cap xs stale (Op.push x) = stale || length xs == cap
  overwrites cap xs stale (emplace x) = stale || length xs == cap
  overwrites cap xs stale wipe = false
  overwrites cap xs stale _ = stale

  abbrev pub pops : Op A → Bool
  pops pop = true
  pops _ = false

  -- No call of the script pops from a window of which an element has been overwritten.
  abbrev pub IsSafe : ℕ → List A → Bool → List (Op A) → Type 0
  IsSafe cap xs stale [] = Unit
  IsSafe cap xs stale (op ∷ ops) =
      ((stale && pops op) ≡ false) × IsSafe cap (step cap xs op).1 (overwrites cap xs stale op) ops
