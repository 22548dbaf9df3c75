-- ===== src/Iterate.antt =====
-- include/ring_buffer.h: `iterator` and `const_iterator`, which are alike but for the type of what
-- they refer to, `begin`, `end`, and the range-based `for` loop over a buffer.
pub mod Tests
use ring_buffer.Base.{
  ℕ, zero, suc, ◌+◌, ◌-◌, ◌≤◌, ◌<◌, ◌≡◌, ◌∙◌, refl, sym, ap, Bool, true, false, ◌&&◌, inl, inr,
  Bool-cases, List, [], ◌∷◌, max_size, dec_lt, Option, some, none, length, drop, get_elem?,
  get_elem?-of_lt, add_size, ◌==◌, leb, arith,
}
use ring_buffer.Result.{Result, ok, throw, fault, ◌>>=◌, out_of_range}
use ring_buffer.Ring
use ring_buffer.Ring.{Ring}
use ring_buffer.Ring.Holds.{Holds}
use ring_buffer.Ring.Access.{at-Holds}
use ring_buffer.Ring.Pop.{pop_front-Holds}

-- `buffer` names the buffer that the pointer `buffer_` points to, `none` is `nullptr`.
pub record Iterator : Type 0 where
  pub buffer : Option ℕ
  pub index : ℕ
  pub size : ℕ

-- The default constructor.
abbrev pub singular : Iterator
singular = record { buffer = none; index = 0; size = 0 }

-- `++it`
abbrev pub advance : Iterator → Iterator
advance it = record it { index = add_size it.index 1 }

-- `it++`: what it returns, and the iterator after it
abbrev pub postfix_advance : Iterator → Iterator × Iterator
postfix_advance it = (it, advance it)

abbrev same_buffer : Option ℕ → Option ℕ → Bool
same_buffer none none = true
same_buffer (some a) (some b) = a == b
same_buffer _ _ = false

abbrev pub equal : Iterator → Iterator → Bool
equal it other = same_buffer it.buffer other.buffer && it.index == other.index

module _ {ℓ} {A : Type ℓ} where
  -- `iterator(buffer, index)`, of the buffer of that name
  abbrev pub make : ℕ → Ring A → ℕ → Iterator
  make name r index = record { buffer = some name; index = index; size = r.count }

  abbrev pub begin : ℕ → Ring A → Iterator
  begin name r = make name r 0

  abbrev pub end : ℕ → Ring A → Iterator
  end name r = make name r r.count

  -- `*it`, with the buffer as it stands now
  abbrev pub deref : Ring A → Iterator → Result A
  deref r it = Ring.at r it.index

  -- One round of the loop before the rest of it. A round that throws ends the loop.
  abbrev pub round : Result A → Option (Result (List A)) → Option (Result (List A))
  round fault rest = some fault
  round (throw e) rest = some (throw e)
  round (ok a) none = none
  round (ok a) (some m) = some (m >>= λ items. ok (a ∷ items))

  -- The test `it != end` before each round.
  abbrev pub stop : Bool → Option (Result (List A)) → Option (Result (List A))
  stop true rounds = some (ok [])
  stop false rounds = rounds

  -- `for (auto& item : buffer)`, by the elements that it visits; `none` when the fuel runs out.
  unfoldable pub visit : ℕ → Ring A → Iterator → Iterator → Option (Result (List A))
  visit zero r it last = none
  visit (suc fuel) r it last =
      let rest = visit fuel r (advance it) last in stop (equal it last) (round (deref r it) rest)

  drop-get :
      (xs : List A) (i : ℕ) {a : A} → get_elem? xs i ≡ some a → drop i xs ≡ a ∷ drop (suc i) xs
  drop-get [] i e = cc
  drop-get (x ∷ xs) zero e = cc
  drop-get (x ∷ xs) (suc i) e = drop-get xs i e

  drop-length : (xs : List A) → drop (length xs) xs ≡ []
  drop-length [] = refl
  drop-length (x ∷ xs) = drop-length xs

  equal-make : (name : ℕ) (r : Ring A) (i j : ℕ) → equal (make name r i) (make name r j) ≡ (i == j)
  equal-make name r i j = let self : (name == name) ≡ true = ground arith in rw self refl

  advance-make :
      (name : ℕ) (r : Ring A) (i : ℕ) → i < max_size → advance (make name r i) ≡ make name r (suc i)
  advance-make name r i h =
      let next : add_size i 1 ≡ suc i = omega arith in
      ap (λ n. record { buffer = some name; index = n; size = r.count }) next

  visit-end :
      (name : ℕ) (r : Ring A) (fuel i : ℕ)
      → i ≡ r.count
      → visit (suc fuel) r (make name r i) (end name r) ≡ some (ok [])
  unfolding visit
  visit-end name r fuel i h =
      let met : equal (make name r i) (end name r) ≡ true =
        equal-make name r i r.count ∙ ground arith in
      ap
        (λ b.
          stop b
            (round (deref r (make name r i)) (visit fuel r (advance (make name r i)) (end name r))))
        met

  visit-round :
      (name : ℕ) (r : Ring A) (fuel i : ℕ)
      → i < r.count
      → r.count ≤ max_size
      → visit (suc fuel) r (make name r i) (end name r)
        ≡ round (Ring.at r i) (visit fuel r (make name r (suc i)) (end name r))
  unfolding visit
  visit-round name r fuel i h small =
      let apart : equal (make name r i) (end name r) ≡ false =
        equal-make name r i r.count ∙ ground arith in
      ap
        (λ b.
          stop b
            (round (deref r (make name r i)) (visit fuel r (advance (make name r i)) (end name r))))
        apart
      ∙ ap (λ it. round (Ring.at r i) (visit fuel r it (end name r)))
          (advance-make name r i (omega arith))

  -- From the position `i` the loop visits what is left of the list.
  visit-drop :
      (name : ℕ) (r : Ring A) (xs : List A)
      → Holds r xs
      → (fuel i : ℕ) → i ≤ length xs
      → length xs < fuel + i
      → visit fuel r (make name r i) (end name r) ≡ some (ok (drop i xs))
  visit-drop name r xs v zero i h f = absurd (omega arith)
  visit-drop name r xs v (suc fuel) i h f = elim (dec_lt i (length xs)) [
    | yes within ↦
        let (a, e) = get_elem?-of_lt xs i within in
        let rest : visit fuel r (make name r (suc i)) (end name r) ≡ some (ok (drop (suc i) xs)) =
          visit-drop name r xs v fuel (suc i) within (omega arith) in
        let small : r.count ≤ max_size = omega (arith, v.count_in, v.capacity_small) in
        visit-round name r fuel i (omega (arith, v.counted)) small
        ∙ rw (at-Holds r v i, e, rest, drop-get xs i e) refl
    | no past ↦
        let met : i ≡ length xs = omega arith in
        visit-end name r fuel i (met ∙ sym v.counted)
        ∙ ap (λ ys. some (ok ys)) (sym (ap (λ n. drop n xs) met ∙ drop-length xs))
  ]

  -- On a buffer that holds a list, a range-based `for` loop given more fuel than elements ends, throws
  -- nothing, and visits the elements of the list in order.
  pub visit-Holds :
      (name : ℕ) (r : Ring A) (xs : List A) (fuel : ℕ)
      → Holds r xs
      → length xs < fuel
      → visit fuel r (begin name r) (end name r) ≡ some (ok xs)
  visit-Holds name r xs fuel v enough = visit-drop name r xs v fuel 0 (omega arith) (omega arith)

  -- An iterator that was taken before a `pop_front` on a buffer that holds a list refers, after it, to
  -- the element after the one that it referred to, as long as there is one.
  deref-pop_front :
      (r : Ring A) (x : A) (xs : List A) (it : Iterator)
      → Holds r (x ∷ xs)
      → it.index < length xs
      → (r' : Ring A) × (Ring.pop_front r ≡ ok (x, r')) × (deref r' it ≡ deref r (advance it))
  deref-pop_front r x xs it v h =
      let (r', e, v') = pop_front-Holds r v in
      let (a, there) = get_elem?-of_lt xs it.index h in
      let next : add_size it.index 1 ≡ suc it.index =
        omega (arith, v.counted, v.count_in, v.capacity_small) in
      let before : Ring.at r' it.index ≡ ok a = rw there at (at-Holds r' v' it.index) in
      let after : Ring.at r (suc it.index) ≡ ok a = rw there at (at-Holds r v (suc it.index)) in
      (r', e, before ∙ sym (ap (Ring.at r) next ∙ after))
