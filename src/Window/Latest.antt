-- ===== src/Window/Latest.antt =====
-- A window that only sees pushes keeps the latest elements.
use ring_buffer.Base.{
  ℕ, zero, suc, ◌-◌, ◌≤◌, ◌<◌, ◌≡◌, ◌∙◌, refl, sym, ap, List, [], ◌∷◌, ◌++◌, length, length-append,
  length-drop, drop, dec_lt, arith,
}
use ring_buffer.Window

module _ {ℓ} {A : Type ℓ} where
  -- The last elements of a list, as many as the capacity.
  abbrev pub latest : ℕ → List A → List A
  latest cap xs = drop (length xs - cap) xs

  drop-one : (n : ℕ) (xs : List A) → drop 1 (drop n xs) ≡ drop (suc n) xs
  drop-one zero xs = refl
  drop-one (suc n) [] = refl
  drop-one (suc n) (x ∷ xs) = drop-one n xs

  drop-append : (n : ℕ) (xs ys : List A) → n ≤ length xs → drop n (xs ++ ys) ≡ drop n xs ++ ys
  drop-append zero xs ys h = refl
  drop-append (suc n) [] ys h = absurd (omega arith)
  drop-append (suc n) (x ∷ xs) ys h = drop-append n xs ys (omega arith)

  pub drop-nil : (n : ℕ) → drop {A = A} n [] ≡ []
  drop-nil zero = refl
  drop-nil (suc n) = refl

  push-whole :
      (cap : ℕ) (ys : List A) (x : A) → length ys ≡ cap → Window.push cap ys x ≡ drop 1 ys ++ x ∷ []
  unfolding Window.push
  push-whole cap ys x h = ground arith

  -- To push on the latest elements is to take the latest of all.
  pub push-latest :
      (cap : ℕ) (xs : List A) (x : A)
      → 0 < cap
      → Window.push cap (latest cap xs) x ≡ latest cap (xs ++ x ∷ [])
  push-latest cap xs x pos = elim (dec_lt (length xs) cap) [
    | yes room ↦
        let whole : length xs - cap ≡ 0 = omega arith in
        let still : length (xs ++ x ∷ []) - cap ≡ 0 = omega (arith, length-append xs (x ∷ [])) in
        ap (λ k. Window.push cap (drop k xs) x) whole
        ∙ Window.push-room cap xs x room
        ∙ sym (ap (λ k. drop k (xs ++ x ∷ [])) still)
    | no past ↦
        let n : ℕ = length xs - cap in
        let next : suc n ≡ length (xs ++ x ∷ []) - cap = omega (arith, length-append xs (x ∷ [])) in
        push-whole cap (drop n xs) x (omega (arith, length-drop n xs))
        ∙ ap (λ ys. ys ++ x ∷ []) (drop-one n xs)
        ∙ sym (drop-append (suc n) xs (x ∷ []) (omega arith))
        ∙ ap (λ k. drop k (xs ++ x ∷ [])) next
  ]
