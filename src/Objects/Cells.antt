-- ===== src/Objects/Cells.antt =====
-- The loop of the copy constructor and of copy assignment, cell by cell.
use ring_buffer.Base.{
  ℕ, zero, suc, ◌+◌, ◌<◌, ◌≤◌, ◌≡◌, ◌≢◌, ◌∙◌, refl, sym, subst, inl, inr, Option, some, none,
  length, get_elem?, get_elem?-of_lt, get_elem?-set_ne, ℕ_discrete, arith,
}
use ring_buffer.Result.{ok, fault}
use ring_buffer.Memory.{
  Storage, cells, write, read-ok, read-raw, read-cases, construct-cases, construct-ok, cells-write,
  length-cells-write, get_elem?-write_self,
}
use ring_buffer.Objects.{copy_cells}

module _ {ℓ} {A : Type ℓ} (from : Storage A) where
  -- The first `n` cells hold objects.
  abbrev pub AllLive : ℕ → Type ℓ
  AllLive n = (j : ℕ) → j < n → (a : A) × (get_elem? (cells from) j ≡ some (some a))

  -- What the loop leaves behind: the cells from `i` to `n` are copies, the others are as before.
  pub record Copied (i n : ℕ) (buf buf' : Storage A) : Type ℓ where
    pub sized : length (cells buf') ≡ length (cells buf)
    pub copies : (j : ℕ) → i ≤ j → j < n → get_elem? (cells buf') j ≡ get_elem? (cells from) j
    pub before : (j : ℕ) → j < i → get_elem? (cells buf') j ≡ get_elem? (cells buf) j
    pub behind : (j : ℕ) → n ≤ j → get_elem? (cells buf') j ≡ get_elem? (cells buf) j

  -- A write to another cell.
  elsewhere :
      (buf : Storage A) (i j : ℕ) (c : Option A)
      → i ≢ j
      → get_elem? (cells (write buf i c)) j ≡ get_elem? (cells buf) j
  elsewhere buf i j c ne = rw (cells-write buf i c) (get_elem?-set_ne (cells buf) i j c ne)

  pub copy_cells-Copied :
      (rounds i : ℕ) (buf : Storage A)
      → AllLive (i + rounds)
      → i + rounds ≤ length (cells buf)
      → (buf' : Storage A) × (copy_cells rounds i buf from ≡ ok buf')
        × Copied i (i + rounds) buf buf'
  unfolding copy_cells
  copy_cells-Copied zero i buf live fits = (
    buf,
    refl,
    record {
      sized = refl;
      copies = λ j p q. absurd (omega arith);
      before = λ j p. refl;
      behind = λ j p. refl;
    },
  )
  copy_cells-Copied (suc rounds) i buf live fits =
      let step : i + suc rounds ≡ i + 1 + rounds = omega arith in
      let (a, e) = live i (omega arith) in
      let (o, there) = get_elem?-of_lt (cells buf) i (omega arith) in
      let buf1 : Storage A = write buf i (some a) in
      let same : length (cells buf1) ≡ length (cells buf) = length-cells-write buf i (some a) in
      let (buf', e', k) =
        copy_cells-Copied rounds (i + 1) buf1 (subst AllLive step live) (omega (arith, same)) in
      (
        buf',
        rw (read-ok from i a e, construct-ok buf i a there) e',
        record {
          sized = k.sized ∙ same;
          copies = λ j p q. elim (ℕ_discrete j i) [
            | yes at_i ↦
                rw at_i
                  (k.before i (omega arith) ∙ get_elem?-write_self buf i (some a) there ∙ sym e)
            | no past ↦ k.copies j (omega arith) (omega arith)
          ];
          before = λ j p.
              k.before j (omega arith) ∙ elsewhere buf i j (some a) (λ q. absurd (omega arith));
          behind = λ j p.
              k.behind j (omega arith) ∙ elsewhere buf i j (some a) (λ q. absurd (omega arith));
        },
      )

  -- The loop cannot pass a cell that holds no object.
  pub copy_cells-fault :
      (rounds i : ℕ) (buf : Storage A) (j : ℕ)
      → i ≤ j
      → j < i + rounds
      → get_elem? (cells from) j ≡ some none
      → copy_cells rounds i buf from ≡ fault
  unfolding copy_cells
  copy_cells-fault zero i buf j p q raw = absurd (omega arith)
  copy_cells-fault (suc rounds) i buf j p q raw = elim (ℕ_discrete i j) [
    | yes here ↦ rw (here, read-raw from j raw)
    | no past ↦ elim (read-cases from i) [
      | inl e ↦ rw e
      | inr (a, e) ↦ elim (construct-cases buf i a) [
        | inl e' ↦ rw (e, e')
        | inr e' ↦
            rw (e, e')
              (copy_cells-fault rounds (i + 1) (write buf i (some a)) j (omega arith) (omega arith)
                raw)
      ]
    ]
  ]
