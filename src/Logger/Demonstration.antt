-- ===== src/Logger/Demonstration.antt =====
-- What `demonstrate_advanced_logging` of examples/logging_example.cc keeps and shows.
use Prim.Native.String.{String}
use native.Mathlib.Nat.{mod-lt}
use ring_buffer.Base.{
  ℕ, zero, suc, ◌+◌, ◌%◌, ◌<◌, ◌≡◌, ◌∙◌, refl, sym, ap, subst, true, List, [], ◌∷◌, ◌++◌,
  append-nil, append_assoc, drop, length-drop, get_elem?-drop, ◌*◌, ◌-◌, some, length, get_elem?,
  get_elem?-of_lt, length-append, ◌==◌, if◌then◌else◌, arith,
}
use ring_buffer.Result.{ok}
use ring_buffer.Logger.{LogEntry, CircularLogger, warning, error, numbered}
use ring_buffer.Logger.History.{Keeps, log-Keeps}
use ring_buffer.Logger.Dump.{at_level, dump_logs-Keeps, ends-Keeps}
use ring_buffer.Window.Latest.{latest}
use ring_buffer.Logger.Statuses.{Status, status_after, status-Keeps}
use ring_buffer.Logger.Components.{
  messages, levels, codes, Chance, simulate_operation, simulate_operations,
  demonstrate_advanced_logging,
}

-- One of the messages of `simulate_operation`, with its level, of the component of that name.
pub record IsOperation (name : String) (e : LogEntry) : Type 0 where
  pub index : ℕ
  pub message : String
  pub level_is : get_elem? levels index ≡ some e.level
  pub message_is : get_elem? messages index ≡ some message
  pub text_is : e.message ≡ codes message
  pub source_is : e.source ≡ codes name

-- The entries of some rounds.
abbrev pub Operations : ℕ → List LogEntry → Type 0
Operations zero es = es ≡ []
Operations (suc k) es =
    (a : LogEntry) × (b : LogEntry) × (c : LogEntry) × (rest : List LogEntry) × IsOperation
      "Network" a
    × IsOperation "Database" b
    × IsOperation "UI" c
    × (es ≡ a ∷ b ∷ c ∷ rest)
    × Operations k rest

simulate_operation-Keeps :
    (cap : ℕ) (chance : Chance) (name : String) (l : CircularLogger) (es : List LogEntry)
    → Keeps cap l true es
    → (l' : CircularLogger) × (e : LogEntry) × (simulate_operation chance name l ≡ ok l')
      × IsOperation name e
      × Keeps cap l' true (es ++ e ∷ [])
unfolding simulate_operation
simulate_operation-Keeps cap chance name l es v =
    let i : ℕ = chance.random % length messages in
    let small : i < 10 = mod-lt chance.random (omega arith) in
    let (level, there) = get_elem?-of_lt levels i small in
    let (message, here) = get_elem?-of_lt messages i small in
    let e : LogEntry = record {
      timestamp = chance.now;
      level = level;
      message = codes message;
      source = codes name;
    } in
    let (l', f, v') = log-Keeps cap l true es chance.opens e v in
    (
      l',
      e,
      rw (there, here) f,
      record {
        index = i;
        message = message;
        level_is = there;
        message_is = here;
        text_is = refl;
        source_is = refl;
      },
      v',
    )

-- What the loop prints, where each round logs three entries more than the `n` before it.
abbrev rounds_shown : ℕ → ℕ → ℕ → ℕ → List Status
rounds_shown cap zero i n = []
rounds_shown cap (suc k) i n =
    let rest = rounds_shown cap k (i + 1) (n + 3) in
    if i % 5 == 0 then status_after cap (n + 3) ∷ rest else rest

simulate_operations-Keeps :
    (cap k i : ℕ) (chances : ℕ → String → Chance) (l : CircularLogger) (es : List LogEntry)
    → Keeps cap l true es
    → (l' : CircularLogger) × (new : List LogEntry) × (simulate_operations k i chances l
        ≡ ok (l', rounds_shown cap k i (length es)))
      × Operations k new
      × Keeps cap l' true (es ++ new)
unfolding simulate_operations
simulate_operations-Keeps cap zero i chances l es v =
    (l, [], refl, refl, subst (Keeps cap l true) (sym (append-nil es)) v)
simulate_operations-Keeps cap (suc k) i chances l es v =
    let (l1, a, e1, op1, v1) =
      simulate_operation-Keeps cap (chances i "Network") "Network" l es v in
    let (l2, b, e2, op2, v2) =
      simulate_operation-Keeps cap (chances i "Database") "Database" l1 (es ++ a ∷ []) v1 in
    let (l3, c, e3, op3, v3) =
      simulate_operation-Keeps cap (chances i "UI") "UI" l2 ((es ++ a ∷ []) ++ b ∷ []) v2 in
    let (l', rest, e, ops, v') =
      simulate_operations-Keeps cap k (i + 1) chances l3 (((es ++ a ∷ []) ++ b ∷ []) ++ c ∷ [])
        v3 in
    let es3 : List LogEntry = ((es ++ a ∷ []) ++ b ∷ []) ++ c ∷ [] in
    let longer : length es3 ≡ length es + 3 = omega (
      arith,
      length-append es (a ∷ []),
      length-append (es ++ a ∷ []) (b ∷ []),
      length-append ((es ++ a ∷ []) ++ b ∷ []) (c ∷ []),
    ) in
    let regroup : (((es ++ a ∷ []) ++ b ∷ []) ++ c ∷ []) ++ rest ≡ es ++ a ∷ b ∷ c ∷ rest =
      append_assoc ((es ++ a ∷ []) ++ b ∷ []) (c ∷ []) rest
      ∙ append_assoc (es ++ a ∷ []) (b ∷ []) (c ∷ rest)
      ∙ append_assoc es (a ∷ []) (b ∷ c ∷ rest) in
    (
      l',
      a ∷ b ∷ c ∷ rest,
      rw (e1, e2, e3, e, status-Keeps cap l3 true es3 v3, longer) refl,
      (a, b, c, rest, op1, op2, op3, refl, ops),
      subst (Keeps cap l' true) regroup v',
    )

length-Operations : (k : ℕ) (es : List LogEntry) → Operations k es → length es ≡ 3 * k
length-Operations zero es h = ap length h
length-Operations (suc k) es (a, b, c, rest, _, _, _, e, ops) =
    omega (arith, ap length e, length-Operations k rest ops)

-- A new logger with room for 50 entries is given, and more fuel than that. Whatever the random values,
-- the clock and the file system give, the demonstration simulates 60 operations, the components in
-- turn, each logs one of the messages with its level, and none fails. It prints its status after 3, 18,
-- 33 and 48 of them. At the end it shows the errors
-- and then the warnings of the latest 50, numbered from 0, and the eleventh and the last entry as the
-- oldest and the newest.
pub demonstrate_advanced_logging_lem :
    (fuel : ℕ) (chances : ℕ → String → Chance) (l : CircularLogger)
    → Keeps 50 l true []
    → 50 < fuel
    → (es : List LogEntry) × Operations 20 es
      × (length es ≡ 60)
      × (demonstrate_advanced_logging fuel chances l
          ≡ ok (
              some (record {
                statuses =
                    status_after 50 3
                    ∷ status_after 50 18
                    ∷ status_after 50 33
                    ∷ status_after 50 48
                    ∷ [];
                errors = numbered 0 (at_level error (drop 10 es));
                warnings = numbered 0 (at_level warning (drop 10 es));
                oldest = get_elem? es 10;
                newest = get_elem? es 59;
              })))
unfolding demonstrate_advanced_logging
demonstrate_advanced_logging_lem fuel chances l v h =
    let (l', es, e, ops, v') = simulate_operations-Keeps 50 20 0 chances l [] v in
    let sixty : length es ≡ 60 = length-Operations 20 es ops in
    let (all_e, errors) = dump_logs-Keeps 50 l' true es fuel error v' h in
    let (all_w, warnings) = dump_logs-Keeps 50 l' true es fuel warning v' h in
    let (oldest, newest) = ends-Keeps 50 l' true es v' in
    let kept : latest 50 es ≡ drop 10 es = ap (λ n. drop (n - 50) es) sixty in
    let many : length (latest 50 es) - 1 ≡ 49 = omega (arith, ap length kept, length-drop 10 es) in
    let first : get_elem? (latest 50 es) 0 ≡ get_elem? es 10 =
      ap (λ xs. get_elem? xs 0) kept ∙ get_elem?-drop 10 es 0 in
    let last : get_elem? (latest 50 es) (length (latest 50 es) - 1) ≡ get_elem? es 59 =
      ap (get_elem? (latest 50 es)) many
      ∙ ap (λ xs. get_elem? xs 49) kept
      ∙ get_elem?-drop 10 es 49 in
    (es, ops, sixty, rw (e, errors, warnings, oldest, newest, first, last, kept) refl)
