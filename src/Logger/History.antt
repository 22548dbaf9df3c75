-- ===== src/Logger/History.antt =====
-- What a `CircularLogger` of examples/logging_example.cc shows after any sequence of calls.
use ring_buffer.Base.{
  ℕ, ◌-◌, ◌≡◌, ◌∙◌, refl, sym, subst, Bool, true, false, inl, inr, Bool-cases, List, [], ◌∷◌, ◌++◌,
  if◌then◌else◌,
}
use ring_buffer.Result.{ok}
use ring_buffer.Window.Latest.{latest, drop-nil}
use ring_buffer.Ring.Valid.{capacity-clear}
use ring_buffer.Ring.Holds.{Represents}
use ring_buffer.Ring.Latest.{push_back-latest}
use ring_buffer.Ring.Clear.{clear-Holds}
use ring_buffer.Logger.{
  LogEntry, CircularLogger, Call, log, clear, set_enabled, logs, clears, enables, call, calls,
}

-- The entries that count after some calls: those logged while logging was enabled, since the last
-- `clear`; and whether logging is enabled.
abbrev pub history : List Call → Bool → List LogEntry → Bool × List LogEntry
history [] on es = (on, es)
history (logs opens e ∷ cs) on es = history cs on (if on then es ++ e ∷ [] else es)
history (clears ∷ cs) on es = history cs on []
history (enables b ∷ cs) on es = history cs b es

-- The logger keeps the latest of these entries, as many as it has room for.
pub record Keeps (cap : ℕ) (l : CircularLogger) (on : Bool) (es : List LogEntry) : Type 0 where
  pub capacity_is : l.log_buffer.capacity ≡ cap
  pub represents : Represents l.log_buffer (latest cap es)
  pub enabled_is : l.enabled ≡ on

pub log-Keeps :
    (cap : ℕ) (l : CircularLogger) (on : Bool) (es : List LogEntry) (opens : Bool) (e : LogEntry)
    → Keeps cap l on es
    → (l' : CircularLogger) × (call (logs opens e) l ≡ ok l')
      × Keeps cap l' on (if on then es ++ e ∷ [] else es)
unfolding call log
log-Keeps cap l on es opens e v = elim (Bool-cases l.enabled) [
  | inl yes_on ↦
      let (r', f, c, v') = push_back-latest l.log_buffer cap es e v.capacity_is v.represents in
      let turned : on ≡ true = sym v.enabled_is ∙ yes_on in
      (
        record l { log_buffer = r' },
        rw (yes_on, f) refl,
        rw turned (record { capacity_is = c; represents = v'; enabled_is = yes_on }),
      )
  | inr no_log ↦
      let turned : on ≡ false = sym v.enabled_is ∙ no_log in
      (
        l,
        rw no_log refl,
        rw turned (record {
          capacity_is = v.capacity_is;
          represents = v.represents;
          enabled_is = no_log;
        }),
      )
]

call-Keeps :
    (cap : ℕ) (l : CircularLogger) (on : Bool) (es : List LogEntry) (c : Call)
    → Keeps cap l on es
    → (l' : CircularLogger) × (call c l ≡ ok l')
      × Keeps cap l' (history (c ∷ []) on es).0 (history (c ∷ []) on es).1
unfolding call clear
call-Keeps cap l on es (logs opens e) v = log-Keeps cap l on es opens e v
call-Keeps cap l on es clears v =
    let (r', f, v', s') = clear-Holds l.log_buffer v.represents.holds in
    (
      record l { log_buffer = r' },
      rw f refl,
      record {
        capacity_is = capacity-clear l.log_buffer f ∙ v.capacity_is;
        represents = subst (Represents r') (sym (drop-nil (0 - cap))) v';
        enabled_is = v.enabled_is;
      },
    )
call-Keeps cap l on es (enables b) v = (
  set_enabled b l,
  refl,
  record { capacity_is = v.capacity_is; represents = v.represents; enabled_is = refl },
)

history-cons :
    (c : Call) (cs : List Call) (on : Bool) (es : List LogEntry)
    → history (c ∷ cs) on es ≡ history cs (history (c ∷ []) on es).0 (history (c ∷ []) on es).1
history-cons (logs opens e) cs on es = refl
history-cons clears cs on es = refl
history-cons (enables b) cs on es = refl

-- Any calls of `log`, `clear` and `set_enabled` succeed on a logger that keeps the latest of the
-- entries that count, and it then keeps the latest of those that count after the calls.
pub calls-Keeps :
    (cap : ℕ) (cs : List Call) (l : CircularLogger) (on : Bool) (es : List LogEntry)
    → Keeps cap l on es
    → (l' : CircularLogger) × (calls cs l ≡ ok l')
      × Keeps cap l' (history cs on es).0 (history cs on es).1
unfolding calls
calls-Keeps cap [] l on es v = (l, refl, v)
calls-Keeps cap (c ∷ cs) l on es v =
    let (l1, e1, v1) = call-Keeps cap l on es c v in
    let (l2, e2, v2) =
      calls-Keeps cap cs l1 (history (c ∷ []) on es).0 (history (c ∷ []) on es).1 v1 in
    (l2, rw (e1, e2) refl, subst (λ h. Keeps cap l2 (h.0) (h.1)) (sym (history-cons c cs on es)) v2)
