-- ===== src/ProducerConsumer/Balance.antt =====
-- No packet is counted twice in examples/producer_consumer_example.cc.
use ring_buffer.Base.{
  ◌+◌, ◌≡◌, refl, false, some, get_elem?, set, subst, get_elem?-set_self, lt-of-get_elem?, arith,
}
use ring_buffer.Ring.{Ring}
use ring_buffer.ThreadSafe.{push_timed, pop_timed}
use ring_buffer.ThreadSafe.Threads.{ready, idle}
use ring_buffer.ProducerConsumer.{
  DataPacket, Simulation, Step, Reach, start, packet, producing, consuming, finished, gone, buffers,
  produces, stored, timed_out, finishes, asks, consumes, misses, leaves, terminates, watches,
  monitors, stops, reports, here, next,
}
use ring_buffer.ProducerConsumer.Places.{Fits}
use ring_buffer.ThreadSafe.Places.{AllFit-worker}
use ring_buffer.ProducerConsumer.Ledger.{IsLedger, replaced, buffers-IsLedger}

module _ {ℓ} {V : Type ℓ} where
  abbrev pub IsBalanced : Simulation V → Type ℓ
  IsBalanced s = IsLedger s.system.ring s.workers s.system.threads s.total_produced s.total_consumed

  pub start-IsBalanced : (r : Ring (DataPacket V)) → r.count ≡ 0 → IsBalanced (start r)
  start-IsBalanced r e = record { fit = (tt, (tt, (tt, (tt, (tt, tt))))); owed = omega arith }

  Step-IsBalanced : {s t : Simulation V} → Step s t → IsBalanced s → IsBalanced t
  Step-IsBalanced (buffers σ q z) h = buffers-IsLedger σ q h
  Step-IsBalanced {s} (produces i n v e l e' z) h =
      replaced s.system.ring i (ready false (push_timed (packet i n v))) e'
        (λ w at _.
          let same : producing n ≡ w = cc in
          subst (λ u. Fits u (ready false (push_timed (packet i n v)))) same refl)
        (omega arith) h
  Step-IsBalanced {s} (stored i n e l e' z) h =
      let ts = set s.system.threads i idle in
      let back : get_elem? ts i ≡ some idle =
        get_elem?-set_self s.system.threads i idle (lt-of-get_elem? s.system.threads i e') in
      let counted : IsLedger s.system.ring s.workers ts (s.total_produced + 1) s.total_consumed =
        replaced s.system.ring i idle e' (λ w _ _. tt) (omega arith) h in
      record {
        fit = AllFit-worker Fits s.workers ts i (producing (n + 1)) back tt counted.fit;
        owed = counted.owed;
      }
  Step-IsBalanced {s} (timed_out i n e e' z) h =
      replaced s.system.ring i idle e' (λ w _ _. tt) (omega arith) h
  Step-IsBalanced {s} (finishes i n e l e' z) h = record {
    fit = AllFit-worker Fits s.workers s.system.threads i finished e' tt h.fit;
    owed = h.owed;
  }
  Step-IsBalanced {s} (asks i e f e' z) h =
      replaced s.system.ring i (ready false pop_timed) e'
        (λ w at _.
          let same : consuming ≡ w = cc in
          subst (λ u. Fits {A = DataPacket V} u (ready false pop_timed)) same refl)
        (omega arith) h
  Step-IsBalanced {s} (consumes i p e e' z) h =
      replaced s.system.ring i idle e' (λ w _ _. tt) (omega arith) h
  Step-IsBalanced {s} (misses i e e' z) h =
      replaced s.system.ring i idle e' (λ w _ _. tt) (omega arith) h
  Step-IsBalanced {s} (leaves i e f e' z) h = record {
    fit = AllFit-worker Fits s.workers s.system.threads i gone e' tt h.fit;
    owed = h.owed;
  }
  Step-IsBalanced (terminates i x e z) h = h
  Step-IsBalanced (watches l m z) h = h
  Step-IsBalanced (monitors l z) h = h
  Step-IsBalanced (stops j z) h = h
  Step-IsBalanced (reports f j m z) h = h

  pub Reach-IsBalanced : {s t : Simulation V} → Reach s t → IsBalanced s → IsBalanced t
  Reach-IsBalanced here h = h
  Reach-IsBalanced (next r σ) h = Step-IsBalanced σ (Reach-IsBalanced r h)
