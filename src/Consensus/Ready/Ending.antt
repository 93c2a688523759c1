-- ===== src/Consensus/Ready/Ending.antt =====
-- Where the rounds of `on_ready` of consensus.rs stop.
use smoldb.Prelude.{ℕ, zero, suc, ◌+◌, ◌≡◌, inl, inr, ◌++◌, false, arith, Option-cases, Bool-cases}
use smoldb.Consensus.Ready.{Raft, Trace, process_ready, on_ready, idle}

module _ (raft : Raft) where
  open raft use {Node, has_ready}

  -- `on_ready` stops only at a node that has nothing ready, and more rounds would not change that.
  pub on_ready-idle :
      (fuel more : ℕ) (node node' : Node) (trace trace' : Trace raft)
      → on_ready raft fuel node trace ≡ idle node' trace'
      → (has_ready node' ≡ false) × (on_ready raft (fuel + more) node trace ≡ idle node' trace')
  unfolding on_ready
  on_ready-idle zero more node node' trace trace' e = absurd (ground arith)
  on_ready-idle (suc fuel) more node node' trace trace' e =
      let more_fuel : suc fuel + more ≡ suc (fuel + more) = omega arith in
      rw more_fuel (elim (Bool-cases (has_ready node)) [
        | inr done ↦ (ground arith, ground arith)
        | inl busy ↦ elim (Option-cases (process_ready raft node)) [
          | inl q ↦ absurd (ground arith)
          | inr (step, q) ↦
              let (still, again) =
                on_ready-idle fuel more step.0 node' (trace ++ step.1) trace'
                  (rw (busy, q, on_ready) at e) in
              (still, rw (busy, q, on_ready) again)
        ]
      ])
