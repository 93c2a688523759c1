-- ===== src/Tests/Rounds.antt =====
-- An example of rounds of the consensus thread: two of them, each with entries and messages.
use smoldb.Prelude.{◌+◌, ◌≡◌, refl, [], ◌∷◌, ◌++◌, arith}
use smoldb.Consensus.Ready.{Raft, Trace, on_ready, idle}
use smoldb.Consensus.Ready.Runs.{Runs, rests, round, IsHanded}
use smoldb.Consensus.Ready.Handed.{on_ready-Runs}
use smoldb.Tests.Cluster.{count_down}

abbrev busy : Raft
busy = record count_down {
  entries = λ r. (r + 10) ∷ [];
  persisted_messages = λ r. (r + 20) ∷ [];
  light_committed_entries = λ light. 3 ∷ 4 ∷ [];
}

two_rounds : Runs busy 2 ((2, 0) ∷ (1, 0) ∷ []) 0
two_rounds = round refl refl (round refl refl (rests refl))

on_ready-Runs_example :
    (events : Trace busy) × (on_ready busy 3 2 [] ≡ idle 0 ([] ++ events))
    × IsHanded busy ((2, 0) ∷ (1, 0) ∷ []) events
on_ready-Runs_example = on_ready-Runs busy 3 2 0 ((2, 0) ∷ (1, 0) ∷ []) [] two_rounds (omega arith)
