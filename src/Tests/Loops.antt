-- ===== src/Tests/Loops.antt =====
-- An example of the receiver loop: two proposals with one id, and a wait.
use smoldb.Prelude.{ℕ, ◌≡◌, refl, List, [], ◌∷◌, false, All, insert, nat_eq}
use smoldb.Consensus.Ready.{
  Trace, on_ready, process_ready, handle_committed_entries, append_entries, send_messages,
}
use smoldb.Consensus.Loop.{
  Received, message, timeout, propose, update_data, running, Receiver, receive, pass_time,
  receiver_loop, raft_tick_interval,
}
use smoldb.Consensus.Loop.Whole.{registered, IsConnected, receiver_loop-running}
use smoldb.Tests.Cluster.{count_down}

abbrev start : Receiver ℕ
start = record { node = 0; timeout = raft_tick_interval; callbacks = [] }

abbrev first : Received ℕ × ℕ
first = (message (propose 4 (update_data 1) 70), 30_000_000)

abbrev rest : List (Received ℕ × ℕ)
rest = (message (propose 4 (update_data 2) 71), 10_000_000) ∷ (timeout, 60_000_000) ∷ []

outcome : Receiver ℕ × Trace count_down
outcome = elim (receiver_loop count_down 9 start [] (first ∷ rest)) [
  | running x ↦ x
  | _ ↦ (start, [])
]

ran : receiver_loop count_down 9 start [] (first ∷ rest) ≡ running outcome
unfolding outcome receiver_loop receive pass_time on_ready process_ready handle_committed_entries
    append_entries send_messages insert
ran = refl

receiver_loop-running_example :
    (outcome.0.callbacks ≡ registered (first ∷ rest) [])
    × All IsConnected (first ∷ rest)
    × (count_down.has_ready outcome.0.node ≡ false)
receiver_loop-running_example =
    receiver_loop-running count_down 9 start outcome.0 [] outcome.1 first rest ran
