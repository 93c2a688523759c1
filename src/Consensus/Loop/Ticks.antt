-- ===== src/Consensus/Loop/Ticks.antt =====
-- The clock of the receiver loop: when it ticks raft.
use smoldb.Prelude.{ℕ, ◌+◌, ◌*◌, ◌≤◌, ◌≡◌, List, [], ◌∷◌, arith, leb, if◌then◌else◌}
use smoldb.Consensus.Ready.{Raft}
use smoldb.Consensus.Loop.{Receiver, pass_time, raft_tick_interval}

module _ (r : Raft) where
  open r use {Node}

  -- The timeout is what is left of the interval, `since` after the last tick.
  pub record IsClock (s : Receiver Node) (since : ℕ) : Type 0 where
    pub left : s.timeout + since ≡ raft_tick_interval

  -- The loop ticks raft in a round exactly if a whole interval has passed since the last tick, and
  -- then once; the timeout is what is left of the interval, and never passes it.
  pub pass_time-IsClock :
      (s : Receiver Node) (since d : ℕ)
      → IsClock s since
      → ((pass_time r s d).1 ≡ leb raft_tick_interval (since + d))
        × ((pass_time r s d).0.node
            ≡ (if leb raft_tick_interval (since + d) then r.tick s.node else s.node))
        × IsClock (pass_time r s d).0 (if leb raft_tick_interval (since + d) then 0 else since + d)
  unfolding pass_time
  pass_time-IsClock s since d h =
      (ground (arith, h.left), ground (arith, h.left), ground (arith, h.left))

  -- The time of some rounds with nothing but waiting, and the ticks that they make.
  unfoldable pub total : List ℕ → ℕ
  total [] = 0
  total (d ∷ ds) = d + total ds

  unfoldable pub count_ticks : Receiver Node → List ℕ → ℕ
  count_ticks s [] = 0
  count_ticks s (d ∷ ds) =
      let (s', ticked) = pass_time r s d in (if ticked then 1 else 0) + count_ticks s' ds

  -- Raft is never ticked faster than once in an interval, counted from the last tick.
  pub count_ticks-le :
      (s : Receiver Node) (since : ℕ) (ds : List ℕ)
      → IsClock s since
      → count_ticks s ds * raft_tick_interval ≤ since + total ds
  unfolding count_ticks total
  count_ticks-le s since [] h = omega arith
  count_ticks-le s since (d ∷ ds) h =
      let step = pass_time-IsClock s since d h in
      let ih =
        count_ticks-le (pass_time r s d).0
          (if leb raft_tick_interval (since + d) then 0 else since + d) ds step.2 in
      ground (arith, step.0, ih)
