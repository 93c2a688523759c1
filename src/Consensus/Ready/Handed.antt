-- ===== src/Consensus/Ready/Handed.antt =====
-- What `on_ready` of consensus.rs does with all that raft hands out, over its rounds.
use mathlib.Core.Path.{subst}
use mathlib.Core.List.{append_assoc, append-nil}
use smoldb.Prelude.{
  ◌<◌, length, ◌≡◌, refl, ◌∙◌, ap, sym, inl, inr, ℕ, zero, suc, List, [], ◌∷◌, ◌++◌, map, some,
  arith, Option-cases, Result-cases,
}
use smoldb.Consensus.Ready.{
  Raft, Event, sent, appended, Trace, send_messages, handle_committed_entries, append_entries,
  save_hard_state, save_commit, process_ready, idle, on_ready,
}
use smoldb.Consensus.Ready.Applied.{with_data, handle, handle_committed_entries_lem}
use smoldb.Consensus.Ready.Runs.{
  all_of, all_of-append, all_of-map_nil, all_of-map_one, all_of-six, logged_by, handled_by, sent_by,
  logged, advanced, after_round, CanStore, Runs, rests, round, entries_in, committed_in,
  messages_in, IsHanded,
}

module _ (raft : Raft) where
  open raft use {
    Node, Message, Entry, Ready, LightReady, has_ready, ready, messages, committed_entries, entries,
    hs, persisted_messages, append, advance, commit_index, light_messages, light_committed_entries,
    advance_apply,
  }

  IsHanded-append :
      (xs ys : List (Ready × LightReady)) (first new : Trace raft)
      → IsHanded raft xs first
      → IsHanded raft ys new
      → IsHanded raft (xs ++ ys) (first ++ new)
  IsHanded-append xs ys first new h k = record {
    log =
        rw (all_of-append logged_by first new, all_of-append (entries_in raft) xs ys, h.log, k.log)
          refl;
    applied =
        rw
          (
            all_of-append handled_by first new,
            all_of-append (committed_in raft) xs ys,
            h.applied,
            k.applied,
          )
          refl;
    delivered =
        rw
          (
            all_of-append sent_by first new,
            all_of-append (messages_in raft) xs ys,
            h.delivered,
            k.delivered,
          )
          refl;
  }

  append_entries_inv :
      (es : List Entry) (node node' : Node) (log : Trace raft)
      → append_entries raft es node ≡ some (node', log)
      → (node' ≡ logged raft node es)
        × (all_of logged_by log ≡ es)
        × (all_of handled_by log ≡ [])
        × (all_of sent_by log ≡ [])
  unfolding append_entries all_of
  append_entries_inv [] node node' log e =
      let same : log ≡ [] = ground arith in (ground arith, rw same refl, rw same refl, rw same refl)
  append_entries_inv (x ∷ es) node node' log e = elim (Result-cases (append node (x ∷ es)).0) [
    | inr (f, q) ↦ absurd (ground arith)
    | inl (u, q) ↦
        let same : log ≡ appended (x ∷ es) ∷ [] = ground arith in
        (ground arith, rw same (append-nil (x ∷ es)), rw same refl, rw same refl)
  ]

  -- What one round shows, from its parts.
  parts-IsHanded :
      (x : Ready × LightReady) (log : Trace raft)
      → all_of logged_by log ≡ entries x.0
      → all_of handled_by log ≡ []
      → all_of sent_by log ≡ []
      → IsHanded raft (x ∷ []) (
          map sent (messages x.0)
          ++ (map (handle raft) (with_data raft (committed_entries x.0))
              ++ (log
                  ++ (map sent (persisted_messages x.0)
                      ++ (map sent (light_messages x.1)
                          ++ map (handle raft) (with_data raft (light_committed_entries x.1)))))))
  unfolding all_of
  parts-IsHanded (r, light) log entered unhandled unsent =
      let a = map {B = Event Message Entry} sent (messages r) in
      let b = map (handle raft) (with_data raft (committed_entries r)) in
      let d = map {B = Event Message Entry} sent (persisted_messages r) in
      let e = map {B = Event Message Entry} sent (light_messages light) in
      let g = map (handle raft) (with_data raft (light_committed_entries light)) in
      record {
        log =
            all_of-six logged_by a b log d e g
            ∙ rw
                (
                  all_of-map_nil logged_by sent (messages r) (λ m. refl),
                  all_of-map_nil logged_by (handle raft) (with_data raft (committed_entries r))
                      (λ m. refl),
                  all_of-map_nil logged_by sent (persisted_messages r) (λ m. refl),
                  all_of-map_nil logged_by sent (light_messages light) (λ m. refl),
                  all_of-map_nil logged_by (handle raft)
                      (with_data raft (light_committed_entries light)) (λ m. refl),
                  entered,
                )
                refl;
        applied =
            all_of-six handled_by a b log d e g
            ∙ rw
                (
                  all_of-map_nil handled_by sent (messages r) (λ m. refl),
                  all_of-map_one handled_by (handle raft) (with_data raft (committed_entries r))
                      (λ m. refl),
                  all_of-map_nil handled_by sent (persisted_messages r) (λ m. refl),
                  all_of-map_nil handled_by sent (light_messages light) (λ m. refl),
                  all_of-map_one handled_by (handle raft)
                      (with_data raft (light_committed_entries light)) (λ m. refl),
                  unhandled,
                )
                (sym (append-nil (committed_in raft (r, light))));
        delivered =
            all_of-six sent_by a b log d e g
            ∙ rw
                (
                  all_of-map_one sent_by sent (messages r) (λ m. refl),
                  all_of-map_nil sent_by (handle raft) (with_data raft (committed_entries r))
                      (λ m. refl),
                  all_of-map_one sent_by sent (persisted_messages r) (λ m. refl),
                  all_of-map_one sent_by sent (light_messages light) (λ m. refl),
                  all_of-map_nil sent_by (handle raft)
                      (with_data raft (light_committed_entries light)) (λ m. refl),
                  unsent,
                )
                (ap (λ ms. messages r ++ (persisted_messages r ++ ms))
                    (append-nil (light_messages light))
                  ∙ sym (append-nil (messages_in raft (r, light))));
      }

  append_entries-some :
      (es : List Entry) (node : Node)
      → CanStore raft node es
      → (node' : Node) × (log : Trace raft) × (append_entries raft es node ≡ some (node', log))
  unfolding append_entries
  append_entries-some [] node can = (node, [], refl)
  append_entries-some (e ∷ es) node can =
      ((append node (e ∷ es)).1, appended (e ∷ es) ∷ [], ground arith)

  process_ready-IsHanded :
      (node node' : Node) (events : Trace raft)
      → process_ready raft node ≡ some (node', events)
      → (node' ≡ after_round raft node)
        × IsHanded raft (((ready node).0, (advanced raft node).0) ∷ []) events
  unfolding process_ready send_messages
  process_ready-IsHanded node node' events e =
      let (r, node0) = ready node in
      elim (Option-cases (append_entries raft (entries r) node0)) [
        | inl panics ↦ absurd (ground arith)
        | inr ((node1, log), q) ↦
            let (stored, entered, unhandled, unsent) =
              append_entries_inv (entries r) node0 node1 log q in
            let first = handle_committed_entries_lem raft (committed_entries r) 0 in
            let last = (handle_committed_entries raft (committed_entries r) 0).0 in
            let light = (advance (save_hard_state raft (hs r) node1) r).0 in
            let second = handle_committed_entries_lem raft (light_committed_entries light) last in
            let same : (advance (save_hard_state raft (hs r) node1) r) ≡ advanced raft node =
              ap (λ n. advance (save_hard_state raft (hs r) n) r) stored in
            let shown : events
                ≡ map sent (messages r)
                  ++ (map (handle raft) (with_data raft (committed_entries r))
                      ++ (log
                          ++ (map sent (persisted_messages r)
                              ++ (map sent (light_messages light)
                                  ++ map (handle raft)
                                      (with_data raft (light_committed_entries light)))))) =
              rw (← first.1, ← second.1) (ground arith) in
            let now : node'
                ≡ advance_apply (
                    save_commit raft (commit_index light)
                      (advance (save_hard_state raft (hs r) node1) r).1) =
              ground arith in
            (
              now ∙ ap (λ x. advance_apply (save_commit raft (commit_index x.0) x.1)) same,
              subst (λ x. IsHanded raft ((r, x.0) ∷ []) events) same
                  (subst (IsHanded raft ((r, light) ∷ [])) (sym shown)
                    (parts-IsHanded (r, light) log entered unhandled unsent)),
            )
      ]

  process_ready-some :
      (node : Node)
      → CanStore raft (ready node).1 (entries (ready node).0)
      → (node' : Node) × (events : Trace raft) × (process_ready raft node ≡ some (node', events))
  unfolding process_ready
  process_ready-some node can =
      let (r, node0) = ready node in
      let (node1, log, q) = append_entries-some (entries r) node0 can in
      elim (Option-cases (process_ready raft node)) [
        | inl panics ↦ absurd (ground arith)
        | inr ((node', events), done) ↦ (node', events, done)
      ]

  -- A node that comes to rest after some rounds, where its log takes the entries of each: `on_ready`
  -- stops at the node at rest with any fuel above their number. Each entry that raft handed out in
  -- them is then added to the log once, each one that it committed with data is handled once, and each
  -- message is sent once, all in their orders; in each round the entries and the hard state are stored
  -- before the node advances.
  pub on_ready-Runs :
      (fuel : ℕ) (node node' : Node) (rounds : List (Ready × LightReady)) (before : Trace raft)
      → Runs raft node rounds node'
      → length rounds < fuel
      → (events : Trace raft) × (on_ready raft fuel node before ≡ idle node' (before ++ events))
        × IsHanded raft rounds events
  unfolding on_ready all_of
  on_ready-Runs zero node node' rounds before runs enough = absurd (omega arith)
  on_ready-Runs (suc fuel) node node' rounds before (rests quiet) enough = (
    [],
    rw (on_ready, quiet, append-nil before) refl,
    record { log = refl; applied = refl; delivered = refl },
  )
  on_ready-Runs (suc fuel) node node' (x ∷ rest) before (round busy can runs) enough =
      let (node1, first, done) = process_ready-some node can in
      let (next, handed) = process_ready-IsHanded node node1 first done in
      let (new, ends, all) =
        on_ready-Runs fuel node1 node' rest (before ++ first)
          (subst (λ n. Runs raft n rest node') (sym next) runs) (omega arith) in
      (
        first ++ new,
        rw (on_ready, busy, done, ends, append_assoc before first new) refl,
        IsHanded-append (x ∷ []) rest first new handed all,
      )
