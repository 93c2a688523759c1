-- ===== src/Consensus/Loop/Whole.antt =====
-- The receiver loop as a whole: what it keeps, and how it ends.
use mathlib.Core.Path.{subst}
use smoldb.Prelude.{
  ℕ, ◌≡◌, ◌≢◌, refl, sym, false, ◌∙◌, ap, ◌⊎◌, inl, inr, List, [], ◌∷◌, Result, ok, arith, All,
  HashMap, insert, nat_eq, String, Result-cases,
}
use smoldb.Consensus.Ready.{Raft, Trace, Rounds, on_ready, idle}
use smoldb.Consensus.Ready.Ending.{on_ready-idle}
use smoldb.Consensus.Loop.{
  propose, raft, Received, message, timeout, disconnected, LoopState, running, returned, Receiver,
  receive, pass_time, receiver_loop,
}

-- The callbacks of the proposals among the messages, the latest one for each id.
unfoldable pub registered : {M : Type 0} → List (Received M × ℕ) → HashMap ℕ ℕ → HashMap ℕ ℕ
registered [] callbacks = callbacks
registered ((message (propose id operation callback), d) ∷ events) callbacks =
    registered events (insert id callback callbacks)
registered ((event, d) ∷ events) callbacks = registered events callbacks

-- The sender is still there.
abbrev pub IsConnected : {M : Type 0} → Received M × ℕ → Type 0
IsConnected (event, d) = event ≢ disconnected

LoopState-cases :
    {S : Type 0} (l : LoopState S)
    → ((s : S) × (l ≡ running s))
      ⊎ (((result : Result String (Unit {0})) × (l ≡ returned result))
          ⊎ ((l ≡ LoopState.panicked) ⊎ (l ≡ LoopState.out_of_fuel)))
LoopState-cases (running s) = inl (s, refl)
LoopState-cases (returned result) = inr (inl (result, refl))
LoopState-cases LoopState.panicked = inr (inr (inl refl))
LoopState-cases LoopState.out_of_fuel = inr (inr (inr refl))

module _ (r : Raft) where
  open r use {Node, Message}

  -- What a round does to the callbacks, if the loop goes on.
  receive-registered :
      (s s' : Receiver Node) (event : Received Message) (d : ℕ)
      (events : List (Received Message × ℕ))
      → receive r s event ≡ running s'
      → (registered ((event, d) ∷ events) s.callbacks ≡ registered events s'.callbacks)
        × (event ≢ disconnected)
  unfolding receive registered
  receive-registered s s' (message (propose id operation callback)) d events e =
      elim (Result-cases (r.propose s.node [] (id ∷ [])).0) [
        | inl (u, q) ↦
            let kept : insert id callback s.callbacks ≡ s'.callbacks = ground arith in
            (ap (registered events) kept, λ x. cc)
        | inr (f, q) ↦ absurd (ground arith)
      ]
  receive-registered s s' (message (raft m)) d events e = elim (Result-cases (r.step s.node m).0) [
    | inl (u, q) ↦
        let kept : s.callbacks ≡ s'.callbacks = ground arith in
        (ap (registered events) kept, λ x. cc)
    | inr (f, q) ↦ absurd (ground arith)
  ]
  receive-registered s s' timeout d events e =
      let kept : s.callbacks ≡ s'.callbacks = ground arith in (ap (registered events) kept, λ x. cc)
  receive-registered s s' disconnected d events e = absurd (ground arith)

  receive-returned :
      (s : Receiver Node) (event : Received Message) (result : Result String (Unit {0}))
      → receive r s event ≡ returned result
      → (result ≡ ok tt) × (event ≡ disconnected)
  unfolding receive
  receive-returned s (message (propose id operation callback)) result e =
      elim (Result-cases (r.propose s.node [] (id ∷ [])).0) [
        | inl (u, q) ↦ absurd (ground arith)
        | inr (f, q) ↦ absurd (ground arith)
      ]
  receive-returned s (message (raft m)) result e = elim (Result-cases (r.step s.node m).0) [
    | inl (u, q) ↦ absurd (ground arith)
    | inr (f, q) ↦ absurd (ground arith)
  ]
  receive-returned s timeout result e = absurd (ground arith)
  receive-returned s disconnected result e = (ground arith, refl)

  -- A loop that still runs kept the callbacks, was never cut off, and left nothing ready; a loop that
  -- returned was cut off.
  abbrev Outcome :
      Receiver Node → List (Received Message × ℕ) → LoopState (Receiver Node × Trace r) → Type 0
  Outcome s events (running (s', trace')) =
      (s'.callbacks ≡ registered events s.callbacks)
      × All IsConnected events
      × ((events ≢ []) ⊎ (r.has_ready s.node ≡ false) → r.has_ready s'.node ≡ false)
  Outcome s events (returned result) = (result ≡ ok tt) × ((All IsConnected events) → ⊥)
  Outcome s events LoopState.panicked = Unit
  Outcome s events LoopState.out_of_fuel = Unit

  -- One round before the others.
  Outcome-cons :
      (s next : Receiver Node) (event : Received Message) (d : ℕ)
      (events : List (Received Message × ℕ)) (result : LoopState (Receiver Node × Trace r))
      → registered ((event, d) ∷ events) s.callbacks ≡ registered events next.callbacks
      → event ≢ disconnected
      → r.has_ready next.node ≡ false
      → Outcome next events result
      → Outcome s ((event, d) ∷ events) result
  Outcome-cons s next event d events (running (s', trace')) kept here quiet (same, all, still) =
      (same ∙ sym kept, (here, all), λ start. still (inr quiet))
  Outcome-cons s next event d events (returned result) kept here quiet (fine, cut) =
      (fine, λ all. cut all.1)
  Outcome-cons s next event d events LoopState.panicked kept here quiet h = tt
  Outcome-cons s next event d events LoopState.out_of_fuel kept here quiet h = tt

  Rounds-cases :
      (x : Rounds r)
      → ((node : Node) × (trace : Trace r) × (x ≡ idle node trace))
        ⊎ ((x ≡ Rounds.panicked) ⊎ (x ≡ Rounds.out_of_fuel))
  Rounds-cases (idle node trace) = inl (node, trace, refl)
  Rounds-cases Rounds.panicked = inr (inl refl)
  Rounds-cases Rounds.out_of_fuel = inr (inr refl)

  pass_time-callbacks : (s : Receiver Node) (d : ℕ) → (pass_time r s d).0.callbacks ≡ s.callbacks
  unfolding pass_time
  pass_time-callbacks s d = ground arith

  loop-Outcome :
      (fuel : ℕ) (s : Receiver Node) (trace : Trace r) (events : List (Received Message × ℕ))
      → Outcome s events (receiver_loop r fuel s trace events)
  unfolding receiver_loop registered
  loop-Outcome fuel s trace [] =
      (refl, tt, λ start. elim start [ inl full ↦ absurd (full refl) | inr quiet ↦ quiet ])
  loop-Outcome fuel s trace ((event, d) ∷ events) = elim (LoopState-cases (receive r s event)) [
    | inr (inr (inl q)) ↦ rw (q, receiver_loop) tt
    | inr (inr (inr q)) ↦ rw (q, receiver_loop) tt
    | inr (inl (result, q)) ↦
        let (fine, cut) = receive-returned s event result q in
        rw (q, receiver_loop) (fine, λ all. all.0 cut)
    | inl (s1, q) ↦
        let (kept, here) = receive-registered s s1 event d events q in
        let s2 = (pass_time r s1 d).0 in
        elim (Rounds-cases (on_ready r fuel s2.node trace)) [
          | inr (inl p) ↦ rw (q, receiver_loop) (rw (p, receiver_loop) tt)
          | inr (inr p) ↦ rw (q, receiver_loop) (rw (p, receiver_loop) tt)
          | inl (node, trace', p) ↦
              let next : Receiver Node = record s2 { node = node } in
              let quiet = (on_ready-idle r fuel 0 s2.node node trace trace' p).0 in
              let ih = loop-Outcome fuel next trace' events in
              let same = kept ∙ ap (registered events) (sym (pass_time-callbacks s1 d)) in
              rw (q, receiver_loop)
                (rw (p, receiver_loop)
                  (Outcome-cons s next event d events (receiver_loop r fuel next trace' events) same
                    here quiet ih))
        ]
  ]

  -- A receiver loop that still runs after some messages has kept the callback of every proposal among
  -- them, the latest one for an id, and has removed none; its sender was there all the time, and the
  -- node it waits with has nothing ready.
  pub receiver_loop-running :
      (fuel : ℕ) (s s' : Receiver Node) (trace trace' : Trace r) (event : Received Message × ℕ)
      (events : List (Received Message × ℕ))
      → receiver_loop r fuel s trace (event ∷ events) ≡ running (s', trace')
      → (s'.callbacks ≡ registered (event ∷ events) s.callbacks)
        × All IsConnected (event ∷ events)
        × (r.has_ready s'.node ≡ false)
  receiver_loop-running fuel s s' trace trace' event events e =
      let (same, all, quiet) =
        subst (Outcome s (event ∷ events)) e (loop-Outcome fuel s trace (event ∷ events)) in
      (same, all, quiet (inl λ none. ground arith))

  -- A receiver loop that returned did so with success, and because its sender was gone.
  receiver_loop-returned :
      (fuel : ℕ) (s : Receiver Node) (trace : Trace r) (events : List (Received Message × ℕ))
      (result : Result String (Unit {0}))
      → receiver_loop r fuel s trace events ≡ returned result
      → (result ≡ ok tt) × ((All IsConnected events) → ⊥)
  receiver_loop-returned fuel s trace events result e =
      subst (Outcome s events) e (loop-Outcome fuel s trace events)
