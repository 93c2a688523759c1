-- ===== src/Consensus/Ready/Runs.antt =====
-- The rounds of `on_ready` of consensus.rs: what raft hands out in them, and what a trace shows of it.
use mathlib.Core.List.{append_assoc}
use smoldb.Prelude.{◌≡◌, refl, ◌∙◌, ap, sym, List, [], ◌∷◌, ◌++◌, map, true, false, ok}
use smoldb.Consensus.Ready.{
  Raft, Event, sent, handled, appended, Trace, save_hard_state, save_commit,
}
use smoldb.Consensus.Ready.Applied.{with_data}

-- What each element has, one after another.
unfoldable pub all_of : {X Y : Type 0} → (X → List Y) → List X → List Y
all_of f [] = []
all_of f (x ∷ xs) = f x ++ all_of f xs

pub all_of-append :
    {X Y : Type 0} (f : X → List Y) (xs ys : List X)
    → all_of f (xs ++ ys) ≡ all_of f xs ++ all_of f ys
unfolding all_of
all_of-append f [] ys = refl
all_of-append f (x ∷ xs) ys =
    ap (λ r. f x ++ r) (all_of-append f xs ys)
    ∙ sym (append_assoc (f x) (all_of f xs) (all_of f ys))

pub all_of-map_nil :
    {X Y Z : Type 0} (f : X → List Y) (g : Z → X) (zs : List Z)
    → ((z : Z) → f (g z) ≡ [])
    → all_of f (map g zs) ≡ []
unfolding all_of
all_of-map_nil f g [] h = refl
all_of-map_nil f g (z ∷ zs) h = rw (h z, all_of-map_nil f g zs h) refl

pub all_of-map_one :
    {X Z : Type 0} (f : X → List Z) (g : Z → X) (zs : List Z)
    → ((z : Z) → f (g z) ≡ z ∷ [])
    → all_of f (map g zs) ≡ zs
unfolding all_of
all_of-map_one f g [] h = refl
all_of-map_one f g (z ∷ zs) h = rw (h z, all_of-map_one f g zs h) refl

pub all_of-six :
    {X Y : Type 0} (f : X → List Y) (a b c d e g : List X)
    → all_of f (a ++ (b ++ (c ++ (d ++ (e ++ g)))))
      ≡ all_of f a ++ (all_of f b ++ (all_of f c ++ (all_of f d ++ (all_of f e ++ all_of f g))))
all_of-six f a b c d e g =
    rw
      (
        all_of-append f a (b ++ (c ++ (d ++ (e ++ g)))),
        all_of-append f b (c ++ (d ++ (e ++ g))),
        all_of-append f c (d ++ (e ++ g)),
        all_of-append f d (e ++ g),
        all_of-append f e g,
      )
      refl

module _ {M E : Type 0} where
  -- the entries that an event adds to the log, that it handles, and the messages that it sends
  abbrev pub logged_by : Event M E → List E
  logged_by (appended es) = es
  logged_by (sent m) = []
  logged_by (handled t e) = []

  abbrev pub handled_by : Event M E → List E
  handled_by (handled t e) = e ∷ []
  handled_by (sent m) = []
  handled_by (appended es) = []

  abbrev pub sent_by : Event M E → List M
  sent_by (sent m) = m ∷ []
  sent_by (handled t e) = []
  sent_by (appended es) = []

module _ (raft : Raft) where
  open raft use {
    Node, Message, Entry, Ready, LightReady, has_ready, ready, messages, committed_entries, entries,
    hs, persisted_messages, append, advance, commit_index, light_messages, light_committed_entries,
    advance_apply,
  }

  -- the node once the entries are in its log
  abbrev pub logged : Node → List Entry → Node
  logged node [] = node
  logged node (e ∷ es) = (append node (e ∷ es)).1

  abbrev pub advanced : Node → LightReady × Node
  advanced node =
      let (r, node0) = ready node in
      advance (save_hard_state raft (hs r) (logged node0 (entries r))) r

  -- the node after a round, whose entries are in the log and whose hard state is saved before it
  -- advances
  abbrev pub after_round : Node → Node
  after_round node =
      let (light, node') = advanced node in
      advance_apply (save_commit raft (commit_index light) node')

  -- The log takes the entries.
  abbrev pub CanStore : Node → List Entry → Type 0
  CanStore node [] = Unit {0}
  CanStore node (e ∷ es) = (append node (e ∷ es)).0 ≡ ok tt

  -- The rounds of a node until it has nothing ready, each with what raft handed out in it.
  pub data Runs : Node → List (Ready × LightReady) → Node → Type 0 where
    rests : {node : Node} → has_ready node ≡ false → Runs node [] node
    round :
        {node node' : Node} {rest : List (Ready × LightReady)}
        → has_ready node ≡ true
        → CanStore (ready node).1 (entries (ready node).0)
        → Runs (after_round node) rest node'
        → Runs node (((ready node).0, (advanced node).0) ∷ rest) node'

  abbrev pub entries_in : Ready × LightReady → List Entry
  entries_in (r, light) = entries r

  abbrev pub committed_in : Ready × LightReady → List Entry
  committed_in (r, light) =
      with_data raft (committed_entries r) ++ with_data raft (light_committed_entries light)

  abbrev pub messages_in : Ready × LightReady → List Message
  messages_in (r, light) = messages r ++ (persisted_messages r ++ light_messages light)

  -- The events of some rounds: each entry that raft handed out is added to the log once, each one that
  -- it committed with data is handled once, and each message is sent once, all in their orders.
  pub record IsHanded (rounds : List (Ready × LightReady)) (events : Trace raft) : Type 0 where
    pub log : all_of logged_by events ≡ all_of entries_in rounds
    pub applied : all_of handled_by events ≡ all_of committed_in rounds
    pub delivered : all_of sent_by events ≡ all_of messages_in rounds
