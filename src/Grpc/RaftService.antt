-- ===== src/Grpc/RaftService.antt =====
-- api/grpc/raft_service.rs. The queue to the consensus thread is `none` once its receiver is gone.
use smoldb.Prelude.{
  ℕ, String, List, [], ◌∷◌, ◌++◌, Option, none, some, ◌>>=◌, Result, ok, err, format,
}
use smoldb.Storage.RemoteShard.{unwrap}
use smoldb.Storage.Toc.{Toc}
use smoldb.Consensus.State.{ConsensusState, add_peer, add_to_toc, known_peers}
use smoldb.Grpc.Schema.{RaftMessage, UriMessage, AddPeerToKnownMessage, AllPeers}
use smoldb.Grpc.Status.{Answer, internal}
use smoldb.External.{Env}

-- `send`: the message is decoded and queued. `M` is the type of the raft crate's messages.
unfoldable pub send :
    {M : Type 0}
    → (List ℕ → Result String M)
    → RaftMessage
    → Option (List M)
    → Answer (Unit {0}) × Option (List M)
send decode request queue = elim (decode request.message) [
  | err e ↦ (err (internal (format ("Failed to decode Raft message: " ∷ e ∷ []))), queue)
  | ok message ↦ elim queue [
    | none ↦ (
      err (
          internal (
            format
              ("Failed to send Raft message over channel: " ∷ "sending on a closed channel" ∷ []))),
      none,
    )
    | some messages ↦ (ok tt, some (messages ++ message ∷ []))
  ]
]

-- `who_is`
unfoldable pub who_is : ℕ → UriMessage
who_is peer = record { uri = "smoldb:9900" }

module _ (env : Env) where
  open env use {Uri, parse_uri}

  -- `add_peer_to_known`
  unfoldable pub add_peer_to_known :
      Option (ConsensusState Uri)
      → Toc env
      → AddPeerToKnownMessage
      → Option (Answer AllPeers × Option (ConsensusState Uri) × Toc env)
  add_peer_to_known none toc request =
      some (err (internal "Consensus state is not available in RaftService"), none, toc)
  add_peer_to_known (some state) toc request = do
    text ← request.uri
    uri ← unwrap (parse_uri text)
    let state' = add_peer env state request.id uri
    some (ok (known_peers env state'), some state', add_to_toc env request.id toc)
