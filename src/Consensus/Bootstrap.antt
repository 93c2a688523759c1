-- ===== src/Consensus/Bootstrap.antt =====
-- `Consensus::bootstrap` of consensus.rs. `make_grpc_channel` of api/grpc/mod.rs only sets timeouts
-- and connects, which is the crate's.
pub mod Join
use smoldb.Prelude.{String, Option, Result, ok, err}
use smoldb.Storage.Toc.{Toc}
use smoldb.Consensus.State.{ConsensusState, bootstrap_request, add_received}
use smoldb.External.{Env}

module _ (env : Env) where
  open env use {Uri, Net, make_channel, call_add_peer_to_known}

  unfoldable pub bootstrap :
      Uri
      → ConsensusState Uri
      → Toc env
      → Net
      → Result String (Unit {0}) × ConsensusState Uri × Toc env × Net
  bootstrap cluster_uri state toc net =
      let (made, net1) = make_channel net cluster_uri in
      elim made [
        | err e ↦ (err e, state, toc, net1)
        | ok channel ↦ elim (bootstrap_request env state) [
          | err e ↦ (err e, state, toc, net1)
          | ok request ↦
              let (answer, net2) = call_add_peer_to_known net1 channel request in
              elim answer [
                | err e ↦ (err e, state, toc, net2)
                | ok all_peers ↦
                    let (added, state', toc') = add_received env all_peers.all_peers state toc in
                    (added, state', toc', net2)
              ]
        ]
      ]
