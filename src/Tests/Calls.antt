-- ===== src/Tests/Calls.antt =====
-- An example of a call that reaches a node.
use smoldb.Prelude.{ℕ, ◌≡◌, refl, String, List, [], none, some, Result, ok, err, arith, string_eq}
use smoldb.Grpc.Transport.{GrpcService}
use smoldb.Grpc.Init.{Shared, raft_service, services}
use smoldb.Grpc.Init.Calls.{add_peer_to_known, client, client-handler}
use smoldb.Tests.Demo.{demo}
use smoldb.Tests.Handlers.{toc}
use smoldb.Tests.Joins.{b, b_joined, request, all, toc_b, answered}
use smoldb.Tests.Tonic.{Body, serve_first, demo_tonic, demo_laws}

decode : List ℕ → Result String (List ℕ)
decode bytes = ok bytes

-- The server of the node itself.
abbrev conn : GrpcService Body (Shared demo (List ℕ))
conn = record {
  ready = λ s. (ok tt, s);
  call = λ sent s. elim (serve_first (services demo demo_tonic "0.1.0" decode) sent s) [
    | none ↦ (err "closed", s)
    | some (response, s') ↦ (ok response, s')
  ];
}

abbrev before : Shared demo (List ℕ)
before = record { sender = some []; toc = toc; consensus_state = some b; net = 0 }

abbrev after : Shared demo (List ℕ)
after = record { sender = some []; toc = toc_b; consensus_state = some b_joined; net = 0 }

handled : (raft_service demo decode).add_peer_to_known request before ≡ some (ok all, after)
unfolding raft_service
handled = rw answered refl

client-handler_example :
    client demo demo_tonic "0.1.0" decode add_peer_to_known conn request before ≡ (ok all, after)
client-handler_example =
    client-handler demo demo_tonic "0.1.0" decode demo_laws add_peer_to_known conn request (ok all)
      before after (λ asked s response s' e. ground arith) refl (λ a. refl) (λ a. refl)
      (omega arith) (omega arith) handled
