-- ===== src/Grpc/Status.antt =====
-- `tonic::Status`, by the constructors that the services and the generated clients use
use smoldb.Prelude.{String, Result}

pub data Status : Type 0 where
  internal : String → Status
  not_found : String → Status
  unknown : String → Status

abbrev pub Answer : Type 0 → Type 0
Answer A = Result Status A
