-- ===== src/Api/Service.antt =====
-- api/service.rs and api/grpc/simple_service.rs: the name and the version of the program. The
-- version is the one of the build.
use smoldb.Prelude.{String}
use smoldb.Grpc.Schema.{RootApiReply}

pub record RootApiResponse : Type 0 where
  pub title : String
  pub version : String

unfoldable pub index : String → RootApiResponse
index version = record { title = "Smol DB"; version = version }

unfoldable pub root_api : String → RootApiReply
root_api version = record { title = "Smoldb Internal Service"; version = version }
