-- ===== src/Api/Helpers.antt =====
-- api/helpers.rs: the response that wraps a result. The elapsed time of the response is left out.
use smoldb.Prelude.{ℕ, String, ok, err}
use smoldb.Storage.Error.{CollectionResult, show_collection_error}

pub record ApiSuccessResponse (T : Type 0) : Type 0 where
  pub result : T

pub record ApiErrorResponse : Type 0 where
  pub error : String

-- A response by its status and its body.
pub data HttpResponse (T : Type 0) : Type 0 where
  success : ApiSuccessResponse T → HttpResponse T
  internal_server_error : ApiErrorResponse → HttpResponse T

abbrev pub status : {T : Type 0} → HttpResponse T → ℕ
status (success body) = 200
status (internal_server_error body) = 500

-- `time`
unfoldable pub time : {T : Type 0} → CollectionResult T → HttpResponse T
time (ok r) = success (record { result = r })
time (err e) = internal_server_error (record { error = show_collection_error e })
