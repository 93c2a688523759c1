-- ===== src/Storage/Error.antt =====
-- storage/error.rs. The errors of other crates are kept as the text that they display.
use smoldb.Prelude.{String, Result, [], ◌∷◌, format}

pub data StorageError : Type 0 where
  bad_input : String → StorageError
  service_error : String → StorageError

pub data CollectionError : Type 0 where
  tonic_transport_error : String → CollectionError
  tonic_status_error : String → CollectionError
  service_error : String → CollectionError
  storage_error : StorageError → CollectionError
  json_parse_error : String → CollectionError

abbrev pub CollectionResult : Type 0 → Type 0
CollectionResult A = Result CollectionError A

-- `{e}` in a message, as the `#[error]` attributes have it
unfoldable pub show_storage_error : StorageError → String
show_storage_error (StorageError.bad_input m) = format ("Bad input: " ∷ m ∷ [])
show_storage_error (StorageError.service_error m) = format ("Service error: " ∷ m ∷ [])

unfoldable pub show_collection_error : CollectionError → String
show_collection_error (CollectionError.tonic_transport_error m) =
    format ("Tonic transport error: " ∷ m ∷ [])
show_collection_error (CollectionError.tonic_status_error m) = format ("Tonic error: " ∷ m ∷ [])
show_collection_error (CollectionError.service_error m) = format ("Service error: " ∷ m ∷ [])
show_collection_error (CollectionError.storage_error e) =
    format ("Storage error: " ∷ show_storage_error e ∷ [])
show_collection_error (CollectionError.json_parse_error m) =
    format ("Json parsing error: " ∷ m ∷ [])
