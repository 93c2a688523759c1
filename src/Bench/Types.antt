-- ===== src/Bench/Types.antt =====
-- tools/smolbench/src/types.rs and error.rs, and what the benchmark calls: reqwest with the server
-- behind it, serde_json, chrono, rand and the arithmetic of floating-point numbers.
use Prim.Native.Nat.{Ordering}
use smoldb.Prelude.{ℕ, String, List, [], ◌∷◌, Bool, Option, Result, format}

pub record ApiSuccessResponse (S A : Type 0) : Type 0 where
  pub result : A
  pub time : S

pub record ApiErrorResponse (S : Type 0) : Type 0 where
  pub error : String
  pub time : S

pub data ApiResponse (S A : Type 0) : Type 0 where
  success : ApiSuccessResponse S A → ApiResponse S A
  error : ApiErrorResponse S → ApiResponse S A

pub record Point (J : Type 0) : Type 0 where
  pub id : ℕ
  pub payload : J

pub record Points (J : Type 0) : Type 0 where
  pub points : List (Point J)

pub data SmolBenchError : Type 0 where
  create_collection_error : String → SmolBenchError
  delete_collection_error : String → SmolBenchError
  retrieve_points_error : String → SmolBenchError
  request_error : String → SmolBenchError
  json_error : String → SmolBenchError

-- the `Display` of an error
unfoldable pub show_error : SmolBenchError → String
show_error (SmolBenchError.create_collection_error e) =
    format ("Failed to create collection: " ∷ e ∷ [])
show_error (SmolBenchError.delete_collection_error e) =
    format ("Failed to delete collection: " ∷ e ∷ [])
show_error (SmolBenchError.retrieve_points_error e) =
    format ("Failed to create collection: " ∷ e ∷ [])
show_error (SmolBenchError.request_error e) = format ("Request error: " ∷ e ∷ [])
show_error (SmolBenchError.json_error e) = format ("JSON parsing error: " ∷ e ∷ [])

pub data Method : Type 0 where
  get : Method
  put : Method
  delete : Method

-- the JSON that a request carries
pub data Payload (J : Type 0) : Type 0 where
  nothing : Payload J
  params : String → Payload J
  points : List (Point J) → Payload J

pub record Request (J : Type 0) : Type 0 where
  pub method : Method
  pub url : String
  pub json : Payload J

-- Each call leaves the world in a new state, failing or not.
pub record Client : Type 1 where
  pub World : Type 0
  pub Json : Type 0
  pub Text : Type 0
  pub Seconds : Type 0
  pub Response : Type 0
  -- reqwest and serde_json
  pub send : World → Request Json → Result String Response × World
  pub is_success : Response → Bool
  pub json_bool : Response → Result String (ApiResponse Seconds Bool)
  pub json_value : Response → Result String (ApiResponse Seconds Json)
  pub json_points : Response → Result String (ApiResponse Seconds (Points Json))
  pub text : Response → Result String Text
  pub value_from_str : Text → Result String (ApiResponse Seconds Json)
  pub object : String → String → Json
  -- chrono, tokio and rand
  pub now : World → String
  pub sleep : World → ℕ → World
  pub random : World → ℕ × World
  -- floating-point numbers of 32 and of 64 bits, with their literals, their arithmetic, and the casts
  -- from and to `usize`; `Seconds` are the times that serde_json reads from an answer
  pub F32 : Type 0
  pub Float : Type 0
  pub time_f32 : Seconds → F32
  pub lit_f32 : String → F32
  pub mul_f32 : F32 → F32 → F32
  pub f32_from : ℕ → F32
  pub f32_to_usize : F32 → ℕ
  pub widen : F32 → Float
  pub lit : String → Float
  pub mul : Float → Float → Float
  pub sub : Float → Float → Float
  pub div : Float → Float → Float
  pub powf : Float → Float → Float
  pub sum : List Float → Float
  pub f64_from : ℕ → Float
  pub to_usize : Float → ℕ
  pub partial_cmp : Float → Float → Option Ordering
  -- `sort_unstable_by`; `none` is a panic of the comparison
  pub sort_by : (Float → Float → Option Ordering) → List Float → Option (List Float)
