-- ===== src/Bench/Apis.antt =====
-- tools/smolbench/src/apis.rs: the requests of the benchmark. `none` is a panic.
use smoldb.Prelude.{
  ℕ, zero, suc, ◌+◌, String, List, [], ◌∷◌, map, Bool, Option, none, some, Result, ok, err, map_err,
  and_then, nat_beq, format, if◌then◌else◌,
}
use smoldb.Decimal.{show}
use smoldb.Bench.Batches.{batch_ids, div_ceil}
use smoldb.Bench.Types.{
  ApiSuccessResponse, ApiResponse, Point, Points, SmolBenchError, Method, Payload, Client,
}

abbrev pub collection_url : String → String → String
collection_url url name = format (url ∷ "/collections/" ∷ name ∷ [])

module _ (client : Client) where
  open client use {
    World, Json, Text, Seconds, Response, send, is_success, json_bool, json_value, json_points,
    text, value_from_str, object, now, sleep,
  }

  abbrev pub Outcome : Type 0 → Type 0
  Outcome A = Result SmolBenchError A × World

  -- `client.….send().await?` and then a use of the response
  unfoldable pub request :
      {A : Type 0}
      → Method
      → String
      → Payload Json
      → (Response → Result SmolBenchError A)
      → World
      → Outcome A
  request method url json use_response world =
      let (sent, world') = send world (record { method = method; url = url; json = json }) in
      (and_then (map_err SmolBenchError.request_error sent) use_response, world')

  -- the `match` on a body
  unfoldable pub success_or :
      {A : Type 0}
      → (String → SmolBenchError)
      → ApiResponse Seconds A
      → Result SmolBenchError (ApiSuccessResponse Seconds A)
  success_or failed (ApiResponse.success body) = ok body
  success_or failed (ApiResponse.error res) = err (failed res.error)

  unfoldable pub create_collection :
      String → String → World → Outcome (ApiSuccessResponse Seconds Bool)
  create_collection url name =
      request Method.put (collection_url url name) (Payload.params "...") λ res.
        and_then (map_err SmolBenchError.request_error (json_bool res))
          (success_or SmolBenchError.create_collection_error)

  unfoldable pub get_collection :
      String → String → World → Outcome (ApiSuccessResponse Seconds Json)
  get_collection url name = request Method.get (collection_url url name) Payload.nothing λ res.
      and_then (map_err SmolBenchError.request_error (json_value res))
        (success_or SmolBenchError.retrieve_points_error)

  unfoldable pub delete_collection : String → String → World → Outcome (Unit {0})
  delete_collection url name =
      request Method.delete (collection_url url name) Payload.nothing λ res.
        if is_success res
        then ok tt
        else and_then (map_err SmolBenchError.request_error (json_value res)) λ body. elim body [
          | ApiResponse.success _ ↦ ok tt
          | ApiResponse.error res ↦ err (SmolBenchError.delete_collection_error res.error)
        ]

  -- the points of a batch
  unfoldable pub batch_points : String → List ℕ → List (Point Json)
  batch_points timestamp ids =
      map (λ i. record { id = i; payload = object (format ("Point " ∷ show i ∷ [])) timestamp }) ids

  -- the request of one round of the loop of `upsert_points`; an error of the server is
  -- given out as one of a creation
  unfoldable pub send_batch :
      String → String → List ℕ → World → Outcome (ApiSuccessResponse Seconds Json)
  send_batch url name ids world =
      request Method.put (format (url ∷ "/collections/" ∷ name ∷ "/points" ∷ []))
        (Payload.points (batch_points (now world) ids))
        (λ res. and_then (map_err SmolBenchError.request_error (text res)) λ body.
          and_then (map_err SmolBenchError.json_error (value_from_str body))
            (success_or SmolBenchError.create_collection_error))
        world

  unfoldable pub pause : Option ℕ → World → World
  pause none world = world
  pause (some delay_ms) world = sleep world delay_ms

  -- `for batch in 0..num_batches`, with `left` batches from `batch` on
  unfoldable pub upsert_from :
      String
      → String
      → ℕ
      → ℕ
      → Option ℕ
      → ℕ
      → ℕ
      → World
      → Outcome (List (ApiSuccessResponse Seconds Json))
  upsert_from url name num_points batch_size delay batch zero world = (ok [], world)
  upsert_from url name num_points batch_size delay batch (suc left) world =
      let (sent, world') = send_batch url name (batch_ids num_points batch_size batch) world in
      elim sent [
        | err e ↦ (err e, world')
        | ok body ↦
            let (rest, world'') =
              upsert_from url name num_points batch_size delay (batch + 1) left
                (pause delay world') in
            (and_then rest (λ results. ok (body ∷ results)), world'')
      ]

  -- `div_ceil` panics on a divisor of zero.
  unfoldable pub upsert_points :
      String
      → String
      → ℕ
      → ℕ
      → Option ℕ
      → World
      → Option (Outcome (List (ApiSuccessResponse Seconds Json)))
  upsert_points url name num_points batch_size delay world =
      if nat_beq batch_size 0
      then none
      else some (
          upsert_from url name num_points batch_size delay 0 (div_ceil num_points batch_size) world)

  -- one round of the loop of `retrieve_point`
  unfoldable pub retrieve_one :
      String → String → ℕ → World → Outcome (ApiSuccessResponse Seconds Json)
  retrieve_one url name id =
      request Method.get (format (url ∷ "/collections/" ∷ name ∷ "/points/" ∷ show id ∷ []))
        Payload.nothing
        λ res.
          and_then (map_err SmolBenchError.request_error (json_value res))
            (success_or SmolBenchError.retrieve_points_error)

  unfoldable pub retrieve_point :
      String → String → List ℕ → World → Outcome (List (ApiSuccessResponse Seconds Json))
  retrieve_point url name [] world = (ok [], world)
  retrieve_point url name (id ∷ ids) world =
      let (sent, world') = retrieve_one url name id world in
      elim sent [
        | err e ↦ (err e, world')
        | ok body ↦
            let (rest, world'') = retrieve_point url name ids world' in
            (and_then rest (λ results. ok (body ∷ results)), world'')
      ]

  unfoldable pub retrieve_points :
      String → String → World → Outcome (ApiSuccessResponse Seconds (Points Json))
  retrieve_points url name =
      request Method.get (format (url ∷ "/collections/" ∷ name ∷ "/points" ∷ [])) Payload.nothing
        λ res.
          and_then (map_err SmolBenchError.request_error (json_points res))
            (success_or SmolBenchError.retrieve_points_error)
