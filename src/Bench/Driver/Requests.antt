-- ===== src/Bench/Driver/Requests.antt =====
-- The requests of the benchmark to a server that answers every request with success.
use smoldb.Prelude.{
  ℕ, zero, suc, ◌+◌, ◌≡◌, refl, String, List, [], ◌∷◌, length, Bool, true, Option, Result, ok,
  arith,
}
use smoldb.Bench.Batches.{batch_ids}
use smoldb.Bench.Types.{
  ApiSuccessResponse, ApiResponse, SmolBenchError, Method, Payload, Request, Client,
}
use smoldb.Bench.Apis.{
  Outcome, request, success_or, create_collection, get_collection, delete_collection, send_batch,
  upsert_from, retrieve_one, retrieve_point, pause,
}

module _ (client : Client) where
  open client use {
    World, Json, Text, Seconds, Response, send, is_success, json_bool, json_value, text,
    value_from_str, random,
  }

  -- Every request reaches the server, which answers with success.
  pub record IsServing : Type 0 where
    pub reached : (w : World) (r : Request Json) → (res : Response) × ((send w r).0 ≡ ok res)
    pub deleted : (res : Response) → is_success res ≡ true
    pub bools :
        (res : Response)
        → (body : ApiSuccessResponse Seconds Bool) × (json_bool res ≡ ok (ApiResponse.success body))
    pub values :
        (res : Response)
        → (body : ApiSuccessResponse Seconds Json) × (json_value res
            ≡ ok (ApiResponse.success body))
    pub texts : (res : Response) → (t : Text) × (text res ≡ ok t)
    pub read :
        (t : Text)
        → (body : ApiSuccessResponse Seconds Json) × (value_from_str t
            ≡ ok (ApiResponse.success body))

  -- An outcome is a success.
  abbrev pub Succeeds : {A : Type 0} → Outcome client A → Type 0
  Succeeds {A} o = (a : A) × (o.0 ≡ ok a)

  module _ (serving : IsServing) where
    request-ok :
        {A : Type 0} (method : Method) (url : String) (json : Payload Json)
        (use_response : Response → Result SmolBenchError A) (w : World)
        → ((res : Response) → (a : A) × (use_response res ≡ ok a))
        → Succeeds (request client method url json use_response w)
    unfolding request
    request-ok method url json use_response w good =
        let (res, q) = serving.reached w (record { method = method; url = url; json = json }) in
        let (a, q') = good res in (a, ground arith)

    pub get_collection-ok :
        (url name : String) (w : World) → Succeeds (get_collection client url name w)
    unfolding get_collection success_or
    get_collection-ok url name w =
        request-ok _ _ _ _ w λ res. let (body, q) = serving.values res in (body, ground arith)

    pub create_collection-ok :
        (url name : String) (w : World) → Succeeds (create_collection client url name w)
    unfolding create_collection success_or
    create_collection-ok url name w =
        request-ok _ _ _ _ w λ res. let (body, q) = serving.bools res in (body, ground arith)

    pub delete_collection-ok :
        (url name : String) (w : World) → Succeeds (delete_collection client url name w)
    unfolding delete_collection
    delete_collection-ok url name w =
        request-ok _ _ _ _ w λ res. (tt, ground (arith, serving.deleted res))

    send_batch-ok :
        (url name : String) (ids : List ℕ) (w : World) → Succeeds (send_batch client url name ids w)
    unfolding send_batch success_or
    send_batch-ok url name ids w = request-ok _ _ _ _ w λ res.
        let (t, q) = serving.texts res in let (body, q') = serving.read t in (body, ground arith)

    retrieve_one-ok :
        (url name : String) (id : ℕ) (w : World) → Succeeds (retrieve_one client url name id w)
    unfolding retrieve_one success_or
    retrieve_one-ok url name id w =
        request-ok _ _ _ _ w λ res. let (body, q) = serving.values res in (body, ground arith)

    pub upsert_from-ok :
        (url name : String) (num_points batch_size : ℕ) (delay : Option ℕ) (batch left : ℕ)
        (w : World)
        → (results : List (ApiSuccessResponse Seconds Json)) × ((upsert_from client url name
              num_points batch_size delay batch left w).0
            ≡ ok results)
          × (length results ≡ left)
    unfolding upsert_from
    upsert_from-ok url name num_points batch_size delay batch zero w = ([], refl, refl)
    upsert_from-ok url name num_points batch_size delay batch (suc left) w =
        let ids = batch_ids num_points batch_size batch in
        let (body, q) = send_batch-ok url name ids w in
        let (rest, q', count) =
          upsert_from-ok url name num_points batch_size delay (batch + 1) left
            (pause client delay (send_batch client url name ids w).1) in
        (body ∷ rest, rw (upsert_from, q, q') refl, ground arith)

    pub retrieve_point-ok :
        (url name : String) (ids : List ℕ) (w : World)
        → (results : List (ApiSuccessResponse Seconds Json)) × ((retrieve_point client url name ids
              w).0
            ≡ ok results)
          × (length results ≡ length ids)
    unfolding retrieve_point
    retrieve_point-ok url name [] w = ([], refl, refl)
    retrieve_point-ok url name (id ∷ ids) w =
        let (body, q) = retrieve_one-ok url name id w in
        let (rest, q', count) =
          retrieve_point-ok url name ids (retrieve_one client url name id w).1 in
        (body ∷ rest, rw (retrieve_point, q, q') refl, ground arith)
