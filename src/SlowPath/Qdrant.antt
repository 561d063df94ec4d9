-- ===== src/SlowPath/Qdrant.antt =====
-- The requests of vectorguard/src/slow_path/vectordb.rs to Qdrant. What the server answers is an
-- argument: the status, and the JSON of the body if it can be decoded.
pub mod Unanswered
use vector_guard.Prelude.{
  Bool, List, Option, Text, [], codes, false, if◌then◌else◌, none, not, some, true, ℕ, ◌++◌, ◌==◌,
  ◌∷◌,
}
use vector_guard.SlowPath.Embedder.Providers.{Value, keep_some}

pub data Method : Type 0 where
  get put delete post : Method

pub data Body (F : Type 0) : Type 0 where
  empty : Body F
  collection : ℕ → Body F
  point : ℕ → List F → Text → ℕ → Body F
  query : List F → ℕ → F → Body F

pub record Call (F : Type 0) : Type 0 where
  pub method : Method
  pub url : Text
  pub body : Body F

-- An answer; `none` in place of one is a failed request.
pub record Answer (J : Type 0) : Type 0 where
  pub status : ℕ
  pub json : Option J

-- The address and the name of the collection.
pub record Target : Type 0 where
  pub base_url : Text
  pub name : Text

abbrev pub collection_url : Target → Text
collection_url t = t.base_url ++ (codes "/collections/" ++ t.name)

abbrev pub create_call : {F : Type 0} → Target → ℕ → Call F
create_call t size = record { method = put; url = collection_url t; body = collection size }

abbrev pub search_call : {F : Type 0} → Target → List F → ℕ → F → Call F
search_call t vector limit threshold = record {
  method = post;
  url = collection_url t ++ codes "/points/search";
  body = query vector limit threshold;
}

module _ {J F : Type 0} (value : Value J F) where
  open value use {at, as_array, as_f32, as_u64}

  abbrev pub existing_size : J → Option ℕ
  existing_size info = as_u64 (
      at
        (at (at (at (at info (codes "result")) (codes "config")) (codes "params"))
          (codes "vectors"))
        (codes "size"))

  abbrev pub scores_in : Option (List J) → List F
  scores_in none = []
  scores_in (some points) = keep_some (λ p. as_f32 (at p (codes "score"))) points

  abbrev pub scores_of : Option J → Option (List F)
  scores_of none = none
  scores_of (some reply) = some (scores_in (as_array (at reply (codes "result"))))

  abbrev pub scores_from : Option (Answer J) → Option (List F)
  scores_from none = none
  scores_from (some a) = scores_of a.json

  -- The requests so far, and whether `Ok` is returned.
  abbrev pub Sent : Type 0
  Sent = List (Call F) × Bool

  module _ (send : Call F → Option (Answer J)) where
    -- One request whose failure ends the function.
    abbrev pub then_send : Call F → (Answer J → Sent) → Sent
    then_send c next = elim (send c) [
      | none ↦ (c ∷ [], false)
      | some a ↦ let (calls, done) = next a in (c ∷ calls, done)
    ]

    abbrev pub create_collection : Target → ℕ → Sent
    create_collection t size = then_send (create_call t size) (λ a. ([], true))

    -- The collection that exists: it is deleted and created again if its vectors have another size.
    abbrev pub recreate : Target → ℕ → Sent
    recreate t size =
        then_send (record { method = delete; url = collection_url t; body = empty })
          (λ a. create_collection t size)

    abbrev pub check_size : Target → ℕ → Option ℕ → Sent
    check_size t size none = ([], true)
    check_size t size (some existing) =
        if not (existing == size) then recreate t size else ([], true)

    abbrev pub check_info : Target → ℕ → Option J → Sent
    check_info t size none = ([], false)
    check_info t size (some info) = check_size t size (existing_size info)

    -- `qdrant_ensure`
    unfoldable pub qdrant_ensure : Target → ℕ → Sent
    qdrant_ensure t size =
        then_send (record { method = get; url = collection_url t; body = empty })
          (λ a. if a.status == 404 then create_collection t size else check_info t size a.json)

    -- `qdrant_upsert`, with the name of the binary and the time stamp as the payload.
    abbrev pub qdrant_upsert : Target → ℕ → List F → Text → ℕ → Sent
    qdrant_upsert t id vector binary ts =
        then_send
          (record {
            method = put;
            url = collection_url t ++ codes "/points";
            body = point id vector binary ts;
          })
          (λ a. ([], true))

    -- `qdrant_search`, which does not look at the status.
    unfoldable pub qdrant_search : Target → List F → ℕ → F → Option (List F)
    qdrant_search t vector limit threshold =
        scores_from (send (search_call t vector limit threshold))
