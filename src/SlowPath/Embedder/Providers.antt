-- ===== src/SlowPath/Embedder/Providers.antt =====
-- The providers of vectorguard/src/slow_path/embedder: openai.rs, voyage.rs, gemini.rs and the one for
-- Ollama in local.rs, and `Embedder::new` and `resolve_api_key` of mod.rs. A request and the decoding of
-- its JSON is an argument, as are the parts of serde_json that the code calls.
use vector_guard.Prelude.{
  List, Option, Text, [], ap, codes, if◌then◌else◌, inl, inr, is_empty, is_some, none, refl, some,
  text_eq, ℕ, ◌++◌, ◌∷◌, ◌≡◌, ◌⊎◌,
}
use vector_guard.Config.{EmbedderBackend, EmbedderConfig}

-- `Value::get`, indexing by a key and by a number, `as_array`, `as_f64` followed by `as f32`, `as_u64`.
pub record Value (J F : Type 0) : Type 0 where
  pub get : J → Text → Option J
  pub at : J → Text → J
  pub nth : J → ℕ → J
  pub as_array : J → Option (List J)
  pub as_f32 : J → Option F
  pub as_u64 : J → Option ℕ

-- `resolve_api_key`: what the environment holds under the configured name.
abbrev pub resolve_api_key : EmbedderConfig → (Text → Option Text) → Option Text
resolve_api_key cfg var = if is_empty cfg.api_key_env then none else elim (var cfg.api_key_env) [
  | none ↦ none
  | some key ↦ if is_empty key then none else some key
]

pub data Provider : Type 0 where
  local : Provider
  ollama : Text → Text → Provider
  openai voyage gemini : Text → Option Text → Provider

-- `Embedder::new`
unfoldable pub provider_of : EmbedderConfig → (Text → Option Text) → Provider
provider_of cfg var = elim cfg.backend [
  | EmbedderBackend.local ↦ elim cfg.endpoint [
    | none ↦ local
    | some endpoint ↦ ollama endpoint cfg.model
  ]
  | EmbedderBackend.openai ↦ openai cfg.model (resolve_api_key cfg var)
  | EmbedderBackend.voyage ↦ voyage cfg.model (resolve_api_key cfg var)
  | EmbedderBackend.gemini ↦ gemini cfg.model (resolve_api_key cfg var)
]

-- `dim` of each provider.
unfoldable pub dim_of : Provider → ℕ
dim_of local = 64
dim_of (ollama endpoint model) = 768
dim_of (openai model key) = if text_eq model (codes "text-embedding-3-large") then 3072 else 1536
dim_of (voyage model key) = if text_eq model (codes "voyage-3-lite") then 512 else 1024
dim_of (gemini model key) = 768

-- A request: the address, the bearer token, the model of the body and its text (Voyage takes it as a
-- list of one text, Gemini inside `content`, where the model is part of the address).
pub record Request : Type 0 where
  pub url : Text
  pub bearer : Option Text
  pub model : Option Text
  pub input : Text

-- `filter_map(|v| v.as_f64())`
abbrev pub keep_some {ℓ κ} : {A : Type ℓ} {B : Type κ} → (A → Option B) → List A → List B
keep_some f [] = []
keep_some f (x ∷ xs) = let rest = keep_some f xs in elim (f x) [ none ↦ rest | some y ↦ y ∷ rest ]

module _ {J F : Type 0} (value : Value J F) where
  open value use {get, at, nth, as_array, as_f32}

  -- The numbers of an array; nothing for an empty one.
  abbrev pub some_vector : List F → Option (List F)
  some_vector v = if is_empty v then none else some v

  abbrev pub vector_of : Option (List J) → Option (List F)
  vector_of none = none
  vector_of (some items) = some_vector (keep_some as_f32 items)

  -- The array of the reply, unless it has the key that reports an error.
  abbrev pub read_reply : Text → (J → J) → Option J → Option (List F)
  read_reply error_key path none = none
  read_reply error_key path (some reply) =
      if is_some (get reply error_key) then none else vector_of (as_array (path reply))

  abbrev pub read_ollama : Option J → Option (List F)
  read_ollama none = none
  read_ollama (some reply) = vector_of (as_array (nth (at reply (codes "embeddings")) 0))

  abbrev pub data_embedding : J → J
  data_embedding reply = at (nth (at reply (codes "data")) 0) (codes "embedding")

  abbrev pub values_path : J → J
  values_path reply = at (at reply (codes "embedding")) (codes "values")

  module _ (fetch : Request → Option J) (deterministic_embed : Text → List F) where
    abbrev pub ask_openai : Text → Text → Text → Option (List F)
    ask_openai model text key = read_reply (codes "error") data_embedding (
        fetch (record {
          url = codes "https://api.openai.com/v1/embeddings";
          bearer = some key;
          model = some model;
          input = text;
        }))

    abbrev pub ask_voyage : Text → Text → Text → Option (List F)
    ask_voyage model text key = read_reply (codes "detail") data_embedding (
        fetch (record {
          url = codes "https://api.voyageai.com/v1/embeddings";
          bearer = some key;
          model = some model;
          input = text;
        }))

    abbrev pub ask_gemini : Text → Text → Text → Option (List F)
    ask_gemini model text key = read_reply (codes "error") values_path (
        fetch (record {
          url =
              codes "https://generativelanguage.googleapis.com/v1beta/models/"
              ++ (model ++ (codes ":embedContent?key=" ++ key));
          bearer = none;
          model = none;
          input = text;
        }))

    abbrev pub with_key : (Text → Option (List F)) → Option Text → Option (List F)
    with_key ask none = none
    with_key ask (some key) = ask key

    -- `EmbedProvider::embed`
    unfoldable pub provide : Provider → Text → Option (List F)
    provide local text = some (deterministic_embed text)
    provide (ollama endpoint model) text = read_ollama (
        fetch (record {
          url = endpoint ++ codes "/api/embed";
          bearer = none;
          model = some model;
          input = text;
        }))
    provide (openai model key) text = with_key (ask_openai model text) key
    provide (voyage model key) text = with_key (ask_voyage model text) key
    provide (gemini model key) text = with_key (ask_gemini model text) key

    -- Without a usable key the hosted providers give no vector, whatever they would answer: events then
    -- pass without an analysis. The configuration names no variable, or the variable is not set or empty.
    provide_keyless :
        (cfg : EmbedderConfig) (var : Text → Option Text) (text : Text)
        → resolve_api_key cfg var ≡ none
        → (provide (provider_of cfg var) text ≡ none) ⊎ (cfg.backend ≡ EmbedderBackend.local)
    unfolding provide provider_of
    provide_keyless cfg var text h = go cfg.backend refl
      where
        go :
            (b : EmbedderBackend)
            → cfg.backend ≡ b
            → (provide
                  (elim b [
                    | EmbedderBackend.local ↦ elim cfg.endpoint [
                      | none ↦ local
                      | some endpoint ↦ ollama endpoint cfg.model
                    ]
                    | EmbedderBackend.openai ↦ openai cfg.model (resolve_api_key cfg var)
                    | EmbedderBackend.voyage ↦ voyage cfg.model (resolve_api_key cfg var)
                    | EmbedderBackend.gemini ↦ gemini cfg.model (resolve_api_key cfg var)
                  ])
                  text
                ≡ none)
              ⊎ (cfg.backend ≡ EmbedderBackend.local)
        go EmbedderBackend.local e = inr e
        go EmbedderBackend.openai e = inl (ap (with_key (ask_openai cfg.model text)) h)
        go EmbedderBackend.voyage e = inl (ap (with_key (ask_voyage cfg.model text)) h)
        go EmbedderBackend.gemini e = inl (ap (with_key (ask_gemini cfg.model text)) h)
