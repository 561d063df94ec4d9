-- ===== src/SlowPath.antt =====
-- vectorguard/src/slow_path/mod.rs: anomaly detection. What the embedding provider and the vector
-- database answer are arguments (`Services`).
pub mod Context
pub mod Embedder
pub mod Escalation
pub mod Outcome
pub mod Qdrant
use vector_guard.Prelude.{
  Bool, List, Option, Text, [], false, foldl, if◌then◌else◌, is_empty, length, none, not, some,
  true, utf8, ℕ, ◌%◌, ◌&&◌, ◌*◌, ◌==◌, ◌^◌, ◌||◌, ◌∷◌,
}
use Prim.Native.Nat.{bit_xor}
use vector_guard.Float.{Float}
use vector_guard.Config.{VectorDbBackend, SlowPathConfig}
use vector_guard.Event.{Action, Severity, IpAddr, NormalizedEvent, action_eq, severity_lt}
use vector_guard.SlowPath.Context
use vector_guard.SlowPath.Context.{
  Vector, ContextWindow, div_all, norm, context_vector, push, prune_stale_pids,
}
use vector_guard.SlowPath.Embedder.{embed}

-- `stable_id`: FNV-1a on the bytes of the text, modulo 2 ^ 64.
abbrev pub fnv_step : ℕ → ℕ → ℕ
fnv_step h b = bit_xor h b * 0x100000001b3 % 2 ^ 64

unfoldable pub stable_id : Text → ℕ
stable_id s = foldl fnv_step 0xcbf29ce484222325 (utf8 s)

module _ (f : Float) where
  abbrev pub mix : Vector f → Vector f → Vector f
  mix [] b = []
  mix (x ∷ a) [] = []
  mix (x ∷ a) (y ∷ b) = f.add (f.mul f.alpha x) (f.mul (f.sub f.one f.alpha) y) ∷ mix a b

  -- `blend`
  unfoldable pub blend : Vector f → Vector f → Vector f
  blend a b =
      if not (length a == length b)
      then a
      else let result = mix a b in div_all f (norm f result) result

  pub record SlowPath : Type 0 where
    pub dim : ℕ
    pub backend : VectorDbBackend
    pub threshold : f.F
    pub enabled : Bool
    pub available : Bool
    pub context : ContextWindow f

  -- The remote parties: the provider, Qdrant's search (a failed request or a list of scores).
  pub record Services : Type 0 where
    pub show_ip : IpAddr → Text
    pub provider : Text → Option (Vector f)
    pub qdrant_search : Vector f → ℕ → f.F → Option (List f.F)

  -- `VectorDb::ensure_collection`: whether it returns `Ok`.
  abbrev pub ensure_collection : VectorDbBackend → Bool → Bool
  ensure_collection VectorDbBackend.qdrant reply = reply
  ensure_collection VectorDbBackend.usearch reply = true

  -- `SlowPath::new`; `dim` is the provider's dimension, `reply` whether Qdrant answers.
  unfoldable pub new : SlowPathConfig f.F → ℕ → Bool → SlowPath
  new cfg dim reply = record {
    dim = dim;
    backend = cfg.vectordb.backend;
    threshold = cfg.similarity_threshold;
    enabled = cfg.enabled;
    available = if cfg.enabled then ensure_collection cfg.vectordb.backend reply else false;
    context = Context.new f cfg.time_window_secs dim;
  }

  -- `VectorDb::search`
  abbrev pub search_db : Services → VectorDbBackend → Vector f → ℕ → f.F → Option (List f.F)
  search_db s VectorDbBackend.qdrant v limit threshold = s.qdrant_search v limit threshold
  search_db s VectorDbBackend.usearch v limit threshold = some []

  -- A point stored as the baseline of a binary.
  pub record Upsert : Type 0 where
    pub id : ℕ
    pub vector : Vector f
    pub binary : Text
    pub ts : ℕ

  -- What `VectorDb::upsert` sends.
  abbrev pub upsert_db : VectorDbBackend → Upsert → Option Upsert
  upsert_db VectorDbBackend.qdrant p = some p
  upsert_db VectorDbBackend.usearch p = none

  -- `is_anomaly`
  abbrev pub is_anomaly : Option (List f.F) → Bool
  is_anomaly none = false
  is_anomaly (some scores) = is_empty scores

  abbrev pub search_vector : Vector f → Option (Vector f) → Vector f
  search_vector current none = current
  search_vector current (some history) = blend current history

  module _ {J : Type 0} where
    -- Alerted, with a severity of Medium at least.
    abbrev pub raised : NormalizedEvent J → NormalizedEvent J
    raised event = record event {
      action = Action.alerted;
      severity =
          if severity_lt event.severity Severity.medium then Severity.medium else event.severity;
    }

    abbrev pub escalate : Bool → NormalizedEvent J → NormalizedEvent J
    escalate anomaly event =
        if anomaly && action_eq event.action Action.allowed then raised event else event

    -- What is left to do once the event is embedded: the context is read before the event enters it.
    abbrev pub analyze_vector :
        Services
        → SlowPath
        → NormalizedEvent J
        → Option (Vector f)
        → SlowPath × NormalizedEvent J × Option Upsert
    analyze_vector s sp event none = (sp, event, none)
    analyze_vector s sp event (some current) =
        let pid = event.process.pid in
        let vector = search_vector current (context_vector f sp.context pid) in
        (
          record sp {
            context = prune_stale_pids f (push f sp.context pid event.timestamp current);
          },
          escalate (is_anomaly (search_db s sp.backend vector 5 sp.threshold)) event,
          upsert_db sp.backend (record {
            id = stable_id event.process.binary;
            vector = vector;
            binary = event.process.binary;
            ts = event.timestamp;
          }),
        )

    -- `SlowPath::analyze`
    unfoldable pub analyze :
        Services → SlowPath → NormalizedEvent J → SlowPath × NormalizedEvent J × Option Upsert
    analyze s sp event =
        if not sp.enabled || not sp.available
        then (sp, event, none)
        else if action_eq event.action Action.blocked
        then (sp, event, none)
        else analyze_vector s sp event (embed s.show_ip s.provider sp.dim event)
