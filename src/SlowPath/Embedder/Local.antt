-- ===== src/SlowPath/Embedder/Local.antt =====
-- `deterministic_embed` of vectorguard/src/slow_path/embedder/local.rs, over the floats of Float.antt;
-- `third` is 0.3.
use vector_guard.Prelude.{
  Bool, List, Text, [], ap, false, foldl, if◌then◌else◌, length, length-replicate, map, not, refl,
  replicate, some, suc, true, unless, utf8, zero, ℕ, ◌%◌, ◌*◌, ◌+◌, ◌==◌, ◌∙◌, ◌∷◌, ◌≡◌,
}
use vector_guard.Event.{IpAddr, NormalizedEvent}
use vector_guard.Float.{Float}
use vector_guard.SlowPath.Embedder.{embed, event_to_text}

abbrev pub local_dim : ℕ
local_dim = 64

-- `v[slot] += x`
abbrev pub add_at {ℓ} : {A : Type ℓ} → (A → A) → ℕ → List A → List A
add_at f i [] = []
add_at f zero (x ∷ xs) = f x ∷ xs
add_at f (suc i) (x ∷ xs) = x ∷ add_at f i xs

length-add_at {ℓ} :
    {A : Type ℓ} (f : A → A) (i : ℕ) (xs : List A) → length (add_at f i xs) ≡ length xs
length-add_at f i [] = refl
length-add_at f zero (x ∷ xs) = refl
length-add_at f (suc i) (x ∷ xs) = ap suc (length-add_at f i xs)

length-map : {A B : Type 0} (f : A → B) (xs : List A) → length (map f xs) ≡ length xs
length-map f [] = refl
length-map f (x ∷ xs) = ap suc (length-map f xs)

module _ (fl : Float) (third : fl.F) where
  open fl use {F, zero_f, tiny, add, mul, div, sqrt, lt, of_ℕ}

  -- The two slots of the byte `b` at position `i`.
  abbrev pub mix_byte : ℕ → ℕ → List F → List F
  mix_byte i b v =
      add_at (λ x. add x third) ((b * 7 + i * 13) % local_dim)
        (add_at (λ x. add x (div (of_ℕ b) (of_ℕ 255))) (i % local_dim) v)

  -- The loop over the bytes, from position `i`.
  unfoldable pub mix_bytes : ℕ → List ℕ → List F → List F
  mix_bytes i [] v = v
  mix_bytes i (b ∷ bytes) v = mix_bytes (i + 1) bytes (mix_byte i b v)

  abbrev pub norm_of : List F → F
  norm_of v = sqrt (foldl (λ sum x. add sum (mul x x)) zero_f v)

  abbrev pub normalised : List F → List F
  normalised v = if lt tiny (norm_of v) then map (λ x. div x (norm_of v)) v else v

  unfoldable pub deterministic_embed : Text → List F
  unfolding mix_bytes utf8
  deterministic_embed text = normalised (mix_bytes 0 (utf8 text) (replicate local_dim zero_f))

  length-mix_bytes : (i : ℕ) (bytes : List ℕ) (v : List F) → length (mix_bytes i bytes v) ≡ length v
  unfolding mix_bytes
  length-mix_bytes i [] v = refl
  length-mix_bytes i (b ∷ bytes) v =
      length-mix_bytes (i + 1) bytes (mix_byte i b v)
      ∙ length-add_at (λ x. add x third) ((b * 7 + i * 13) % local_dim) _
      ∙ length-add_at (λ x. add x (div (of_ℕ b) (of_ℕ 255))) (i % local_dim) v

  length-normalised : (v : List F) → length (normalised v) ≡ length v
  length-normalised v = go (lt tiny (norm_of v))
    where
      go : (b : Bool) → length (if b then map (λ x. div x (norm_of v)) v else v) ≡ length v
      go true = length-map (λ x. div x (norm_of v)) v
      go false = refl

  length-deterministic_embed : (text : Text) → length (deterministic_embed text) ≡ local_dim
  unfolding deterministic_embed
  length-deterministic_embed text =
      length-normalised (mix_bytes 0 (utf8 text) (replicate local_dim zero_f))
      ∙ length-mix_bytes 0 (utf8 text) (replicate local_dim zero_f)
      ∙ length-replicate local_dim zero_f

  -- With the local provider every event has an embedding: its vector has the announced dimension of 64,
  -- so the check of the dimension never rejects it.
  pub embed-local :
      {J : Type 0} (show_ip : IpAddr → Text) (event : NormalizedEvent J)
      → embed show_ip (λ text. some (deterministic_embed text)) local_dim event
        ≡ some (deterministic_embed (event_to_text show_ip event))
  unfolding embed
  embed-local show_ip event =
      unless _ _ _
        (ap (λ n. not (n == local_dim)) (length-deterministic_embed (event_to_text show_ip event)))
