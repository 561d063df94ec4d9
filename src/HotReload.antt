-- ===== src/HotReload.antt =====
-- The loop of vectorguard/src/hotreload.rs. The watcher of the notify crate puts a token into a channel
-- of four for every change; what the loop finds in it, and whether the configuration then loads, is what
-- a round brings.
use vector_guard.Prelude.{
  List, Option, [], ap, length, none, refl, some, suc, unwrap_or, ℕ, ◌∙◌, ◌∷◌, ◌≡◌,
}

-- One wake-up: how many more tokens are drained, and the configuration if it loads.
pub record Round (C : Type 0) : Type 0 where
  pub drained : ℕ
  pub loaded : Option C

module _ {C : Type 0} where
  -- The shared configuration after the round; the same value is sent to the pipeline.
  abbrev pub on_change : C → Round C → C
  on_change current r = unwrap_or r.loaded current

  -- The configurations that are sent, and the one that is left.
  unfoldable pub watch : C → List (Round C) → List C × C
  watch current [] = ([], current)
  watch current (r ∷ rounds) =
      let next = on_change current r in let (sent, last) = watch next rounds in (next ∷ sent, last)

  -- The configurations that loaded.
  abbrev pub valid : List (Round C) → List C
  valid [] = []
  valid (r ∷ rounds) = elim r.loaded [ none ↦ valid rounds | some c ↦ c ∷ valid rounds ]

  abbrev pub last_or : C → List C → C
  last_or c [] = c
  last_or c (d ∷ ds) = last_or d ds

  -- Every wake-up sends exactly one configuration, and the shared one is always the last that could be
  -- loaded: an invalid file never replaces a valid configuration.
  pub watch_lem :
      (current : C) (rounds : List (Round C))
      → (length (watch current rounds).0 ≡ length rounds)
        × ((watch current rounds).1 ≡ last_or current (valid rounds))
        × (last_or current (watch current rounds).0 ≡ (watch current rounds).1)
  unfolding watch
  watch_lem current [] = (refl, refl, refl)
  watch_lem current (r ∷ rounds) =
      let (counted, kept, last) = watch_lem (on_change current r) rounds in
      (ap suc counted, kept ∙ go r.loaded, last)
    where
      go :
          (o : Option C)
          → last_or (unwrap_or o current) (valid rounds)
            ≡ last_or current (elim o [ none ↦ valid rounds | some c ↦ c ∷ valid rounds ])
      go none = refl
      go (some c) = refl
