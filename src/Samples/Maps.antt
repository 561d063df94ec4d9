-- ===== src/Samples/Maps.antt =====
-- A kernel map as the list of its keys, which keeps the laws of a map.
use vector_guard.Prelude.{
  ==_iff, Any, Any-filter, Any-mono, Any→any, Bool, Bool-cases, List, [], any, any→Any, ap, arith,
  filter, filter-Any, inl, inr, map, not, refl, some, subst, sym, text_eq, text_eq_iff, true,
  unwrap_or, ℕ, ◌==◌, ◌↔◌, ◌∙◌, ◌∷◌, ◌≡◌, ◌≢◌, ◌⊎◌,
}
use vector_guard.Enforcer.{MapApi}
use vector_guard.Enforcer.Loading.{MapLaws}

module _ {K : Type 0} (eq : K → K → Bool) (eq_iff : (a b : K) → (eq a b ≡ true) ↔ (a ≡ b)) where
  abbrev pub list_map : MapApi K
  list_map = record {
    Map = List K;
    holds = λ m k. any (λ x. eq x k) m;
    keys = map some;
    insert = λ m k. some (k ∷ m);
    remove = λ m k. filter (λ x. not (eq x k)) m;
  }

  holds_iff : (m : List K) (j : K) → (any (λ x. eq x j) m ≡ true) ↔ Any (λ x. x ≡ j) m
  holds_iff m j = (
    λ h. Any-mono (λ x. (eq_iff x j).0) m (any→Any _ m h),
    λ h. Any→any _ m (Any-mono (λ x. (eq_iff x j).1) m h),
  )

  differs : (x k : K) → not (eq x k) ≡ true → ¬ (x ≡ k)
  differs x k h e = let q = (eq_iff x k).1 e in ground arith

  apart : (x k : K) → ¬ (x ≡ k) → not (eq x k) ≡ true
  apart x k n = elim (Bool-cases (eq x k)) [
    | inl e ↦ absurd (n ((eq_iff x k).0 e))
    | inr e ↦ rw e refl
  ]

  with_apart :
      (k j : K) (m : List K)
      → k ≢ j
      → Any (λ x. x ≡ j) m
      → Any (λ x. (not (eq x k) ≡ true) × (x ≡ j)) m
  with_apart k j m n h = Any-mono (λ x e. (apart x k (λ q. n (sym q ∙ e)), e)) m h

  dropped :
      (k j : K) (m : List K)
      → Any (λ x. (not (eq x k) ≡ true) × (x ≡ j)) m
      → (k ≢ j) × Any (λ x. x ≡ j) m
  dropped k j [] h = absurd h
  dropped k j (x ∷ m) (inl (d, e)) = (λ q. differs x k d (e ∙ sym q), inl e)
  dropped k j (x ∷ m) (inr h) = let (n, a) = dropped k j m h in (n, inr a)

  listed : (m : List K) (k : K) → Any (λ x. x ≡ k) m → Any (λ o. o ≡ some k) (map some m)
  listed [] k h = absurd h
  listed (x ∷ m) k (inl e) = inl (ap some e)
  listed (x ∷ m) k (inr h) = inr (listed m k h)

  pub list_map_laws : MapLaws list_map
  list_map_laws = record {
    insert_holds = λ m m' k j e. inserted m m' k j e;
    remove_holds = λ m k j. (
      λ h.
          let (n, a) = dropped k j m (Any-filter (λ x. x ≡ j) _ m ((holds_iff _ j).0 h)) in
          (n, (holds_iff m j).1 a),
      λ (n, h).
          (holds_iff _ j).1
            (filter-Any (λ x. x ≡ j) _ m (with_apart k j m n ((holds_iff m j).0 h))),
    );
    keys_complete = λ m k h. listed m k ((holds_iff m k).0 h);
  }
    where
      inserted :
          (m m' : List K) (k j : K)
          → some (k ∷ m) ≡ some m'
          → (any (λ x. eq x j) m' ≡ true) ↔ ((k ≡ j) ⊎ (any (λ x. eq x j) m ≡ true))
      inserted m m' k j e =
          subst (λ l. (any (λ x. eq x j) l ≡ true) ↔ ((k ≡ j) ⊎ (any (λ x. eq x j) m ≡ true)))
            (ap (λ o. unwrap_or o m) e)
            (
              λ h. elim ((holds_iff (k ∷ m) j).0 h) [
                | inl q ↦ inl q
                | inr a ↦ inr ((holds_iff m j).1 a)
              ],
              λ s.
                  (holds_iff (k ∷ m) j).1
                    (elim s [ inl q ↦ inl q | inr a ↦ inr ((holds_iff m j).0 a) ]),
            )

abbrev pub bytes_map : MapApi (List ℕ)
bytes_map = list_map text_eq text_eq_iff

abbrev pub number_map : MapApi ℕ
number_map = list_map ◌==◌ ==_iff

pub bytes_map_laws : MapLaws bytes_map
bytes_map_laws = list_map_laws text_eq text_eq_iff

pub number_map_laws : MapLaws number_map
number_map_laws = list_map_laws ◌==◌ ==_iff
