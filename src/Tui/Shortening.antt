-- ===== src/Tui/Shortening.antt =====
-- The shortened kind of `push_event` in vectorguard/src/tui/app.rs: when it can be made.
use vector_guard.Prelude.{
  Bool-cases, Option, Text, [], ap, arith, encode_char, false, if◌then◌else◌, inl, inr, length,
  length-append, ltb, map_opt, none, refl, some, subst, sym, true, utf8, ℕ, ◌++◌, ◌+◌, ◌-◌, ◌<◌,
  ◌==◌, ◌↔◌, ◌∙◌, ◌∷◌, ◌≡◌, ◌⊎◌,
}
use vector_guard.Tui.{shorten, slice_to}

-- Some characters at the beginning of the text take up exactly n bytes.
abbrev pub Boundary : ℕ → Text → Type 0
Boundary n s = (t rest : Text) × (s ≡ t ++ rest) × (length (utf8 t) ≡ n)

width-cons : (c : ℕ) (t : Text) → length (utf8 (c ∷ t)) ≡ length (encode_char c) + length (utf8 t)
unfolding utf8
width-cons c t = length-append (encode_char c) (utf8 t)

slice→boundary : (n : ℕ) (s t : Text) → slice_to n s ≡ some t → Boundary n s
unfolding slice_to utf8
slice→boundary n [] t h = elim (Bool-cases (n == 0)) [
  | inl e ↦ ([], [], refl, ground arith)
  | inr e ↦ cc (rw e at h)
]
slice→boundary n (c ∷ s) t h =
    go (Bool-cases (n == 0)) (Bool-cases (ltb n (length (encode_char c))))
      (slice_to (n - length (encode_char c)) s) refl h
      (slice→boundary (n - length (encode_char c)) s)
  where
    go :
        ((n == 0) ≡ true) ⊎ ((n == 0) ≡ false)
        → (ltb n (length (encode_char c)) ≡ true) ⊎ (ltb n (length (encode_char c)) ≡ false)
        → (o : Option Text) → slice_to (n - length (encode_char c)) s ≡ o
        → (if n == 0
            then some []
            else if ltb n (length (encode_char c))
            then none
            else map_opt (λ u. c ∷ u) o)
          ≡ some t
        → ((u : Text)
            → slice_to (n - length (encode_char c)) s ≡ some u
            → Boundary (n - length (encode_char c)) s)
        → Boundary n (c ∷ s)
    go (inl z) w o e q ih = ([], c ∷ s, refl, ground arith)
    go (inr z) (inl w) o e q ih = cc (rw (z, w) at q)
    go (inr z) (inr w) none e q ih = cc (rw (z, w) at q)
    go (inr z) (inr w) (some u) e q ih =
        let (a, rest, split, len) = ih u e in
        (c ∷ a, rest, ap (λ l. c ∷ l) split, width-cons c a ∙ (let x = len in ground arith))

boundary→slice :
    (n : ℕ) (t rest : Text) → length (utf8 t) ≡ n → (u : Text) × (slice_to n (t ++ rest) ≡ some u)
unfolding slice_to utf8
boundary→slice n [] [] h = let z : (n == 0) ≡ true = ground arith in ([], rw z refl)
boundary→slice n [] (c ∷ rest) h = let z : (n == 0) ≡ true = ground arith in ([], rw z refl)
boundary→slice n (c ∷ t) rest h = elim (Bool-cases (n == 0)) [
  | inl z ↦ ([], rw z refl)
  | inr z ↦
      let len = width-cons c t in
      let wide : ltb n (length (encode_char c)) ≡ false = ground arith in
      let (u, e) = boundary→slice (n - length (encode_char c)) t rest (ground arith) in
      (c ∷ u, rw (z, wide, e) refl)
]

-- Showing an event panics exactly when the text of its kind has more than forty bytes, and the first
-- thirty-nine of them end inside of a character.
pub shorten-none_iff :
    (s : Text) → (shorten s ≡ none) ↔ ((40 < length (utf8 s)) × (¬ Boundary 39 s))
unfolding shorten
shorten-none_iff s = elim (Bool-cases (ltb 40 (length (utf8 s)))) [
  | inl e ↦ (
    λ h. (
      ground arith,
      λ (t, rest, split, len).
          let (u, q) = boundary→slice 39 t rest len in
          let q' : slice_to 39 s ≡ some u = subst (λ x. slice_to 39 x ≡ some u) (sym split) q in
          cc (rw (e, q') at h),
    ),
    λ (long, n). rw e (none_of (slice_to 39 s) refl n),
  )
  | inr e ↦ (λ h. cc (rw e at h), λ (long, n). absurd (ground arith))
]
  where
    none_of :
        (o : Option Text)
        → slice_to 39 s ≡ o
        → ¬ Boundary 39 s
        → map_opt (λ t. t ++ 0x2026 ∷ []) o ≡ none
    none_of none e n = refl
    none_of (some t) e n = absurd (n (slice→boundary 39 s t e))
