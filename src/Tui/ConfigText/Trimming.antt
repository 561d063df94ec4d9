-- ===== src/Tui/ConfigText/Trimming.antt =====
-- Trimming and splitting of the lines that vectorguard/src/tui/app.rs writes.
use vector_guard.Prelude.{
  All, Bool, Bool-cases, Text, [], ap, false, if◌then◌else◌, inl, inr, is_empty, is_whitespace,
  refl, some, split_once, trim_end, trim_start, true, ℕ, ◌&&◌, ◌++◌, ◌==◌, ◌∷◌, ◌≡◌, ◌≢◌,
}
use vector_guard.Tui.ConfigText.{before_hash, indent_of}

abbrev pub Spaces : Text → Type 0
Spaces s = All (λ c. is_whitespace c ≡ true) s

pub indent_of-Spaces : (line : Text) → Spaces (indent_of line)
unfolding indent_of
indent_of-Spaces [] = tt
indent_of-Spaces (c ∷ s) = elim (Bool-cases (is_whitespace c)) [
  | inl e ↦ rw e (e, indent_of-Spaces s)
  | inr e ↦ rw e tt
]

pub trim_start-append : (a s : Text) → Spaces a → trim_start (a ++ s) ≡ trim_start s
unfolding trim_start
trim_start-append [] s h = refl
trim_start-append (c ∷ a) s h = rw h.0 (trim_start-append a s h.1)

pub trim_end-append : (a s : Text) → s ≢ [] → trim_end s ≡ s → trim_end (a ++ s) ≡ a ++ s
unfolding trim_end
trim_end-append [] s n h = h
trim_end-append (c ∷ a) s n h =
    rw (trim_end-append a s n h) (filled (a ++ s) (cons_nonempty a s n) (is_whitespace c))
  where
    cons_nonempty : (a s : Text) → s ≢ [] → a ++ s ≢ []
    cons_nonempty [] s n = n
    cons_nonempty (x ∷ a) s n = λ e. cc

    filled : (t : Text) → t ≢ [] → (w : Bool) → (if is_empty t && w then [] else c ∷ t) ≡ c ∷ t
    filled [] n w = absurd (n refl)
    filled (x ∷ t) n w = refl

pub trim_start-nonspace : (c : ℕ) (s : Text) → is_whitespace c ≡ false → trim_start (c ∷ s) ≡ c ∷ s
unfolding trim_start
trim_start-nonspace c s h = rw h refl

pub before_hash-id : (s : Text) → All (λ c. (c == b'#') ≡ false) s → before_hash s ≡ s
unfolding before_hash
before_hash-id [] h = refl
before_hash-id (c ∷ s) h = rw h.0 (ap (λ t. c ∷ t) (before_hash-id s h.1))

pub All-append : (P : ℕ → Type 0) (a s : Text) → All P a → All P s → All P (a ++ s)
All-append P [] s h k = k
All-append P (c ∷ a) s h k = (h.0, All-append P a s h.1 k)

pub split_once-append :
    (a s : Text)
    → All (λ c. (c == b'=') ≡ false) a
    → split_once b'=' (a ++ (b'=' ∷ s)) ≡ some (a, s)
unfolding split_once
split_once-append [] s h = refl
split_once-append (c ∷ a) s h = rw (h.0, split_once-append a s h.1) refl

pub trim_end-key :
    (key : Text) → All (λ c. is_whitespace c ≡ false) key → trim_end (key ++ 32 ∷ []) ≡ key
unfolding trim_end
trim_end-key [] h = refl
trim_end-key (c ∷ key) h = rw (trim_end-key key h.1, h.0) (none_dropped (is_empty key))
  where
    none_dropped : (b : Bool) → (if b && false then [] else c ∷ key) ≡ c ∷ key
    none_dropped true = refl
    none_dropped false = refl
