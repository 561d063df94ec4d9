-- ===== src/Approval/Names.antt =====
-- The names that the store of vectorguard/src/approval.rs gives to its files.
use vector_guard.Prelude.{
  All, Bool, Bool-cases, Text, [], ap, append_assoc, codes, false, if◌then◌else◌, inl, inr,
  is_empty, map, none, refl, show_nat, some, starts_with_iff, sym, text_eq_refl, true, ℕ, ◌++◌,
  ◌==◌, ◌||◌, ◌∙◌, ◌∷◌, ◌≡◌, ◌≢◌,
}
use vector_guard.Approval.{
  approved_name, approved_prefix, ends_with, ext_of, is_approved, is_safe, make_id, pending_name,
  rsplit_dot, sanitize, stem_of, toml_suffix,
}

cleaned_safe : (s : Text) → All (λ c. is_safe c ≡ true) (map (λ c. if is_safe c then c else b'-') s)
cleaned_safe [] = tt
cleaned_safe (c ∷ s) = elim (Bool-cases (is_safe c)) [
  | inl e ↦ rw e (e, cleaned_safe s)
  | inr e ↦ rw e (refl, cleaned_safe s)
]

cleaned_same :
    (s : Text) → All (λ c. is_safe c ≡ true) s → map (λ c. if is_safe c then c else b'-') s ≡ s
cleaned_same [] h = refl
cleaned_same (c ∷ s) h = rw h.0 (ap (λ t. c ∷ t) (cleaned_same s h.1))

-- A sanitised name is never empty and has only letters, digits, '-' and '_', so it cannot name
-- another directory; a name that is like that already is left as it is.
pub sanitize_lem :
    (s : Text)
    → All (λ c. is_safe c ≡ true) (sanitize s)
      × (sanitize s ≢ [])
      × (sanitize (sanitize s) ≡ sanitize s)
unfolding sanitize
sanitize_lem s = go (map (λ c. if is_safe c then c else b'-') s) (cleaned_safe s)
  where
    fixed :
        (t : Text) → All (λ c. is_safe c ≡ true) t → t ≢ [] → unfold sanitize in (sanitize t ≡ t)
    fixed [] h n = absurd (n refl)
    fixed (c ∷ t) h n = rw (cleaned_same (c ∷ t) h) refl

    go :
        (t : Text)
        → All (λ c. is_safe c ≡ true) t
        → let r = (if is_empty t then codes "rule" else t) in
          All (λ c. is_safe c ≡ true) r × (r ≢ []) × (unfold sanitize in (sanitize r ≡ r))
    go [] h = ((refl, (refl, (refl, (refl, tt)))), λ e. cc, refl)
    go (c ∷ t) h = (h, λ e. cc, fixed (c ∷ t) h (λ e. cc))

rsplit_dot-none : (s : Text) → All (λ c. (c == b'.') ≡ false) s → rsplit_dot s ≡ none
unfolding rsplit_dot
rsplit_dot-none [] h = refl
rsplit_dot-none (c ∷ s) h = rw (rsplit_dot-none s h.1, h.0) refl

rsplit_dot-append :
    (stem ext : Text)
    → All (λ c. (c == b'.') ≡ false) ext
    → rsplit_dot (stem ++ b'.' ∷ ext) ≡ some (stem, ext)
unfolding rsplit_dot
rsplit_dot-append [] ext h = rw (rsplit_dot-none ext h) refl
rsplit_dot-append (c ∷ stem) ext h = rw (rsplit_dot-append stem ext h) refl

-- The name of a pending file has the extension `toml`, and the identifier for its stem.
pub pending_name-parts :
    (id : Text)
    → id ≢ []
    → (ext_of (rsplit_dot (pending_name id)) ≡ some (codes "toml"))
      × (stem_of (pending_name id) (rsplit_dot (pending_name id)) ≡ id)
pending_name-parts [] n = absurd (n refl)
pending_name-parts (c ∷ id) n =
    rw (rsplit_dot-append (c ∷ id) (codes "toml") (refl, (refl, (refl, (refl, tt))))) (refl, refl)

pub make_id_nonempty : (ts : ℕ) (name : Text) → make_id ts name ≢ []
unfolding make_id
make_id_nonempty ts name = go (show_nat ts)
  where
    go : (digits : Text) → digits ++ (b'-' ∷ sanitize name) ≢ []
    go [] e = cc
    go (d ∷ digits) e = cc

ends_with-append : (s suffix : Text) → ends_with (s ++ suffix) suffix ≡ true
unfolding ends_with
ends_with-append [] [] = refl
ends_with-append [] (c ∷ suffix) = rw (text_eq_refl (c ∷ suffix)) refl
ends_with-append (c ∷ s) suffix = rw (ends_with-append s suffix) (or_true _)
  where
    or_true : (b : Bool) → (b || true) ≡ true
    or_true true = refl
    or_true false = refl

-- The reaper recognises every file that was approved.
pub is_approved-approved_name : (id : Text) → is_approved (approved_name id) ≡ true
is_approved-approved_name id =
    rw ((starts_with_iff (approved_name id) approved_prefix).1 (id ++ toml_suffix, refl)) (
      ap (λ n. ends_with n toml_suffix) (sym (append_assoc approved_prefix id toml_suffix))
      ∙ ends_with-append (approved_prefix ++ id) toml_suffix)
