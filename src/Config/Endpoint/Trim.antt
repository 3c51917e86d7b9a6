-- ===== src/Config/Endpoint/Trim.antt =====
-- Trimming and splitting of texts, as the endpoints use them.
use qubic_random_client.Base.{
  ℕ, ◌≡◌, refl, ap, Bool, false, [], ◌∷◌, ◌++◌, some, All, arith, Text, text_eq, text_eq-eq,
  keep_unless, trim_start_matches, trim_end_matches, strip_suffix, Bool-cases, Option-cases, inl,
  inr,
}
use mathlib.Core.List.{append_assoc}

module _ (p : ℕ → Bool) where
  -- A text that ends in a character which stays is not trimmed.
  pub trim_end_matches-snoc :
      (s : Text) (c : ℕ) → p c ≡ false → trim_end_matches p (s ++ (c ∷ [])) ≡ s ++ (c ∷ [])
  unfolding trim_end_matches
  trim_end_matches-snoc [] c h = rw h refl
  trim_end_matches-snoc (d ∷ []) c h = rw (trim_end_matches-snoc [] c h) refl
  trim_end_matches-snoc (d ∷ e ∷ s) c h = rw (trim_end_matches-snoc (e ∷ s) c h) refl

  pub trim_end_matches_idem :
      (s : Text) → trim_end_matches p (trim_end_matches p s) ≡ trim_end_matches p s
  unfolding trim_end_matches
  trim_end_matches_idem [] = refl
  trim_end_matches_idem (c ∷ s) = kept c (trim_end_matches p s) (trim_end_matches_idem s)
    where
      kept :
          (c : ℕ) (t : Text)
          → trim_end_matches p t ≡ t
          → trim_end_matches p (keep_unless p c t) ≡ keep_unless p c t
      kept c [] h = elim (Bool-cases (p c)) [ inl e ↦ rw e refl | inr e ↦ rw e (rw e refl) ]
      kept c (d ∷ t) h = rw h refl

  -- What stands in front of a trimmed text is not looked at.
  pub trim_end_matches-append :
      (s : Text) (c : ℕ) (t : Text)
      → trim_end_matches p (c ∷ t) ≡ c ∷ t
      → trim_end_matches p (s ++ (c ∷ t)) ≡ s ++ (c ∷ t)
  unfolding trim_end_matches
  trim_end_matches-append [] c t h = h
  trim_end_matches-append (d ∷ []) c t h = rw (trim_end_matches-append [] c t h) refl
  trim_end_matches-append (d ∷ e ∷ s) c t h = rw (trim_end_matches-append (e ∷ s) c t h) refl

  pub trim_start_matches-append :
      (s t : Text) (c : ℕ)
      → p c ≡ false
      → trim_start_matches p (s ++ (c ∷ t)) ≡ trim_start_matches p (s ++ (c ∷ [])) ++ t
  unfolding trim_start_matches
  trim_start_matches-append [] t c h = rw h refl
  trim_start_matches-append (d ∷ s) t c h = elim (Bool-cases (p d)) [
    | inl e ↦ rw e (trim_start_matches-append s t c h)
    | inr e ↦ rw (e, append_assoc) refl
  ]

  -- Trimming the start leaves the last character that stays in its place.
  pub trim_start_matches-snoc :
      (s : Text) (c : ℕ)
      → p c ≡ false
      → (front : Text) × (trim_start_matches p (s ++ (c ∷ [])) ≡ front ++ (c ∷ []))
  unfolding trim_start_matches
  trim_start_matches-snoc [] c h = ([], rw h refl)
  trim_start_matches-snoc (d ∷ s) c h = elim (Bool-cases (p d)) [
    | inl e ↦ rw e (trim_start_matches-snoc s c h)
    | inr e ↦ (d ∷ s, rw e refl)
  ]

  module _ (P : ℕ → Type 0) where
    pub All-trim_start_matches : (s : Text) → All P s → All P (trim_start_matches p s)
    unfolding trim_start_matches
    All-trim_start_matches [] h = tt
    All-trim_start_matches (c ∷ s) (hc, h) = elim (Bool-cases (p c)) [
      | inl e ↦ rw e (All-trim_start_matches s h)
      | inr e ↦ rw e (hc, h)
    ]

    pub All-trim_end_matches : (s : Text) → All P s → All P (trim_end_matches p s)
    unfolding trim_end_matches
    All-trim_end_matches [] h = tt
    All-trim_end_matches (c ∷ s) (hc, h) =
        kept c (trim_end_matches p s) hc (All-trim_end_matches s h)
      where
        kept : (c : ℕ) (t : Text) → P c → All P t → All P (keep_unless p c t)
        kept c [] hc h = elim (Bool-cases (p c)) [ inl e ↦ rw e tt | inr e ↦ rw e (hc, tt) ]
        kept c (d ∷ t) hc h = (hc, h)

pub strip_suffix-append :
    (suffix s base : Text) → strip_suffix suffix s ≡ some base → s ≡ base ++ suffix
unfolding strip_suffix
strip_suffix-append suffix [] base e = ground (arith, text_eq-eq [] suffix)
strip_suffix-append suffix (c ∷ s) base e = elim (Bool-cases (text_eq (c ∷ s) suffix)) [
  | inl same ↦
      let whole = rw same at e in
      let nil : base ≡ [] = cc in rw nil (text_eq-eq (c ∷ s) suffix same)
  | inr differs ↦ elim (Option-cases (strip_suffix suffix s)) [
    | inl stuck ↦ let e' = rw (differs, stuck) at e in cc
    | inr (front, found) ↦
        let e' = rw (differs, found) at e in
        let split : base ≡ c ∷ front = cc in
        rw split (ap (λ (t : Text). c ∷ t) (strip_suffix-append suffix s front found))
  ]
]

pub All-front : (P : ℕ → Type 0) (xs ys : Text) → All P (xs ++ ys) → All P xs
All-front P [] ys h = tt
All-front P (x ∷ xs) ys (hx, h) = (hx, All-front P xs ys h)
