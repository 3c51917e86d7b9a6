-- ===== src/Config/Endpoint/Paths.antt =====
-- How an endpoint is split at its query, and what appending a path keeps.
use qubic_random_client.Base.{
  ℕ, ◌≡◌, refl, ap, true, false, [], ◌∷◌, ◌++◌, All, All-append, Text, trim_start_matches,
  trim_end_matches, Bool-cases, inl, inr,
}
use mathlib.Core.List.{append_assoc}
use qubic_random_client.Config.Endpoint.{
  is_slash, is_query_mark, endpoint_parts, append_endpoint_path,
}
use qubic_random_client.Config.Endpoint.Trim.{
  trim_end_matches-snoc, trim_start_matches-append, trim_start_matches-snoc, All-trim_start_matches,
  All-trim_end_matches,
}

abbrev pub NoMark : ℕ → Type 0
NoMark c = is_query_mark c ≡ false

-- Nothing, or a query or fragment with its mark.
abbrev pub IsSuffix : Text → Type 0
IsSuffix [] = Unit
IsSuffix (c ∷ s) = is_query_mark c ≡ true

pub endpoint_parts_split :
    (s : Text)
    → (s ≡ (endpoint_parts s).0 ++ (endpoint_parts s).1)
      × All NoMark (endpoint_parts s).0
      × IsSuffix (endpoint_parts s).1
unfolding endpoint_parts
endpoint_parts_split [] = (refl, tt, tt)
endpoint_parts_split (c ∷ s) = elim (Bool-cases (is_query_mark c)) [
  | inl mark ↦ rw mark (refl, tt, mark)
  | inr plain ↦
      let (whole, base, suffix) = endpoint_parts_split s in
      rw plain (ap (λ (t : Text). c ∷ t) whole, (plain, base), suffix)
]

pub endpoint_parts-append :
    (base suffix : Text)
    → All NoMark base
    → IsSuffix suffix
    → endpoint_parts (base ++ suffix) ≡ (base, suffix)
unfolding endpoint_parts
endpoint_parts-append [] [] h k = refl
endpoint_parts-append [] (c ∷ s) h k = rw k refl
endpoint_parts-append (c ∷ base) suffix (hc, h) k =
    rw (hc, endpoint_parts-append base suffix h k) refl

module _ (endpoint path : Text) (plain : All NoMark path) where
  abbrev base : Text
  base = trim_end_matches is_slash (endpoint_parts endpoint).0

  joined_plain : All NoMark (base ++ (b'/' ∷ trim_start_matches is_slash path))
  joined_plain =
      All-append NoMark base _
        (All-trim_end_matches is_slash NoMark _ (endpoint_parts_split endpoint).1)
        (refl, All-trim_start_matches is_slash NoMark path plain)

  -- The path comes after one slash, and the query stays behind it.
  pub endpoint_parts-append_endpoint_path :
      endpoint_parts (append_endpoint_path endpoint path)
      ≡ (base ++ (b'/' ∷ trim_start_matches is_slash path), (endpoint_parts endpoint).1)
  unfolding append_endpoint_path
  endpoint_parts-append_endpoint_path =
      rw (← append_assoc base (b'/' ∷ trim_start_matches is_slash path) (endpoint_parts endpoint).1)
        (endpoint_parts-append _ _ joined_plain (endpoint_parts_split endpoint).2)

append_endpoint_path_lem :
    (endpoint path : Text)
    → append_endpoint_path endpoint path
      ≡ trim_end_matches is_slash (endpoint_parts endpoint).0
        ++ (b'/' ∷ (trim_start_matches is_slash path ++ (endpoint_parts endpoint).1))
unfolding append_endpoint_path
append_endpoint_path_lem endpoint path = refl

-- Appending one path and then another, where the first has no query and does not end in a slash, is
-- appending the two at once, joined by one slash.
append_endpoint_path-append_endpoint_path :
    (endpoint front : Text) (c : ℕ) (path : Text)
    → All NoMark (front ++ (c ∷ []))
    → is_slash c ≡ false
    → append_endpoint_path (append_endpoint_path endpoint (front ++ (c ∷ []))) path
      ≡ append_endpoint_path endpoint (front ++ (c ∷ b'/' ∷ trim_start_matches is_slash path))
append_endpoint_path-append_endpoint_path endpoint front c path plain last =
    let (kept, e) = trim_start_matches-snoc is_slash front c last in
    let b = base endpoint (front ++ (c ∷ [])) plain in
    let parts = rw e at (endpoint_parts-append_endpoint_path endpoint (front ++ (c ∷ [])) plain) in
    let trimmed = rw append_assoc at (trim_end_matches-snoc is_slash (b ++ (b'/' ∷ kept)) c last) in
    rw
      (
        append_endpoint_path_lem (append_endpoint_path endpoint (front ++ (c ∷ []))) path,
        append_endpoint_path_lem endpoint (front ++ (c ∷ b'/' ∷ trim_start_matches is_slash path)),
        parts,
        trimmed,
        trim_start_matches-append is_slash front _ c last,
        e,
      )
      (simp append_assoc)
