-- ===== src/Config/Endpoint/Normal.antt =====
-- What a normalised endpoint looks like, whatever was given.
use qubic_random_client.Base.{
  ◌≡◌, ◌⊎◌, refl, true, List, [], ◌∷◌, ◌++◌, All, All-append, Text, codes, trim, trim_end_matches,
  strip_suffix, contains_text, Bool-cases, Option-cases, inl, inr,
}
use qubic_random_client.Config.Endpoint.{
  BackendKind, is_slash, endpoint_parts, strip_first, path_suffixes, with_scheme,
  normalize_endpoint,
}
use qubic_random_client.Config.Endpoint.Trim.{
  trim_end_matches_idem, trim_end_matches-append, strip_suffix-append, All-trim_end_matches,
  All-front,
}
use qubic_random_client.Config.Endpoint.Paths.{NoMark, endpoint_parts_split, endpoint_parts-append}

abbrev pub IsTrimmed : Text → Type 0
IsTrimmed s = trim_end_matches is_slash s ≡ s

strip_first-IsTrimmed :
    (s : Text) (suffixes : List Text) → IsTrimmed s → IsTrimmed (strip_first s suffixes)
unfolding strip_first
strip_first-IsTrimmed s [] h = h
strip_first-IsTrimmed s (suffix ∷ suffixes) h = elim (Option-cases (strip_suffix suffix s)) [
  | inl other ↦ rw (other, strip_first) (strip_first-IsTrimmed s suffixes h)
  | inr (front, found) ↦ rw (found, strip_first) (trim_end_matches_idem is_slash front)
]

strip_first-NoMark :
    (s : Text) (suffixes : List Text) → All NoMark s → All NoMark (strip_first s suffixes)
unfolding strip_first
strip_first-NoMark s [] h = h
strip_first-NoMark s (suffix ∷ suffixes) h = elim (Option-cases (strip_suffix suffix s)) [
  | inl other ↦ rw (other, strip_first) (strip_first-NoMark s suffixes h)
  | inr (front, found) ↦
      rw (found, strip_first)
        (All-trim_end_matches is_slash NoMark front
          (All-front NoMark front suffix (rw (strip_suffix-append suffix s front found) at h)))
]

-- A scheme is there, and at most the two slashes of an empty address end it.
abbrev pub IsNormal : Text → Type 0
IsNormal base =
    (contains_text (codes "://") base ≡ true) × ((base ≡ codes "http://") ⊎ IsTrimmed base)

with_scheme-IsNormal : (s : Text) → IsTrimmed s → IsNormal (with_scheme s)
with_scheme-IsNormal s h = elim (Bool-cases (contains_text (codes "://") s)) [
  | inl has ↦ rw has (has, inr h)
  | inr bare ↦ rw bare (unfold contains_text in refl, prefixed s h)
]
  where
    prefixed :
        (s : Text)
        → IsTrimmed s
        → ((codes "http://" ++ s) ≡ codes "http://") ⊎ IsTrimmed (codes "http://" ++ s)
    prefixed [] h = inl refl
    prefixed (c ∷ s) h = inr (trim_end_matches-append is_slash (codes "http://") c s h)

with_scheme-NoMark : (s : Text) → All NoMark s → All NoMark (with_scheme s)
with_scheme-NoMark s h = elim (Bool-cases (contains_text (codes "://") s)) [
  | inl has ↦ rw has h
  | inr bare ↦ rw bare (
      All-append NoMark (codes "http://") s
        (refl, (refl, (refl, (refl, (refl, (refl, (refl, tt))))))) h)
]

-- A normalised endpoint has a scheme, its part before the query ends in no slash but those of an
-- empty `http://`, and the query and fragment are those that were given.
pub normalize_endpoint-IsNormal :
    (backend : BackendKind) (endpoint : Text)
    → IsNormal (endpoint_parts (normalize_endpoint backend endpoint)).0
      × ((endpoint_parts (normalize_endpoint backend endpoint)).1
          ≡ (endpoint_parts (trim endpoint)).1)
unfolding normalize_endpoint
normalize_endpoint-IsNormal backend endpoint =
    let (whole, plain, marked) = endpoint_parts_split (trim endpoint) in
    let base = trim_end_matches is_slash (endpoint_parts (trim endpoint)).0 in
    let root = strip_first base (path_suffixes backend) in
    let root_plain =
      strip_first-NoMark base (path_suffixes backend)
        (All-trim_end_matches is_slash NoMark _ plain) in
    rw (endpoint_parts-append (with_scheme root) _ (with_scheme-NoMark root root_plain) marked) (
      with_scheme-IsNormal root (
          strip_first-IsTrimmed base (path_suffixes backend)
            (trim_end_matches_idem is_slash (endpoint_parts (trim endpoint)).0)),
      refl,
    )
