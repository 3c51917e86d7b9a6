-- ===== src/Http/Bounded.antt =====
-- A body is never longer than the limit, and is read whole within it.
use qubic_random_client.Base.{
  ℕ, ◌-◌, ◌≤◌, ◌≡◌, ◌↔◌, refl, ap, ◌∙◌, true, false, List, [], ◌∷◌, ◌++◌, map, Option, none, some,
  ltb, is_some_and, length, length-append, arith, Bool-cases, inl, inr,
}
use Prim.Native.Nat.{zero-le}
use mathlib.Core.List.{append-nil, append_assoc}
use qubic_random_client.Base.Result.{ok, >>=-ok, guard-ok, ok_or-ok}
use qubic_random_client.Http.{Response, read_chunks, read_json}

abbrev pub concat : List (List ℕ) → List ℕ
concat [] = []
concat (part ∷ parts) = part ++ concat parts

read_chunks-parts :
    (limit : ℕ) (body : List ℕ) (chunks : List (Option (List ℕ))) (whole : List ℕ)
    → length body ≤ limit
    → read_chunks limit body chunks ≡ ok whole
    → (parts : List (List ℕ)) × (chunks ≡ map some parts)
      × (whole ≡ body ++ concat parts)
      × (length whole ≤ limit)
unfolding read_chunks
read_chunks-parts limit body [] whole h e =
    let same : whole ≡ body = cc in ([], refl, rw append-nil same, rw same h)
read_chunks-parts limit body (none ∷ chunks) whole h e = cc
read_chunks-parts limit body (some chunk ∷ chunks) whole h e =
    elim (Bool-cases (ltb (limit - length body) (length chunk))) [
      | inl long ↦ let e' = rw long at e in cc
      | inr fits ↦
          let e' = rw fits at e in
          let room : length (body ++ chunk) ≤ limit = rw length-append (ground arith) in
          let (parts, split, joined, short) =
            read_chunks-parts limit (body ++ chunk) chunks whole room e' in
          (
            chunk ∷ parts,
            ap (λ (t : List (Option (List ℕ))). some chunk ∷ t) split,
            joined ∙ append_assoc body chunk (concat parts),
            short,
          )
    ]

parts-read_chunks :
    (limit : ℕ) (body : List ℕ) (parts : List (List ℕ))
    → length (body ++ concat parts) ≤ limit
    → read_chunks limit body (map some parts) ≡ ok (body ++ concat parts)
unfolding read_chunks
parts-read_chunks limit body [] h = rw append-nil refl
parts-read_chunks limit body (part ∷ parts) h =
    let h' : length ((body ++ part) ++ concat parts) ≤ limit = rw append_assoc h in
    let total = length-append (body ++ part) (concat parts) in
    let front = length-append body part in
    let fits : ltb (limit - length body) (length part) ≡ false = ground arith in
    rw (fits) (parts-read_chunks limit (body ++ part) parts h' ∙ rw append_assoc refl)

-- What makes a response readable as a value.
pub record Carries {A : Type 0} (from_slice : List ℕ → Option A) (r : Response) (limit : ℕ)
    (value : A) : Type 0 where
  pub success : r.is_success ≡ true
  pub declared : is_some_and r.content_length (λ len. ltb limit len) ≡ false
  pub parts : List (List ℕ)
  pub arrived : r.chunks ≡ map some parts
  pub bounded : length (concat parts) ≤ limit
  pub decoded : from_slice (concat parts) ≡ some value

-- A response is read as a value exactly when its status is a success, the length that it declares,
-- if any, is within the limit, every chunk arrives, the chunks together are within the limit, and
-- they are the value in JSON.
pub read_json_iff :
    {A : Type 0} (from_slice : List ℕ → Option A) (response : Response) (limit : ℕ) (value : A)
    → (read_json from_slice response limit ≡ ok value) ↔ Carries from_slice response limit value
unfolding read_json
read_json_iff from_slice response limit value = (
  λ e.
      let (good, e') = guard-ok _ _ _ e in
      let (small, e'') = guard-ok _ _ _ e' in
      let (body, eb, ev) = >>=-ok (read_chunks limit [] response.chunks) _ e'' in
      let (parts, split, joined, short) =
        read_chunks-parts limit [] response.chunks body zero-le eb in
      record {
        success = good;
        declared = ground arith;
        parts = parts;
        arrived = split;
        bounded = rw joined at short;
        decoded = rw joined at (ok_or-ok _ (from_slice body) ev);
      },
  λ c.
      rw (c.success, c.declared, c.arrived, parts-read_chunks limit [] c.parts c.bounded, c.decoded)
        refl,
)
