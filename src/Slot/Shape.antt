-- ===== src/Slot/Shape.antt =====
-- src/engine.rs: the part of a chain that delivery never changes, and when it is well formed.
use qubic_random_client.Base.{
  ℕ, suc, ◌+◌, ◌%◌, ◌≤◌, ◌<◌, ◌≡◌, ◌≢◌, ◌⊎◌, List, [], ◌∷◌, ◌++◌, Option, none, some, All, All-map,
  retain, Bool, arith, u32_max, refl,
}
use qubic_random_client.Chain.{
  Chain, PlannedCall, CallKind, first_commit, reveal_and_commit, terminal_reveal,
}

-- A call without the state of its delivery.
pub record SignedCall : Type 0 where
  pub target_tick : ℕ
  pub tx_bytes : List ℕ
  pub kind : CallKind

abbrev pub signed_call : PlannedCall → SignedCall
signed_call c = record { target_tick = c.target_tick; tx_bytes = c.tx_bytes; kind = c.kind }

abbrev pub signed_calls : List PlannedCall → List SignedCall
signed_calls [] = []
signed_calls (c ∷ cs) = signed_call c ∷ signed_calls cs

pub record Shape : Type 0 where
  pub first_target : ℕ
  pub last_target : ℕ
  pub signed : List SignedCall

abbrev pub shape_of : Chain → Shape
shape_of c = record {
  first_target = c.first_target;
  last_target = c.last_target;
  signed = signed_calls c.calls;
}

abbrev pub shape_in : Option Chain → Option Shape
shape_in none = none
shape_in (some c) = some (shape_of c)

-- Where a call of a kind stands in a chain: the first commits at the chain's first target or in the
-- old tail before it, the normal reveals elsewhere up to the last target, the terminal reveal one
-- round after it.
abbrev pub IsPlaced : CallKind → ℕ → ℕ → ℕ → Type 0
IsPlaced first_commit first last t = t ≤ first
IsPlaced reveal_and_commit first last t = (t ≢ first) × (t ≤ last)
IsPlaced terminal_reveal first last t = t ≡ last + 3

pub record IsFit (stream first last top : ℕ) (c : SignedCall) : Type 0 where
  pub on_stream : c.target_tick % 3 ≡ stream
  pub within : c.target_tick ≤ top
  pub placed : IsPlaced c.kind first last c.target_tick

-- Targets ascend strictly, from the bound on.
abbrev pub Ascends : ℕ → List SignedCall → Type 0
Ascends b [] = Unit {0}
Ascends b (c ∷ cs) = (b ≤ c.target_tick) × Ascends (suc c.target_tick) cs

-- A well-formed chain of a stream whose calls end at `top`.
pub record IsChain (stream top : ℕ) (s : Shape) : Type 0 where
  pub ordered : s.first_target ≤ s.last_target
  pub first_on_stream : s.first_target % 3 ≡ stream
  pub last_on_stream : s.last_target % 3 ≡ stream
  pub bounded : top ≤ u32_max
  pub capped : s.last_target ≤ top
  pub ascending : Ascends 0 s.signed
  pub fit : All (IsFit stream s.first_target s.last_target top) s.signed

pub Ascends-mono : (a b : ℕ) (cs : List SignedCall) → a ≤ b → Ascends b cs → Ascends a cs
Ascends-mono a b [] h s = tt
Ascends-mono a b (c ∷ cs) h s = (omega arith, s.1)

-- A call after all others goes to the end.
pub Ascends-append :
    (b stream first last top : ℕ) (cs : List SignedCall) (c : SignedCall)
    → Ascends b cs
    → All (IsFit stream first last top) cs
    → b ≤ c.target_tick
    → top < c.target_tick
    → Ascends b (cs ++ c ∷ [])
Ascends-append b stream first last top [] c s h l t = (l, tt)
Ascends-append b stream first last top (d ∷ cs) c s h l t =
    let within = h.0.within in
    (s.0, Ascends-append (suc d.target_tick) stream first last top cs c s.1 h.1 (omega arith) t)

pub signed_calls-append :
    (xs ys : List PlannedCall) → signed_calls (xs ++ ys) ≡ signed_calls xs ++ signed_calls ys
signed_calls-append [] ys = refl
signed_calls-append (x ∷ xs) ys = λ i. signed_call x ∷ signed_calls-append xs ys i

pub Ascends-retain :
    (b : ℕ) (p : PlannedCall → Bool) (cs : List PlannedCall)
    → Ascends b (signed_calls cs)
    → Ascends b (signed_calls (retain p cs))
Ascends-retain b p [] s = tt
Ascends-retain b p (c ∷ cs) s =
    let rest = Ascends-retain (suc c.target_tick) p cs s.1 in
    ground (arith, rest, Ascends-mono b (suc c.target_tick) (signed_calls (retain p cs)))

pub All-signed_calls-retain :
    (P : SignedCall → Type 0) (p : PlannedCall → Bool) (cs : List PlannedCall)
    → All P (signed_calls cs)
    → All P (signed_calls (retain p cs))
All-signed_calls-retain P p [] h = tt
All-signed_calls-retain P p (c ∷ cs) h = ground (arith, All-signed_calls-retain P p cs h.1)

-- Where the first target of a chain goes when it grows or is replaced.
abbrev pub Moves : ℕ → ℕ → ℕ → Type 0
Moves first last first' = (first' ≡ first) ⊎ (last < first')

IsPlaced-grow :
    (k : CallKind) (first last first' last' t : ℕ)
    → first ≤ last
    → last < last'
    → Moves first last first'
    → t ≤ last
    → IsPlaced k first last t
    → IsPlaced k first' last' t
IsPlaced-grow first_commit first last first' last' t o l m w h = omega arith
IsPlaced-grow reveal_and_commit first last first' last' t o l m w h = omega arith
IsPlaced-grow terminal_reveal first last first' last' t o l m w h = absurd (omega arith)

IsFit-grow :
    (stream first last first' last' : ℕ)
    → first ≤ last
    → last < last'
    → Moves first last first'
    → (c : SignedCall) → IsFit stream first last last c
    → IsFit stream first' last' last' c
IsFit-grow stream first last first' last' o l m c h = record {
  on_stream = h.on_stream;
  within = let w = h.within in omega arith;
  placed = IsPlaced-grow c.kind first last first' last' c.target_tick o l m h.within h.placed;
}

-- The calls of a chain without a terminal reveal fit the chain that follows, which grows by a
-- target or starts afresh beyond the last one.
pub All-IsFit-grow :
    (stream first last first' last' : ℕ) (cs : List SignedCall)
    → first ≤ last
    → last < last'
    → Moves first last first'
    → All (IsFit stream first last last) cs
    → All (IsFit stream first' last' last') cs
All-IsFit-grow stream first last first' last' cs o l m =
    All-map _ _ (IsFit-grow stream first last first' last' o l m) cs

-- They stay fit below the tick of a terminal reveal.
pub All-IsFit-raise :
    (stream first last top : ℕ) (cs : List SignedCall)
    → last ≤ top
    → All (IsFit stream first last last) cs
    → All (IsFit stream first last top) cs
All-IsFit-raise stream first last top cs l =
    All-map _ _
      (λ c h. record {
        on_stream = h.on_stream;
        within = omega (arith, h.within);
        placed = h.placed;
      })
      cs
