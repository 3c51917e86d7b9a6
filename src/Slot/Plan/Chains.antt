-- ===== src/Slot/Plan/Chains.antt =====
-- src/engine.rs: the calls that planning appends keep a chain well formed.
use qubic_random_client.Base.{
  ℕ, ◌+◌, ◌%◌, ◌≤◌, ◌<◌, ◌≡◌, refl, List, [], ◌∷◌, ◌++◌, arith, Option, some, none, inl, inr,
  u32_max, All, All-append,
}
use qubic_random_client.Chain.{Chain, first_commit, reveal_and_commit, terminal_reveal}
use qubic_random_client.Slot.Shape.{
  SignedCall, shape_of, signed_call, signed_calls, signed_calls-append, IsChain, IsFit, Ascends,
  Ascends-append, All-IsFit-grow, All-IsFit-raise, Moves,
}
use qubic_random_client.Slot.Plan.{continued, fresh_chain, planned, with_terminal}

-- A call at the end of a chain that has no terminal reveal.
pub IsChain-append :
    (stream first last first' target : ℕ) (cs : List SignedCall) (c : SignedCall)
    → first ≤ last
    → last < target
    → target ≤ u32_max
    → target % 3 ≡ stream
    → Moves first last first'
    → first' ≤ target
    → first' % 3 ≡ stream
    → c.target_tick ≡ target
    → IsFit stream first' target target c
    → Ascends 0 cs
    → All (IsFit stream first last last) cs
    → IsChain stream target
        (record { first_target = first'; last_target = target; signed = cs ++ c ∷ [] })
IsChain-append stream first last first' target cs c o l b t m o' f e h a fit = record {
  ordered = o';
  first_on_stream = f;
  last_on_stream = t;
  bounded = b;
  capped = omega arith;
  ascending = Ascends-append 0 stream first last last cs c a fit (omega arith) (omega arith);
  fit =
      All-append _ cs (c ∷ []) (All-IsFit-grow stream first last first' target cs o l m fit)
        (h, tt);
}

-- The continuation of a chain.
pub IsChain-continued :
    (stream target : ℕ) (preimage bytes : List ℕ) (c : Chain)
    → target ≡ c.last_target + 3
    → target ≤ u32_max
    → IsChain stream c.last_target (shape_of c)
    → IsChain stream target (shape_of (continued target preimage bytes c))
IsChain-continued stream target preimage bytes c e b v =
    rw (signed_calls-append c.calls (planned target bytes reveal_and_commit ∷ [])) (
      let o = v.ordered in
      let l = v.last_on_stream in
      IsChain-append stream c.first_target c.last_target c.first_target target
        (signed_calls c.calls) (signed_call (planned target bytes reveal_and_commit)) v.ordered
        (omega arith) b (omega arith) (inl refl) (omega arith) v.first_on_stream refl
        (record {
          on_stream = omega arith;
          within = omega arith;
          placed = (omega arith, omega arith);
        })
        v.ascending v.fit)

-- The terminal reveal after a chain.
pub IsChain-with_terminal :
    (stream target : ℕ) (bytes : List ℕ) (c : Chain)
    → target ≡ c.last_target + 3
    → target ≤ u32_max
    → IsChain stream c.last_target (shape_of c)
    → IsChain stream (c.last_target + 3) (shape_of (with_terminal target bytes c))
IsChain-with_terminal stream target bytes c e b v =
    let call = signed_call (planned target bytes terminal_reveal) in
    rw (signed_calls-append c.calls (planned target bytes terminal_reveal ∷ [])) (record {
      ordered = v.ordered;
      first_on_stream = v.first_on_stream;
      last_on_stream = v.last_on_stream;
      bounded = omega arith;
      capped = omega arith;
      ascending =
          Ascends-append 0 stream c.first_target c.last_target c.last_target (signed_calls c.calls)
            call v.ascending v.fit (omega arith) (omega arith);
      fit =
          All-append _ (signed_calls c.calls) (call ∷ [])
            (All-IsFit-raise stream c.first_target c.last_target (c.last_target + 3)
              (signed_calls c.calls) (omega arith) v.fit)
            (
              record {
                on_stream = let l = v.last_on_stream in omega arith;
                within = omega arith;
                placed = e;
              },
              tt,
            );
    })

-- A fresh chain, on its own or behind the calls of an older one that it leaves behind.
pub IsChain-fresh :
    (stream target : ℕ) (preimage bytes : List ℕ) (c : Chain)
    → c.last_target < target
    → target % 3 ≡ stream
    → target ≤ u32_max
    → IsChain stream c.last_target (shape_of c)
    → IsChain stream target (shape_of (fresh_chain target preimage bytes (some c)))
IsChain-fresh stream target preimage bytes c l t b v =
    rw (signed_calls-append c.calls (planned target bytes first_commit ∷ [])) (
      IsChain-append stream c.first_target c.last_target target target (signed_calls c.calls)
        (signed_call (planned target bytes first_commit)) v.ordered l b t (inr l) (omega arith) t
        refl (record { on_stream = t; within = omega arith; placed = omega arith }) v.ascending
        v.fit)

-- What the calls of an older chain leave for a fresh target.
abbrev pub IsBehind : ℕ → ℕ → Option Chain → Type 0
IsBehind stream target none = Unit
IsBehind stream target (some c) =
    IsChain stream c.last_target (shape_of c) × (c.last_target < target)

pub IsChain-fresh_behind :
    (stream target : ℕ) (preimage bytes : List ℕ) (old : Option Chain)
    → IsBehind stream target old
    → target % 3 ≡ stream
    → target ≤ u32_max
    → IsChain stream target (shape_of (fresh_chain target preimage bytes old))
IsChain-fresh_behind stream target preimage bytes none h t b = record {
  ordered = omega arith;
  first_on_stream = t;
  last_on_stream = t;
  bounded = b;
  capped = omega arith;
  ascending = (omega arith, tt);
  fit = (record { on_stream = t; within = omega arith; placed = omega arith }, tt);
}
IsChain-fresh_behind stream target preimage bytes (some c) h t b =
    IsChain-fresh stream target preimage bytes c h.1 t b h.0
