-- ===== src/Slot/Plan/Continues.antt =====
-- src/engine.rs, `extend_chain`: the continuation of a chain up to the horizon.
use qubic_random_client.Base.{
  ℕ, zero, suc, ◌+◌, ◌*◌, ◌≤◌, ◌<◌, ◌≡◌, ◌≢◌, refl, true, List, none, some, arith, inl, inr,
  Option-cases, u32_max, checked_add, ◌∙◌, sym, ap,
}
use mathlib.Core.Path.{subst}
use qubic_random_client.Contract.{SlotKey, RevealAndCommitInput}
use qubic_random_client.Entropy.{External, commit_digest, random_preimage}
use qubic_random_client.Chain.{Chain}
use qubic_random_client.Slot.{Focus, Attempt, Error, ◌>>=◌, set_chain}
use qubic_random_client.Slot.Plan.Continued.{IsContinued, continued-IsContinued}
use qubic_random_client.Slot.Plan.{
  extend_chain, plan_loop, plan_in, plan_next, plan_fuel, next_target, is_planning, continued,
  build_transaction, Signed, signed, refused, install_continuation,
}

pub failed-eq-done :
    {f g : Focus} {error : Error} → ◌≡◌ {A = Attempt Focus} (f, some error) (g, none) → ⊥
failed-eq-done e = ground arith

-- A chain and the number of preimages drawn so far, before and after some continuations, each with
-- the next preimage drawn.
pub data Continues (x : External) (collateral : ℕ) (key : SlotKey) (c : Chain) (n : ℕ)
    : Chain → ℕ → Type 0 where
  done : Continues x collateral key c n c n
  more :
      {c' : Chain} {n' : ℕ} (d : Chain)
      → Continues x collateral key c n c' n'
      → IsContinued x collateral key (x.fill_bytes n') c' d
      → Continues x collateral key c n d (n' + 1)

-- What one round of the loop does to a slot with a chain: it appends the continuation, or fails and
-- leaves the slot as it is.
data Planned (x : External) (f : Focus) (c : Chain) (target : ℕ) (r : Attempt Focus) : Type 0 where
  appended :
      (bytes : List ℕ)
      → r ≡ (
        set_chain
            (some (continued target (random_preimage x f.drawn) bytes c))
            (record f { drawn = f.drawn + 1 }),
        none,
      )
      → build_transaction x f.collateral
          (record {
            reveal = c.outstanding_preimage;
            commit = commit_digest x (random_preimage x f.drawn);
          })
          target
          f.slot.key
        ≡ signed bytes
      → Planned x f c target r
  failed : r.0.slot ≡ f.slot → r.0.collateral ≡ f.collateral → r.1 ≢ none → Planned x f c target r

plan_next-Planned :
    (x : External) (f : Focus) (c : Chain) (target : ℕ)
    → Planned x f c target (plan_next x target c f)
unfolding plan_next
plan_next-Planned x f c target = go (build_transaction x f.collateral input target f.slot.key) refl
  where
    preimage : List ℕ
    preimage = random_preimage x f.drawn

    input : RevealAndCommitInput
    input = record { reveal = c.outstanding_preimage; commit = commit_digest x preimage }

    drawn : Focus
    drawn = record f { drawn = f.drawn + 1 }

    go :
        (built : Signed)
        → build_transaction x f.collateral input target f.slot.key ≡ built
        → Planned x f c target (install_continuation target preimage c built drawn)
    go (signed bytes) e = appended bytes refl e
    go (refused error) e = failed refl refl (λ h. cc)

module _ (x : External) (collateral : ℕ) (key : SlotKey) (c : Chain) (n : ℕ) where
  -- What a slot holds after some rounds of the loop, from a chain on.
  record Reaches (f : Focus) : Type 0 where
    same_collateral : f.collateral ≡ collateral
    same_key : f.slot.key ≡ key
    chain : Chain
    drawn : ℕ
    holds : f.slot.chain ≡ some chain
    continues : Continues x collateral key c n chain drawn

  -- While the loop runs, the slot's own draws are those of its continuations.
  record Runs (f : Focus) (c' : Chain) : Type 0 where
    same_collateral : f.collateral ≡ collateral
    same_key : f.slot.key ≡ key
    holds : f.slot.chain ≡ some c'
    continues : Continues x collateral key c n c' f.drawn

  abbrev Runs-Reaches : (f : Focus) (c' : Chain) → Runs f c' → Reaches f
  Runs-Reaches f c' r = record {
    same_collateral = r.same_collateral;
    same_key = r.same_key;
    chain = c';
    drawn = f.drawn;
    holds = r.holds;
    continues = r.continues;
  }

  -- Without an error the draws are those of the continuations, and nothing within the horizon is
  -- left to plan, if the fuel covers it.
  abbrev Covers : ℕ → ℕ → ℕ → ℕ → Attempt Focus → Type 0
  Covers horizon last fuel drawn r =
      r.1 ≡ none
      → (r.0.drawn ≡ drawn)
        × (horizon < last + 3 + 3 * fuel → next_target horizon r.0.slot.chain ≡ none)

  -- The result of the loop.
  record Looped (horizon last fuel : ℕ) (r : Attempt Focus) : Type 0 where
    reaches : Reaches r.0
    covers : Covers horizon last fuel reaches.drawn r

  abbrev NextLoops : ℕ → ℕ → (Focus → Attempt Focus) → Type 0
  NextLoops horizon fuel next =
      (f : Focus) (c' : Chain) → Runs f c' → Looped horizon c'.last_target fuel (next f)

  Planned-Looped :
      (horizon target fuel : ℕ) (f : Focus) (c' : Chain) (m : Attempt Focus)
      (next : Focus → Attempt Focus)
      → Runs f c'
      → target ≡ c'.last_target + 3
      → NextLoops horizon fuel next
      → Planned x f c' target m
      → Looped horizon c'.last_target (suc fuel) (m >>= next)
  Planned-Looped horizon target fuel f c' m next r t loops (appended bytes e built) =
      let f' =
        set_chain (some (continued target (random_preimage x f.drawn) bytes c'))
          (record f { drawn = f.drawn + 1 }) in
      let runs : Runs f' (continued target (random_preimage x f.drawn) bytes c') = record {
        same_collateral = r.same_collateral;
        same_key = r.same_key;
        holds = refl;
        continues = more (continued target (random_preimage x f.drawn) bytes c') r.continues (
            continued-IsContinued x collateral f.drawn target key c' bytes t
              (rw (← r.same_collateral, ← r.same_key) built));
      } in
      let rest = loops f' (continued target (random_preimage x f.drawn) bytes c') runs in
      subst (λ m'. Looped horizon c'.last_target (suc fuel) (m' >>= next)) (sym e)
        (record {
          reaches = rest.reaches;
          covers = λ n. ((rest.covers n).0, λ h. (rest.covers n).1 (omega arith));
        })
  Planned-Looped horizon target fuel f c' (s, none) next r t loops (failed same kept err) =
      absurd (err refl)
  Planned-Looped horizon target fuel f c' (s, some x') next r t loops (failed same kept err) =
      record {
        reaches = record {
          same_collateral = kept ∙ r.same_collateral;
          same_key = ap (λ m. m.key) same ∙ r.same_key;
          chain = c';
          drawn = f.drawn;
          holds = ap (λ m. m.chain) same ∙ r.holds;
          continues = r.continues;
        };
        covers = λ n. absurd (ground arith);
      }

  next_target-none :
      (horizon last : ℕ) (c' : Chain)
      → c'.last_target ≡ last
      → horizon < last + 3
      → next_target horizon (some c') ≡ none
  next_target-none horizon last c' e h = ground arith

  next_target-last :
      (horizon target : ℕ) (c' : Chain)
      → next_target horizon (some c') ≡ some target
      → target ≡ c'.last_target + 3
  next_target-last horizon target c' e = ground arith

  plan_loop-Looped :
      (fuel horizon : ℕ) (f : Focus) (c' : Chain)
      → Runs f c'
      → Looped horizon c'.last_target fuel (plan_loop x fuel horizon f)
  unfolding plan_loop plan_in
  plan_loop-Looped zero horizon f c' r = record {
    reaches = Runs-Reaches f c' r;
    covers = λ n.
        (refl, λ h. rw r.holds (next_target-none horizon c'.last_target c' refl (omega arith)));
  }
  plan_loop-Looped (suc fuel) horizon f c' r =
      let loops = plan_loop-Looped fuel horizon in
      let at_chain = ap (next_target horizon) r.holds in
      elim (Option-cases (next_target horizon (some c'))) [
        | inl e ↦
            let stop = at_chain ∙ e in
            rw (stop, plan_loop)
              (record { reaches = Runs-Reaches f c' r; covers = λ n. (refl, λ h. stop) })
        | inr (target, e) ↦
            let go_on = at_chain ∙ e in
            rw (go_on, plan_loop)
              (Planned-Looped horizon target fuel f c' (plan_in x target f.slot.chain f)
                (plan_loop x fuel horizon) r (next_target-last horizon target c' e) loops
                (subst (λ chain. Planned x f c' target (plan_in x target chain f)) (sym r.holds)
                  (plan_next-Planned x f c' target)))
      ]

-- What planning without an error leaves of a slot that holds a chain: the chain, continued by calls
-- that each reveal the preimage committed before and draw a new one, with no target within six
-- ticks left to plan.
pub record IsExtended (x : External) (tick : ℕ) (f g : Focus) (c : Chain) : Type 0 where
  pub chain : Chain
  pub holds : g.slot.chain ≡ some chain
  pub continues : Continues x f.collateral f.slot.key c f.drawn chain g.drawn
  pub covered : tick + 6 < chain.last_target + 3

reaches-past :
    (horizon : ℕ) (c : Chain)
    → horizon ≤ u32_max
    → next_target horizon (some c) ≡ none
    → horizon < c.last_target + 3
reaches-past horizon c b e = ground arith

Looped-IsExtended :
    (x : External) (tick : ℕ) (f g : Focus) (c : Chain) (r : Attempt Focus)
    → tick + 6 ≤ u32_max
    → tick < c.last_target + 3
    → Looped x f.collateral f.slot.key c f.drawn (tick + 6) c.last_target plan_fuel r
    → r ≡ (g, none)
    → IsExtended x tick f g c
Looped-IsExtended x tick f g c r b l looped e =
    let reached = looped.reaches in
    let covers = looped.covers (ap (λ p. p.1) e) in
    let left = ap (λ p. p.0) e in
    record {
      chain = reached.chain;
      holds = ap (λ h. h.slot.chain) (sym left) ∙ reached.holds;
      continues = rw (← ap (λ h. h.drawn) left, covers.0) reached.continues;
      covered =
          reaches-past (tick + 6) reached.chain b (rw (← reached.holds) (covers.1 (omega arith)));
    }

-- A slot that plans calls for a chain whose next continuation is still ahead, and that
-- extend_chain handles without an error: the chain is continued, call by call, a round after the
-- last, each of which the wallet signed with the preimage that the chain held until then and the
-- hash of the next one drawn, which the chain holds from then on, and is appended ready to be
-- sent; the first target, the confirmations and the suspicion stay. In the end the next target
-- lies more than six ticks ahead; the loop needs no more than three rounds.
pub extend_chain-IsExtended :
    (x : External) (tick : ℕ) (f g : Focus) (c : Chain)
    → is_planning f.slot.state ≡ true
    → f.slot.chain ≡ some c
    → tick < c.last_target + 3
    → extend_chain x tick f ≡ (g, none)
    → IsExtended x tick f g c
unfolding extend_chain
extend_chain-IsExtended x tick f g c p h l e =
    let ahead : next_target tick f.slot.chain ≡ none = rw h (ground arith) in
    elim (Option-cases (checked_add tick 6)) [
      | inl o ↦ absurd (failed-eq-done (rw (p, ahead, o) at e))
      | inr (horizon, o) ↦
          let same : horizon ≡ tick + 6 = ground arith in
          let looped =
            plan_loop-Looped x f.collateral f.slot.key c f.drawn plan_fuel (tick + 6) f c
              (record { same_collateral = refl; same_key = refl; holds = h; continues = done }) in
          Looped-IsExtended x tick f g c (plan_loop x plan_fuel (tick + 6) f) (ground arith) l
            looped (rw (← same) (rw (p, ahead, o) at e))
    ]
