-- ===== src/Backend/BobNode/Polling.antt =====
-- The polling of a Bob node ends, and with which answer.
use qubic_random_client.Base.{
  ℕ, zero, suc, ◌+◌, ◌*◌, ◌%◌, ◌^◌, ◌≤◌, ◌<◌, ◌≡◌, ◌⊎◌, refl, false, List, some, leb, leb→le, arith,
  codes, Bool-cases, inl, inr,
}
use qubic_random_client.Base.Result.{Result, err}
use qubic_random_client.Json.{Value}
use qubic_random_client.Http.{HttpError, BobClient, call}
use qubic_random_client.Backend.Clients.{
  BackendError, ContractFunctionRequest, contract_query_timed_out,
}
use qubic_random_client.Backend.BobNode.{
  BobBackend, Decoder, Rounds, Polled, done, pending, poll_answer, poll_loop, query_params,
  network_timeout, bob_poll_interval, bob_query_contract_function,
}

Polled-cases : (p : Polled) → ((r : Result BackendError (List ℕ)) × (p ≡ done r)) ⊎ (p ≡ pending)
Polled-cases (done r) = inl (r, refl)
Polled-cases pending = inr refl

module _ (env : Rounds) (from_slice : Decoder) (params : Value) where
  -- A round of the loop: what its answer says, and the client after it.
  abbrev pub asked : ℕ → BobClient → Result HttpError Value × BobClient
  asked round client =
      call (env.network round) from_slice client (codes "qubic_querySmartContract") params

  -- The same, so many rounds later.
  pub polled : ℕ → BobClient → ℕ → Polled
  polled round client zero = poll_answer (asked round client).0
  polled round client (suc n) = polled (suc round) (asked round client).1 n

  pub client_after : ℕ → BobClient → ℕ → BobClient
  client_after round client zero = (asked round client).1
  client_after round client (suc n) = client_after (suc round) (asked round client).1 n

  -- How the rounds up to the last one went: all but this one had no output before the deadline, and
  -- this one has the result, or is late.
  pub record Ended (deadline round : ℕ) (client : BobClient) (fuel : ℕ)
      (result : Result BackendError (List ℕ)) (final : BobClient) : Type 0 where
    pub last : ℕ
    pub within : last < fuel
    pub before :
        (m : ℕ) → m < last → (polled round client m ≡ pending) × (env.clock (round + m) < deadline)
    pub verdict :
        (polled round client last ≡ done result)
        ⊎ ((polled round client last ≡ pending)
            × (deadline ≤ env.clock (round + last))
            × (result ≡ err contract_query_timed_out))
    pub client_kept : final ≡ client_after round client last

  -- One more round in front of what is known of the later ones.
  later_verdict :
      {deadline round : ℕ} {client : BobClient} {fuel : ℕ} {result : Result BackendError (List ℕ)}
      {final : BobClient}
      → polled round client 0 ≡ pending
      → env.clock round < deadline
      → Ended deadline (suc round) (asked round client).1 fuel result final
      → Ended deadline round client (suc fuel) result final
  unfolding polled client_after
  later_verdict {deadline} {round} {client} {fuel} {result} now early e = record {
    last = suc e.last;
    within = omega (arith, e.within);
    before = earlier;
    verdict = rw (shift round e.last) e.verdict;
    client_kept = e.client_kept;
  }
    where
      shift : (round m : ℕ) → round + suc m ≡ suc round + m
      shift round m = omega arith

      earlier :
          (m : ℕ)
          → m < suc e.last
          → (polled round client m ≡ pending) × (env.clock (round + m) < deadline)
      earlier zero h = let same : round + 0 ≡ round = omega arith in (now, rw same early)
      earlier (suc m) h = rw (shift round m) (e.before m (omega arith))

  -- The verdict of the round itself.
  round_verdict :
      (deadline round : ℕ) (client : BobClient) (fuel : ℕ) (result : Result BackendError (List ℕ))
      → ((polled round client 0 ≡ done result)
          ⊎ ((polled round client 0 ≡ pending)
              × (deadline ≤ env.clock round)
              × (result ≡ err contract_query_timed_out)))
      → Ended deadline round client (suc fuel) result (asked round client).1
  unfolding polled client_after
  round_verdict deadline round client fuel result verdict =
      let same : round + 0 ≡ round = omega arith in
      record {
        last = 0;
        within = omega arith;
        before = λ m h. elim h [ ];
        verdict = rw same verdict;
        client_kept = refl;
      }

  -- That the loop ends, from a round on, and how it went.
  abbrev Ends : ℕ → ℕ → ℕ → BobClient → Type 0
  Ends deadline fuel round client =
      (result : Result BackendError (List ℕ)) × (final : BobClient) × (poll_loop fuel env from_slice
          deadline params round client
        ≡ some (result, final))
      × Ended deadline round client fuel result final

  round_cases :
      (deadline fuel round : ℕ) (client : BobClient)
      → Ends deadline (suc fuel) round client
        ⊎ ((poll_answer (asked round client).0 ≡ pending) × (env.clock round < deadline))
  unfolding poll_loop polled
  round_cases deadline fuel round client =
      elim (Polled-cases (poll_answer (asked round client).0)) [
        | inl (result, e) ↦ inl (
          result,
          (asked round client).1,
          rw (e, poll_loop) refl,
          round_verdict deadline round client fuel result (inl e),
        )
        | inr e ↦ elim (Bool-cases (leb deadline (env.clock round))) [
          | inl over ↦ inl (
            err contract_query_timed_out,
            (asked round client).1,
            rw (e, poll_loop) (rw over refl),
            round_verdict deadline round client fuel _ (inr (e, leb→le _ _ over, refl)),
          )
          | inr early ↦ inr (e, ground arith)
        ]
      ]

  poll_loop_later :
      (deadline fuel round : ℕ) (client : BobClient)
      → poll_answer (asked round client).0 ≡ pending
      → env.clock round < deadline
      → Ends deadline fuel (suc round) (asked round client).1
      → Ends deadline (suc fuel) round client
  unfolding poll_loop polled
  poll_loop_later deadline fuel round client e early (result, final, ran, ended) =
      let soon : leb deadline (env.clock round) ≡ false = ground arith in
      (result, final, rw (e, poll_loop) (rw soon ran), later_verdict e early ended)

  -- Each round takes a poll interval or more, so there is fuel for all rounds before the deadline.
  poll_loop-Ended :
      (deadline fuel round : ℕ) (client : BobClient)
      → ((n : ℕ) → env.clock n + bob_poll_interval ≤ env.clock (suc n))
      → deadline ≤ env.clock round + bob_poll_interval * fuel
      → Ends deadline (suc fuel) round client
  poll_loop-Ended deadline zero round client paced late =
      elim (round_cases deadline zero round client) [
        | inl ends ↦ ends
        | inr (e, early) ↦ absurd (omega arith)
      ]
  poll_loop-Ended deadline (suc fuel) round client paced late =
      elim (round_cases deadline (suc fuel) round client) [
        | inl ends ↦ ends
        | inr (e, early) ↦ poll_loop_later deadline (suc fuel) round client e early (
            poll_loop-Ended deadline fuel (suc round) (asked round client).1 paced
              (omega (arith, paced round)))
      ]

-- A contract query ends after 81 rounds at most, when the node answers no sooner than its start and
-- each round takes 100 ms or more: it returns the result of the first answer that has one, where no
-- answer before it had one and each of them came within eight seconds, or, if there is no such
-- answer, it times out at the first that came later.
pub bob_query_contract_function-Ended :
    (env : Rounds) (from_slice : Decoder) (start : ℕ) (backend : BobBackend)
    (request : ContractFunctionRequest)
    → start ≤ env.clock 0
    → ((n : ℕ) → env.clock n + bob_poll_interval ≤ env.clock (suc n))
    → (result : Result BackendError (List ℕ)) × (final : BobBackend) × (bob_query_contract_function
          81 env from_slice start backend request
        ≡ some (result, final))
      × Ended env from_slice
          (query_params backend.next_nonce request)
          (start + network_timeout)
          0
          backend.rpc
          81
          result
          final.rpc
unfolding bob_query_contract_function
bob_query_contract_function-Ended env from_slice start backend request first paced =
    let params = query_params backend.next_nonce request in
    let (result, rpc, ran, ended) =
      poll_loop-Ended env from_slice params (start + network_timeout) 80 0 backend.rpc paced
        (omega arith) in
    (
      result,
      record backend { rpc = rpc; next_nonce = (backend.next_nonce + 1) % 2 ^ 64 },
      rw (ran, bob_query_contract_function) refl,
      ended,
    )
