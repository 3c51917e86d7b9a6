-- ===== src/Backend/Qln/Digests.antt =====
-- Which answers about a tick are believed, and what is then known of its transactions.
use qubic_random_client.Base.{
  ℕ, ◌≤◌, ◌≡◌, ◌↔◌, refl, Bool, true, false, not, ◌&&◌, List, [], ◌∷◌, none, some, ltb, ◌==◌,
  ==_iff, if◌then◌else◌, is_empty, length, replicate, arith,
}
use qubic_random_client.Base.Result.{ok, >>=-ok, guard-ok}
use qubic_random_client.Backend.{TickTransactions, bytes_eq, has_digest}
use qubic_random_client.Backend.Clients.{from_bool}
use qubic_random_client.Backend.Qln.{
  GetTickTransactionsResponse, check_digests, is_equal, read_tick_transactions, complete_digests,
  legacy_answer,
}

-- A digest of a transaction, not among those that were seen.
abbrev pub IsNewDigest : List (List ℕ) → List ℕ → Type 0
IsNewDigest seen d =
    (length d ≡ 32) × (bytes_eq d (replicate 32 0) ≡ false) × (has_digest d seen ≡ false)

-- Digests of 32 bytes, none of them zero or twice there.
abbrev pub AreDigests : List (List ℕ) → List (List ℕ) → Type 0
AreDigests seen [] = Unit
AreDigests seen (d ∷ ds) = IsNewDigest seen d × AreDigests (d ∷ seen) ds

check_digests-AreDigests :
    (seen digests checked : List (List ℕ))
    → check_digests seen digests ≡ ok checked
    → AreDigests seen digests × (checked ≡ digests)
unfolding check_digests
check_digests-AreDigests seen [] checked e = let same : checked ≡ [] = cc in (tt, same)
check_digests-AreDigests seen (d ∷ ds) checked e =
    let (size, e') = guard-ok (length d == 32) _ _ e in
    let (good, e'') =
      guard-ok (not (bytes_eq d (replicate 32 0)) && not (has_digest d seen)) _ _ e' in
    let (rest, er, same) = >>=-ok (check_digests (d ∷ seen) ds) _ e'' in
    let (later, eq) = check_digests-AreDigests (d ∷ seen) ds rest er in
    let kept : checked ≡ d ∷ rest = cc in
    ((((==_iff _ 32).0 size, ground arith, ground arith), later), rw (kept, eq) refl)

AreDigests-check_digests :
    (seen digests : List (List ℕ))
    → AreDigests seen digests
    → check_digests seen digests ≡ ok digests
unfolding check_digests
AreDigests-check_digests seen [] h = refl
AreDigests-check_digests seen (d ∷ ds) ((size, nonzero, fresh), later) =
    rw ((==_iff _ 32).1 size, nonzero, fresh, AreDigests-check_digests (d ∷ seen) ds later) refl

-- What is told of a complete list of digests, and of an answer without one.
abbrev pub Content : Bool → GetTickTransactionsResponse → TickTransactions → Type 0
Content true response told =
    (told.transaction_digests ≡ some response.transaction_digests)
    × (length response.transaction_digests ≤ 4096)
    × (response.has_transactions ≡ not (is_empty response.transaction_digests))
    × AreDigests [] response.transaction_digests
Content false response told =
    (told.transaction_digests ≡ none) × (response.transaction_digests ≡ [])

abbrev pub Believed : GetTickTransactionsResponse → ℕ → TickTransactions → Type 0
Believed response requested told =
    (response.success ≡ true)
    × (response.tick ≡ requested)
    × (told.has_transactions ≡ response.has_transactions)
    × Content response.digests_complete response told

differ_iff : (a b : Bool) → (not (is_equal a b) ≡ true) ↔ (a ≡ not b)
differ_iff true true = ((λ h. cc), (λ h. cc))
differ_iff true false = ((λ h. refl), (λ h. refl))
differ_iff false true = ((λ h. refl), (λ h. refl))
differ_iff false false = ((λ h. cc), (λ h. cc))

and_split : (a b : Bool) → (a && b) ≡ true → (a ≡ true) × (b ≡ true)
and_split true true h = (refl, refl)
and_split true false h = cc
and_split false b h = cc

few : (n : ℕ) → not (ltb 4096 n) ≡ true → n ≤ 4096
few n h = ground arith

complete_digests-Content :
    (response : GetTickTransactionsResponse) (told : TickTransactions)
    → complete_digests response ≡ ok told
    → (told.has_transactions ≡ response.has_transactions) × Content true response told
complete_digests-Content response told e =
    let digests = response.transaction_digests in
    let agrees = not (is_equal response.has_transactions (is_empty digests)) in
    let (both, e') = guard-ok (not (ltb 4096 (length digests)) && agrees) _ _ e in
    let (short, same) = and_split _ agrees both in
    let (checked, ec, e'') = >>=-ok (check_digests [] digests) _ e' in
    let (valid, kept) = check_digests-AreDigests [] digests checked ec in
    (
      ground arith,
      (
        ground arith,
        few (length digests) short,
        (differ_iff response.has_transactions (is_empty digests)).0 same,
        valid,
      ),
    )

empty : (digests : List (List ℕ)) → is_empty digests ≡ true → digests ≡ []
empty [] h = refl
empty (d ∷ ds) h = cc

answer-Content :
    (complete : Bool) (response : GetTickTransactionsResponse) (told : TickTransactions)
    → (if complete then complete_digests response else legacy_answer response) ≡ ok told
    → (told.has_transactions ≡ response.has_transactions) × Content complete response told
unfolding from_bool
answer-Content true response told e = complete_digests-Content response told e
answer-Content false response told e =
    let (none_sent, same) = guard-ok (is_empty response.transaction_digests) _ _ e in
    (ground arith, (ground arith, empty response.transaction_digests none_sent))

Content-answer :
    (complete : Bool) (response : GetTickTransactionsResponse) (told : TickTransactions)
    → told.has_transactions ≡ response.has_transactions
    → Content complete response told
    → (if complete then complete_digests response else legacy_answer response) ≡ ok told
unfolding from_bool
Content-answer true response told same (told_all, short, agrees, valid) =
    rw
      (
        (differ_iff response.has_transactions (is_empty response.transaction_digests)).1 agrees,
        AreDigests-check_digests [] response.transaction_digests valid,
      )
      (ground arith)
Content-answer false response told same (told_none, nothing) = ground arith

-- An answer about a tick is taken exactly when it reports success and the tick that was asked for,
-- and either its digests are complete, at most 4096 of 32 bytes, none zero or twice there, and
-- their number agrees with whether there are transactions, or there are none and they are not said
-- to be complete; then exactly this is told.
pub read_tick_transactions_iff :
    (response : GetTickTransactionsResponse) (requested : ℕ) (told : TickTransactions)
    → (read_tick_transactions response requested ≡ ok told) ↔ Believed response requested told
unfolding read_tick_transactions
read_tick_transactions_iff response requested told = (
  λ e.
      let (success, e') = guard-ok response.success _ _ e in
      let (asked, e'') = guard-ok (response.tick == requested) _ _ e' in
      let (same, content) = answer-Content response.digests_complete response told e'' in
      (success, (==_iff _ requested).0 asked, same, content),
  λ (success, asked, same, content).
      rw (success, (==_iff _ requested).1 asked)
        (Content-answer response.digests_complete response told same content),
)
