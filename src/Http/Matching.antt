-- ===== src/Http/Matching.antt =====
-- What a call to a Bob node returns, and which request it answers.
use qubic_random_client.Base.{
  ℕ, ◌≡◌, ◌↔◌, refl, Bool, true, false, not, ◌&&◌, List, Option, some, Text,
}
use qubic_random_client.Base.Result.{ok, ok_or, >>=-ok, guard-ok, ok_or-ok}
use qubic_random_client.Json.{Value}
use qubic_random_client.Http.{
  request_failed, Response, Network, json, max_response_bytes, fetch, BobClient, bob_request,
  is_envelope, has_id, check_answer, call,
}
use qubic_random_client.Http.Bounded.{Carries, read_json_iff}

-- An answer that says which request it belongs to names this one.
abbrev pub Answers : ℕ → Value → Type 0
Answers id response = is_envelope response ≡ true → has_id id response ≡ true

implies_iff : (a b : Bool) → (not (a && not b) ≡ true) ↔ (a ≡ true → b ≡ true)
implies_iff true true = (λ h g. refl, λ h. refl)
implies_iff true false = (λ h g. h, λ h. h refl)
implies_iff false b = (λ h g. cc, λ h. refl)

check_answer_iff :
    (id : ℕ) (response value : Value)
    → (check_answer id response ≡ ok value) ↔ ((response ≡ value) × Answers id value)
unfolding check_answer
check_answer_iff id response value = (
  λ e.
      let (named, same) =
        guard-ok (not (is_envelope response && not (has_id id response))) _ (ok response) e in
      let eq : response ≡ value = cc in
      (eq, rw eq at ((implies_iff (is_envelope response) (has_id id response)).0 named)),
  λ (eq, named). rw (eq, (implies_iff (is_envelope value) (has_id id value)).1 named) refl,
)

-- A call returns a value exactly when the request is answered by a response that carries this value
-- within the limit of 16 MiB, and the value, if it is an envelope, has the identifier of the
-- request.
pub call_iff :
    (send : Network) (from_slice : List ℕ → Option Value) (client : BobClient) (method : Text)
    (params value : Value)
    → ((call send from_slice client method params).0 ≡ ok value) ↔ (
        (response : Response) × (send client.endpoint
            (json (bob_request method params client.next_id))
          ≡ some response)
        × Carries from_slice response max_response_bytes value
        × Answers client.next_id value)
unfolding call fetch
call_iff send from_slice client method params value = (
  λ e.
      let id = client.next_id in
      let request = json (bob_request method params id) in
      let (found, ef, ec) =
        >>=-ok (fetch send from_slice client.endpoint request) (check_answer id) e in
      let (response, es, er) = >>=-ok (ok_or request_failed (send client.endpoint request)) _ ef in
      let (same, named) = (check_answer_iff id found value).0 ec in
      (
        response,
        ok_or-ok _ _ es,
        (read_json_iff from_slice response max_response_bytes value).0 (rw same at er),
        named,
      ),
  λ (response, sent, carries, named).
      rw (sent, (read_json_iff from_slice response max_response_bytes value).1 carries)
        ((check_answer_iff client.next_id value value).1 (refl, named)),
)
