-- ===== src/Lib.antt =====
-- A verification library for the Qubic random client: a provider that keeps commit-and-reveal chains
-- on the three streams of the random contract, each call of a chain revealing the preimage that the
-- call before committed to, for a target tick of its stream.
--
-- The program and its model. `ProviderEngine` of src/engine.rs polls a backend and runs one cycle per
-- poll. Three slots, one per stream, each hold a state and at most one chain of signed calls; they
-- share the counters, the queue of tick checks and the wallet.
--
-- Contract: `SlotKey`, `ProviderSlot`, `ProviderStatus::slot` and `RevealAndCommitInput::encode` of
--   src/contract.rs; Contract.Codec has `ProviderStatus::decode`, where an index out of range is an
--   error of its own. A finished status query carries the decoded status.
-- Entropy: `commit_digest` of src/entropy.rs, `transaction_digest` of src/backend.rs and
--   `random_preimage`. The hash, the random source and `scapi::build_ticket_tx_bytes` are code that
--   the repository calls, and stand in the record `External`.
-- Backend: `TickInfo` and `TickTransactions` of src/backend.rs. Its children are the backends:
--   Backend.Clients has the errors and the trait `NetworkBackend`, Backend.Rpc, Backend.BobNode and
--   Backend.Qln its three implementations, Backend.Hex `bytes_to_hex` and `decode_hex`,
--   Backend.Create `create_backend`. A backend that keeps a state between its calls, such as the
--   counters of a Bob node or `QlnTickFallback`, returns the new one with its answer.
-- Json: the values of serde_json as the program takes them apart. Bob: src/bob.rs. Http:
--   src/http.rs, with `read_json`, `BoundedRpcClient` and `BoundedBobClient`. The network, the
--   decoders and base64 are arguments (`Network`, `Wire`, `LightNode`).
-- Config: src/config.rs, with `AppConfig::from_cli` on the parsed arguments; Config.Endpoint has
--   `normalize_endpoint` and `append_endpoint_path`. Console: src/console.rs.
-- Suspicion: `StatusEvidence` and `StatusSuspicion`. Chain: `PlannedCall`, `Chain`,
--   `owns_target`, `latest_target_before` and `next_stream_tick`.
-- Monitor: `SendStats`, `record_send_outcome`, and in Monitor.Checks `queue_tick_check`,
--   `harvest_tick_check`, `ensure_tick_check` and `expire_tick_checks`.
-- Slot: `SlotState`, `ManagedSlot` and `lose_chain`. Its children hold the handlers: Slot.Status
--   has `apply_status` with `apply_confirmation_watermark`, `observe_status_evidence` and
--   `begin_status_restart`; Slot.Plan has `start_if_ready`, `extend_chain`, `enter_drain` and
--   `build_transaction`; Slot.Deliver has, in its children, `expire_calls`, `dispatch_calls`,
--   `harvest_broadcasts` and `broadcast_attempt_timeout`; Slot.Finish has `finish_drain`, `finish_status_restart` and
--   `prune_calls`.
-- Epoch: `is_epoch_stop_window`. Engine: `ProviderEngine`; Engine.Phase has `new`, `reset_slots` and
--   `update_epoch_phase`, Engine.Cycle `cycle` and the status query, Engine.Run `run`. Engine.Events
--   is the step relation of the whole engine: cycles, the drain of a shutdown, and network tasks that
--   end, in any order. The proofs about broadcasts follow them through the modules called Ledger: what
--   a slot still knows of the broadcasts that it started before; those about the queue of checks
--   stand in Monitor.Queue, Slot.Monitored and Engine.Checked.
-- Scenarios: concrete runs, at which the theorems are applied.
--
-- How the state is passed. A handler of one slot works on a `Focus`: the slot, the shared fields, the
-- number of preimages drawn, and the broadcasts started. `AppResult<()>` is `Attempt`: the state that
-- is left behind and an optional error, so an early return keeps the changes made before it.
-- `BTreeMap` and `BTreeSet` are ascending lists. Ticks are `u32` and counters `u64`: native numbers
-- with the bound written out in the checked and saturating operations.
--
-- A network task is running or finished, with a value or an error; the runtime finishes it between
-- cycles. A task that ends inside a cycle is seen by the next cycle's harvest. Aborting a task is
-- dropping it. Each reading of a clock is an argument of the handler or of the cycle's input.
--
-- Bounds. `extend_chain` loops until the next target lies past the horizon, six ticks ahead. Its
-- model has three rounds of fuel: the first target of a slot that has missed none is past the current
-- tick and each round moves on by three, so two rounds reach the horizon.
--
-- The polling of a Bob node has 81 rounds of fuel: it stops at the first answer that is later than
-- eight seconds, and sleeps for 100 ms in each round.
--
-- Texts are lists of code points, with the parts of `str` that the program uses in Base.Texts and
-- Base.Decimal; a text goes over the wire as its UTF-8 bytes.
--
-- Not modelled: the engine's log lines, the floats of the console's percentages (an argument), the
-- locking and wiping of the seed's memory, `redacted_endpoint`, the entry point, and
-- vendor/rtoolbox, a copy of another library.
pub mod Base
pub mod Contract
pub mod Suspicion
pub mod Chain
pub mod Monitor
pub mod Slot
pub mod Epoch
pub mod Engine
pub mod Entropy
pub mod Backend
pub mod Json
pub mod Bob
pub mod Http
pub mod Config
pub mod Console
pub mod Scenarios
