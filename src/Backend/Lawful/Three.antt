-- ===== src/Backend/Lawful/Three.antt =====
-- The three backends keep the promises of the trait.
use qubic_random_client.Base.{ℕ}
use qubic_random_client.Http.{Network}
use qubic_random_client.Backend.Rpc.{Wire, rpc_backend}
use qubic_random_client.Backend.BobNode.{Rounds, Decoder, bob_backend}
use qubic_random_client.Backend.Qln.{LightNode, qln_backend}
use qubic_random_client.Backend.Lawful.{IsLawful}
use qubic_random_client.Backend.Lawful.Service.{IsWire, rpc_backend-IsLawful}
use qubic_random_client.Backend.Lawful.Node.{bob_backend-IsLawful}
use qubic_random_client.Backend.Lawful.Light.{IsNode, IsFallback, qln_backend-IsLawful}

-- Each of the three backends tells ticks in 32-bit numbers, whatever the network answers and
-- whatever state the calls before left, with a duration of a millisecond or more, digests of 32
-- bytes that are neither zero nor twice there and agree with whether there are transactions, and
-- identifiers of transactions that are not blank, if the messages of the RPC service and of the
-- light node hold 32-bit numbers where their types say so.
pub backends-IsLawful :
    (w : Wire) (send : Network) (env : Rounds) (from_slice : Decoder) (start : ℕ) (node : LightNode)
    → IsWire w
    → IsNode node
    → IsLawful (λ b. Unit {0}) (rpc_backend w send)
      × IsLawful (λ b. Unit {0}) (bob_backend env from_slice start)
      × IsLawful IsFallback (qln_backend node)
backends-IsLawful w send env from_slice start node wire range = (
  rpc_backend-IsLawful w send wire,
  bob_backend-IsLawful env from_slice start,
  qln_backend-IsLawful node range,
)
