-- ===== src/Config/Endpoint.antt =====
-- src/config.rs: the kinds of backend, and the text of an endpoint.
pub mod Trim
pub mod Paths
pub mod Normal
use qubic_random_client.Base.{
  ℕ, Bool, true, false, ◌||◌, List, [], ◌∷◌, ◌++◌, Option, none, some, ◌==◌, if◌then◌else◌, Text,
  codes, trim, trim_start_matches, trim_end_matches, strip_suffix, contains_text,
}

pub data BackendKind : Type 0 where
  rpc : BackendKind
  bob : BackendKind
  grpc : BackendKind

-- `BackendKind::name`.
unfoldable pub name : BackendKind → Text
name rpc = codes "rpc"
name bob = codes "bob"
name grpc = codes "grpc"

-- `BackendKind::default_endpoint`; that of a Bob node is a constant of another package.
unfoldable pub default_endpoint : Text → BackendKind → Text
default_endpoint bob_endpoint rpc = codes "https://rpc.qubic.org"
default_endpoint bob_endpoint bob = bob_endpoint
default_endpoint bob_endpoint grpc = codes "http://127.0.0.1:50051"

abbrev pub is_slash : ℕ → Bool
is_slash c = c == b'/'

abbrev pub is_query_mark : ℕ → Bool
is_query_mark c = c == b'?' || c == b'#'

abbrev pub push_front : ℕ → Text × Text → Text × Text
push_front c (base, suffix) = (c ∷ base, suffix)

-- `endpoint_parts`: what stands before the first `?` or `#`, and the rest.
unfoldable pub endpoint_parts : Text → Text × Text
endpoint_parts [] = ([], [])
endpoint_parts (c ∷ s) = if is_query_mark c then ([], c ∷ s) else push_front c (endpoint_parts s)

-- `append_endpoint_path`.
unfoldable pub append_endpoint_path : Text → Text → Text
unfolding endpoint_parts trim_end_matches trim_start_matches
append_endpoint_path endpoint path =
    let (base, suffix) = endpoint_parts endpoint in
    trim_end_matches is_slash base ++ (b'/' ∷ (trim_start_matches is_slash path ++ suffix))

-- The first of the suffixes that the endpoint has is taken off.
unfoldable pub strip_first : Text → List Text → Text
strip_first endpoint [] = endpoint
strip_first endpoint (suffix ∷ suffixes) = elim (strip_suffix suffix endpoint) [
  | none ↦ strip_first endpoint suffixes
  | some base ↦ trim_end_matches is_slash base
]

abbrev pub path_suffixes : BackendKind → List Text
path_suffixes rpc = codes "/live/v1" ∷ codes "/query/v1" ∷ codes "/v1" ∷ []
path_suffixes bob = codes "/qubic" ∷ []
path_suffixes grpc = []

abbrev pub with_scheme : Text → Text
with_scheme endpoint =
    if contains_text (codes "://") endpoint then endpoint else codes "http://" ++ endpoint

-- `normalize_endpoint`.
unfoldable pub normalize_endpoint : BackendKind → Text → Text
unfolding endpoint_parts trim_end_matches strip_first
normalize_endpoint backend endpoint =
    let (base, suffix) = endpoint_parts (trim endpoint) in
    with_scheme (strip_first (trim_end_matches is_slash base) (path_suffixes backend)) ++ suffix
