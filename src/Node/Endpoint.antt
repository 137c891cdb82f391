-- ===== src/Node/Endpoint.antt =====
-- src/main.rs, `pool_address` and its neighbours: what an endpoint names, and whether it is a node.
use xus_miner.Common.{Bool, false, ◌||◌, Option, none, some, Str, str_eq, codes, is_some}
use xus_miner.Common.Chars.{strip_prefix, rsplit_once, trim_end_matches}

-- `strip_prefix(…).or_else(…).unwrap_or(…)`.
strip_either : Str → Str → Str → Option Str
strip_either first second raw = elim (strip_prefix first raw) [
  | some rest ↦ some rest
  | none ↦ strip_prefix second raw
]

unfoldable pub pool_address : Str → Str
unfolding strip_either
pool_address raw = elim (strip_either (codes "stratum+tcp://") (codes "tcp://") raw) [
  | some rest ↦ rest
  | none ↦ raw
]

unfoldable pub endpoint_address : Str → Str
unfolding strip_either pool_address
endpoint_address raw =
    trim_end_matches b'/' (elim (strip_either (codes "rpc://") (codes "http://") raw) [
      | some rest ↦ rest
      | none ↦ pool_address raw
    ])

starts_with : Str → Str → Bool
starts_with prefix raw = is_some (strip_prefix prefix raw)

unfoldable pub is_direct_rpc : Str → Bool
unfolding starts_with endpoint_address
is_direct_rpc raw =
    starts_with (codes "rpc://") raw
    || starts_with (codes "http://") raw
    || elim (rsplit_once b':' (endpoint_address raw)) [
      | some (host, port) ↦ str_eq port (codes "8645")
      | none ↦ false
    ]
