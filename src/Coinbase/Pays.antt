-- ===== src/Coinbase/Pays.antt =====
-- src/main.rs, `validate_rpc_coinbase` behind `Job::from_rpc`: whom the header of accepted work pays.
use xus_miner.Common.{
  arith, ◌≡◌, sym, ◌∙◌, not, Option, none, some, some_inj, Str, str_eq, str_eq_iff, ok,
}
use xus_miner.Common.Try.{after_refusal}
use xus_miner.Job.{Job, BlockHeaderWire, Codecs}
use xus_miner.Job.Rpc.{from_rpc}
use xus_miner.Job.Rpc.Authentic.{from_rpc-IsAuthentic}
use xus_miner.Coinbase.{mismatch, compare_coinbase, check_coinbase, validate_rpc_coinbase}

check_coinbase-eq-ok :
    (account : Str) (coinbase : Option Str) {u : Unit {0}}
    → check_coinbase (some account) coinbase ≡ ok u
    → coinbase ≡ some account
unfolding check_coinbase compare_coinbase
check_coinbase-eq-ok account none e = cc
check_coinbase-eq-ok account (some actual) e =
    let (same, _) = after_refusal (not (str_eq actual account)) (mismatch account actual) _ e in
    ground (arith, str_eq_iff actual account)

module _ (C : Codecs) where
  open C use {json, decode_header}
  open json use {Value}

  -- A template that is accepted, and that passes the test for a requested account, is work on a block
  -- whose encoded header pays exactly that account.
  pub validate_rpc_coinbase-pays :
      (v : Value) (j : Job) (account : Str)
      → from_rpc C v ≡ ok j
      → validate_rpc_coinbase (some account) j ≡ ok tt
      → (h : BlockHeaderWire) × (decode_header j.blob ≡ some h) × (h.proposer ≡ account)
  unfolding validate_rpc_coinbase
  validate_rpc_coinbase-pays v j account accepted passed =
      let (h, authentic) = from_rpc-IsAuthentic C v j accepted in
      (
        h,
        authentic.encoded,
        some_inj (sym authentic.pays ∙ check_coinbase-eq-ok account j.coinbase passed),
      )
