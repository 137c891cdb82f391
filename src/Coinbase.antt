-- ===== src/Coinbase.antt =====
-- src/main.rs: `requested_coinbase` and `validate_rpc_coinbase`, the account that the blocks pay.
pub mod Pays
use xus_miner.Common.{
  Bool, true, false, ◌&&◌, not, Option, none, some, if◌then◌else◌, Str, str_eq, codes, trim,
  is_empty, Result, ok, err,
}
use xus_miner.Job.{Job}

-- The user of the command line, unless it is empty or the default name.
pub requested_coinbase : Str → Option Str
requested_coinbase user =
    if not (is_empty (trim user)) && not (str_eq (trim user) (codes "xus-miner"))
    then some (trim user)
    else none

pub data CoinbaseError : Type 0 where
  undisclosed : CoinbaseError
  -- The account that was requested, and the one that the header pays.
  mismatch : Str → Str → CoinbaseError

compare_coinbase : Option Str → Str → Result CoinbaseError (Unit {0})
compare_coinbase none actual = ok tt
compare_coinbase (some expected) actual =
    if not (str_eq actual expected) then err (mismatch expected actual) else ok tt

check_coinbase : Option Str → Option Str → Result CoinbaseError (Unit {0})
unfolding compare_coinbase
check_coinbase requested none = err undisclosed
check_coinbase requested (some actual) = compare_coinbase requested actual

unfoldable pub validate_rpc_coinbase : Option Str → Job → Result CoinbaseError (Unit {0})
unfolding check_coinbase
validate_rpc_coinbase requested job = check_coinbase requested job.coinbase
