-- ===== src/Examples/Cli.antt =====
-- Tests of src/main.rs and src/gui.rs: the command line, the engine that the window starts, the
-- endpoints, and the report of the memory.
use xus_miner.Common.{
  ◌≡◌, refl, true, false, [], ◌∷◌, codes, ok, byte_len, arith, trim, is_empty, is_whitespace,
  str_eq, parse_u64,
}
use xus_miner.Common.Chars.{strip_prefix, rsplit_once, parse_u16, from_utf8}
use xus_miner.Cli.{Start, main, contains, is_own_flag}
use xus_miner.Cli.Line.{is_plain}
use xus_miner.Cli.Launch.{asked, main-headless_command}
use xus_miner.Window.{Settings, default, validate}
use xus_miner.Window.Usable.{InRange}
use xus_miner.Window.Recovery.{App}
use xus_miner.Window.Launch.{headless_command}
use xus_miner.Common.Chars.{trim_end_matches}
use xus_miner.Common.{◌++◌, err, Str}
use xus_miner.Node.Endpoint.{endpoint_address, is_direct_rpc}
use xus_miner.Memory.Pressure.{PressureError, parse_macos_memory_pressure}
use xus_miner.Examples.Window.{failing_app, default_passes}

abbrev ready_app : App
ready_app = record failing_app { workers = 1; light_randomx_recovery = true }

default-InRange : InRange default
unfolding default
default-InRange = record {
  workers = (omega arith, omega arith);
  reconnect = (omega arith, omega arith);
  report = (omega arith, omega arith);
}

main-headless_command_example :
    main (headless_command false default ready_app true false) (120 ∷ [])
    ≡ ok (Start.headless (asked false default ready_app (codes "x")) true true false)
unfolding default is_plain is_own_flag str_eq trim is_empty is_whitespace from_utf8 byte_len
main-headless_command_example =
    main-headless_command false default ready_app true false (120 ∷ []) (codes "x") default_passes
      default-InRange refl refl refl refl (omega arith)

-- A label that is spelled like a flag of `main` passes the validation.
abbrev misnamed : Settings
misnamed = record default { user = codes "--gui" }

misnamed_passes : validate misnamed ≡ ok tt
unfolding validate default strip_prefix rsplit_once parse_u16 trim is_empty is_whitespace byte_len
    parse_u64
misnamed_passes = refl

-- The engine that is to mine under it opens another window.
misnamed_opens_window :
    main (headless_command false misnamed ready_app true false) [] ≡ ok Start.gui
unfolding main headless_command default contains str_eq trim is_empty is_whitespace
misnamed_opens_window = refl

node_address : endpoint_address (codes "http://10.0.0.1:8645//") ≡ codes "10.0.0.1:8645"
unfolding endpoint_address strip_prefix trim_end_matches
node_address = refl

bare_node_port : is_direct_rpc (codes "10.0.0.1:8645/") ≡ true
unfolding is_direct_rpc strip_prefix trim_end_matches rsplit_once str_eq
bare_node_port = refl

stratum_pool : is_direct_rpc (codes "stratum+tcp://10.0.0.1:3333") ≡ false
unfolding is_direct_rpc strip_prefix trim_end_matches rsplit_once str_eq
stratum_pool = refl

abbrev report : Str
report =
    codes "The system has 1000 (2 pages with a page size of 500)."
    ++ 10 ∷ []
    ++ codes "System-wide memory free percentage: 41%"
    ++ 10 ∷ []

report_read : parse_macos_memory_pressure report ≡ ok (410, 1000)
unfolding parse_macos_memory_pressure strip_prefix trim is_whitespace parse_u64
report_read = refl

report_blank : parse_macos_memory_pressure [] ≡ err PressureError.no_total
unfolding parse_macos_memory_pressure
report_blank = refl
