-- ===== src/Window/Launch.antt =====
-- src/gui.rs, `headless_command`: the arguments that the window starts the engine with.
use xus_miner.Common.{Bool, true, false, not, ◌&&◌, List, [], ◌∷◌, ◌++◌, Str, codes, trim}
use xus_miner.Feed.{decimal}
use xus_miner.Window.{Settings}
use xus_miner.Window.Recovery.{App, effective_engine_workers}

unfoldable pub if_set : Bool → Str → List Str
if_set false name = []
if_set true name = name ∷ []

-- The last arguments tell whether the memory was scanned, and whether the operator acknowledges it.
unfoldable pub headless_command : Bool → Settings → App → Bool → Bool → List Str
unfolding if_set decimal
headless_command windows s a scanned acknowledged =
    codes "--headless"
      ∷ codes "--json-events"
      ∷ codes "--parent-pipe-watchdog"
      ∷ codes "--password-stdin"
      ∷ codes "--pool"
      ∷ trim s.pool
      ∷ codes "--user"
      ∷ trim s.user
      ∷ codes "--workers"
      ∷ decimal (effective_engine_workers windows a)
      ∷ codes "--reconnect-secs"
      ∷ decimal s.reconnect_secs
      ∷ codes "--report-secs"
      ∷ decimal s.report_secs
      ∷ if_set a.light_randomx_recovery (codes "--randomx-light")
    ++ if_set (not scanned && acknowledged) (codes "--confirm-randomx-memory")
