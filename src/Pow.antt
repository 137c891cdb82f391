-- ===== src/Pow.antt =====
-- src/pow.rs: the proof-of-work algorithms, and the sharing of RandomX memory between workers.
pub mod Dataset
pub mod Engine
use xus_miner.Common.{Str, codes}

pub data PowAlgo : Type 0 where
  sha256d random_x : PowAlgo

pub data MiningMode : Type 0 where
  sha256d random_x_fast_shared random_x_light_fallback random_x_light_recovery : MiningMode

pub telemetry_name : MiningMode → Str
telemetry_name MiningMode.sha256d = codes "sha256d"
telemetry_name random_x_fast_shared = codes "fast-shared"
telemetry_name random_x_light_fallback = codes "light-fallback"
telemetry_name random_x_light_recovery = codes "light-recovery"

pub data RandomXMode : Type 0 where
  light fast_shared light_fallback light_recovery : RandomXMode
