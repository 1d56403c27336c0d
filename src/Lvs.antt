-- ===== src/Lvs.antt =====
-- pkg/lvs: the IPVS data model (ipvs_models.go), and the modules below for the rest.
pub mod Keys
pub mod Handle
pub mod Linux
pub mod Fake
pub mod Manager
pub mod Desired
pub mod Destinations
pub mod Reconciler
use fast_vip.Prelude.{ℕ, ℤ, String, Bool, List}

-- Type SvcStats, and DstStats, which is declared by it.
pub record SvcStats : Type 0 where
  pub bytes_in : ℕ
  pub bytes_out : ℕ
  pub connections : ℕ
  pub packets_in : ℕ
  pub packets_out : ℕ
  pub cps : ℕ
  pub bps_out : ℕ
  pub pps_in : ℕ
  pub pps_out : ℕ
  pub bps_in : ℕ

abbrev pub no_stats : SvcStats
no_stats = record {
  bytes_in = 0;
  bytes_out = 0;
  connections = 0;
  packets_in = 0;
  packets_out = 0;
  cps = 0;
  bps_out = 0;
  pps_in = 0;
  pps_out = 0;
  bps_in = 0;
}

-- A net.IP is the list of its bytes.
pub record Service : Type 0 where
  pub sched_name : String
  pub pe_name : String
  pub address : List ℕ
  pub stats : SvcStats
  pub fw_mark : ℕ
  pub flags : ℕ
  pub timeout : ℕ
  pub netmask : ℕ
  pub protocol : ℕ
  pub port : ℕ
  pub address_family : ℕ

pub record Destination : Type 0 where
  pub address : List ℕ
  pub stats : SvcStats
  pub weight : ℤ
  pub active_connections : ℤ
  pub inactive_connections : ℤ
  pub connection_flags : ℕ
  pub upper_threshold : ℕ
  pub lower_threshold : ℕ
  pub port : ℕ
  pub address_family : ℕ
