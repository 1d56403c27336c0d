-- ===== src/Snat.antt =====
-- pkg/snat/snat.go: the rules, their keys, and the operations that the reconciler asks of a rule
-- manager, over any state `S`.
pub mod Fake
pub mod Linux
use fast_vip.Prelude.{ℕ, String, List, Option, Error, ◌^^◌}
use fast_vip.Net.{Net}

pub record SnatRule : Type 0 where
  pub backend_ip : String
  pub protocol : String
  pub snat_ip : String
  pub backend_port : ℕ

pub record ForwardRule : Type 0 where
  pub backend_ip : String
  pub protocol : String
  pub backend_port : ℕ

unfoldable pub snat_key : Net → SnatRule → String
snat_key net r = r.backend_ip ^^ ":" ^^ net.itoa r.backend_port ^^ "/" ^^ r.protocol

unfoldable pub forward_key : Net → ForwardRule → String
forward_key net r = r.backend_ip ^^ ":" ^^ net.itoa r.backend_port ^^ "/" ^^ r.protocol

pub record SnatManager (S : Type 0) : Type 0 where
  pub reconcile : List SnatRule → S → Option Error × S
  pub reconcile_forward : List ForwardRule → S → Option Error × S
  pub cleanup : S → Option Error × S
