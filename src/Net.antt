-- ===== src/Net.antt =====
-- The functions of Go's standard library that the program calls on addresses, numbers and
-- durations. They are not part of the repository: each definition that calls one takes this record.
use fast_vip.Prelude.{ℕ, ℤ, String, List, Option}

pub record Net : Type 0 where
  -- net.SplitHostPort
  pub split_host_port : String → Option (String × String)
  -- net.ParseIP, an address as its bytes
  pub parse_ip : String → Option (List ℕ)
  -- net.IP.To4
  pub to4 : List ℕ → Option (List ℕ)
  -- net.IP.String
  pub ip_string : List ℕ → String
  -- strconv.Atoi
  pub atoi : String → Option ℤ
  -- the decimal form that `%d` and strconv.Itoa print
  pub itoa : ℕ → String
  -- time.ParseDuration, in nanoseconds
  pub parse_duration : String → Option ℤ
