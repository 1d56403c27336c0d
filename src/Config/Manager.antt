-- ===== src/Config/Manager.antt =====
-- The Manager of pkg/config/config.go: loading and reloading. What viper reads and unmarshals at a
-- load is a parameter; the channel onChange has room for one signal; onReload is counted.
use fast_vip.Prelude.{
  ℕ, ◌+◌, Bool, true, false, List, [], ◌∷◌, Option, none, some, ◌≡◌, if◌then◌else◌, Error, wrap,
  Result, ok, err, ◌>>=◌, in_context, Result-cases, inl, inr, arith,
}
use fast_vip.Net.{Net}
use fast_vip.Config.{Config}
use fast_vip.Config.Validate.{validate}
use fast_vip.Config.Validate.Valid.{IsValidConfig}
use fast_vip.Config.Validate.Sound.{validate-IsValid}

-- What ReadInConfig and Unmarshal give at one time.
pub record Viper : Type 0 where
  pub read_in_config : Option Error
  pub unmarshal : Result Config

pub record ConfigManager : Type 0 where
  pub current : Config
  -- a signal waits in onChange
  pub signalled : Bool
  pub on_reload : Bool
  pub reloads : ℕ

module _ (net : Net) where
  unfoldable pub load : Viper → Result Config
  load v = elim v.read_in_config [
    | some e ↦ err (wrap "failed to read config file" e)
    | none ↦ in_context "failed to unmarshal config" v.unmarshal >>= λ cfg.
        in_context "config validation failed" (validate net cfg)
  ]

  unfoldable pub new_manager : Viper → Result ConfigManager
  new_manager v = in_context "failed to load config" (load v) >>= λ cfg.
      ok (record { current = cfg; signalled = false; on_reload = false; reloads = 0 })

  unfoldable pub reload : Viper → ConfigManager → Option Error × ConfigManager
  reload v m = elim (load v) [
    | err e ↦ (some e, m)
    | ok cfg ↦ (
      none,
      record m {
        current = cfg;
        signalled = true;
        reloads = if m.on_reload then m.reloads + 1 else m.reloads;
      },
    )
  ]

  -- The server takes the signal.
  abbrev pub on_change : ConfigManager → ConfigManager
  on_change m = record m { signalled = false }

  -- Any sequence of reloads, of which some fail.
  unfoldable pub reload_all : List Viper → ConfigManager → ConfigManager
  reload_all [] m = m
  reload_all (v ∷ vs) m = reload_all vs (reload v m).1

  pub load-IsValid : (v : Viper) (cfg : Config) → load v ≡ ok cfg → IsValidConfig net cfg
  unfolding load
  load-IsValid v cfg e = elim (Result-cases v.unmarshal) [
    | inr (y, x) ↦ absurd (ground arith)
    | inl (raw, x) ↦ elim (Result-cases (validate net raw)) [
      | inr (z, w) ↦ absurd (ground arith)
      | inl (out, w) ↦ ground (arith, validate-IsValid net raw out w)
    ]
  ]

  pub reload-IsValid :
      (v : Viper) (m : ConfigManager)
      → IsValidConfig net m.current
      → IsValidConfig net (reload v m).1.current
  unfolding reload
  reload-IsValid v m h = elim (Result-cases (load v)) [
    | inl (cfg, x) ↦ rw (x, reload) (load-IsValid v cfg x)
    | inr (e, x) ↦ rw (x, reload) h
  ]

  reload_all-IsValid :
      (vs : List Viper) (m : ConfigManager)
      → IsValidConfig net m.current
      → IsValidConfig net (reload_all vs m).current
  unfolding reload_all
  reload_all-IsValid [] m h = h
  reload_all-IsValid (v ∷ vs) m h = reload_all-IsValid vs (reload v m).1 (reload-IsValid v m h)

  -- Whatever the file holds at the first load and at each reload: if the first load succeeds, the
  -- current configuration is valid after any sequence of reloads, of which some may fail.
  pub current-IsValid :
      (v : Viper) (m : ConfigManager) (vs : List Viper)
      → new_manager v ≡ ok m
      → IsValidConfig net (reload_all vs m).current
  unfolding new_manager
  current-IsValid v m vs e = reload_all-IsValid vs m (elim (Result-cases (load v)) [
    | inr (y, x) ↦ absurd (ground arith)
    | inl (cfg, x) ↦ ground (arith, load-IsValid v cfg x)
  ])

  -- A reload that fails
  pub reload_failed :
      (v : Viper) (m : ConfigManager) (e : Error) → load v ≡ err e → reload v m ≡ (some e, m)
  unfolding reload
  reload_failed v m e x = ground arith
