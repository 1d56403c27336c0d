-- ===== src/Command/Once.antt =====
-- When the command `once` of cmd/fastVIP/main.go succeeds.
use fast_vip.Prelude.{
  ◌↔◌, ◌++◌, lookup, false, string_eq, String, Bool, true, [], Option, none, some, ◌≡◌, refl, sym,
  ap, ◌∙◌, arith, MapRange, ok, Result-cases, Option-cases, inl, inr,
}
use fast_vip.Net.{Net}
use fast_vip.Config.{Config}
use fast_vip.Config.Manager.{Viper, load, new_manager}
use fast_vip.Health as Health
use fast_vip.Health.{is_healthy}
use fast_vip.Lvs.Reconciler.{Reconciler, ReconcileError, reconcile}
use fast_vip.Http.Manager.{new_http_manager}
use fast_vip.Metrics.{set_fake_backend_active}
use fast_vip.Server.{Server, new_server, run_once, run_reconcile}
use fast_vip.Command.{LogViper, Host, log_config, create_server, once, failure_of}

-- Without probes every backend counts as healthy.
abbrev pub all_up : String → Bool
all_up address = true

abbrev pub new_reconciler : {H S : Type 0} → H → S → Reconciler H S
new_reconciler h s = record { manager = h; snat_mgr = s; managed = []; reconcile_errors = 0 }

-- The first pass over the services of a configuration.
abbrev pub first_pass :
    {H S N L : Type 0} → Net → MapRange → Host H S N L → H → S → Config → Option ReconcileError
first_pass net rng host h s cfg =
    (reconcile net rng host.platform.ipvs host.platform.rules all_up cfg.services
      (new_reconciler h s)).0

-- What `once` needs: loggers, what it opens, a configuration that loads, and a pass without an
-- error.
pub record Passes {H S N L : Type 0} (net : Net) (rng : MapRange) (host : Host H S N L)
    (lv : LogViper) (v : Viper) : Type 0 where
  pub handle : H
  pub rules : S
  pub config : Config
  pub builds : host.build_loggers (log_config lv) ≡ none
  pub opens : host.open_ipvs ≡ ok handle
  pub opens_rules : host.open_rules ≡ ok rules
  pub loads : load net v ≡ ok config
  pub no_error : first_pass net rng host handle rules config ≡ none

module _ {H S N L : Type 0} (net : Net) (rng : MapRange) (host : Host H S N L) where
  -- The server of a configuration, before anything ran.
  abbrev fresh : H → S → Config → Server H S N L
  fresh h s cfg = record {
    config_mgr = record { current = cfg; signalled = false; on_reload = false; reloads = 0 };
    reconciler = new_reconciler h s;
    health_mgr = Health.new_manager;
    http_mgr = new_http_manager;
    listeners = host.listeners;
    admin_server = none;
    collector = none;
    metrics =
        set_fake_backend_active "ipvs" host.platform.ipvs_is_fake
        ++ set_fake_backend_active "snat" host.platform.snat_is_fake;
  }

  created :
      (v : Viper) (h : H) (s : S) (cfg : Config)
      → host.open_ipvs ≡ ok h
      → host.open_rules ≡ ok s
      → load net v ≡ ok cfg
      → create_server net rng host v ≡ ok (fresh h s cfg)
  unfolding create_server new_server new_manager
  created v h s cfg opened rules loaded = rw (opened, create_server, rules, loaded) refl

  pass-run_once :
      (h : H) (s : S) (cfg : Config)
      → (run_once net rng host.platform (fresh h s cfg)).0 ≡ first_pass net rng host h s cfg
  unfolding run_once run_reconcile is_healthy lookup
  pass-run_once h s cfg = refl

  none-failure_of : (e : Option ReconcileError) → failure_of e ≡ none → e ≡ none
  none-failure_of none f = refl
  none-failure_of (some e) f = absurd (ground (arith, f))

  success_if :
      (lv : LogViper) (v : Viper) → Passes net rng host lv v → (once net rng host lv v).0 ≡ none
  unfolding once
  success_if lv v p =
      rw (p.builds, once, created v p.handle p.rules p.config p.opens p.opens_rules p.loads)
        (ap failure_of (pass-run_once p.handle p.rules p.config ∙ p.no_error))

  success_only_if :
      (lv : LogViper) (v : Viper) → (once net rng host lv v).0 ≡ none → Passes net rng host lv v
  unfolding once create_server new_server new_manager
  success_only_if lv v e = elim (Option-cases (host.build_loggers (log_config lv))) [
    | inr (x, b) ↦ absurd (ground (arith, e, b))
    | inl b ↦ elim (Result-cases host.open_ipvs) [
      | inr (x, f) ↦ absurd (ground (arith, e, b, f))
      | inl (h, f) ↦ elim (Result-cases (load net v)) [
        | inr (y, l) ↦ elim (Result-cases host.open_rules) [
          | inr (x, g) ↦ absurd (ground (arith, e, b, f, g, l))
          | inl (s, g) ↦ absurd (ground (arith, e, b, f, g, l))
        ]
        | inl (cfg, l) ↦ elim (Result-cases host.open_rules) [
          | inr (x, g) ↦ absurd (ground (arith, e, b, f, g, l))
          | inl (s, g) ↦ record {
            handle = h;
            rules = s;
            config = cfg;
            builds = b;
            opens = f;
            opens_rules = g;
            loads = l;
            no_error =
                sym (pass-run_once h s cfg)
                ∙ none-failure_of _ (ground (arith, e, b, created v h s cfg f g l));
          }
        ]
      ]
    ]
  ]

  -- The command once returns no error if and only if the loggers can be built from the section of
  -- the log, or from its zero value if that cannot be read; the handle and the rule manager can be
  -- opened; the configuration loads; and a first pass over its services, in which every backend
  -- counts as healthy, returns no error.
  pub once-Passes :
      (lv : LogViper) (v : Viper) → ((once net rng host lv v).0 ≡ none) ↔ Passes net rng host lv v
  once-Passes lv v = (success_only_if lv v, success_if lv v)
