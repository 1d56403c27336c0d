-- ===== src/Admin/Answers.antt =====
-- The answers of the reload endpoint of pkg/admin/server.go, over the manager of pkg/config/config.go.
use fast_vip.Prelude.{
  ◌+◌, ap, sym, ◌∙◌, String, true, Option, none, some, if◌then◌else◌, ◌==◌, string_eq, Error, ok,
  err, ◌≡◌, ◌≢◌, refl, arith, Result-cases, Bool-cases, inl, inr,
}
use fast_vip.Config.{Config}
use fast_vip.Net.{Net}
use fast_vip.Config.Manager.{Viper, ConfigManager, load, reload}
use fast_vip.Admin.{handle_reload}

module _ (net : Net) (quote : String → String) (message : Error → String) where
  reload-ok :
      (v : Viper) (m : ConfigManager) (cfg : Config)
      → load net v ≡ ok cfg
      → reload net v m ≡ (
        none,
        record m {
          current = cfg;
          signalled = true;
          reloads = if m.on_reload then m.reloads + 1 else m.reloads;
        },
      )
  unfolding reload
  reload-ok v m cfg f = rw (f, reload) refl

  reload-err :
      (v : Viper) (m : ConfigManager) (x : Error)
      → load net v ≡ err x
      → reload net v m ≡ (some x, m)
  unfolding reload
  reload-err v m x f = rw (f, reload) refl

  -- The reload endpoint answers 200 only if the file loads, is then the current configuration and
  -- the main loop is signalled; with any other answer, whether of the method or of a load that
  -- fails, the manager of the configuration is as it was.
  pub handle_reload-load :
      (method : String) (v : Viper) (m : ConfigManager)
      → let answered = handle_reload quote message method (some (reload net v)) m in
        (answered.0.status ≡ 200
          → (load net v ≡ ok answered.1.current) × (answered.1.signalled ≡ true))
        × (answered.0.status ≢ 200 → answered.1 ≡ m)
  unfolding handle_reload
  handle_reload-load method v m = elim (Bool-cases (method == "POST")) [
    | inr e ↦ rw (e, handle_reload) (λ same. absurd (ground (arith, same)), λ apart. refl)
    | inl e ↦ elim (Result-cases (load net v)) [
      | inl (cfg, f) ↦
          rw (e, handle_reload, reload-ok v m cfg f)
            (
              λ same. (
                f
                    ∙ ap (λ (r : Option Error × ConfigManager). ok r.1.current)
                        (sym (reload-ok v m cfg f)),
                ap (λ (r : Option Error × ConfigManager). r.1.signalled) (reload-ok v m cfg f),
              ),
              λ apart. absurd (apart refl),
            )
      | inr (x, f) ↦
          rw (e, handle_reload, reload-err v m x f)
            (
              λ same. absurd (ground (arith, same)),
              λ apart. ap (λ (r : Option Error × ConfigManager). r.1) (reload-err v m x f),
            )
    ]
  ]
