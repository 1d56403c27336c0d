-- ===== src/Command.antt =====
-- cmd/fastVIP/main.go: the commands `once` and `start`. What viper reads of the section of the log, the logger
-- library, and the opening of netlink and of iptables are parameters; the flags are cobra's.
pub mod Once
use fast_vip.Prelude.{
  Bool, String, ℤ, pos, false, List, Option, none, some, MapRange, Error, panic, wrap, Result, ok,
  err, ◌>>=◌, in_context, wrap_error,
}
use fast_vip.Net.{Net}
use fast_vip.Config.{LogConfig}
use fast_vip.Config.Manager.{Viper, new_manager}
use fast_vip.Lvs.Reconciler.{ReconcileError}
use fast_vip.Server.{Platform, Server, new_server, begin}
use fast_vip.Server as Daemon
use fast_vip.Server.Events.{Event, run, shutdown}

-- What ReadInConfig and Unmarshal give of the section global.log.
pub record LogViper : Type 0 where
  pub read_in_config : Option Error
  pub unmarshal : Result LogConfig

-- `config.LogConfig{}`
abbrev pub zero_log : LogConfig
zero_log = record {
  traffic = record { enabled = none; interval = "" };
  level = "";
  home = "";
  max_size = pos 0;
  max_backups = pos 0;
  max_age = pos 0;
  compress = false;
}

unfoldable pub load_log_config : LogViper → Result LogConfig
load_log_config v = elim v.read_in_config [
  | some e ↦ err (wrap "failed to read config file" e)
  | none ↦ in_context "failed to unmarshal config" v.unmarshal
]

-- Both commands go on with the zero value if the section cannot be read.
unfoldable pub log_config : LogViper → LogConfig
log_config v = elim (load_log_config v) [ err e ↦ zero_log | ok cfg ↦ cfg ]

-- What a command finds outside: `build_loggers` is logutil.BuildLoggers.
pub record Host (H S N L : Type 0) : Type 0 where
  pub platform : Platform H S N L
  pub build_loggers : LogConfig → Option Error
  pub open_ipvs : Result H
  pub open_rules : Result S
  pub listeners : L

-- The error of a command. That of a pass is under "reconcile failed".
pub data Failure : Type 0 where
  setup_failed : Error → Failure
  reconcile_failed : ReconcileError → Failure

-- `logger.Fatal` and a panic end the process, and otherwise the command returns.
pub data Ending : Type 0 where
  fatal : Error → Ending
  panicked : String → Ending
  returned : Option Error → Ending

abbrev pub ending_of : Error → Ending
ending_of (panic text) = panicked text
ending_of e = returned (some e)

abbrev pub failure_of : Option ReconcileError → Option Failure
failure_of none = none
failure_of (some e) = some (reconcile_failed e)

module _ {H S N L : Type 0} (net : Net) (rng : MapRange) (host : Host H S N L) where
  -- NewServer, with NewManager of pkg/lvs: the handle is opened before the configuration is
  -- loaded, and the rule manager after it.
  unfoldable pub create_server : Viper → Result (Server H S N L)
  create_server v =
      in_context "failed to initialize IPVS manager"
        (in_context "failed to create ipvs handle" host.open_ipvs)
      >>= λ h. elim host.open_rules [
        | err e ↦ in_context "failed to initialize config manager" (new_manager net v) >>= λ cfg.
            err (wrap "failed to initialize SNAT manager" e)
        | ok s ↦ new_server net rng host.platform v h s host.listeners
      ]

  -- runOnce, with the server as it is at the end if there was one.
  unfoldable pub once : LogViper → Viper → Option Failure × Option (Server H S N L)
  once lv v = elim (host.build_loggers (log_config lv)) [
    | some e ↦ (some (setup_failed (wrap "failed to build loggers" e)), none)
    | none ↦ elim (create_server v) [
      | err e ↦ (some (setup_failed (wrap "failed to create server" e)), none)
      | ok srv ↦
          let done = Daemon.run_once net rng host.platform srv in (failure_of done.0, some done.1)
    ]
  ]

  -- startDaemon: the events are those until the signal that ends the main loop.
  unfoldable pub start_daemon : LogViper → Viper → List Event → Ending × Option (Server H S N L)
  start_daemon lv v events = elim (host.build_loggers (log_config lv)) [
    | some e ↦ (fatal e, none)
    | none ↦ elim (create_server v) [
      | err e ↦ (fatal e, none)
      | ok srv ↦
          let begun = begin net rng host.platform srv in
          let ended = shutdown net rng host.platform (run net rng host.platform events begun.1) in
          elim begun.0 [ some e ↦ (ending_of e, some begun.1) | none ↦ (returned none, some ended) ]
    ]
  ]
