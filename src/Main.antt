-- ===== src/Main.antt =====
-- src/main.cc: from the command line to the agent that is started.
pub mod Launches
mod Tests
use ali_middleware.Common.{ℕ, Bool, Option, none, some, List, [], ◌∷◌, ◌++◌, ◌==◌, if◌then◌else◌}
use ali_middleware.Common.Except.{Except, success, failure, ◌>>=◌}
use ali_middleware.Common.Rlib.{Rlib}
use ali_middleware.Common.Text.{Text, codes, text_eq}
use ali_middleware.Payload.{substr_to}
use ali_middleware.Provider.{server_addr}

-- rlib::opt_parser behind the parse of the command line: getBoolArg; getCommand; getValueArg of a
-- required option, by its long and, if it has one, its short name; getValueArg of an option with a
-- default; and `as<int>`, whose result is kept as 32 bits.
pub record OptParser : Type 0 where
  pub get_bool_arg : Text → Text → Bool
  pub get_command : Except Text
  pub get_value_arg : Text → Option Text → Except Text
  pub get_value_or : Text → Text → Except Text
  pub as_int : Text → Except ℕ

pub data LogLevel : Type 0 where
  fatal_level info_level debug_level : LogLevel

-- The arguments of provider::agent's constructor and `listen`.
pub record ProviderRun : Type 0 where
  pub etcd_addr_and_port : Text
  pub my_addr : Text
  pub listen_port : ℕ
  pub provider_addr : Text
  pub provider_port : ℕ
  pub listen_addr : Text

-- The arguments of consumer::agent's constructor and `listen`.
pub record ConsumerRun : Type 0 where
  pub etcd_addr_and_port : Text
  pub threads : ℕ
  pub listen_addr : Text
  pub listen_port : ℕ

-- What `main` comes to, unless an exception leaves it.
pub data Launch : Type 0 where
  exits : ℕ → Launch
  provides : Option LogLevel → ProviderRun → Launch
  consumes : Option LogLevel → ConsumerRun → Launch

-- The level that `--log` sets, if it sets one.
pub log_level : Text → Option LogLevel
log_level s =
    if text_eq s (codes "fatal")
    then some fatal_level
    else if text_eq s (codes "info")
    then some info_level
    else if text_eq s (codes "debug")
    then some debug_level
    else none

module _ (rlib : Rlib) (opt : OptParser) where
  pub port_arg : Text → Option Text → Except ℕ
  port_arg name short = do s ← opt.get_value_arg name short; rlib.as_uint16 s

  pub start_provider : Text → Option LogLevel → Except Launch
  start_provider whoami level = do
    listen_addr ← opt.get_value_arg (codes "--listen") (some (codes "-l"))
    listen_port ← port_arg (codes "--listen-port") (some (codes "-p"))
    provider_addr ← opt.get_value_arg (codes "--provider") none
    provider_port ← port_arg (codes "--provider-port") none
    etcd_addr ← opt.get_value_arg (codes "--etcd") none
    etcd_port ← port_arg (codes "--etcd-port") none
    success (
        provides level (record {
          etcd_addr_and_port = server_addr rlib etcd_addr etcd_port;
          my_addr = whoami;
          listen_port = listen_port;
          provider_addr = provider_addr;
          provider_port = provider_port;
          listen_addr = listen_addr;
        }))

  pub start_consumer : Option LogLevel → Except Launch
  start_consumer level = do
    listen_addr ← opt.get_value_arg (codes "--listen") (some (codes "-l"))
    listen_port ← port_arg (codes "--listen-port") (some (codes "-p"))
    etcd_addr ← opt.get_value_arg (codes "--etcd") none
    etcd_port ← port_arg (codes "--etcd-port") none
    given ← opt.get_value_or (codes "--threads") (codes "1")
    threads ← opt.as_int given
    success (
        consumes level (record {
          etcd_addr_and_port = server_addr rlib etcd_addr etcd_port;
          threads = threads;
          listen_addr = listen_addr;
          listen_port = listen_port;
        }))

  -- By the role.
  pub start : Text → Option LogLevel → Except Launch
  start whoami level =
      if text_eq (substr_to 8 whoami) (codes "provider")
      then start_provider whoami level
      else if text_eq whoami (codes "consumer")
      then start_consumer level
      else success (exits 1)

  pub run_main : ℕ → Except Launch
  run_main argc =
      if argc == 1
      then success (exits 1)
      else if opt.get_bool_arg (codes "--help") (codes "-h")
      then success (exits 0)
      else (do
        whoami ← opt.get_command
        level ← opt.get_value_or (codes "--log") []
        start whoami (log_level level))
