-- ===== src/Main/Tests.antt =====
-- src/main.cc on two command lines.
use ali_middleware.Common.{◌≡◌, refl, true, false, none, List, [], ◌∷◌}
use ali_middleware.Common.Except.{Except, success, failure}
use ali_middleware.Common.ExampleRlib.{example_rlib, as_uint16}
use ali_middleware.Common.Run.{runtime_error}
use ali_middleware.Common.Text.{Text, codes, text_eq}
use ali_middleware.Provider.{server_addr}
use ali_middleware.Main.{
  OptParser, Launch, exits, provides, log_level, port_arg, start_provider, start, run_main,
}
use ali_middleware.Main.Launches.{Ends, run_main-Ends}

abbrev options : List (Text × Text)
options =
    (codes "--listen", codes "0.0.0.0")
    ∷ (codes "--listen-port", codes "30000")
    ∷ (codes "--provider", codes "127.0.0.1")
    ∷ (codes "--provider-port", codes "20880")
    ∷ (codes "--etcd", codes "etcd")
    ∷ (codes "--etcd-port", codes "2379")
    ∷ []

abbrev find_option : List (Text × Text) → Text → Except Text
find_option [] name = failure (runtime_error "required option")
find_option ((n, v) ∷ rest) name =
    let later = find_option rest name in elim (text_eq n name) [ true ↦ success v | false ↦ later ]

-- A command line with the options above and a role.
abbrev line : Text → OptParser
line role = record {
  get_bool_arg = λ name short. false;
  get_command = success role;
  get_value_arg = λ name short. find_option options name;
  get_value_or = λ name default. success default;
  as_int = as_uint16;
}

abbrev small : Launch
small = provides none (record {
  etcd_addr_and_port = codes "etcd:2379";
  my_addr = codes "provider-small";
  listen_port = 30000;
  provider_addr = codes "127.0.0.1";
  provider_port = 20880;
  listen_addr = codes "0.0.0.0";
})

run_main-small : run_main example_rlib (line (codes "provider-small")) 14 ≡ success small
unfolding run_main start start_provider port_arg log_level server_addr
run_main-small = refl

run_main-other : run_main example_rlib (line (codes "registry")) 14 ≡ success (exits 1)
unfolding run_main start log_level
run_main-other = refl

run_main-Ends_example :
    Ends example_rlib
      (line (codes "provider-small"))
      false
      false
      (run_main example_rlib (line (codes "provider-small")) 14)
run_main-Ends_example = run_main-Ends example_rlib (line (codes "provider-small")) 14
