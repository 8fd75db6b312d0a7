-- ===== src/Main/Launches.antt =====
-- Which agent src/main.cc starts, and with what.
use ali_middleware.Common.{
  ℕ, zero, suc, ◌<◌, ◌^◌, ◌≡◌, ◌≢◌, refl, sym, ◌∙◌, ap, ◌⊎◌, inl, inr, Bool, true, false,
  Bool-cases, Option, none, some, [], ◌∷◌, ◌++◌, ◌==◌,
}
use ali_middleware.Common.Except.{Except, success, failure, Except-cases, >>=-eq-success, ◌>>=◌}
use ali_middleware.Common.Rlib.{Rlib}
use ali_middleware.Common.Run.{Exception}
use ali_middleware.Common.Text.{Text, codes, text_eq, eq_of_text_eq}
use ali_middleware.Payload.{substr_to, substr_from}
use ali_middleware.Provider.{server_addr}
use ali_middleware.Main.{
  OptParser, ProviderRun, ConsumerRun, Launch, exits, provides, consumes, log_level, port_arg,
  start_provider, start_consumer, start, run_main,
}

substr-append : (n : ℕ) (s : Text) → substr_to n s ++ substr_from n s ≡ s
substr-append zero s = refl
substr-append (suc n) [] = refl
substr-append (suc n) (c ∷ s) = ap (λ t. c ∷ t) (substr-append n s)

module _ (rlib : Rlib) (opt : OptParser) where
  -- An option gives a port number.
  abbrev pub GivesPort : Text → Option Text → ℕ → Type 0
  GivesPort name short port =
      (s : Text) × (opt.get_value_arg name short ≡ success s)
      × (rlib.as_uint16 s ≡ success port)
      × (port < 2 ^ 16)

  port_arg-GivesPort :
      (name : Text) (short : Option Text) (port : ℕ)
      → port_arg rlib opt name short ≡ success port
      → GivesPort name short port
  unfolding port_arg
  port_arg-GivesPort name short port e =
      let (s, e₁, e₂) = >>=-eq-success (opt.get_value_arg name short) _ e in
      (s, e₁, e₂, rlib.as_uint16-lt s port e₂)

  -- Etcd's address is put together from two options.
  abbrev GivesEtcd : Text → Type 0
  GivesEtcd etcd =
      (addr : Text) × (port : ℕ) × (opt.get_value_arg (codes "--etcd") none ≡ success addr)
      × GivesPort (codes "--etcd-port") none port
      × (etcd ≡ server_addr rlib addr port)

  pub record IsProviderRun (r : ProviderRun) : Type 0 where
    pub role : (suffix : Text) × (r.my_addr ≡ codes "provider" ++ suffix)
    pub command : opt.get_command ≡ success r.my_addr
    pub listen : opt.get_value_arg (codes "--listen") (some (codes "-l")) ≡ success r.listen_addr
    pub listen_port : GivesPort (codes "--listen-port") (some (codes "-p")) r.listen_port
    pub provider : opt.get_value_arg (codes "--provider") none ≡ success r.provider_addr
    pub provider_port : GivesPort (codes "--provider-port") none r.provider_port
    pub etcd : GivesEtcd r.etcd_addr_and_port

  pub record IsConsumerRun (r : ConsumerRun) : Type 0 where
    pub command : opt.get_command ≡ success (codes "consumer")
    pub listen : opt.get_value_arg (codes "--listen") (some (codes "-l")) ≡ success r.listen_addr
    pub listen_port : GivesPort (codes "--listen-port") (some (codes "-p")) r.listen_port
    pub etcd : GivesEtcd r.etcd_addr_and_port
    pub threads :
        (s : Text) × (opt.get_value_or (codes "--threads") (codes "1") ≡ success s)
        × (opt.as_int s ≡ success r.threads)

  -- No role: it does not begin with "provider", and is not "consumer".
  abbrev pub IsNoRole : Text → Type 0
  IsNoRole s = ((suffix : Text) → s ≢ codes "provider" ++ suffix) × (s ≢ codes "consumer")

  abbrev pub IsRole : Text → Type 0
  IsRole s = ((suffix : Text) × (s ≡ codes "provider" ++ suffix)) ⊎ (s ≡ codes "consumer")

  -- What an end of `main` behind the tests on its arguments tells of the command line.
  abbrev pub Explains : Launch → Type 0
  Explains (exits status) = (s : Text) × (opt.get_command ≡ success s) × IsNoRole s × (status ≡ 1)
  Explains (provides level r) = IsProviderRun r
  Explains (consumes level r) = IsConsumerRun r

  -- How `main` ends: no argument, help asked for, and the rest.
  abbrev pub Ends : (none_given help : Bool) → Except Launch → Type 0
  Ends true help e = e ≡ success (exits 1)
  Ends false true e = e ≡ success (exits 0)
  Ends false false (success l) = Explains l
  Ends false false (failure x) =
      (opt.get_command ≡ failure x)
      ⊎ (opt.get_value_or (codes "--log") [] ≡ failure x)
      ⊎ ((s : Text) × (opt.get_command ≡ success s) × IsRole s)

  start_provider-Explains :
      (whoami : Text) (l : Launch)
      → text_eq (substr_to 8 whoami) (codes "provider") ≡ true
      → opt.get_command ≡ success whoami
      → (level : _) → start_provider rlib opt whoami level ≡ success l
      → Explains l
  unfolding start_provider
  start_provider-Explains whoami l role command level e =
      let (la, e₁, r₁) =
        >>=-eq-success (opt.get_value_arg (codes "--listen") (some (codes "-l"))) _ e in
      let (lp, e₂, r₂) =
        >>=-eq-success (port_arg rlib opt (codes "--listen-port") (some (codes "-p"))) _ r₁ in
      let (pa, e₃, r₃) = >>=-eq-success (opt.get_value_arg (codes "--provider") none) _ r₂ in
      let (pp, e₄, r₄) = >>=-eq-success (port_arg rlib opt (codes "--provider-port") none) _ r₃ in
      let (ea, e₅, r₅) = >>=-eq-success (opt.get_value_arg (codes "--etcd") none) _ r₄ in
      let (ep, e₆, r₆) = >>=-eq-success (port_arg rlib opt (codes "--etcd-port") none) _ r₅ in
      let made : l
          ≡ provides level (record {
            etcd_addr_and_port = server_addr rlib ea ep;
            my_addr = whoami;
            listen_port = lp;
            provider_addr = pa;
            provider_port = pp;
            listen_addr = la;
          }) =
        cc (r₆) in
      rw made (record {
        role = (
          substr_from 8 whoami,
          sym (substr-append 8 whoami)
              ∙ ap (λ t. t ++ substr_from 8 whoami)
                  (eq_of_text_eq (substr_to 8 whoami) (codes "provider") role),
        );
        command = command;
        listen = e₁;
        listen_port = port_arg-GivesPort _ _ lp e₂;
        provider = e₃;
        provider_port = port_arg-GivesPort _ _ pp e₄;
        etcd = (ea, ep, e₅, port_arg-GivesPort _ _ ep e₆, refl);
      })

  start_consumer-Explains :
      (l : Launch)
      → opt.get_command ≡ success (codes "consumer")
      → (level : _) → start_consumer rlib opt level ≡ success l
      → Explains l
  unfolding start_consumer
  start_consumer-Explains l command level e =
      let (la, e₁, r₁) =
        >>=-eq-success (opt.get_value_arg (codes "--listen") (some (codes "-l"))) _ e in
      let (lp, e₂, r₂) =
        >>=-eq-success (port_arg rlib opt (codes "--listen-port") (some (codes "-p"))) _ r₁ in
      let (ea, e₃, r₃) = >>=-eq-success (opt.get_value_arg (codes "--etcd") none) _ r₂ in
      let (ep, e₄, r₄) = >>=-eq-success (port_arg rlib opt (codes "--etcd-port") none) _ r₃ in
      let (given, e₅, r₅) =
        >>=-eq-success (opt.get_value_or (codes "--threads") (codes "1")) _ r₄ in
      let (n, e₆, r₆) = >>=-eq-success (opt.as_int given) _ r₅ in
      let made : l
          ≡ consumes level (record {
            etcd_addr_and_port = server_addr rlib ea ep;
            threads = n;
            listen_addr = la;
            listen_port = lp;
          }) =
        cc (r₆) in
      rw made (record {
        command = command;
        listen = e₁;
        listen_port = port_arg-GivesPort _ _ lp e₂;
        etcd = (ea, ep, e₃, port_arg-GivesPort _ _ ep e₄, refl);
        threads = (given, e₅, e₆);
      })

  no_provider :
      (s : Text)
      → text_eq (substr_to 8 s) (codes "provider") ≡ false
      → (suffix : Text) → s ≢ codes "provider" ++ suffix
  no_provider s ne suffix e =
      let same : text_eq (substr_to 8 s) (codes "provider") ≡ true =
        ap (λ (t : Text). text_eq (substr_to 8 t) (codes "provider")) e in
      cc

  no_consumer : (s : Text) → text_eq s (codes "consumer") ≡ false → s ≢ codes "consumer"
  no_consumer s ne e =
      let same : text_eq s (codes "consumer") ≡ true =
        ap (λ (t : Text). text_eq t (codes "consumer")) e in
      cc

  start-Explains :
      (whoami : Text) (l : Launch)
      → opt.get_command ≡ success whoami
      → (level : _) → start rlib opt whoami level ≡ success l
      → Explains l
  unfolding start
  start-Explains whoami l command level e =
      elim (Bool-cases (text_eq (substr_to 8 whoami) (codes "provider"))) [
        | inl role ↦ start_provider-Explains whoami l role command level (rw role at e)
        | inr other ↦ elim (Bool-cases (text_eq whoami (codes "consumer"))) [
          | inl same ↦
              start_consumer-Explains l
                (command ∙ ap success (eq_of_text_eq whoami (codes "consumer") same)) level
                (rw (other, same) at e)
          | inr unknown ↦
              let exit : l ≡ exits 1 = cc (rw (other, unknown) at e) in
              rw exit
                (whoami, command, (no_provider whoami other, no_consumer whoami unknown), refl)
        ]
      ]

  -- By the role, where it is none `start` does not throw.
  start-Fails :
      (whoami : Text) (x : Exception) (level : _)
      → start rlib opt whoami level ≡ failure x
      → IsRole whoami
  unfolding start
  start-Fails whoami x level e =
      elim (Bool-cases (text_eq (substr_to 8 whoami) (codes "provider"))) [
        | inl role ↦ inl (
          substr_from 8 whoami,
          sym (substr-append 8 whoami)
              ∙ ap (λ t. t ++ substr_from 8 whoami)
                  (eq_of_text_eq (substr_to 8 whoami) (codes "provider") role),
        )
        | inr other ↦ elim (Bool-cases (text_eq whoami (codes "consumer"))) [
          | inl same ↦ inr (eq_of_text_eq whoami (codes "consumer") same)
          | inr unknown ↦ let exits_1 = rw (other, unknown) at e in absurd (cc)
        ]
      ]

  started :
      (e : Except Launch)
      → (do
        whoami ← opt.get_command
        level ← opt.get_value_or (codes "--log") []
        start rlib opt whoami (log_level level))
        ≡ e
      → Ends false false e
  unfolding start start_provider start_consumer port_arg
  started (success l) e =
      let (whoami, e₁, r₁) = >>=-eq-success opt.get_command _ e in
      let (level, e₂, r₂) = >>=-eq-success (opt.get_value_or (codes "--log") []) _ r₁ in
      start-Explains whoami l e₁ (log_level level) r₂
  started (failure x) e = elim (Except-cases opt.get_command) [
    | inr (y, no_command) ↦
        let same : y ≡ x = cc (rw no_command at e) in inl (no_command ∙ ap failure same)
    | inl (whoami, command) ↦ elim (Except-cases (opt.get_value_or (codes "--log") [])) [
      | inr (y, no_log) ↦
          let same : y ≡ x = cc (rw (command, no_log) at e) in inr (inl (no_log ∙ ap failure same))
      | inl (level, log) ↦
          let run = rw (command, log) at e in
          inr (inr (whoami, command, start-Fails whoami x (log_level level) run))
    ]
  ]

  -- main exits with 1 without any argument, and otherwise with 0 when help is asked for, whatever else
  -- the command line holds. In all other cases it throws, and the command or --log cannot be had or the
  -- command is a role; or it exits with 1, and the command is no role; or it starts a provider agent,
  -- and the command begins with "provider" and is the agent's name; or it starts a consumer agent, and
  -- the command is "consumer". Each argument of an agent is the value of its option, and every port is
  -- below 2^16.
  pub run_main-Ends :
      (argc : ℕ)
      → Ends (argc == 1) (opt.get_bool_arg (codes "--help") (codes "-h")) (run_main rlib opt argc)
  unfolding run_main
  run_main-Ends argc = elim (Bool-cases (argc == 1)) [
    | inl none_given ↦ rw none_given refl
    | inr some_given ↦ elim (Bool-cases (opt.get_bool_arg (codes "--help") (codes "-h"))) [
      | inl help ↦ rw (some_given, help) refl
      | inr no_help ↦ rw (some_given, no_help) (started _ refl)
    ]
  ]
