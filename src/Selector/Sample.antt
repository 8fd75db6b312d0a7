-- ===== src/Selector/Sample.antt =====
-- Two providers as etcd lists them for src/provider_selector.hpp, for the examples.
use ali_middleware.Common.{ℕ, ◌≡◌, refl, none, List, [], ◌∷◌}
use ali_middleware.Common.Except.{Except, success}
use ali_middleware.Common.ExampleRlib.{example_rlib}
use ali_middleware.Common.Text.{Text, codes}
use ali_middleware.Selector.{
  ProviderInfo, Selector, load_providers, add_provider, check_nonempty, fill_queue, new_selector,
  new_provider, weight,
}

abbrev pub connect : Text → ℕ → Except (Unit {0})
connect addr port = success tt

abbrev pub addrs : List Text
addrs = codes "provider-small:30000" ∷ [] ∷ codes "provider-medium:30001" ∷ []

abbrev pub small : ProviderInfo
small = record {
  hostname = codes "provider-small";
  port = 30000;
  latency = 50000;
  connpool_latency = 1;
}

abbrev pub medium : ProviderInfo
medium = record {
  hostname = codes "provider-medium";
  port = 30001;
  latency = 50000;
  connpool_latency = 1;
}

abbrev pub two : Selector
two = record { providers = small ∷ medium ∷ []; robin_queue = 0 ∷ 1 ∷ 1 ∷ []; curr = none }

pub new_selector-two : new_selector example_rlib connect addrs ≡ success two
unfolding new_selector load_providers add_provider check_nonempty fill_queue weight new_provider
new_selector-two = refl
