-- ===== src/Selector/Fixed.antt =====
-- The selector of src/provider_selector.hpp in a build with PROVIDER_SELECTOR_NO_USE_ETCD: one fixed
-- provider.
use ali_middleware.Common.{ℕ, List, [], ◌∷◌, ◌≡◌, refl, Option, some}
use ali_middleware.Common.Except.{Except, success, ◌>>=◌}
use ali_middleware.Common.Run.{Cmd, ok, fault}
use ali_middleware.Common.Text.{Text}
use ali_middleware.Selector.{ProviderInfo, new_provider}

-- The members are the providers alone; `connect` fills the provider's connection pool.
pub new_fixed_selector :
    (Text → ℕ → Except (Unit {0}))
    → (debug_server_addr : Text) (debug_server_port : ℕ) → Except (List ProviderInfo)
new_fixed_selector connect addr port =
    connect addr port >>= λ _. success (new_provider addr port ∷ [])

-- `&*providers.begin()`
pub fixed_query_once : Cmd (List ProviderInfo) (Option ℕ)
fixed_query_once [] = fault
fixed_query_once (p ∷ ps) = ok (some 0) (p ∷ ps)

-- A selector that was built names its provider to every query.
pub new_fixed_selector-query :
    (connect : Text → ℕ → Except (Unit {0})) (addr : Text) (port : ℕ)
    → connect addr port ≡ success tt
    → new_fixed_selector connect addr port >>= (λ ps. success (fixed_query_once ps))
      ≡ success (ok (some 0) (new_provider addr port ∷ []))
unfolding new_fixed_selector fixed_query_once
new_fixed_selector-query connect addr port up = rw up refl
