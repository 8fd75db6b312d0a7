-- ===== src/Selector/Tests.antt =====
-- The selector of src/provider_selector.hpp over two providers.
use ali_middleware.Common.{ℕ, ◌*◌, arith, ◌≡◌, refl, none, some, List, [], ◌∷◌, map, get_elem?}
use ali_middleware.Common.ExampleRlib.{example_rlib}
use ali_middleware.Common.Run.{ok, fault}
use ali_middleware.Selector.{ProviderInfo, Selector, query_once, provider_at, start_at, weight}
use ali_middleware.Selector.Build.{count, new_selector-IsFresh}
use ali_middleware.Selector.Query.{IsWell, IsFresh-IsWell, query_once-IsWell, place, answer, moved}
use ali_middleware.Selector.Race.{enter, interleave}
use ali_middleware.Selector.Race.Fault.{clash, clash-fault}
use ali_middleware.Selector.Sample.{connect, addrs, small, two, new_selector-two}
use ali_middleware.Selector.Rounds.{queries, fair_share}

query_once-IsWell_example :
    (i : ℕ) × (p : ProviderInfo) × (provider_at two (place two) ≡ some (i, p))
    × (query_once two ≡ ok (answer i p) (moved two i p))
    × IsWell (moved two i p)
query_once-IsWell_example =
    query_once-IsWell two
      (IsFresh-IsWell two (new_selector-IsFresh example_rlib connect addrs two new_selector-two))

fair_share_example :
    (picks : List ℕ) × (s' : Selector) × (queries (5 * 3) two ≡ ok (map some picks) s')
    × ((j : ℕ) (p : ProviderInfo)
        → get_elem? two.providers j ≡ some p
        → (w : ℕ) × (weight p.hostname ≡ some w) × (count j picks ≡ 5 * w))
fair_share_example = fair_share example_rlib connect addrs two new_selector-two 5

-- The first two queries of a consumer agent with one small provider.
clash-fault_example :
    interleave clash enter enter
      (record { providers = small ∷ []; robin_queue = 0 ∷ []; curr = none })
    ≡ fault
unfolding start_at
clash-fault_example = clash-fault (small ∷ []) (0 ∷ []) none 0 small refl refl refl (omega arith)
