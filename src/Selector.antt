-- ===== src/Selector.antt =====
-- src/provider_selector.hpp, class provider_selector: the list of providers and the weighted round
-- robin over it.
mod Tests
pub mod Build
pub mod Fixed
pub mod Load
pub mod Query
pub mod Race
pub mod Rounds
pub mod Sample
use ali_middleware.Common.{
  ℕ, zero, suc, ◌+◌, ◌-◌, Option, none, some, List, [], ◌∷◌, ◌++◌, length, get_elem?, ltb, ◌==◌,
  if◌then◌else◌,
}
use ali_middleware.Common.Except.{Except, success, failure, ◌>>=◌}
use ali_middleware.Common.Rlib.{Rlib}
use ali_middleware.Common.Run.{Run, Cmd, Exception, runtime_error, ok, fault}
use ali_middleware.Common.Text.{Text, codes, text_eq, is_empty}

-- The part of `provider_info` that selection reads and writes; latencies are uint32_t microseconds.
pub record ProviderInfo : Type 0 where
  pub hostname : Text
  pub port : ℕ
  pub latency : ℕ
  pub connpool_latency : ℕ

-- The members that the constructor of `provider_info` sets.
pub new_provider : Text → ℕ → ProviderInfo
new_provider addr port = record {
  hostname = addr;
  port = port;
  latency = 50000;
  connpool_latency = 1;
}

abbrev pub bad_address : Exception
bad_address = runtime_error "Bad server_addr from etcd."

abbrev pub no_provider : Exception
no_provider = runtime_error "No provider available. Unable to provide service..."

abbrev pub unknown_provider : Exception
unknown_provider = runtime_error "naive robin found unknown provider."

module _ (rlib : Rlib) (connect : Text → ℕ → Except (Unit {0})) where
  -- One round of the loop over the addresses; `connect` fills the provider's connection pool.
  pub add_provider : List Text → Except ProviderInfo
  add_provider (addr ∷ port ∷ []) = do
    p ← rlib.as_uint16 port
    connect addr p >>= λ _. success (new_provider addr p)
  add_provider _ = failure bad_address

  pub load_providers : List Text → Except (List ProviderInfo)
  load_providers [] = success []
  load_providers (addr ∷ addrs) =
      if is_empty addr
      then load_providers addrs
      else do p ← add_provider (rlib.split addr b':'); ps ← load_providers addrs; success (p ∷ ps)

-- How often a provider stands in the queue.
pub weight : Text → Option ℕ
weight host =
    if text_eq host (codes "provider-small")
    then some 1
    else if text_eq host (codes "provider-medium")
    then some 2
    else if text_eq host (codes "provider-large")
    then some 3
    else none

abbrev pub repeated : ℕ → ℕ → List ℕ → List ℕ
repeated zero i rest = rest
repeated (suc n) i rest = i ∷ repeated n i rest

-- The queue over the providers from index `i` on; a pointer to a provider is its index.
pub fill_queue : ℕ → List ProviderInfo → Except (List ℕ)
fill_queue i [] = success []
fill_queue i (p ∷ ps) = elim (weight p.hostname) [
  | none ↦ failure unknown_provider
  | some n ↦ do rest ← fill_queue (suc i) ps; success (repeated n i rest)
]

-- `curr` is the static iterator of `query_once`, as a position in the queue; none before the first
-- call, and the queue's length at end().
pub record Selector : Type 0 where
  pub providers : List ProviderInfo
  pub robin_queue : List ℕ
  pub curr : Option ℕ

check_nonempty : List ProviderInfo → Except (List ProviderInfo)
check_nonempty [] = failure no_provider
check_nonempty (p ∷ ps) = success (p ∷ ps)

-- The constructor, given what etcd answers for the key "server".
pub new_selector : Rlib → (Text → ℕ → Except (Unit {0})) → List Text → Except Selector
new_selector rlib connect addrs = do
  loaded ← load_providers rlib connect addrs
  ps ← check_nonempty loaded
  queue ← fill_queue 0 ps
  success (record { providers = ps; robin_queue = queue; curr = none })

-- `*curr`
pub provider_at : Selector → ℕ → Option (ℕ × ProviderInfo)
provider_at s c = elim (get_elem? s.robin_queue c) [
  | none ↦ none
  | some i ↦ elim (get_elem? s.providers i) [ none ↦ none | some p ↦ some (i, p) ]
]

abbrev pub set_pool_latency : ℕ → ℕ → List ProviderInfo → List ProviderInfo
set_pool_latency i l [] = []
set_pool_latency zero l (p ∷ ps) = record p { connpool_latency = l } ∷ ps
set_pool_latency (suc i) l (p ∷ ps) = p ∷ set_pool_latency i l ps

-- `curr_pool_latency > 51427 ? (curr_pool_latency - 51427) : 1`
pub cooled : ℕ → ℕ
cooled l = if ltb 51427 l then l - 51427 else 1

-- Behind the loop: the provider at `curr` cools down, and null is returned.
pub give_up : ℕ → ℕ → Cmd Selector (Option ℕ)
give_up c l s = elim (provider_at s c) [
  | none ↦ fault
  | some (i, p) ↦
      ok none
        (record s { providers = set_pool_latency i (cooled l) s.providers; curr = some (suc c) })
]

-- The loop with `rounds` tests left, at the iterator `c`.
pub query_loop : (rounds c l : ℕ) → Cmd Selector (Option ℕ)
query_loop zero c l s = give_up c l s
query_loop (suc k) c l s =
    let here = (if c == length s.robin_queue then 0 else c) in
    elim (provider_at s here) [
      | none ↦ fault
      | some (i, p) ↦
          let again = query_loop k here p.connpool_latency s in
          if ltb p.connpool_latency 10000
          then ok (some i) (record s { curr = some (suc here) })
          else again
    ]

unfoldable pub start_at : Option ℕ → ℕ
start_at none = 0
start_at (some c) = c

pub query_once : Cmd Selector (Option ℕ)
query_once s = query_loop (length s.robin_queue) (start_at s.curr) 1 s
