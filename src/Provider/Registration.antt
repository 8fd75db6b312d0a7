-- ===== src/Provider/Registration.antt =====
-- How provider agents (src/provider_agent.cc, the constructor) reach a consumer agent's selector
-- (src/provider_selector.hpp, the constructor) through etcd (src/etcd_service.cc).
use ali_middleware.Common.{
  All, ℕ, ◌<◌, ◌≡◌, ◌≢◌, refl, ◌∙◌, ap, inr, true, false, List, [], ◌∷◌, ◌++◌, map, append_assoc,
  append-nil, arith, if◌then◌else◌, ◌^◌,
}
use ali_middleware.Common.Except.{Except, success}
use ali_middleware.Common.Rlib.{Rlib, IsParts}
use ali_middleware.Common.Run.{Cmd, ok, thrown, pure, ◌>>◌}
use ali_middleware.Common.Text.{Text, codes, contains, contains-append, is_empty}
use ali_middleware.Consumer.{Agent}
use ali_middleware.Consumer.Startup.{new_consumer, new_consumer-listed}
use ali_middleware.EtcdService.{EtcdClient, get_list}
use ali_middleware.EtcdService.Register.{Keeps, append-get_list, get_list-parts, IsParts-append}
use ali_middleware.Selector.{
  ProviderInfo, new_provider, add_provider, load_providers, unknown_provider,
}
use ali_middleware.Selector.Load.{
  knows_all, selector_of, add_provider-pair, load_providers-cons, load_providers-nil,
  new_selector-loaded,
}
use ali_middleware.Provider.{server_addr, new_agent}

-- What one provider agent registers.
pub record Endpoint : Type 0 where
  pub my_addr : Text
  pub listen_port : ℕ

-- Its name is not empty and has neither of the two dividers, and its port is one.
abbrev pub IsEndpoint : Endpoint → Type 0
IsEndpoint e =
    (e.my_addr ≢ [])
    × (contains b':' e.my_addr ≡ false)
    × (contains b'|' e.my_addr ≡ false)
    × (e.listen_port < 2 ^ 16)

abbrev pub provider_of : Endpoint → ProviderInfo
provider_of e = new_provider e.my_addr e.listen_port

-- The consumer agent with the selector over these providers.
abbrev pub agent_of : List ProviderInfo → Agent
agent_of ps = record { selector = selector_of ps; log = [] }

-- One agent after the other.
abbrev pub register_all : (etcd : EtcdClient) → Rlib → List Endpoint → Cmd etcd.Store (Unit {0})
register_all etcd rlib [] = pure tt
register_all etcd rlib (e ∷ es) =
    new_agent etcd rlib e.my_addr e.listen_port >> register_all etcd rlib es

append-ne-nil : (s : Text) (c : ℕ) (t : Text) → s ++ c ∷ t ≢ []
append-ne-nil [] c t e = cc
append-ne-nil (b ∷ s) c t e = cc

is_empty-append : (s : Text) (c : ℕ) (t : Text) → is_empty (s ++ c ∷ t) ≡ false
is_empty-append [] c t = refl
is_empty-append (b ∷ s) c t = refl

module _ (rlib : Rlib) where
  abbrev pub address : Endpoint → Text
  address e = server_addr rlib e.my_addr e.listen_port

  address-IsParts : (e : Endpoint) → IsEndpoint e → IsParts b'|' (address e ∷ [])
  unfolding server_addr
  address-IsParts e (ne, colon, bar, lt) = (
    append-ne-nil e.my_addr b':' (rlib.decimal e.listen_port),
    contains-append b'|' e.my_addr (b':' ∷ rlib.decimal e.listen_port) bar
        (rlib.contains-decimal e.listen_port b'|' (inr (omega arith))),
    tt,
  )

  addresses-IsParts : (es : List Endpoint) → All IsEndpoint es → IsParts b'|' (map address es)
  addresses-IsParts [] h = tt
  addresses-IsParts (e ∷ es) (h, hs) =
      let (ne, free, _) = address-IsParts e h in (ne, free, addresses-IsParts es hs)

  split-address :
      (e : Endpoint)
      → IsEndpoint e
      → rlib.split (address e) b':' ≡ e.my_addr ∷ rlib.decimal e.listen_port ∷ []
  unfolding server_addr
  split-address e (ne, colon, bar, lt) =
      rlib.split-parts b':' e.my_addr (rlib.decimal e.listen_port ∷ []) (
        ne,
        colon,
        (
          rlib.decimal-ne-nil e.listen_port,
          rlib.contains-decimal e.listen_port b':' (inr (omega arith)),
          tt,
        ),
      )

  is_empty-address : (e : Endpoint) → is_empty (address e) ≡ false
  unfolding server_addr
  is_empty-address e = is_empty-append e.my_addr b':' (rlib.decimal e.listen_port)

  module _ (connect : Text → ℕ → Except (Unit {0}))
      (up : (addr : Text) (port : ℕ) → connect addr port ≡ success tt) where
    load_providers-addresses :
        (es : List Endpoint)
        → All IsEndpoint es
        → load_providers rlib connect (map address es) ≡ success (map provider_of es)
    load_providers-addresses [] h = load_providers-nil rlib connect
    load_providers-addresses (e ∷ es) (h, hs) =
        let added =
          ap (add_provider rlib connect) (split-address e h)
          ∙ add_provider-pair rlib connect e.my_addr (rlib.decimal e.listen_port) e.listen_port
              (rlib.as_uint16-decimal e.listen_port h.3) (up e.my_addr e.listen_port) in
        load_providers-cons rlib connect (address e) (map address es) (provider_of e)
          (map provider_of es) (is_empty-address e) added (load_providers-addresses es hs)

    module _ (etcd : EtcdClient)
        (accepts : (key value : Text) (s : etcd.Store)
          → (etcd.set key value s).0.is_ok ≡ true) where
      register_all-Keeps :
          (es : List Endpoint) (ss : List Text) (s : etcd.Store)
          → All IsEndpoint es
          → IsParts b'|' ss
          → Keeps etcd rlib (codes "server") ss s
          → (s' : etcd.Store) × (register_all etcd rlib es s ≡ ok tt s')
            × Keeps etcd rlib (codes "server") (ss ++ map address es) s'
      unfolding new_agent
      register_all-Keeps [] ss s h parts kept = (s, refl, rw (append-nil ss) kept)
      register_all-Keeps (e ∷ es) ss s (h, hs) parts kept =
          let part = address-IsParts e h in
          let (s₁, e₁, kept₁, _) =
            append-get_list etcd rlib (codes "server") ss (address e) s parts part kept
              (accepts (codes "server") _ s) in
          let (s₂, e₂, kept₂) =
            register_all-Keeps es (ss ++ address e ∷ []) s₁ hs
              (IsParts-append b'|' ss (address e) parts part) kept₁ in
          (s₂, rw e₁ e₂, rw (← append_assoc ss (address e ∷ []) (map address es)) kept₂)

      -- When provider agents with proper names and ports register one after the other under an empty
      -- key of an etcd that takes every value, the consumer agent reads back their addresses in order.
      -- If its connections can be made, its new selector has just these providers, with each in the
      -- queue as often as its weight says; but if one name has no weight, the consumer agent's
      -- constructor throws.
      pub new_agent-new_consumer :
          (e : Endpoint) (es : List Endpoint) (s : etcd.Store)
          → All IsEndpoint (e ∷ es)
          → Keeps etcd rlib (codes "server") [] s
          → let ps = map provider_of (e ∷ es) in
            (s' : etcd.Store) × (register_all etcd rlib (e ∷ es) s ≡ ok tt s')
            × (get_list etcd rlib (codes "server") s' ≡ ok (map address (e ∷ es)) s')
            × (new_consumer etcd rlib connect s'
                ≡ (if knows_all ps then ok (agent_of ps) s' else thrown unknown_provider s'))
      new_agent-new_consumer e es s h kept =
          let (s', registered, kept') = register_all-Keeps (e ∷ es) [] s h tt kept in
          let addrs = map address (e ∷ es) in
          let ps = map provider_of (e ∷ es) in
          let listed =
            get_list-parts etcd rlib (codes "server") (address e) (map address es) s'
              (addresses-IsParts (e ∷ es) h) kept' in
          let made =
            new_selector-loaded rlib connect addrs (provider_of e) (map provider_of es)
              (load_providers-addresses (e ∷ es) h) in
          (
            s',
            registered,
            listed,
            new_consumer-listed etcd rlib connect addrs s' (knows_all ps) (selector_of ps)
                unknown_provider listed made,
          )
