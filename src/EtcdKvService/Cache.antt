-- ===== src/EtcdKvService/Cache.antt =====
-- What the service of src/etcd_kv_service.cc keeps of the values that it is given.
use ali_middleware.Common.{
  ◌≡◌, refl, inl, inr, Bool, true, false, Option-cases, [], ◌∷◌, if◌then◌else◌,
}
use ali_middleware.Common.Run.{Cmd, ok, thrown, ◌>>◌}
use ali_middleware.Common.Text.{Text, text_eq_refl}
use ali_middleware.EtcdKvService.{
  KvService, cached, get_in_provider, set_in_consumer, connect, cache_at, get, set, new_service,
}

-- Nothing that is set is ever read: a provider's values are stored nowhere, and it cannot get any; a
-- consumer cannot set any.
set-get :
    (is_provider : Bool) (key value : Text) (s : KvService)
    → (set is_provider key value >> get is_provider key) s
      ≡ thrown (if is_provider then get_in_provider else set_in_consumer) s
unfolding set get
set-get true key value s = refl
set-get false key value s = refl

-- A provider's constructor leaves an empty service, whatever its address: what it sets is gone.
new_service-empty :
    (pull_cache : Cmd KvService (Unit {0})) (addr : Text)
    → new_service true pull_cache addr ≡ ok tt (record { cache = [] })
unfolding new_service connect set
new_service-empty pull_cache addr = refl

-- A consumer's second get of a key returns what the first one returned, and changes nothing more.
get-get :
    (key : Text) (s : KvService)
    → (v : Text) × (s' : KvService) × (get false key s ≡ ok v s') × (get false key s' ≡ ok v s')
unfolding get cache_at
get-get key s = elim (Option-cases (cached key s.cache)) [
  | inl missing ↦ (
    [],
    record s { cache = (key, []) ∷ s.cache },
    rw (missing, cache_at) refl,
    rw (text_eq_refl key, cache_at) refl,
  )
  | inr (v, there) ↦ (v, s, rw (there, cache_at) refl, rw (there, cache_at) refl)
]
