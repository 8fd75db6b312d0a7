-- ===== src/EtcdKvService.antt =====
-- src/etcd_kv_service.hpp and src/etcd_kv_service.cc: a deprecated template over whether the agent is a
-- provider, which no target builds.
pub mod Cache
use ali_middleware.Common.{Bool, Option, none, some, List, [], ◌∷◌, not, if◌then◌else◌}
use ali_middleware.Common.Run.{Run, Cmd, Exception, invalid_argument, ok, pure, throw, ◌>>◌}
use ali_middleware.Common.Text.{Text, codes, text_eq}

-- The cache, an unordered_map, as its entries.
pub record KvService : Type 0 where
  pub cache : List (Text × Text)

abbrev pub cached : Text → List (Text × Text) → Option Text
cached key [] = none
cached key ((k, v) ∷ rest) = if text_eq k key then some v else cached key rest

abbrev pub get_in_provider : Exception
get_in_provider = invalid_argument "You must not call etcd_kv_service::get in provider."

abbrev pub set_in_consumer : Exception
set_in_consumer = invalid_argument "You must not call etcd_kv_service::set in consumer."

-- The body is a comment.
pub connect : Text → Cmd KvService (Unit {0})
connect etcd_addr_and_port = pure tt

-- `cache[key]`, which makes an empty entry for a key that is not there.
pub cache_at : Text → Cmd KvService Text
cache_at key s = elim (cached key s.cache) [
  | none ↦ ok [] (record s { cache = (key, []) ∷ s.cache })
  | some v ↦ ok v s
]

pub get : Bool → Text → Cmd KvService Text
get is_provider key = if is_provider then throw get_in_provider else cache_at key

-- Behind the test there are comments only.
pub set : Bool → Text → Text → Cmd KvService (Unit {0})
set is_provider key value = if not is_provider then throw set_in_consumer else pure tt

-- The constructor, given `pull_cache`, which is declared and has no body.
pub new_service : Bool → Cmd KvService (Unit {0}) → Text → Run KvService (Unit {0})
new_service is_provider pull_cache etcd_addr_and_port =
    (connect etcd_addr_and_port
        >> (if is_provider
            then set is_provider (codes "providers") (codes "my_addr:my_port")
            else pull_cache))
      (record { cache = [] })
