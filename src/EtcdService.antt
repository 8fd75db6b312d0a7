-- ===== src/EtcdService.antt =====
-- src/etcd_service.hpp and src/etcd_service.cc: the list of provider agents in etcd.
pub mod OneKey
pub mod Register
mod Tests
use ali_middleware.Common.{ℕ, ◌≡◌, ◌++◌, Bool, true, false, String, List, [], ◌∷◌, if◌then◌else◌}
use ali_middleware.Common.Rlib.{Rlib}
use ali_middleware.Common.Run.{Run, Cmd, Exception, runtime_error, ok, pure, throw, ◌>>=◌, ◌>>◌}
use ali_middleware.Common.Text.{Text, codes, text_eq, is_empty}

-- `etcd::Response`, of which `value().as_string()` is kept.
pub record EtcdResponse : Type 0 where
  pub is_ok : Bool
  pub error_message : Text
  pub value : Text

-- The etcd client with the server behind it: `get(key).get()` and `set(key, value).get()`.
pub record EtcdClient : Type 1 where
  pub Store : Type 0
  pub get : Text → Store → EtcdResponse
  pub set : Text → Text → Store → EtcdResponse × Store
  -- What was set is read.
  pub get-set :
      (key value : Text) (s : Store)
      → (set key value s).0.is_ok ≡ true
      → ((get key (set key value s).1).is_ok ≡ true) × ((get key (set key value s).1).value ≡ value)

module _ (etcd : EtcdClient) where
  open etcd use {Store, get, set}

  abbrev pub get_failed : Exception
  get_failed = runtime_error "etcd_cli sync_get failed."

  abbrev pub set_failed : Exception
  set_failed = runtime_error "etcd_cli sync_set failed."

  -- A key that is not there reads as the empty string.
  unfoldable pub sync_get : Text → Cmd Store Text
  sync_get key s =
      let resp = get key s in
      if resp.is_ok
      then ok resp.value s
      else if text_eq resp.error_message (codes "Key not found")
      then ok [] s
      else throw get_failed s

  -- The previous value, which it returns, is dropped by its only caller.
  pub sync_set : Text → Text → Cmd Store (Unit {0})
  sync_set key value s =
      let (resp, s') = set key value s in if resp.is_ok then ok tt s' else throw set_failed s'

  -- What `append` makes of the value that it has read.
  pub appended : Text → Text → Text
  appended origin_val value = (if is_empty origin_val then [] else origin_val ++ b'|' ∷ []) ++ value

  pub append : Text → Text → Cmd Store (Unit {0})
  append key value = do origin_val ← sync_get key; sync_set key (appended origin_val value)

  pub get_list : Rlib → Text → Cmd Store (List Text)
  get_list rlib key = do v ← sync_get key; pure (rlib.split v b'|')
