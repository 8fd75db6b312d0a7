-- ===== src/EtcdService/OneKey.antt =====
-- An etcd client with the law that src/etcd_service.cc needs, for concrete runs: it keeps one value.
use ali_middleware.Common.{refl, true, false, Option, none, some, []}
use ali_middleware.Common.Text.{Text, codes}
use ali_middleware.EtcdService.{EtcdResponse, EtcdClient}

abbrev pub get : Text → Option Text → EtcdResponse
get key none = record { is_ok = false; error_message = codes "Key not found"; value = [] }
get key (some v) = record { is_ok = true; error_message = []; value = v }

abbrev pub one_key : EtcdClient
one_key = record {
  Store = Option Text;
  get = get;
  set = λ key v s. (record { is_ok = true; error_message = []; value = [] }, some v);
  get-set = λ key v s e. (refl, refl);
}
