-- ===== src/EtcdService/Tests.antt =====
-- Registrations (src/etcd_service.cc) with a server that holds one key.
use ali_middleware.Common.{◌≡◌, ◌≢◌, refl, Option, some, [], ◌∷◌, ◌++◌}
use ali_middleware.Common.ExampleRlib.{example_rlib}
use ali_middleware.Common.Rlib.{IsParts}
use ali_middleware.Common.Run.{ok}
use ali_middleware.Common.Text.{Text, codes}
use ali_middleware.EtcdService.{sync_get, get_list}
use ali_middleware.EtcdService.OneKey.{one_key}
use ali_middleware.EtcdService.Register.{Keeps, append_both, append_both-lost}

abbrev server : Text
server = codes "server"

cons_ne : (c : _) (s : Text) → c ∷ s ≢ []
cons_ne c s e = cc

a-IsParts : IsParts b'|' (codes "a:1" ∷ [])
a-IsParts = (cons_ne _ _, refl, tt)

b-IsParts : IsParts b'|' (codes "b:2" ∷ [])
b-IsParts = (cons_ne _ _, refl, tt)

kept : Keeps one_key example_rlib server (codes "a:1" ∷ []) (some (codes "a:1"))
unfolding sync_get
kept = refl

append_both-lost_example :
    (s' : Option Text) × (append_both one_key example_rlib server
        (codes "c:3")
        (codes "b:2")
        (some (codes "a:1"))
      ≡ ok tt s')
    × (get_list one_key example_rlib server s' ≡ ok ((codes "a:1" ∷ []) ++ codes "b:2" ∷ []) s')
append_both-lost_example =
    append_both-lost one_key example_rlib server (codes "a:1" ∷ []) (codes "c:3") (codes "b:2")
      (some (codes "a:1")) a-IsParts b-IsParts kept refl refl
