-- ===== src/Consumer/Startup.antt =====
-- src/consumer_agent.hpp, the constructor: a selector over what etcd lists.
use ali_middleware.Common.{ℕ, Bool, true, false, List, [], ◌≡◌, ◌∙◌, ap, if◌then◌else◌}
use ali_middleware.Common.Except.{Except, success, failure}
use ali_middleware.Common.Rlib.{Rlib}
use ali_middleware.Common.Run.{Cmd, Exception, ok, thrown, and_then, ◌>>=◌}
use ali_middleware.Common.Text.{Text, codes}
use ali_middleware.EtcdService.{EtcdClient, get_list}
use ali_middleware.Selector.{Selector, new_selector}
use ali_middleware.Consumer.{Agent}

-- With nothing done yet, unless the selector's constructor throws.
pub over : {S : Type 0} → Except Selector → Cmd S Agent
over (success selector) s = ok (record { selector = selector; log = [] }) s
over (failure e) s = thrown e s

pub new_consumer :
    (etcd : EtcdClient) → Rlib → (Text → ℕ → Except (Unit {0})) → Cmd etcd.Store Agent
new_consumer etcd rlib connect = do
  addr_list ← get_list etcd rlib (codes "server")
  over (new_selector rlib connect addr_list)

over-cases :
    {S : Type 0} (b : Bool) (x : Selector) (e : Exception) (m : Except Selector) (s : S)
    → m ≡ (if b then success x else failure e)
    → over m s ≡ (if b then ok (record { selector = x; log = [] }) s else thrown e s)
unfolding over
over-cases true x e m s eq = ap (λ m. over m s) eq
over-cases false x e m s eq = ap (λ m. over m s) eq

-- By what etcd lists and what the selector's constructor makes of it.
pub new_consumer-listed :
    (etcd : EtcdClient) (rlib : Rlib) (connect : Text → ℕ → Except (Unit {0})) (addrs : List Text)
    (s : etcd.Store) (b : Bool) (x : Selector) (e : Exception)
    → get_list etcd rlib (codes "server") s ≡ ok addrs s
    → new_selector rlib connect addrs ≡ (if b then success x else failure e)
    → new_consumer etcd rlib connect s
      ≡ (if b then ok (record { selector = x; log = [] }) s else thrown e s)
unfolding new_consumer
new_consumer-listed etcd rlib connect addrs s b x e listed made =
    ap (λ r. and_then r (λ addrs. over (new_selector rlib connect addrs))) listed
    ∙ over-cases b x e (new_selector rlib connect addrs) s made
