-- ===== src/ConnPool/Connect.antt =====
-- The two connecting functions of lib/boost_asio_quick_connect.hpp.
use ali_middleware.Common.{ℕ, Option, none, some, ◌≡◌, refl, inl, inr}
use ali_middleware.Common.Except.{Except, Except-cases, success, failure}
use ali_middleware.Common.Rlib.{Rlib}
use ali_middleware.Common.Run.{Exception}
use ali_middleware.Common.Text.{Text}
use ali_middleware.ConnPool.{Tcp, quick_connect, async_quick_connect}

abbrev pub to_option : {A : Type 0} → Except A → Option A
to_option (success a) = some a
to_option (failure e) = none

-- When no connection can be made to an empty list of endpoints, async_quick_connect has a connection
-- just where quick_connect does; where that throws, it gives an unconnected socket.
pub async_quick_connect-quick_connect :
    {Endpoints Socket : Type 0} (rlib : Rlib) (empty : Endpoints) (net : Tcp Endpoints Socket)
    (addr : Text) (port : ℕ) (refused : Exception)
    → net.connect empty ≡ failure refused
    → async_quick_connect rlib empty net addr port ≡ to_option (quick_connect rlib net addr port)
unfolding quick_connect async_quick_connect
async_quick_connect-quick_connect rlib empty net addr port refused e =
    elim (Except-cases (net.resolve addr (rlib.decimal port))) [
      | inr (x, f) ↦ rw (f, async_quick_connect) (rw e refl)
      | inl (endpoints, f) ↦
          rw (f, async_quick_connect)
            (elim (Except-cases (net.connect endpoints)) [
              | inl (s, g) ↦ rw g refl
              | inr (x, g) ↦ rw g refl
            ])
    ]
