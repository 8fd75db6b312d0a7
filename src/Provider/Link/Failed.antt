-- ===== src/Provider/Link/Failed.antt =====
-- Requests over one connection between the agents (src/provider_selector.hpp, src/provider_agent.cc)
-- behind a failed dubbo call.
use ali_middleware.Common.{Bool, false, ◌==◌}
use ali_middleware.Common.Except.{Except, success, failure}
use ali_middleware.Common.Rlib.{Rlib}
use ali_middleware.Common.Text.{Text}
use ali_middleware.Provider.{RequestResult}
use ali_middleware.Provider.Link.{Link}

-- A dubbo call that neither throws nor has another status.
abbrev pub is_ok : Except RequestResult → Bool
is_ok (failure e) = false
is_ok (success r) = r.status == 20
