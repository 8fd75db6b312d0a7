-- ===== src/Dubbo/Ids.antt =====
-- The request ids of the dubbo client of lib/dubbo_client.hpp.
use ali_middleware.Common.{ℕ, zero, suc, ◌+◌, ◌%◌, ◌^◌, ◌<◌, ◌≡◌, subst, arith}
use ali_middleware.Common.Except.{Except}
use ali_middleware.Common.Rlib.{Rlib}
use ali_middleware.Common.Run.{Run, ok, thrown, fault, out_of_fuel}
use ali_middleware.Common.Text.{Text}
use ali_middleware.Dubbo.{Client, Server, request_payload, new_client, async_request}
use ali_middleware.Dubbo.Call.{Leaves, Ends, Ends-id, async_request-released}

Leaves-at :
    {A : Type 0} (P : Client → Type 0) (r : Run Client A) (u : Client)
    → Leaves P r
    → Leaves (λ s. s ≡ u) r
    → P u
Leaves-at P (ok a s) u h e = subst P e h
Leaves-at P (thrown x s) u h e = subst P e h
Leaves-at P fault u h e = absurd h
Leaves-at P out_of_fuel u h e = absurd h

-- A step of the id, and the number of requests before it.
id-suc : (a n b c : ℕ) → b ≡ (a + n) % 2 ^ 64 → c ≡ (b + 1) % 2 ^ 64 → c ≡ (a + suc n) % 2 ^ 64
id-suc a n b c e e' = omega arith

module _ (rlib : Rlib) (as_int : Text → Except ℕ) where
  -- Requests in a row, each with what its connection brings and its errors; each returns or throws.
  pub data Requests (s : Client) : ℕ → Client → Type 0 where
    here : Requests s zero s
    next :
        (n : ℕ) (t u : Client) (server : Server) (incoming a0 a1 a2 a3 : Text)
        → Requests s n t
        → Leaves
            (λ v. v ≡ u)
            (async_request rlib as_int server a0 a1 a2 a3 (record t { incoming = incoming }))
        → Requests s (suc n) u

  Requests-id :
      (s : Client) (n : ℕ) (t : Client)
      → s.curr_request_id < 2 ^ 64
      → Requests s n t
      → t.curr_request_id ≡ (s.curr_request_id + n) % 2 ^ 64
  Requests-id s n t lt here = ground arith
  Requests-id s n t lt (next m t' u server incoming a0 a1 a2 a3 before leaves) =
      let s₁ = record t' { incoming = incoming } in
      let id = t'.curr_request_id in
      let run = async_request rlib as_int server a0 a1 a2 a3 s₁ in
      let next_id =
        Leaves-at (λ v. v.curr_request_id ≡ (id + 1) % 2 ^ 64) run u
          (Ends-id server.borrow_error id (request_payload a0 a1 a2 a3) s₁ run
            (async_request-released rlib as_int server a0 a1 a2 a3 s₁))
          leaves in
      id-suc s.curr_request_id m id u.curr_request_id (Requests-id s m t' lt before) next_id

  -- Behind `n` requests of a new client, whichever of them threw, the next one has the id
  -- 0x1998427 + n, modulo 2^64. What the pool throws instead of lending a connection, that request
  -- throws, and nothing but the use of the id is left of it; otherwise it returns or throws, and writes
  -- its header under that id, with its payload at most behind it, between the borrowing and the release
  -- of its connection.
  pub Requests-Sends :
      (n : ℕ) (t : Client)
      → Requests new_client n t
      → (server : Server) (incoming a0 a1 a2 a3 : Text)
      → let s₁ = record t { incoming = incoming } in
        Ends server.borrow_error
          ((26838055 + n) % 2 ^ 64)
          (request_payload a0 a1 a2 a3)
          s₁
          (async_request rlib as_int server a0 a1 a2 a3 s₁)
  unfolding new_client
  Requests-Sends n t before server incoming a0 a1 a2 a3 =
      let s₁ = record t { incoming = incoming } in
      subst
        (λ id.
          Ends server.borrow_error id (request_payload a0 a1 a2 a3) s₁
            (async_request rlib as_int server a0 a1 a2 a3 s₁))
        (Requests-id new_client n t (omega arith) before)
        (async_request-released rlib as_int server a0 a1 a2 a3 s₁)
