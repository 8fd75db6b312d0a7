-- ===== src/Dubbo/Call.antt =====
-- The calls of lib/dubbo_client.hpp: what they return, and that they release their connection.
use ali_middleware.Common.{
  ℕ, ◌+◌, ◌*◌, ◌%◌, ◌^◌, ◌≡◌, refl, sym, subst, ◌∙◌, ap, inl, inr, ◌⊎◌, String, Bool-cases, Option,
  none, some, List, [], ◌∷◌, ◌++◌, append_laws, length, ltb, ◌==◌,
}
use ali_middleware.Common.Except.{Except, success, failure}
use ali_middleware.Common.Rlib.{Rlib}
use ali_middleware.Common.Run.{Exception, and_then, Run, ok, thrown, fault, out_of_fuel}
use ali_middleware.Common.Text.{Text}
use ali_middleware.Dubbo.{
  DubboHeader, header_bytes, header_of, swap32, request_payload, request_header, Io, borrowed,
  released, wrote, Client, Server, check_write, read_all, raised, read_result, talk,
  take_request_id, borrow_conn, releasing, async_request,
}

-- The run returns or throws, and the client behind it has the property.
abbrev pub Leaves : {A : Type 0} → (Client → Type 0) → Run Client A → Type 0
Leaves P (ok a s) = P s
Leaves P (thrown e s) = P s
Leaves P fault = ⊥
Leaves P out_of_fuel = ⊥

-- What one request under this id does to the client over a borrowed connection.
abbrev pub Sends : ℕ → Text → Client → Client → Type 0
Sends id payload s u =
    let header = wrote (header_bytes (request_header id payload)) in
    (mid : List Io) × ((mid ≡ header ∷ []) ⊎ (mid ≡ header ∷ wrote payload ∷ []))
    × (u.log ≡ ((s.log ++ borrowed ∷ []) ++ mid) ++ released ∷ [])
    × (u.curr_request_id ≡ (s.curr_request_id + 1) % 2 ^ 64)

-- How one request under this id ends, by what the pool throws.
abbrev pub Ends : {A : Type 0} → Option Exception → ℕ → Text → Client → Run Client A → Type 0
Ends (some x) id payload s r =
    r ≡ thrown x (record s { curr_request_id = (s.curr_request_id + 1) % 2 ^ 64 })
Ends none id payload s r = Leaves (Sends id payload s) r

Leaves-mono :
    {A : Type 0} (P Q : Client → Type 0) (r : Run Client A)
    → ((s : Client) → P s → Q s)
    → Leaves P r
    → Leaves Q r
Leaves-mono P Q (ok a s) f h = f s h
Leaves-mono P Q (thrown e s) f h = f s h
Leaves-mono P Q fault f h = h
Leaves-mono P Q out_of_fuel f h = h

-- The next id is one higher, whatever the pool throws.
pub Ends-id :
    {A : Type 0} (b : Option Exception) (id : ℕ) (payload : Text) (s : Client) (r : Run Client A)
    → Ends b id payload s r
    → Leaves (λ u. u.curr_request_id ≡ (s.curr_request_id + 1) % 2 ^ 64) r
Ends-id (some x) id payload s r e =
    subst (Leaves (λ u. u.curr_request_id ≡ (s.curr_request_id + 1) % 2 ^ 64)) (sym e) refl
Ends-id none id payload s r h = Leaves-mono _ _ r (λ u (mid, either, log, next). next) h

Leaves-and_then :
    {A B : Type 0} (P : Client → Type 0) (r : Run Client A) (k : A → Client → Run Client B)
    → Leaves P r
    → ((a : A) (s : Client) → P s → Leaves P (k a s))
    → Leaves P (and_then r k)
Leaves-and_then P (ok a s) k h f = f a s h
Leaves-and_then P (thrown e s) k h f = h
Leaves-and_then P fault k h f = h
Leaves-and_then P out_of_fuel k h f = h

-- Only the incoming bytes have changed.
abbrev Kept : Client → Client → Type 0
Kept s s' = (s'.curr_request_id ≡ s.curr_request_id) × (s'.log ≡ s.log)

raised-Kept :
    {A : Type 0} (m : Except A) (s₀ s : Client) → Kept s₀ s → Leaves (Kept s₀) (raised m s)
unfolding raised
raised-Kept (success a) s₀ s h = h
raised-Kept (failure e) s₀ s h = h

read_all-Kept :
    (ec : String) (n : ℕ) (s₀ s : Client) → Kept s₀ s → Leaves (Kept s₀) (read_all ec n s)
unfolding read_all
read_all-Kept ec n s₀ s h = elim (Bool-cases (ltb (length s.incoming) n)) [
  | inl short ↦ rw short h
  | inr full ↦ rw full h
]

module _ (rlib : Rlib) (as_int : Text → Except ℕ) where
  read_result-Kept :
      (ec : String) (h : DubboHeader) (s₀ s : Client)
      → Kept s₀ s
      → Leaves (Kept s₀) (read_result rlib as_int ec h s)
  unfolding read_result
  read_result-Kept ec h s₀ s k =
      elim (Bool-cases (ltb (1024 * 1024 * 1024) (swap32 h.data_length))) [
        | inl long ↦ rw (long, read_result) k
        | inr short ↦
            rw (short, read_result)
              (Leaves-and_then (Kept s₀) (read_all ec (swap32 h.data_length) s) _
                (read_all-Kept ec (swap32 h.data_length) s₀ s k)
                (λ payload s₁ k₁. elim (Bool-cases (h.magic == 48090)) [
                  | inl right ↦ rw right (raised-Kept _ s₀ s₁ k₁)
                  | inr wrong ↦ rw wrong k₁
                ]))
      ]

  -- The client writes the header, and then the payload where the first write had no error.
  abbrev pub Writes : Client → Text → Text → Client → Type 0
  Writes s header payload s' =
      (mid : List Io) × ((mid ≡ wrote header ∷ []) ⊎ (mid ≡ wrote header ∷ wrote payload ∷ []))
      × (s'.log ≡ s.log ++ mid)
      × (s'.curr_request_id ≡ s.curr_request_id)

  talk-Writes :
      (b : Option Exception) (header_ec payload_ec : Option String) (ec : String) (h : DubboHeader)
      (payload : Text) (s : Client)
      → Leaves (Writes s (header_bytes h) payload) (
          talk rlib as_int
            (record {
              borrow_error = b;
              header_ec = header_ec;
              payload_ec = payload_ec;
              read_ec = ec;
            })
            h
            payload
            s)
  unfolding talk check_write
  talk-Writes b (some m) pe ec h payload s = (wrote (header_bytes h) ∷ [], inl refl, refl, refl)
  talk-Writes b none (some m) ec h payload s =
      (wrote (header_bytes h) ∷ wrote payload ∷ [], inr refl, simp (append_laws), refl)
  talk-Writes b none none ec h payload s =
      let s₂ = record s { log = (s.log ++ wrote (header_bytes h) ∷ []) ++ wrote payload ∷ [] } in
      Leaves-mono (Kept s₂) _ _
        (λ s' (i, l).
          (wrote (header_bytes h) ∷ wrote payload ∷ [], inr refl, l ∙ simp (append_laws), i))
        (Leaves-and_then (Kept s₂) (read_all ec 16 s₂) _ (read_all-Kept ec 16 s₂ s₂ (refl, refl))
          (λ response s₃ k. read_result-Kept ec (header_of response) s₂ s₃ k))

  releasing-Leaves :
      {A : Type 0} (P : Client → Type 0) (r : Run Client A)
      → Leaves P r
      → Leaves
          (λ s'. (s : Client) × P s × (s' ≡ record s { log = s.log ++ released ∷ [] }))
          (releasing r)
  unfolding releasing
  releasing-Leaves P (ok a s) h = (s, h, refl)
  releasing-Leaves P (thrown e s) h = (s, h, refl)
  releasing-Leaves P fault h = h
  releasing-Leaves P out_of_fuel h = h

  module _ (server : Server) (service_name method_name method_arg_type method_arg : Text)
      (s : Client) where
    abbrev pub payload : Text
    payload = request_payload service_name method_name method_arg_type method_arg

    by_borrow_error :
        (b : Option Exception) (header_ec payload_ec : Option String) (ec : String)
        → Ends b s.curr_request_id payload s (
            async_request rlib as_int
              (record {
                borrow_error = b;
                header_ec = header_ec;
                payload_ec = payload_ec;
                read_ec = ec;
              })
              service_name
              method_name
              method_arg_type
              method_arg
              s)
    unfolding async_request borrow_conn take_request_id
    by_borrow_error (some x) header_ec payload_ec ec = refl
    by_borrow_error none header_ec payload_ec ec =
        let server₁ : Server = record {
          borrow_error = none;
          header_ec = header_ec;
          payload_ec = payload_ec;
          read_ec = ec;
        } in
        let s₁ = record s {
          curr_request_id = (s.curr_request_id + 1) % 2 ^ 64;
          log = s.log ++ borrowed ∷ [];
        } in
        let h = request_header s.curr_request_id payload in
        Leaves-mono _ _ (releasing (talk rlib as_int server₁ h payload s₁))
          (λ s' (s₂, (mid, either, l, i), e). (
            mid,
            either,
            ap (λ (c : Client). c.log) e ∙ ap (λ l₂. l₂ ++ released ∷ []) l,
            ap (λ (c : Client). c.curr_request_id) e ∙ i,
          ))
          (releasing-Leaves (Writes s₁ (header_bytes h) payload)
            (talk rlib as_int server₁ h payload s₁)
            (talk-Writes none header_ec payload_ec ec h payload s₁))

    -- Whatever the pool and the server do, async_request returns or throws, and the next id is one
    -- higher, modulo 2^64. What the pool throws it throws, with nothing written or released; otherwise it
    -- borrows a connection first and releases it last, and writes no more than its header, under the
    -- client's next request id, and its payload in between.
    pub async_request-released :
        Ends server.borrow_error s.curr_request_id payload s
          (async_request rlib as_int server service_name method_name method_arg_type method_arg s)
    async_request-released =
        by_borrow_error server.borrow_error server.header_ec server.payload_ec server.read_ec
