-- ===== src/Consumer/Session/Orderly.antt =====
-- Sessions of the consumer agent (src/consumer_agent.cc, do_session): an error ends the connection.
use ali_middleware.Common.{
  All, ℕ, zero, suc, if◌then◌else◌, if_true, if_false, ◌%◌, ◌^◌, ◌<◌, ◌≡◌, refl, sym, ◌∙◌, ap, ◌⊎◌,
  inl, inr, Bool, true, false, not, Bool-cases, List, [], ◌∷◌, ◌++◌, append-nil, append_assoc,
  arith, length, ltb,
}
use ali_middleware.Common.Except.{Except, success, failure}
use ali_middleware.Common.Rlib.{Rlib}
use ali_middleware.Common.Run.{ok}
use ali_middleware.Common.Text.{contains}
use ali_middleware.Payload.{DubboRpcArgs, http_payload_to_dubbo_parameters}
use ali_middleware.Selector.{ProviderInfo, Selector}
use ali_middleware.Selector.Query.{IsWell, moved, moved-IsWell}
use ali_middleware.Consumer.{
  status_ok, Response, Request, Network, Agent, resp_400, set_latency, finish, handle_request,
}
use ali_middleware.Consumer.Reply.{reply, after, handle_request-reply}
use ali_middleware.Consumer.Session.{
  HttpRead, got_request, end_of_stream, read_failed, SessionEnd, reading, shut_down, dropped,
  HttpSession, on_agent, write_response, do_session,
}

-- A response that keeps the connection is no error.
abbrev pub IsFine : Response → Type 0
IsFine r = r.keep_alive ≡ true → r.result ≡ status_ok

-- Every response but the last keeps the connection, and none that does is an error.
abbrev pub IsOrderly : List Response → Type 0
IsOrderly [] = Unit
IsOrderly (r ∷ []) = IsFine r
IsOrderly (r ∷ r' ∷ rs) = (r.keep_alive ≡ true) × (r.result ≡ status_ok) × IsOrderly (r' ∷ rs)

IsOrderly-cons :
    (r : Response) (rs : List Response)
    → r.keep_alive ≡ true
    → r.result ≡ status_ok
    → IsOrderly rs
    → IsOrderly (r ∷ rs)
IsOrderly-cons r [] k s h = λ _. s
IsOrderly-cons r (r' ∷ rs) k s h = (k, s, h)

length-set_latency : (i l : ℕ) (ps : List ProviderInfo) → length (set_latency i l ps) ≡ length ps
length-set_latency i l [] = refl
length-set_latency zero l (p ∷ ps) = refl
length-set_latency (suc i) l (p ∷ ps) = omega (arith, length-set_latency i l ps)

IsWell-set_latency :
    (i l : ℕ) (s : Selector)
    → IsWell s
    → IsWell (record s { providers = set_latency i l s.providers })
IsWell-set_latency i l s well = record {
  names = rw (length-set_latency i l s.providers) well.names;
  some_entry = well.some_entry;
  curr = well.curr;
}

pub reply-IsWell :
    (rlib : Rlib) (i : ℕ) (net : Network) (e : Except DubboRpcArgs) (s : Selector)
    → IsWell s
    → IsWell (reply rlib i net e s).2
reply-IsWell rlib i net (failure e) s well = well
reply-IsWell rlib i net (success a) s well = elim (Bool-cases net.write_ec) [
  | inl w ↦ rw w well
  | inr w ↦ elim (Bool-cases net.read_ec) [
    | inl r ↦ rw (w, r) well
    | inr r ↦ rw (w, r) (IsWell-set_latency i (net.elapsed % 2 ^ 32) s well)
  ]
]

finish-IsFine :
    (rlib : Rlib) (i : ℕ) (net : Network) (e : Except DubboRpcArgs) (s : Selector)
    (keep_alive : Bool)
    → IsFine (finish keep_alive (reply rlib i net e s).0)
unfolding finish
finish-IsFine rlib i net (failure e) s k = λ h. cc
finish-IsFine rlib i net (success a) s k = elim (Bool-cases net.write_ec) [
  | inl w ↦ rw w (λ h. cc)
  | inr w ↦ elim (Bool-cases net.read_ec) [
    | inl r ↦ rw (w, r) (λ h. cc)
    | inr r ↦ rw (w, r) (λ h. refl)
  ]
]

-- What the network does to one call can be read.
abbrev pub IsReadable : Network → Type 0
IsReadable net = (length net.received < 2048) × (contains 0 net.received ≡ false)

abbrev pub IsReadableAt : HttpRead → Type 0
IsReadableAt (got_request req net) = IsReadable net
IsReadableAt end_of_stream = Unit
IsReadableAt read_failed = Unit

module _ (rlib : Rlib) where
  -- The answer to one request.
  abbrev Handles : Request → Network → Agent → Type 0
  Handles req net a =
      (res : Response) × (a' : Agent) × (handle_request rlib net req a ≡ ok res a')
      × IsWell a'.selector
      × IsFine res

  handle_request-Handles :
      (req : Request) (net : Network) (a : Agent)
      → IsReadable net
      → IsWell a.selector
      → Handles req net a
  handle_request-Handles req net a (short, text) well =
      let (i, p, at, e, answers) = handle_request-reply rlib net short text req a well in
      let moved_a : Agent = record a { selector = moved a.selector i p } in
      let well' = moved-IsWell a.selector well i p in
      let parsed = http_payload_to_dubbo_parameters rlib req.body in
      elim (Bool-cases req.is_post) [
        | inr other ↦ (resp_400, a, e ∙ if_true _ _ _ (ap not other), well, λ h. cc)
        | inl post ↦ elim (Bool-cases (ltb p.connpool_latency 10000)) [
          | inl idle ↦ (
            finish req.keep_alive (reply rlib i net parsed moved_a.selector).0,
            after rlib net i req.body moved_a,
            e ∙ if_false _ _ _ (ap not post) ∙ if_true _ _ _ idle ∙ answers moved_a,
            reply-IsWell rlib i net parsed moved_a.selector well',
            finish-IsFine rlib i net parsed moved_a.selector req.keep_alive,
          )
          | inr busy ↦ (
            resp_400,
            moved_a,
            e ∙ if_false _ _ _ (ap not post) ∙ if_false _ _ _ busy,
            well',
            λ h. cc,
          )
        ]
      ]

  -- The responses that a session gives for what it reads, and how it ends: each request is handled by
  -- the agent that the ones before have left, and its response is the next one; behind a response that
  -- turns keep-alive off, nothing more is handled.
  abbrev pub Follows : List HttpRead → Agent → List Response → Agent → SessionEnd → Type 0
  Follows [] a rs a' end = (rs ≡ []) × (a' ≡ a) × (end ≡ reading)
  Follows (end_of_stream ∷ reads) a rs a' end = (rs ≡ []) × (a' ≡ a) × (end ≡ shut_down)
  Follows (read_failed ∷ reads) a rs a' end = (rs ≡ []) × (a' ≡ a) × (end ≡ dropped)
  Follows (got_request req net ∷ reads) a rs a' end =
      (res : Response) × (b : Agent) × (rest : List Response) × (handle_request rlib net req a
        ≡ ok res b)
      × (rs ≡ res ∷ rest)
      × (((res.keep_alive ≡ false) × (rest ≡ []) × (a' ≡ b) × (end ≡ shut_down))
          ⊎ ((res.keep_alive ≡ true) × Follows reads b rest a' end))

  -- What a session that starts at `s` comes to.
  abbrev pub Outcome : List HttpRead → HttpSession → Type 0
  Outcome reads s =
      (end : SessionEnd) × (s' : HttpSession) × (rs : List Response) × (do_session rlib reads s
        ≡ ok end s')
      × (s'.responses ≡ s.responses ++ rs)
      × Follows reads s.agent rs s'.agent end
      × IsOrderly rs
      × IsWell s'.agent.selector
      × (end ≡ reading → length rs ≡ length reads)

  do_session-request :
      (req : Request) (net : Network) (reads : List HttpRead) (s : HttpSession) (res : Response)
      (a : Agent)
      → handle_request rlib net req s.agent ≡ ok res a
      → do_session rlib (got_request req net ∷ reads) s ≡ (
          if not res.keep_alive
          then ok shut_down (record { agent = a; responses = s.responses ++ res ∷ [] })
          else do_session rlib reads (record { agent = a; responses = s.responses ++ res ∷ [] }))
  unfolding do_session on_agent write_response
  do_session-request req net reads s res a e = elim (Bool-cases (not res.keep_alive)) [
    | inl closes ↦ rw e (rw closes refl)
    | inr keeps ↦ rw e (rw keeps refl)
  ]

  -- When the selector can be queried and every answer of a provider is text that fits the buffer, a
  -- session ends or waits for a request, without a fault or an exception. Its responses go out in
  -- order, for each request the one that handle_request gives it behind the requests before, until one
  -- turns keep-alive off, which goes out too, is the last, and ends the session; a 400 or a 500 is
  -- always the last. A session without such a response waits behind its last request, which it has
  -- answered like all before, or ends with the stream, or at a read's error. The selector can be
  -- queried again.
  pub do_session-IsOrderly :
      (reads : List HttpRead) (s : HttpSession)
      → All IsReadableAt reads
      → IsWell s.agent.selector
      → Outcome reads s
  unfolding do_session
  do_session-IsOrderly [] s h well =
      (reading, s, [], refl, sym (append-nil s.responses), (refl, refl, refl), tt, well, λ e. refl)
  do_session-IsOrderly (end_of_stream ∷ reads) s h well =
      (shut_down, s, [], refl, sym (append-nil s.responses), (refl, refl, refl), tt, well, λ e. cc)
  do_session-IsOrderly (read_failed ∷ reads) s h well =
      (dropped, s, [], refl, sym (append-nil s.responses), (refl, refl, refl), tt, well, λ e. cc)
  do_session-IsOrderly (got_request req net ∷ reads) s (h, hs) well =
      let (res, a, e, well', fine) = handle_request-Handles req net s.agent h well in
      let s₁ : HttpSession = record { agent = a; responses = s.responses ++ res ∷ [] } in
      let step = do_session-request req net reads s res a e in
      elim (Bool-cases res.keep_alive) [
        | inr closes ↦ (
          shut_down,
          s₁,
          res ∷ [],
          step ∙ if_true _ _ _ (ap not closes),
          refl,
          (res, a, [], e, refl, inl (closes, refl, refl, refl)),
          fine,
          well',
          λ e. cc,
        )
        | inl keeps ↦
            let (end, s₂, rs, run, out, follows, orderly, well₂, all) =
              do_session-IsOrderly reads s₁ hs well' in
            (
              end,
              s₂,
              res ∷ rs,
              step ∙ if_false _ _ _ (ap not keeps) ∙ run,
              out ∙ append_assoc s.responses (res ∷ []) rs,
              (res, a, rs, e, refl, inr (keeps, follows)),
              IsOrderly-cons res rs keeps (fine keeps) orderly,
              well₂,
              λ e. omega (arith, all e),
            )
      ]
