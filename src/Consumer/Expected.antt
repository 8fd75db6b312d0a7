-- ===== src/Consumer/Expected.antt =====
-- handle_request of src/consumer_agent.cc, with provider_info::async_request (src/provider_selector.hpp):
-- the whole of a request in one table, by its method, the provider's load and what the network does.
use ali_middleware.Common.{
  ℕ, zero, suc, ◌-◌, ◌%◌, ◌^◌, ◌<◌, ◌≡◌, refl, ◌∙◌, sym, ap, inl, inr, Bool, true, false, not, ◌&&◌,
  Bool-cases, some, List, [], ◌∷◌, ◌++◌, append-nil, append_laws, get_elem?, length, ltb,
  if◌then◌else◌,
}
use ali_middleware.Common.Except.{Except, success, failure}
use ali_middleware.Common.Rlib.{Rlib}
use ali_middleware.Common.Run.{Run, ok}
use ali_middleware.Common.Text.{Text, codes, contains}
use ali_middleware.Payload.{DubboRpcArgs, http_payload_to_dubbo_parameters}
use ali_middleware.Selector.{ProviderInfo, Selector, set_pool_latency}
use ali_middleware.Selector.Query.{IsWell, place, moved, provider_at-inv}
use ali_middleware.Consumer.{
  status_ok, bad_request, internal_server_error, Response, Request, Network, Io, borrowed, released,
  sent, Agent, resp_400, set_latency, request_text, finish, handle_request,
}
use ali_middleware.Consumer.Reply.{reply, after, handle_request-reply}

-- The call for the payload succeeds.
abbrev pub is_answered : Network → Except DubboRpcArgs → Bool
is_answered net (failure e) = false
is_answered net (success a) = not net.write_ec && not net.read_ec

-- What is written: the four arguments, a line each.
abbrev pub texts : Rlib → Except DubboRpcArgs → List Io
texts rlib (failure e) = []
texts rlib (success a) =
    sent (
      rlib.join (codes "\n") (a.interface ∷ a.method ∷ a.parameter_types_string ∷ a.parameter ∷ []))
    ∷ []

-- The three tables go by whether the request is a POST, its provider is idle, and the call succeeds.
abbrev pub response : (post idle answered : Bool) → Text → (keep_alive : Bool) → Response
response true true true bytes k = record { result = status_ok; body = bytes; keep_alive = k }
response true true false bytes k = record {
  result = internal_server_error;
  body = codes "server error";
  keep_alive = false;
}
response true false answered bytes k = record {
  result = bad_request;
  body = codes "bad request";
  keep_alive = false;
}
response false idle answered bytes k = record {
  result = bad_request;
  body = codes "bad request";
  keep_alive = false;
}

abbrev pub changed : (post idle answered : Bool) → ℕ → ProviderInfo → ProviderInfo
changed true true true elapsed p = record p { latency = elapsed % 2 ^ 32 }
changed true true false elapsed p = p
changed true false answered elapsed p = record p {
  connpool_latency = if ltb 51427 p.connpool_latency then p.connpool_latency - 51427 else 1;
}
changed false idle answered elapsed p = p

abbrev pub acts : (post idle : Bool) → List Io → List Io
acts true true ios = borrowed ∷ (ios ++ released ∷ [])
acts true false ios = []
acts false idle ios = []

abbrev pub expected :
    Rlib
    → Network
    → Request
    → Agent
    → (before : List ProviderInfo) → ProviderInfo
    → (behind : List ProviderInfo) → Run Agent Response
expected rlib net req s before p behind =
    let parsed = http_payload_to_dubbo_parameters rlib req.body in
    let idle = ltb p.connpool_latency 10000 in
    ok (response req.is_post idle (is_answered net parsed) net.received req.keep_alive) (record {
      selector = record s.selector {
        providers =
            before ++ changed req.is_post idle (is_answered net parsed) net.elapsed p ∷ behind;
        curr = if req.is_post then some (suc (place s.selector)) else s.selector.curr;
      };
      log = s.log ++ acts req.is_post idle (texts rlib parsed);
    })

-- A provider at its place in the list, and the list with its latencies set.
record IsAt (i : ℕ) (p : ProviderInfo) (ps : List ProviderInfo) : Type 0 where
  pub before : List ProviderInfo
  pub behind : List ProviderInfo
  pub split : ps ≡ before ++ p ∷ behind
  pub index : length before ≡ i
  pub latency : (l : ℕ) → set_latency i l ps ≡ before ++ record p { latency = l } ∷ behind
  pub pool :
      (l : ℕ) → set_pool_latency i l ps ≡ before ++ record p { connpool_latency = l } ∷ behind

get_elem?-IsAt :
    (i : ℕ) (p : ProviderInfo) (ps : List ProviderInfo) → get_elem? ps i ≡ some p → IsAt i p ps
get_elem?-IsAt i p [] e = cc
get_elem?-IsAt zero p (q ∷ ps) e =
    let same : q ≡ p = cc in
    rw same (record {
      before = [];
      behind = ps;
      split = refl;
      index = refl;
      latency = λ l. refl;
      pool = λ l. refl;
    })
get_elem?-IsAt (suc i) p (q ∷ ps) e =
    let rest = get_elem?-IsAt i p ps e in
    record {
      before = q ∷ rest.before;
      behind = rest.behind;
      split = ap (λ l. q ∷ l) rest.split;
      index = ap suc rest.index;
      latency = λ l. ap (λ l. q ∷ l) (rest.latency l);
      pool = λ l. ap (λ l. q ∷ l) (rest.pool l);
    }

module _ (rlib : Rlib) (net : Network) where
  reply-response :
      (i : ℕ) (e : Except DubboRpcArgs) (s : Selector) (k : Bool)
      → finish k (reply rlib i net e s).0 ≡ response true true (is_answered net e) net.received k
  unfolding finish
  reply-response i (failure e) s k = refl
  reply-response i (success a) s k = elim (Bool-cases net.write_ec) [
    | inl w ↦ rw w refl
    | inr w ↦ elim (Bool-cases net.read_ec) [ inl r ↦ rw (w, r) refl | inr r ↦ rw (w, r) refl ]
  ]

  reply-texts :
      (i : ℕ) (e : Except DubboRpcArgs) (s : Selector) (log : List Io)
      → ((log ++ borrowed ∷ []) ++ (reply rlib i net e s).1) ++ released ∷ []
        ≡ log ++ acts true true (texts rlib e)
  unfolding request_text
  reply-texts i (failure e) s log = simp (append_laws)
  reply-texts i (success a) s log = simp (append_laws)

  reply-changed :
      (i : ℕ) (e : Except DubboRpcArgs) (s : Selector) (p : ProviderInfo)
      (at : IsAt i p s.providers)
      → (reply rlib i net e s).2 ≡ record s {
        providers = at.before ++ changed true true (is_answered net e) net.elapsed p ∷ at.behind;
      }
  reply-changed i (failure e) s p at = λ j. record s { providers = at.split j }
  reply-changed i (success a) s p at = elim (Bool-cases net.write_ec) [
    | inl w ↦ rw w (λ j. record s { providers = at.split j })
    | inr w ↦ elim (Bool-cases net.read_ec) [
      | inl r ↦ rw (w, r) (λ j. record s { providers = at.split j })
      | inr r ↦ rw (w, r) (λ j. record s { providers = at.latency (net.elapsed % 2 ^ 32) j })
    ]
  ]

module _ (rlib : Rlib) (net : Network) (short : length net.received < 2048)
    (text : contains 0 net.received ≡ false) where
  abbrev request : (is_post : Bool) (body : Text) (keep_alive : Bool) → Request
  request is_post body keep_alive = record {
    is_post = is_post;
    body = body;
    keep_alive = keep_alive;
  }

  -- What is known of a request when its provider is.
  abbrev Runs : Request → Agent → ℕ → ProviderInfo → Type 0
  Runs req s i p =
      let moved_s : Agent = record s { selector = moved s.selector i p } in
      let answer = reply rlib i net (http_payload_to_dubbo_parameters rlib req.body) in
      handle_request rlib net req s ≡ (
        if not req.is_post
        then ok resp_400 s
        else if ltb p.connpool_latency 10000
        then ok (finish req.keep_alive (answer moved_s.selector).0)
            (after rlib net i req.body moved_s)
        else ok resp_400 moved_s)

  by_case :
      (is_post : Bool) (body : Text) (k : Bool) (s : Agent) (i : ℕ) (p : ProviderInfo)
      (at : IsAt i p s.selector.providers)
      → Runs (request is_post body k) s i p
      → handle_request rlib net (request is_post body k) s
        ≡ expected rlib net (request is_post body k) s at.before p at.behind
  by_case false body k s i p at e = e ∙ (λ j. ok resp_400 (record {
    selector = record s.selector { providers = at.split j };
    log = sym (append-nil s.log) j;
  }))
  by_case true body k s i p at e = elim (Bool-cases (ltb p.connpool_latency 10000)) [
    | inr busy ↦ rw busy (
        rw busy at e ∙ (λ j. ok resp_400 (record {
          selector = record s.selector {
            providers =
                at.pool (if ltb 51427 p.connpool_latency then p.connpool_latency - 51427 else 1) j;
            curr = some (suc (place s.selector));
          };
          log = sym (append-nil s.log) j;
        })))
    | inl idle ↦
        let parsed = http_payload_to_dubbo_parameters rlib body in
        let moved_s : Selector = record s.selector { curr = some (suc (place s.selector)) } in
        rw idle (
          rw idle at e ∙ (λ j. ok (reply-response rlib net i parsed moved_s k j) (record {
            selector = reply-changed rlib net i parsed moved_s p at j;
            log = reply-texts rlib net i parsed moved_s s.log j;
          })))
  ]

  -- With a selector that can be queried, and a provider's answer that is text and fits the buffer,
  -- every request returns, and its answer, its acts and the new state go by the table: the provider is
  -- the one at the round robin's place, its latencies and the iterator are all that changes, and only
  -- where the tables say so. A request that is no POST is answered 400; a POST whose provider has a pool
  -- latency of 10000 us or more is answered 400, and that latency goes down by 51427, or to 1; any other
  -- POST borrows a connection, writes the payload's arguments at most once, and releases it: it is
  -- answered 200 with the bytes received, keep-alive as asked for, and the latency stored, when the
  -- payload has its arguments and neither the write nor the read has an error, and otherwise 500 with
  -- keep-alive off.
  pub handle_request-expected :
      (req : Request) (s : Agent)
      → IsWell s.selector
      → (i : ℕ) × (p : ProviderInfo) × (before : List ProviderInfo) × (behind : List ProviderInfo)
        × (get_elem? s.selector.robin_queue (place s.selector) ≡ some i)
        × (s.selector.providers ≡ before ++ p ∷ behind)
        × (length before ≡ i)
        × (handle_request rlib net req s ≡ expected rlib net req s before p behind)
  handle_request-expected req s well =
      let (i, p, here, e, answers) = handle_request-reply rlib net short text req s well in
      let (entry, found) = provider_at-inv s.selector (place s.selector) i p here in
      let at = get_elem?-IsAt i p s.selector.providers found in
      let moved_s : Agent = record s { selector = moved s.selector i p } in
      let runs : Runs req s i p =
        e
        ∙ ap
            (λ r.
              if not req.is_post
              then ok resp_400 s
              else if ltb p.connpool_latency 10000
              then r
              else ok resp_400 moved_s)
            (answers moved_s) in
      (
        i,
        p,
        at.before,
        at.behind,
        entry,
        at.split,
        at.index,
        by_case req.is_post req.body req.keep_alive s i p at runs,
      )
