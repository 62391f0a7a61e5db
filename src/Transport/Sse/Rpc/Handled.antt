-- ===== src/Transport/Sse/Rpc/Handled.antt =====
-- What the RPC endpoint of internal/transport/sse.go does with a request.
use mcp_memory_core.Base.{
  ℕ, ◌≡◌, ◌≢◌, refl, inl, inr, String, ◌==◌, eq_iff, Bool, ◌||◌, true, false, Option, none, some,
  List, [], ◌∷◌, ltb, length, arith, Bool-cases,
}
use mathlib.Core.List.{◌++◌}
use mcp_memory_core.Base.Dict.{Dict, lookup, insert, lookup-insert}
use mcp_memory_core.Errors.{GoError}
use mcp_memory_core.Storage.{Answer, ok, err}
use mcp_memory_core.Transport.Rpc.{JsonRpcRequest, JsonRpcResponse, new_parse_error}
use mcp_memory_core.Transport.Http.{HttpRequest}
use mcp_memory_core.Transport.Session.{Session, SessionManager, get_session}
use mcp_memory_core.Transport.Sse.{SseTransport, send_sse_response, queued, queue_capacity}
use mcp_memory_core.Transport.Sse.Steps.Queues.{waiting}
use mcp_memory_core.Transport.Sse.Rpc.{
  SseReply, refused, accepted, with_body, with_session, handle_rpc, send_json_error_response,
}

-- The queues differ only in that of the session, which has the response at its end.
pub record IsQueued {R : Type 0} (id : String) (resp : R) (before after : Dict (List R))
    : Type 0 where
  pub gains : waiting id after ≡ waiting id before ++ (resp ∷ [])
  pub keeps : (j : String) → j ≢ id → waiting j after ≡ waiting j before

-- The session has a queue, with room for another response.
abbrev pub has_room : {R : Type 0} → Option (List R) → Bool
has_room none = false
has_room (some q) = ltb (length q) queue_capacity

queued_lem :
    (R : Type 0) (id : String) (resp : R) (o : Option (List R)) (t : SseTransport R)
    → lookup id t.message_queues ≡ o
    → has_room o ≡ true
    → IsQueued id resp t.message_queues (queued resp id o t).message_queues
unfolding waiting
queued_lem R id resp none t h room = absurd (cc room)
queued_lem R id resp (some q) t h room =
    let after = insert id (q ++ (resp ∷ [])) t.message_queues in
    rw room (record {
      gains =
          ground (arith, lookup-insert id id (q ++ (resp ∷ [])) t.message_queues, eq_iff id id, h);
      keeps = λ j n.
          ground (arith, lookup-insert j id (q ++ (resp ∷ [])) t.message_queues, eq_iff id j, n);
    })

queued_full :
    (R : Type 0) (id : String) (resp : R) (o : Option (List R)) (t : SseTransport R)
    → has_room o ≡ false
    → (queued resp id o t).message_queues ≡ t.message_queues
queued_full R id resp none t full = refl
queued_full R id resp (some q) t full = rw full refl

module _ {S P : Type 0} (encode : JsonRpcResponse P → Answer String)
    (parse : String → Answer JsonRpcRequest)
    (handler : JsonRpcRequest → S → S × JsonRpcResponse P) where
  -- What a request leads to: it is refused and changes no queue and nothing in the handler; or it is
  -- accepted, and the answer to it is put into the queue of its session or, without a queue with
  -- room, is lost.
  pub data IsHandled (r : HttpRequest) (t u : SseTransport (JsonRpcResponse P)) (s s' : S)
      (reply : SseReply) : Type 0 where
    refuses :
        reply.status ≢ 202
        → s' ≡ s
        → u.message_queues ≡ t.message_queues
        → IsHandled r t u s s' reply
    answers :
        (text : String) (req : JsonRpcRequest)
        → r.body ≡ ok text
        → parse text ≡ ok req
        → reply.status ≡ 202
        → s' ≡ (handler req s).0
        → (has_room (lookup r.session_id t.message_queues) ≡ true
            → IsQueued r.session_id (handler req s).1 t.message_queues u.message_queues)
        → (has_room (lookup r.session_id t.message_queues) ≡ false
            → u.message_queues ≡ t.message_queues)
        → IsHandled r t u s s' reply
    complains :
        (text : String) (e : GoError)
        → r.body ≡ ok text
        → parse text ≡ err e
        → reply.status ≡ 202
        → s' ≡ s
        → (has_room (lookup r.session_id t.message_queues) ≡ true
            → IsQueued r.session_id new_parse_error t.message_queues u.message_queues)
        → (has_room (lookup r.session_id t.message_queues) ≡ false
            → u.message_queues ≡ t.message_queues)
        → IsHandled r t u s s' reply

  abbrev Handles :
      HttpRequest
      → SseTransport (JsonRpcResponse P)
      → S
      → SseTransport (JsonRpcResponse P) × (S × SseReply)
      → Type 0
  Handles r t s (u, (s', reply)) = IsHandled r t u s s' reply

  refused-Handles :
      (r : HttpRequest) (message : String) (status : ℕ) (sm : SessionManager)
      (t : SseTransport (JsonRpcResponse P)) (s : S)
      → status ≢ 202
      → Handles r t s
          (refused encode parse handler message status (record t { session_manager = sm }) s)
  unfolding refused send_json_error_response
  refused-Handles r message status sm t s n = refuses n refl refl

  accepted-Handles :
      (r : HttpRequest) (text : String) (a : Answer JsonRpcRequest) (sm : SessionManager)
      (t : SseTransport (JsonRpcResponse P)) (s : S)
      → r.body ≡ ok text
      → parse text ≡ a
      → Handles r t s
          (accepted encode parse handler r.session_id a (record t { session_manager = sm }) s)
  unfolding accepted send_sse_response
  accepted-Handles r text (ok req) sm t s b h =
      let u = record t { session_manager = sm } in
      let o = lookup r.session_id t.message_queues in
      answers text req b h refl refl
        (queued_lem (JsonRpcResponse P) r.session_id (handler req s).1 o u refl)
        (queued_full (JsonRpcResponse P) r.session_id (handler req s).1 o u)
  accepted-Handles r text (err e) sm t s b h =
      let u = record t { session_manager = sm } in
      let o = lookup r.session_id t.message_queues in
      complains text e b h refl refl
        (queued_lem (JsonRpcResponse P) r.session_id new_parse_error o u refl)
        (queued_full (JsonRpcResponse P) r.session_id new_parse_error o u)

  body-Handles :
      (r : HttpRequest) (b : Answer String) (sm : SessionManager)
      (t : SseTransport (JsonRpcResponse P)) (s : S)
      → r.body ≡ b
      → Handles r t s (with_body encode parse handler r b (record t { session_manager = sm }) s)
  unfolding with_body
  body-Handles r (ok text) sm t s h = accepted-Handles r text (parse text) sm t s h refl
  body-Handles r (err e) sm t s h =
      refused-Handles r "Failed to read request body" 400 sm t s (ground arith)

  session-Handles :
      (r : HttpRequest) (x : SessionManager × Option Session) (t : SseTransport (JsonRpcResponse P))
      (s : S)
      → Handles r t s (with_session encode parse handler r x t s)
  unfolding with_session
  session-Handles r (sm, some x) t s = body-Handles r r.body sm t s refl
  session-Handles r (sm, none) t s =
      refused-Handles r "Invalid or expired session" 401 sm t s (ground arith)

  -- Every request is refused without an effect on the queues and on the handler, or it is accepted:
  -- then the handler has run once, if the body could be parsed, and the session's queue has got its
  -- response, or the parse error, as its last one, and no other queue has changed. Without a queue
  -- that has room, the response is lost although the request is accepted.
  pub handle_rpc-IsHandled :
      (now : ℕ) (r : HttpRequest) (t : SseTransport (JsonRpcResponse P)) (s : S)
      → IsHandled r t
          (handle_rpc encode parse handler now r t s).0
          s
          (handle_rpc encode parse handler now r t s).1.0
          (handle_rpc encode parse handler now r t s).1.1
  unfolding handle_rpc
  handle_rpc-IsHandled now r t s = elim (Bool-cases (r.http_method == "POST")) [
    | inr odd ↦
        rw odd (refused-Handles r "Method not allowed" 405 t.session_manager t s (ground arith))
    | inl post ↦
        elim (Bool-cases
          (r.content_type == "application/json" || r.content_type == "application/json-rpc")) [
            | inr odd ↦
                rw (post, odd)
                  (refused-Handles r "Content-Type must be application/json or application/json-rpc"
                    400 t.session_manager t s (ground arith))
            | inl typed ↦ elim (Bool-cases (r.session_id == "")) [
              | inl empty ↦
                  rw (post, typed, empty)
                    (refused-Handles r "X-Session-ID header required" 400 t.session_manager t s
                      (ground arith))
              | inr named ↦
                  rw (post, typed, named)
                    (session-Handles r (get_session r.session_id now t.session_manager) t s)
            ]
          ]
  ]
