-- ===== src/Transport/Stdio/Replies.antt =====
-- What the loop of internal/transport/stdio.go prints.
use mcp_memory_core.Base.{
  ℕ, suc, ◌+◌, ◌≤◌, ◌≡◌, refl, inl, inr, String, ◌==◌, Bool, true, Option, none, some, List, [],
  ◌∷◌, arith, Bool-cases, length, take, if◌then◌else◌, is_some,
}
use mcp_memory_core.Base.Text.{trim_space}
use mcp_memory_core.Base.Json.{Value}
use mcp_memory_core.Errors.{GoError}
use mcp_memory_core.Storage.{Ctx, CtxErr, later, Answer, ok, err}
use mcp_memory_core.Transport.Rpc.{JsonRpcRequest, JsonRpcResponse}
use mcp_memory_core.Transport.ErrorMapper.{create_fallback_error_response}
use mcp_memory_core.Transport.Stdio.{
  handle_line, start, printed, continued, send_response, finished, or_fallback, or_error, reply_to,
}

module _ {S R : Type 0} (encode : JsonRpcResponse R → Answer String)
    (parse : String → Answer JsonRpcRequest)
    (handler : JsonRpcRequest → S → S × JsonRpcResponse R) where
  -- The lines one after another, with nothing that stops the loop.
  abbrev pub answers : List String → S → S × List String
  answers [] s = (s, [])
  answers (line ∷ lines) s =
      let (after, o) = handle_line encode parse handler line s in
      let (last, rest) = answers lines after in (last, printed encode parse handler o rest)

  -- The outcome is the one of answering the first n lines.
  abbrev pub IsRunOf : ℕ → List String → S → S × (List String × Option GoError) → Type 0
  IsRunOf n lines s (last, (out, e)) =
      (n ≤ length lines)
      × (last ≡ (answers (take n lines) s).0)
      × (out ≡ (answers (take n lines) s).1)

  continued_run :
      (c : Option CtxErr) (line : String) (lines : List String) (s : S)
      (rest : S × (List String × Option GoError))
      → ((n : ℕ) × IsRunOf n lines (handle_line encode parse handler line s).0 rest)
      → (n : ℕ) × IsRunOf n
          (line ∷ lines)
          s
          (continued encode parse handler c s (handle_line encode parse handler line s).1 rest)
  continued_run (some c) line lines s rest h = (0, (omega arith, refl, refl))
  continued_run none line lines s rest (n, (le, p, q)) = (suc n, (omega (arith, le), p, rw q refl))

  -- However it is stopped, by the context, by Stop or by the end of the input, the loop has answered
  -- some first lines of the input, in order and each once, and nothing else.
  pub start-IsRunOf :
      (ctx : Ctx) (running : ℕ → Bool) (failed : Option GoError) (lines : List String) (s : S)
      → (n : ℕ) × IsRunOf n lines s (start encode parse handler ctx running failed lines s)
  unfolding start
  start-IsRunOf ctx running failed [] s = elim (Bool-cases (running 0)) [
    | inl on ↦ rw (on, start) (0, (omega arith, refl, refl))
    | inr off ↦ rw (off, start) (0, (omega arith, refl, refl))
  ]
  start-IsRunOf ctx running failed (line ∷ lines) s = elim (Bool-cases (running 0)) [
    | inl on ↦
        rw (on, start)
          (continued_run (ctx 0) line lines s _
            (start-IsRunOf (later 1 ctx) (λ k. running (suc k)) failed lines _))
    | inr off ↦ rw (off, start) (0, (omega arith, refl, refl))
  ]

  -- The lines of the input that are not blank.
  abbrev pub count_requests : List String → ℕ
  count_requests [] = 0
  count_requests (line ∷ lines) = (if trim_space line == "" then 0 else 1) + count_requests lines

  -- json.Marshal encodes the response of last resort, whatever the ID.
  abbrev pub EncodesFallback : Type 0
  EncodesFallback =
      (id : Value)
      → (bytes : String) × (encode
            (create_fallback_error_response id "Critical serialization error")
          ≡ ok bytes)

  last_resort :
      (id : Value) (a : Answer String)
      → EncodesFallback
      → is_some (or_fallback encode parse handler id a) ≡ true
  unfolding or_fallback
  last_resort id (ok bytes) h = refl
  last_resort id (err e) h = let (bytes, p) = h id in rw p refl

  second_try :
      (id : Value) (a : Answer String)
      → EncodesFallback
      → is_some (or_error encode parse handler id a) ≡ true
  unfolding or_error
  second_try id (ok bytes) h = refl
  second_try id (err e) h = last_resort id _ h

  send_prints :
      (r : JsonRpcResponse R)
      → EncodesFallback
      → is_some (send_response encode parse handler r) ≡ true
  unfolding send_response
  send_prints r h = second_try r.id (encode r) h

  reply_prints :
      (a : Answer JsonRpcRequest) (s : S)
      → EncodesFallback
      → is_some (reply_to encode parse handler a s).1 ≡ true
  unfolding reply_to send_response
  reply_prints (ok req) s h = send_prints _ h
  reply_prints (err e) s h = send_prints _ h

  abbrev pub count : Option String → ℕ
  count none = 0
  count (some line) = 1

  count_some : (o : Option String) → is_some o ≡ true → count o ≡ 1
  count_some (some line) h = refl
  count_some none h = absurd (cc h)

  line_prints :
      (line : String) (s : S)
      → EncodesFallback
      → count (handle_line encode parse handler line s).1 ≡ (if trim_space line == "" then 0 else 1)
  unfolding handle_line
  line_prints line s h = elim (Bool-cases (trim_space line == "")) [
    | inl blank ↦ rw (blank, handle_line) refl
    | inr given ↦
        rw (given, handle_line) (count_some _ (reply_prints (parse (trim_space line)) s h))
  ]

  -- All that is left of `lines` is answered, and the scanner's own error returned.
  abbrev IsComplete : ℕ → Option GoError → S × (List String × Option GoError) → Type 0
  IsComplete n failed (last, (out, e)) =
      (length out ≡ n) × (e ≡ finished encode parse handler failed)

  continue-IsComplete :
      (c : Option CtxErr) (s : S) (o : Option String) (n : ℕ) (failed : Option GoError)
      (rest : S × (List String × Option GoError))
      → c ≡ none
      → IsComplete n failed rest
      → IsComplete (count o + n) failed (continued encode parse handler c s o rest)
  continue-IsComplete none s none n failed rest live (p, q) = (omega (arith, p), q)
  continue-IsComplete none s (some line) n failed rest live (p, q) = (omega (arith, p), q)
  continue-IsComplete (some c) s o n failed rest live h = absurd (cc live)

  -- Where neither the context nor a call of Stop ends it, and json.Marshal encodes the response of
  -- last resort, the loop prints exactly one line for each line of the input that is not blank, and
  -- returns an error only if the scanner had one.
  pub one_reply_each :
      (ctx : Ctx) (running : ℕ → Bool) (failed : Option GoError) (lines : List String) (s : S)
      → ((k : ℕ) → ctx k ≡ none)
      → ((k : ℕ) → running k ≡ true)
      → EncodesFallback
      → (length (start encode parse handler ctx running failed lines s).1.0 ≡ count_requests lines)
        × ((start encode parse handler ctx running failed lines s).1.1
            ≡ finished encode parse handler failed)
  unfolding start
  one_reply_each ctx running failed [] s live on encodes = rw (on 0, start) (refl, refl)
  one_reply_each ctx running failed (line ∷ lines) s live on encodes =
      rw (on 0, start, ← line_prints line s encodes)
        (continue-IsComplete (ctx 0) s _ (count_requests lines) failed _ (live 0) (
          one_reply_each (later 1 ctx) (λ k. running (suc k)) failed lines _ (λ k. live (1 + k))
            (λ k. on (suc k)) encodes))
