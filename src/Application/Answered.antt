-- ===== src/Application/Answered.antt =====
-- What `invoke` answers.
use tesserix_mcp_runtime.Base.{
  ℕ, true, false, ◌||◌, ◌==◌, leb, ltb, List, [], ◌∷◌, all, any, Number, String, Option, ◌≡◌, refl,
  ◌⊎◌, inl, inr, arith, Bool-cases, if◌then◌else◌, ◌∙◌, ap, subst,
}
use tesserix_mcp_runtime.Base.Dict.{get}
use tesserix_mcp_runtime.Base.Text.{codes}
use tesserix_mcp_runtime.Observability.Durations.{duration}
use tesserix_mcp_runtime.Contracts.Vocabulary.{
  ErrorCode, LifecycleState, startup, ready, draining, stopped,
}
use tesserix_mcp_runtime.Contracts.Failure.{
  Kind, Failure, Result, ok, err, value_failure, Result-cases,
}
use tesserix_mcp_runtime.Contracts.Response.{InvocationResult, is_text, failure}
use tesserix_mcp_runtime.Contracts.Identity.{CallContext}
use tesserix_mcp_runtime.Errors.{public_code}
use tesserix_mcp_runtime.Errors.Mapping.{response_of, from_code-response_of}
use tesserix_mcp_runtime.Json.{Value}
use tesserix_mcp_runtime.Execution.Limits.{ExecutionLimits}
use tesserix_mcp_runtime.Execution.Deadline.{bounded_deadline, execute}
use tesserix_mcp_runtime.Application.{Host, Application, limits_of}
use tesserix_mcp_runtime.Application.Failures.{failed_id, safe_request_id}
use tesserix_mcp_runtime.Application.Serve.{refuse, serve, known_name}
use tesserix_mcp_runtime.Application.Invoke.{
  Turn, is_mapped, begin, deadline_of, view_of, redact_ended, recover, run_ready, refuse_unready,
  is_log_id, log_event, record_call, invoke,
}
use tesserix_mcp_runtime.Application.Public.{
  IsPublic, safe_request_id-text, mapped_failure-ok, redact_result-Reported,
}
use tesserix_mcp_runtime.Application.Leases.{serve-limits}

State-cases :
    (s : LifecycleState) → (s ≡ ready) ⊎ ((s ≡ startup) ⊎ ((s ≡ draining) ⊎ (s ≡ stopped)))
State-cases startup = inr (inl refl)
State-cases ready = inl refl
State-cases draining = inr (inr (inl refl))
State-cases stopped = inr (inr (inr refl))

-- a text without control characters below 32 that has one of those or DEL has DEL
has_delete_of :
    (s : List ℕ)
    → all (λ c. leb 32 c) s ≡ true
    → any (λ c. ltb c 32 || c == 127) s ≡ true
    → any (λ c. c == 127) s ≡ true
has_delete_of [] h i = ground (arith, i)
has_delete_of (c ∷ s) h i = ground (arith, h, i, has_delete_of s)

has_delete :
    (id : String)
    → is_text 256 id ≡ true
    → is_log_id (codes id) ≡ false
    → any (λ c. c == 127) (codes id) ≡ true
unfolding is_text is_log_id
has_delete id h bad = has_delete_of (codes id) (ground (arith, h)) (ground (arith, h, bad))

module _ {Model : Type 0} (host : Host Model) (context : CallContext)
    (digest_is_text : (id : String) → is_text 256 (failed_id host id) ≡ true) where
  -- a public result, or an exception that ends the process
  abbrev pub Answered : ExecutionLimits → Result (InvocationResult Value) → Type 0
  Answered l r =
      ((p : InvocationResult Value) × (r ≡ ok p)
        × IsPublic host l (safe_request_id host context.request_id) p)
      ⊎ ((e : Failure) × (r ≡ err e) × (e.kind ≡ Kind.exit))

  unmapped : (k : Kind) → is_mapped k ≡ false → k ≡ Kind.exit
  unmapped Kind.exit h = refl
  unmapped _ h = ground arith

  recover-Answered :
      (l : ExecutionLimits) (x : Application × Result (InvocationResult Value))
      → ((p : InvocationResult Value)
          → x.1 ≡ ok p
          → IsPublic host l (safe_request_id host context.request_id) p)
      → Answered l (recover host context x).1
  unfolding recover
  recover-Answered l (a, ok p) h = inl (p, refl, h p refl)
  recover-Answered l (a, err e) h = elim (Bool-cases (is_mapped e.kind)) [
    | inl m ↦ rw m (
        inl (
          failure (response_of (public_code e.kind) (safe_request_id host context.request_id)),
          (mapped_failure-ok host digest_is_text a e context.request_id).0,
          inr (
            public_code e.kind,
            refl,
            safe_request_id-text host digest_is_text context.request_id,
          ),
        ))
    | inr m ↦ rw m (inr (e, refl, unmapped e.kind m))
  ]

  redact_ended-IsPublic :
      (a : Application) (r : Result (InvocationResult Value)) (p : InvocationResult Value)
      → (redact_ended host context a r).1 ≡ ok p
      → IsPublic host (limits_of a) (safe_request_id host context.request_id) p
  unfolding redact_ended
  redact_ended-IsPublic a (err e) p h = absurd (ground arith)
  redact_ended-IsPublic a (ok r) p h =
      elim (redact_result-Reported host digest_is_text a r context.request_id) [
        | inl (q, e, public) ↦
            let same : q ≡ p = ground (arith, h, e) in
            subst (λ x. IsPublic host (limits_of a) (safe_request_id host context.request_id) x)
              same public
        | inr (f, e, _) ↦ absurd (ground (arith, h, e))
      ]

  begin-limits : (a : Application) (task : ℕ) → limits_of (begin a task) ≡ limits_of a
  unfolding begin
  begin-limits a task = refl

  run_ready-Answered :
      (a : Application) (tool_name : String) (arguments : Value) (t : Turn Model)
      → ((b : Application) → limits_of (t.answers.meanwhile b) ≡ limits_of b)
      → Answered (limits_of a) (run_ready host context a tool_name arguments t).1
  unfolding run_ready
  run_ready-Answered a tool_name arguments t keeps =
      let begun = begin a t.task in
      let deadline = bounded_deadline (limits_of a) t.now (deadline_of context) in
      let served = serve host context deadline begun tool_name arguments t.answers in
      let ended =
        execute (limits_of a) t.now (deadline_of context) (view_of host context t served.1) in
      let after = if ended.task.started then served.0 else begun in
      let same : limits_of after ≡ limits_of a = elim (Bool-cases ended.task.started) [
        | inl e ↦
            ap (λ b. limits_of (if b then served.0 else begun)) e
            ∙ (serve-limits host context deadline begun tool_name arguments t.answers keeps
                ∙ begin-limits a t.task)
        | inr e ↦ ap (λ b. limits_of (if b then served.0 else begun)) e ∙ begin-limits a t.task
      ] in
      recover-Answered (limits_of a) (redact_ended host context after ended.result) (λ p h.
        subst (λ l. IsPublic host l (safe_request_id host context.request_id) p) same
          (redact_ended-IsPublic after ended.result p h))

  refuse_unready-Answered :
      (a : Application) (tool_name : String)
      → Answered (limits_of a) (refuse_unready host context a tool_name).1
  unfolding refuse_unready refuse
  refuse_unready-Answered a tool_name =
      let text = safe_request_id-text host digest_is_text context.request_id in
      rw
        (from_code-response_of ErrorCode.unavailable (safe_request_id host context.request_id) text)
        (inl (
          failure (response_of ErrorCode.unavailable (safe_request_id host context.request_id)),
          refl,
          inr (ErrorCode.unavailable, refl, text),
        ))

  -- Why a call that was answered is not logged: its duration is refused, or the id that is safe to
  -- show has the character DEL.
  abbrev pub Unlogged : Number → Failure → Type 0
  Unlogged elapsed e =
      (duration elapsed ≡ err e)
      ⊎ ((e ≡ value_failure)
          × (any (λ c. c == 127) (codes (safe_request_id host context.request_id)) ≡ true))

  -- the answer, or what is raised in its place
  abbrev pub Ended : ExecutionLimits → Number → Result (InvocationResult Value) → Type 0
  Ended l elapsed r = Answered l r ⊎ ((e : Failure) × (r ≡ err e) × Unlogged elapsed e)

  log_event-ways :
      (log_event host context context.request_id ≡ ok tt)
      ⊎ ((log_event host context context.request_id ≡ err value_failure)
          × (any (λ c. c == 127) (codes (safe_request_id host context.request_id)) ≡ true))
  unfolding log_event is_log_id
  log_event-ways =
      let s = codes (safe_request_id host context.request_id) in
      elim (Bool-cases (is_log_id s)) [
        | inl good ↦ inl (ground (arith, good))
        | inr bad ↦ inr (
          ground (arith, bad),
          has_delete (safe_request_id host context.request_id)
              (safe_request_id-text host digest_is_text context.request_id) bad,
        )
      ]

  record_call-Ended :
      (l : ExecutionLimits) (tool_name : Option String) (elapsed : Number)
      (x : Application × Result (InvocationResult Value))
      → Answered l x.1
      → Ended l elapsed (record_call host context tool_name elapsed x).1
  unfolding record_call
  record_call-Ended l tool_name elapsed (a, err e) h = inl h
  record_call-Ended l tool_name elapsed (a, ok p) h = elim (Result-cases (duration elapsed)) [
    | inr (e, late) ↦ rw (late, record_call) (inr (e, refl, inl refl))
    | inl (seconds, timed) ↦ elim log_event-ways [
      | inl logged ↦ rw (timed, logged, record_call) (inl h)
      | inr (raised, has) ↦
          rw (timed, raised, record_call) (inr (value_failure, refl, inr (refl, has)))
    ]
  ]

  -- When the digest's digits are visible text and other calls leave the limits alone, `invoke`
  -- ends every call, whatever the tool, the authorizer, the redactor, the telemetry and the event loop
  -- do, in one of these ways: by a value within the result limits; by a failure that has the stable
  -- text of its code and a request id that is safe to show; by an exception that ends the process; or
  -- by an exception of its own records, and that only if the duration of the call is not finite or
  -- not from 0 to 3600 seconds, or the request id that is safe to show has the character DEL.
  pub invoke-Answered :
      (a : Application) (tool_name : String) (arguments : Value) (t : Turn Model)
      → ((b : Application) → limits_of (t.answers.meanwhile b) ≡ limits_of b)
      → Ended (limits_of a) t.elapsed (invoke host context a tool_name arguments t).1
  unfolding invoke
  invoke-Answered a tool_name arguments t keeps =
      let name = known_name (get host.catalog tool_name) in
      let unready =
        record_call-Ended (limits_of a) name t.elapsed (refuse_unready host context a tool_name)
          (refuse_unready-Answered a tool_name) in
      elim (State-cases a.state) [
        | inl e ↦
            rw (e, invoke)
              (record_call-Ended (limits_of a) name t.elapsed
                (run_ready host context a tool_name arguments t)
                (run_ready-Answered a tool_name arguments t keeps))
        | inr (inl e) ↦ rw (e, invoke) unready
        | inr (inr (inl e)) ↦ rw (e, invoke) unready
        | inr (inr (inr e)) ↦ rw (e, invoke) unready
      ]
