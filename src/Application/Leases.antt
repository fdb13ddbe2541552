-- ===== src/Application/Leases.antt =====
-- What a call does to the bulkheads.
use tesserix_mcp_runtime.Base.{
  ℕ, String, none, some, ◌≡◌, refl, ◌⊎◌, inl, inr, arith, Option-cases, sym, ◌∙◌, ap, subst,
}
use tesserix_mcp_runtime.Base.Dict.{get}
use tesserix_mcp_runtime.Contracts.Vocabulary.{ErrorCode}
use tesserix_mcp_runtime.Contracts.Failure.{Failure, Result, ok, err, code_failure, Result-cases}
use tesserix_mcp_runtime.Contracts.Identity.{CallContext}
use tesserix_mcp_runtime.Json.{Value}
use tesserix_mcp_runtime.Execution.Limits.{max_input_bytes}
use tesserix_mcp_runtime.Execution.Admission.{ExecutionController, Lease, admit, release}
use tesserix_mcp_runtime.Execution.Admission.Histories.{admit-limits, release-limits}
use tesserix_mcp_runtime.Execution.Json.{validate_json_value}
use tesserix_mcp_runtime.Application.{Host, Application, Definition, limits_of}
use tesserix_mcp_runtime.Application.Failures.{mapped_failure, emit_audit}
use tesserix_mcp_runtime.Application.Serve.{
  Answers, run_tool, give_back, answer, run_admitted, serve,
}

module _ {Model : Type 0} (host : Host Model) where
  pub mapped_failure-controller :
      (a : Application) (e : Failure) (id : String)
      → (mapped_failure host a e id).0.controller ≡ a.controller
  unfolding mapped_failure emit_audit
  mapped_failure-controller a e id = ground arith

module _ {Model : Type 0} (host : Host Model) (context : CallContext) (deadline : ℕ) where
  answer-controller :
      (x : Application × Result Value)
      → (answer host context deadline x).0.controller ≡ x.0.controller
  unfolding answer
  answer-controller (a, ok v) = refl
  answer-controller (a, err e) =
      ground (arith, mapped_failure-controller host a e context.request_id)

  run_tool-controller :
      (a : Application) (d : Definition Model) (input : Model) (answers : Answers Model)
      → (run_tool host context deadline a d input answers).0.controller
        ≡ (answers.meanwhile a).controller
  unfolding run_tool
  run_tool-controller a d input answers = ground arith

  give_back-controller :
      (x : Application × Result Value) (lease : Lease)
      → (give_back host context deadline x lease).0.controller ≡ (release x.0.controller lease).0
  unfolding give_back
  give_back-controller (a, r) lease = refl

  abbrev pub entered : Application → Definition Model → Application
  entered a d = record a { controller = (admit a.controller d.metadata.name context.tenant).0 }

  -- The call was refused, or it was admitted and then gave its own lease back, after what the other
  -- calls did in between.
  abbrev pub Balanced : Application → Definition Model → Answers Model → Application → Type 0
  Balanced a d answers a' =
      (((admit a.controller d.metadata.name context.tenant).1 ≡ none)
        × (a'.controller ≡ (admit a.controller d.metadata.name context.tenant).0))
      ⊎ ((lease : Lease) × ((admit a.controller d.metadata.name context.tenant).1 ≡ some lease)
          × (a'.controller ≡ (release (answers.meanwhile (entered a d)).controller lease).0))

  run_admitted-Balanced :
      (a : Application) (d : Definition Model) (input : Model) (answers : Answers Model)
      → Balanced a d answers (run_admitted host context deadline a d input answers).0
  unfolding run_admitted
  run_admitted-Balanced a d input answers =
      elim (Option-cases (admit a.controller d.metadata.name context.tenant).1) [
        | inl e ↦ inl (
          e,
          ground
              (arith, e, answer-controller (entered a d, err (code_failure ErrorCode.overloaded))),
        )
        | inr (lease, e) ↦
            let ran = run_tool host context deadline (entered a d) d input answers in
            inr (
              lease,
              e,
              ground (
                arith,
                e,
                answer-controller (give_back host context deadline ran lease),
                give_back-controller ran lease,
                run_tool-controller (entered a d) d input answers,
              ),
            )
      ]

  -- However a call ends, by a value, a refusal, an exception or a cancellation, it either never
  -- entered the bulkheads, or it entered once and gave its lease back.
  pub serve-Balanced :
      (a : Application) (tool_name : String) (arguments : Value) (answers : Answers Model)
      → let a' = (serve host context deadline a tool_name arguments answers).0 in
        (a'.controller ≡ a.controller)
        ⊎ ((d : Definition Model) × (get host.catalog tool_name ≡ some d) × Balanced a d answers a')
  unfolding serve
  serve-Balanced a tool_name arguments answers =
      elim (Result-cases (
        validate_json_value host.float_length (limits_of a) ((limits_of a).integers max_input_bytes)
          arguments)) [
            | inr (e, b) ↦ inl (ground (arith, b))
            | inl (_, b) ↦ elim (Option-cases (get host.catalog tool_name)) [
              | inl k ↦ inl (ground (arith, b, k))
              | inr (d, k) ↦ elim (Result-cases (d.parse_input arguments)) [
                | inr (e, p) ↦ inl (ground (arith, b, k, p))
                | inl (input, p) ↦
                    let same : serve host context deadline a tool_name arguments answers
                        ≡ run_admitted host context deadline a d input answers =
                      ground (arith, b, k, p) in
                    inr (
                      d,
                      k,
                      subst (λ x. Balanced a d answers x.0) (sym same)
                          (run_admitted-Balanced a d input answers),
                    )
              ]
            ]
          ]

  pub serve-limits :
      (a : Application) (tool_name : String) (arguments : Value) (answers : Answers Model)
      → ((b : Application) → limits_of (answers.meanwhile b) ≡ limits_of b)
      → limits_of (serve host context deadline a tool_name arguments answers).0 ≡ limits_of a
  serve-limits a tool_name arguments answers keeps =
      elim (serve-Balanced a tool_name arguments answers) [
        | inl same ↦ ap (λ (c : ExecutionController). c.limits) same
        | inr (d, known, inl (refused, e)) ↦
            ap (λ (c : ExecutionController). c.limits) e
            ∙ admit-limits a.controller d.metadata.name context.tenant
        | inr (d, known, inr (lease, given, e)) ↦
            ap (λ (c : ExecutionController). c.limits) e
            ∙ (release-limits (answers.meanwhile (entered a d)).controller lease
                ∙ (keeps (entered a d) ∙ admit-limits a.controller d.metadata.name context.tenant))
      ]
