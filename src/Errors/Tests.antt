-- ===== src/Errors/Tests.antt =====
-- Failures mapped and results emitted, and the theorems at these inputs.
use tesserix_mcp_runtime.Base.{true, false, String, some, ◌≡◌, refl, [], ◌∷◌, map}
use tesserix_mcp_runtime.Base.Text.{is_stripped}
use tesserix_mcp_runtime.Contracts.Vocabulary.{error_message}
use tesserix_mcp_runtime.Contracts.Failure.{Failure, Kind, ok}
use tesserix_mcp_runtime.Contracts.Response.{is_text, success, InvocationResult}
use tesserix_mcp_runtime.Errors.{
  MappedError, is_exception_type, public_code, map_exception, audit_name, fresh, emit_all,
}
use tesserix_mcp_runtime.Errors.Mapping.{map_exception_total, emit_all_first}

abbrev database_error : Failure
database_error = record { kind = Kind.other; type_name = "OperationalError: password=hunter2" }

-- a class name that is none is not shown
hidden : audit_name database_error.type_name ≡ "Exception"
unfolding audit_name is_exception_type
hidden = refl

visible_id : is_text 256 "q-1" ≡ true
unfolding is_text is_stripped
visible_id = refl

map_exception_total_example :
    (m : MappedError) × (map_exception database_error "q-1" ≡ ok m)
    × (m.response.code ≡ public_code Kind.other)
    × (m.response.message ≡ error_message (public_code Kind.other))
    × (m.response.request_id ≡ "q-1")
    × (m.audit.code ≡ m.response.code)
    × (m.audit.request_id ≡ "q-1")
    × (is_exception_type m.audit.exception_type ≡ true)
map_exception_total_example = map_exception_total database_error "q-1" visible_id

abbrev first : InvocationResult String
first = success "a"

abbrev second : InvocationResult String
second = success "b"

abbrev third : InvocationResult String
third = success "c"

first_of_three :
    ((emit_all fresh (first ∷ second ∷ third ∷ [])).0.result ≡ some first)
    × ((emit_all fresh (first ∷ second ∷ third ∷ [])).1
        ≡ true ∷ map (λ _. false) (second ∷ third ∷ []))
first_of_three = emit_all_first first (second ∷ third ∷ [])
