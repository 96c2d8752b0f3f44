-- ===== src/Request/Report.antt =====
-- src/engine/abstractrequest.cpp: which of several errors a request reports.
use qtcontacts_tracker.Base.{◌≡◌, refl, Bool, true, false, List, [], ◌∷◌, any, if◌then◌else◌}
use qtcontacts_tracker.Request.{
  Request, out_of_memory_error, not_supported_error, unspecified_error, SparqlError, no_space,
  unsupported, other, report_errors, report_loop, translate_error,
}

abbrev pub is_no_space : SparqlError → Bool
is_no_space no_space = true
is_no_space _ = false

abbrev pub is_unsupported : SparqlError → Bool
is_unsupported unsupported = true
is_unsupported _ = false

loop_out_of_memory :
    (es : List SparqlError) → report_loop out_of_memory_error es ≡ out_of_memory_error
unfolding translate_error
loop_out_of_memory [] = refl
loop_out_of_memory (no_space ∷ es) = loop_out_of_memory es
loop_out_of_memory (unsupported ∷ es) = loop_out_of_memory es
loop_out_of_memory (other ∷ es) = loop_out_of_memory es

loop_not_supported :
    (es : List SparqlError)
    → report_loop not_supported_error es
      ≡ (if any is_no_space es then out_of_memory_error else not_supported_error)
unfolding translate_error
loop_not_supported [] = refl
loop_not_supported (no_space ∷ es) = loop_out_of_memory es
loop_not_supported (unsupported ∷ es) = loop_not_supported es
loop_not_supported (other ∷ es) = loop_not_supported es

loop_unspecified :
    (es : List SparqlError)
    → report_loop unspecified_error es ≡ (
        if any is_no_space es
        then out_of_memory_error
        else if any is_unsupported es
        then not_supported_error
        else unspecified_error)
unfolding translate_error
loop_unspecified [] = refl
loop_unspecified (no_space ∷ es) = loop_out_of_memory es
loop_unspecified (unsupported ∷ es) = loop_not_supported es
loop_unspecified (other ∷ es) = loop_unspecified es

-- Of a list of errors, in whatever order, a request reports that memory ran out if one of them
-- says so, else that an operation is not supported if one says so, else an unspecified error; its
-- earlier error does not count, and the flags of cancellation stay.
pub report_errors_priority :
    (r : Request) (es : List SparqlError)
    → report_errors r es ≡ record r {
      last_error =
          if any is_no_space es
          then out_of_memory_error
          else if any is_unsupported es
          then not_supported_error
          else unspecified_error;
    }
unfolding report_errors
report_errors_priority r es = rw (loop_unspecified es)
