-- ===== src/Failures/Examples.antt =====
-- A JSON-RPC error that names a provider's failure, classified in the context of a session.
use signal_hermes_router.Prelude.{◌≡◌, refl, true, false, some, []}
use signal_hermes_router.Text.{codes, strip, text_eq}
use signal_hermes_router.Failures.Codes.{FailureCode, lookup_code, structured_code_map}
use signal_hermes_router.Failures.{
  Runtime, Exc, json_rpc_error, negative, absent, text, classify_in_context,
  structured_failure_code, normalize_code, squeeze, lstrip_underscores, rstrip_underscores,
}
use signal_hermes_router.Failures.Laws.{named_code, Answers, classify_in_context_code}

-- A host whose `lower` changes nothing and whose patterns never match.
abbrev host : Runtime
host = record { lower = λ t. t; search = λ p t. false }

-- The error of an agent whose provider refused its key.
abbrev refused_key : Exc
refused_key =
    json_rpc_error
      (record {
        rpc_code = negative 32000;
        message = absent;
        data_ = some (record {
          code = text (codes "unauthorized");
          failure_code = absent;
          provider_class = absent;
          provider_detail = absent;
          detail = absent;
          message = absent;
          reason = absent;
        });
      })
      []

names_auth : named_code host refused_key ≡ some FailureCode.model_auth_failed
unfolding structured_failure_code normalize_code squeeze lstrip_underscores rstrip_underscores strip
    lookup_code structured_code_map text_eq
names_auth = refl

classify_in_context_code_example :
    Answers true FailureCode.acp_session_failed
      (named_code host refused_key)
      (classify_in_context host FailureCode.acp_session_failed true refused_key).code
classify_in_context_code_example =
    classify_in_context_code host FailureCode.acp_session_failed true refused_key
