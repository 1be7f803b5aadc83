-- ===== src/Failures/Codes.antt =====
-- failures.py: the enumerations and the tables of codes.
use signal_hermes_router.Prelude.{
  Bool, true, false, String, List, [], ◌∷◌, Option, none, some, if◌then◌else◌,
}
use signal_hermes_router.Text.{Text, codes, text_eq}

pub data FailureCode : Type 0 where
  router_error acp_subprocess_failed acp_protocol_error acp_empty_response : FailureCode
  acp_session_failed acp_prompt_timeout permission_denied preflight_failed : FailureCode
  signal_send_failed model_auth_failed model_rate_limited model_unavailable : FailureCode
  model_timeout endpoint_unreachable unknown : FailureCode

pub data ProviderClass : Type 0 where
  cloud_api local_endpoint unknown : ProviderClass

-- `_STRUCTURED_CODE_MAP`
unfoldable pub structured_code_map : List (String × FailureCode)
structured_code_map =
    ("router_error", FailureCode.router_error)
    ∷ ("acp_subprocess_failed", FailureCode.acp_subprocess_failed)
    ∷ ("acp_protocol_error", FailureCode.acp_protocol_error)
    ∷ ("acp_empty_response", FailureCode.acp_empty_response)
    ∷ ("acp_session_failed", FailureCode.acp_session_failed)
    ∷ ("acp_prompt_timeout", FailureCode.acp_prompt_timeout)
    ∷ ("permission_denied", FailureCode.permission_denied)
    ∷ ("preflight_failed", FailureCode.preflight_failed)
    ∷ ("signal_send_failed", FailureCode.signal_send_failed)
    ∷ ("model_auth_failed", FailureCode.model_auth_failed)
    ∷ ("auth_failed", FailureCode.model_auth_failed)
    ∷ ("authentication_failed", FailureCode.model_auth_failed)
    ∷ ("unauthorized", FailureCode.model_auth_failed)
    ∷ ("forbidden", FailureCode.model_auth_failed)
    ∷ ("model_rate_limited", FailureCode.model_rate_limited)
    ∷ ("rate_limited", FailureCode.model_rate_limited)
    ∷ ("quota_exceeded", FailureCode.model_rate_limited)
    ∷ ("model_unavailable", FailureCode.model_unavailable)
    ∷ ("service_unavailable", FailureCode.model_unavailable)
    ∷ ("provider_unavailable", FailureCode.model_unavailable)
    ∷ ("model_timeout", FailureCode.model_timeout)
    ∷ ("provider_timeout", FailureCode.model_timeout)
    ∷ ("request_timeout", FailureCode.model_timeout)
    ∷ ("endpoint_unreachable", FailureCode.endpoint_unreachable)
    ∷ ("connection_failed", FailureCode.endpoint_unreachable)
    ∷ ("connection_refused", FailureCode.endpoint_unreachable)
    ∷ ("dns_error", FailureCode.endpoint_unreachable)
    ∷ ("unknown", FailureCode.unknown)
    ∷ []

-- `_MODEL_PROVIDER_FAILURE_CODES`
abbrev pub is_model_provider_code : FailureCode → Bool
is_model_provider_code FailureCode.model_auth_failed = true
is_model_provider_code FailureCode.model_rate_limited = true
is_model_provider_code FailureCode.model_unavailable = true
is_model_provider_code FailureCode.model_timeout = true
is_model_provider_code FailureCode.endpoint_unreachable = true
is_model_provider_code _ = false

-- `ProviderClass(raw)`, with UNKNOWN for a ValueError.
unfoldable pub provider_class_of : Text → ProviderClass
provider_class_of raw =
    if text_eq raw (codes "cloud_api")
    then ProviderClass.cloud_api
    else if text_eq raw (codes "local_endpoint")
    then ProviderClass.local_endpoint
    else ProviderClass.unknown

unfoldable pub lookup_code : Text → List (String × FailureCode) → Option FailureCode
lookup_code key [] = none
lookup_code key ((name, code) ∷ rest) =
    if text_eq key (codes name) then some code else lookup_code key rest
