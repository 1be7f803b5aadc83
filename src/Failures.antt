-- ===== src/Failures.antt =====
-- src/signal_hermes_router/failures.py: failure codes, and the classification of exceptions.
--
-- The diagnostic texts of a FailureInfo (`detail`, `provider_detail`) and their sanitizing are not
-- modelled: a failure is its code and its provider class. `str.lower` and the searches of Python's
-- `re` for the patterns of the text fallback are parameters (Runtime); its plain substrings are
-- searched here.
pub mod Codes
pub mod Laws
pub mod Examples
pub use Codes.{FailureCode, ProviderClass}
use signal_hermes_router.Prelude.{
  ℕ, Bool, true, false, ◌&&◌, ◌||◌, String, List, [], ◌∷◌, ◌++◌, Option, none, some, any, or_else,
  leb, if◌then◌else◌, ◌==◌,
}
use signal_hermes_router.Text.{Text, codes, starts_with, strip}
use Codes.{structured_code_map, is_model_provider_code, provider_class_of, lookup_code}

pub record FailureInfo : Type 0 where
  pub code : FailureCode
  pub provider_class : ProviderClass

abbrev pub failure_info : FailureCode → FailureInfo
failure_info code = record { code = code; provider_class = ProviderClass.unknown }

-- The compiled patterns of the text fallback.
pub data Pattern : Type 0 where
  auth_status rate_limit_status quota unavailable_status timeout_text dns : Pattern

pub record Runtime : Type 0 where
  pub lower : Text → Text
  pub search : Pattern → Text → Bool

-- A value of a JSON object: absent, null, a string, or of another type, with its truth and its
-- `str`.
pub data Field : Type 0 where
  absent null : Field
  text : Text → Field
  other : Bool → Text → Field

-- The keys of `error.data` that are read, where it is a dict.
pub record ErrorData : Type 0 where
  pub code : Field
  pub failure_code : Field
  pub provider_class : Field
  pub provider_detail : Field
  pub detail : Field
  pub message : Field
  pub reason : Field

-- `negative n` is the integer -n.
pub data RpcCode : Type 0 where
  negative : ℕ → RpcCode
  natural : RpcCode

pub record RpcError : Type 0 where
  pub rpc_code : RpcCode
  pub message : Field
  pub data_ : Option ErrorData

-- What the classification tells apart. The text is `_exception_detail`; `epipe` says that an OSError
-- has the errno EPIPE.
pub data Exc : Type 0 where
  json_rpc_error : RpcError → Text → Exc
  json_rpc_peer_exited broken_pipe_error other_exception : Text → Exc
  timeout_error os_error : Bool → Text → Exc

abbrev pub exception_detail : Exc → Text
exception_detail (json_rpc_error e t) = t
exception_detail (json_rpc_peer_exited t) = t
exception_detail (broken_pipe_error t) = t
exception_detail (other_exception t) = t
exception_detail (timeout_error epipe t) = t
exception_detail (os_error epipe t) = t

unfoldable pub contains : Text → Text → Bool
contains [] needle = starts_with [] needle
contains (c ∷ cs) needle = starts_with (c ∷ cs) needle || contains cs needle

abbrev is_word : ℕ → Bool
is_word c = (leb 97 c && leb c 122) || (leb 48 c && leb c 57) || (c == 95)

-- value.replace("-", "_").replace(".", "_")
abbrev dash_to_underscore : ℕ → ℕ
dash_to_underscore c = if (c == 45) || (c == 46) then 95 else c

-- re.sub(r"[^a-z0-9_]+", "_", text): `in_run` says that the character before was replaced.
unfoldable pub squeeze : Bool → Text → Text
squeeze in_run [] = []
squeeze in_run (c ∷ cs) =
    let keep = squeeze false cs in
    let skip = squeeze true cs in
    let d = dash_to_underscore c in
    if is_word d then d ∷ keep else if in_run then skip else 95 ∷ skip

unfoldable pub lstrip_underscores : Text → Text
lstrip_underscores [] = []
lstrip_underscores (c ∷ cs) = let rest = lstrip_underscores cs in if c == 95 then rest else c ∷ cs

abbrev underscore_or : ℕ → Text → Text
underscore_or c [] = if c == 95 then [] else c ∷ []
underscore_or c (d ∷ ds) = c ∷ d ∷ ds

unfoldable pub rstrip_underscores : Text → Text
rstrip_underscores [] = []
rstrip_underscores (c ∷ cs) = underscore_or c (rstrip_underscores cs)

module _ (rt : Runtime) where
  unfoldable pub normalize_code : Text → Text
  normalize_code value =
      rstrip_underscores (lstrip_underscores (squeeze false (rt.lower (strip value))))

  abbrev code_of_field : Field → Option FailureCode
  code_of_field (text raw) = lookup_code (normalize_code raw) structured_code_map
  code_of_field absent = none
  code_of_field null = none
  code_of_field (other truthy shown) = none

  -- data.get("code", data.get("failure_code"))
  abbrev first_given : Field → Field → Field
  first_given absent b = b
  first_given a b = a

  unfoldable pub structured_failure_code : Option ErrorData → Option FailureCode
  structured_failure_code none = none
  structured_failure_code (some d) = code_of_field (first_given d.code d.failure_code)

  abbrev class_of_field : Field → ProviderClass
  class_of_field (text raw) = provider_class_of raw
  class_of_field absent = ProviderClass.unknown
  class_of_field null = ProviderClass.unknown
  class_of_field (other truthy shown) = ProviderClass.unknown

  unfoldable pub structured_provider_class : Option ErrorData → ProviderClass
  structured_provider_class none = ProviderClass.unknown
  structured_provider_class (some d) = class_of_field d.provider_class

  unfoldable pub classify_text : Text → FailureCode
  classify_text detail =
      let normalized = rt.lower detail in
      let has = λ (s : String). contains normalized (codes s) in
      if rt.search auth_status normalized || any has ("unauthorized" ∷ "forbidden" ∷ [])
      then FailureCode.model_auth_failed
      else if rt.search rate_limit_status normalized
          || (rt.search quota normalized
              || any has ("rate limit" ∷ "rate-limit" ∷ "too many requests" ∷ []))
      then FailureCode.model_rate_limited
      else if rt.search unavailable_status normalized
          || any has ("service unavailable" ∷ "temporarily unavailable" ∷ [])
      then FailureCode.model_unavailable
      else if rt.search timeout_text normalized
      then FailureCode.model_timeout
      else if any has (
            "connection refused" ∷ "connection reset" ∷ "connection failed" ∷ "network unreachable"
            ∷ "econnrefused" ∷ [])
          || rt.search dns normalized
      then FailureCode.endpoint_unreachable
      else FailureCode.unknown

  -- A string field that is not empty, or else the rest.
  abbrev string_or : Field → Text → Text
  string_or (text (c ∷ cs)) rest = c ∷ cs
  string_or (text []) rest = rest
  string_or absent rest = rest
  string_or null rest = rest
  string_or (other truthy shown) rest = rest

  -- str(value) if value is not None else ""
  abbrev shown_or_empty : Field → Text
  shown_or_empty (text t) = t
  shown_or_empty absent = []
  shown_or_empty null = []
  shown_or_empty (other truthy shown) = shown

  unfoldable pub structured_provider_detail : RpcError → Option ErrorData → Text
  structured_provider_detail e none = shown_or_empty e.message
  structured_provider_detail e (some d) =
      string_or d.provider_detail
        (string_or d.detail (string_or d.message (string_or d.reason (shown_or_empty e.message))))

  -- str(value or rest)
  abbrev value_or : Field → Text → Text
  value_or (text (c ∷ cs)) rest = c ∷ cs
  value_or (text []) rest = rest
  value_or absent rest = rest
  value_or null rest = rest
  value_or (other truthy shown) rest = if truthy then shown else rest

  abbrev is_protocol_code : RpcCode → Bool
  is_protocol_code (negative n) =
      (n == 32600) || (n == 32601) || (n == 32602) || (n == 32603) || (n == 32700)
  is_protocol_code natural = false

  abbrev text_or_else : Text → Text → Text
  text_or_else [] b = b
  text_or_else (c ∷ cs) b = c ∷ cs

  abbrev rpc_failure : Option FailureCode → RpcError → Text → FailureInfo
  rpc_failure (some code) e detail = record {
    code = code;
    provider_class = structured_provider_class e.data_;
  }
  rpc_failure none e detail =
      if is_protocol_code e.rpc_code
      then record {
        code = FailureCode.acp_protocol_error;
        provider_class = structured_provider_class e.data_;
      }
      else record {
        code =
            classify_text
              (value_or e.message (text_or_else (structured_provider_detail e e.data_) detail));
        provider_class = structured_provider_class e.data_;
      }

  unfoldable pub classify_json_rpc_error : RpcError → Text → FailureInfo
  unfolding structured_failure_code
  classify_json_rpc_error e detail = rpc_failure (structured_failure_code e.data_) e detail

  -- `classify_exception` without a context.
  unfoldable pub classify_exception : Exc → FailureInfo
  classify_exception (json_rpc_error e detail) = classify_json_rpc_error e detail
  classify_exception (json_rpc_peer_exited detail) = failure_info FailureCode.acp_subprocess_failed
  classify_exception (broken_pipe_error detail) = failure_info FailureCode.acp_subprocess_failed
  classify_exception (timeout_error epipe detail) =
      if epipe
      then failure_info FailureCode.acp_subprocess_failed
      else failure_info FailureCode.acp_prompt_timeout
  classify_exception (os_error epipe detail) =
      if epipe
      then failure_info FailureCode.acp_subprocess_failed
      else failure_info FailureCode.endpoint_unreachable
  classify_exception (other_exception detail) = failure_info (classify_text detail)

  abbrev preferred : Bool → Option FailureCode → FailureCode → FailureCode
  preferred prefer none context = context
  preferred prefer (some code) context =
      if prefer && is_model_provider_code code then code else context

  -- `classify_exception` with `context=...` and `prefer_structured_provider_failure=...`.
  unfoldable pub classify_in_context : FailureCode → Bool → Exc → FailureInfo
  classify_in_context context prefer (json_rpc_error e detail) = record {
    code = preferred prefer (structured_failure_code e.data_) context;
    provider_class = structured_provider_class e.data_;
  }
  classify_in_context context prefer _ = failure_info context

unfoldable pub is_model_provider_failure : FailureInfo → Bool
is_model_provider_failure failure = is_model_provider_code failure.code
