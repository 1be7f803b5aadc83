-- ===== src/Failures/Laws.antt =====
-- failures.py: what a classification can answer.
use signal_hermes_router.Prelude.{
  ◌≡◌, refl, ◌⊎◌, inl, inr, Bool, true, false, Option, none, some, Bool-cases,
}
use signal_hermes_router.Failures.Codes.{FailureCode, is_model_provider_code}
use signal_hermes_router.Failures.{
  Runtime, Exc, json_rpc_error, json_rpc_peer_exited, broken_pipe_error, other_exception,
  timeout_error, os_error, structured_failure_code, preferred, classify_in_context,
}

-- The failure code that a JSON-RPC error names.
abbrev pub named_code : Runtime → Exc → Option FailureCode
named_code rt (json_rpc_error e t) = structured_failure_code rt e.data_
named_code rt _ = none

-- No failure of a model's provider is named.
abbrev pub NamesNoProvider : Option FailureCode → Type 0
NamesNoProvider none = Unit
NamesNoProvider (some code) = is_model_provider_code code ≡ false

-- What a classification in a context answers: the named code, if it is preferred and a provider's,
-- and the context's code otherwise.
abbrev pub Answers : Bool → FailureCode → Option FailureCode → FailureCode → Type 0
Answers prefer context named answer =
    ((prefer ≡ true) × (is_model_provider_code answer ≡ true) × (named ≡ some answer))
    ⊎ ((answer ≡ context) × ((prefer ≡ false) ⊎ NamesNoProvider named))

preferred-Answers :
    (rt : Runtime) (prefer : Bool) (o : Option FailureCode) (context : FailureCode)
    → Answers prefer context o (preferred rt prefer o context)
preferred-Answers rt prefer none context = inr (refl, inr tt)
preferred-Answers rt false (some code) context = inr (refl, inl refl)
preferred-Answers rt true (some code) context = elim (Bool-cases (is_model_provider_code code)) [
  | inl own ↦ rw own (inl (refl, own, refl))
  | inr other ↦ rw other (inr (refl, inr refl))
]

module _ (rt : Runtime) (context : FailureCode) where
  -- A failure that is classified in a context gets the code that its JSON-RPC error names exactly
  -- when the caller prefers provider failures and that code is a provider failure's; in every other
  -- case it has the context's code, and then the caller does not prefer them or no provider failure
  -- is named.
  pub classify_in_context_code :
      (prefer : Bool) (exc : Exc)
      → Answers prefer context (named_code rt exc) (classify_in_context rt context prefer exc).code
  unfolding classify_in_context
  classify_in_context_code prefer (json_rpc_error e t) =
      preferred-Answers rt prefer (structured_failure_code rt e.data_) context
  classify_in_context_code prefer (json_rpc_peer_exited t) = inr (refl, inr tt)
  classify_in_context_code prefer (broken_pipe_error t) = inr (refl, inr tt)
  classify_in_context_code prefer (other_exception t) = inr (refl, inr tt)
  classify_in_context_code prefer (timeout_error b t) = inr (refl, inr tt)
  classify_in_context_code prefer (os_error b t) = inr (refl, inr tt)
