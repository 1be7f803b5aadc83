-- ===== src/Models.antt =====
-- src/signal_hermes_router/models.py: the enumerations and records that the components share.
--
-- Left out: the raw payload of an event, the stop reason of a turn, and the dictionaries that
-- `to_dict` renders for logs.
use signal_hermes_router.Prelude.{
  ℕ, String, Bool, List, [], ◌∷◌, ◌++◌, Option, none, some, str_eq, if◌then◌else◌,
}
use signal_hermes_router.Text.{Text}
use signal_hermes_router.Failures.{FailureCode, FailureInfo}

pub data RouteState : Type 0 where
  shadow active maintenance disabled : RouteState

pub data SessionPolicy : Type 0 where
  persistent_route persistent_sender ephemeral : SessionPolicy

pub data ChatType : Type 0 where
  group direct : ChatType

pub data TurnOrigin : Type 0 where
  signal scheduled_job notification : TurnOrigin

pub data SyntheticTurnKind : Type 0 where
  scheduled_job notification : SyntheticTurnKind

pub data TurnOutcomeStatus : Type 0 where
  delivered skipped deduped busy error : TurnOutcomeStatus

-- The attachment's body and path are for the media store; here its identity.
pub record SignalAttachment : Type 0 where
  pub content_type : Text
  pub signal_id : Option String

pub record NormalizedEvent : Type 0 where
  pub platform : String
  pub sender_id : String
  pub timestamp : ℕ
  pub text : Text
  pub source_uuid : Option String
  pub chat_type : ChatType
  pub group_id : Option String
  pub source_number : Option String
  pub attachments : List SignalAttachment

-- `value or rest`, for an optional string.
abbrev pub string_or : Option String → String → String
string_or none rest = rest
string_or (some s) rest = if str_eq s "" then rest else s

-- The property `dedupe_sender_id`.
unfoldable pub dedupe_sender_id : NormalizedEvent → String
dedupe_sender_id e =
    string_or e.source_uuid (string_or e.source_number (string_or (some e.sender_id) "unknown"))

pub record OutboundAttachment : Type 0 where
  pub path : String
  pub size : ℕ
  pub owned_by_router : Bool

pub record SessionKeyInput : Type 0 where
  pub sender_id : String
  pub timestamp : ℕ

-- `error` holds the code of the failure, or the name of an error that is no failure.
pub data ErrorName : Type 0 where
  code : FailureCode → ErrorName
  named : String → ErrorName

pub record TurnOutcome : Type 0 where
  pub status : TurnOutcomeStatus
  pub route_state : Option RouteState
  pub result : Option Text
  pub error : Option ErrorName
  pub failure : Option FailureInfo
  pub synthetic_id : Option String
  pub synthetic_kind : Option SyntheticTurnKind
  pub reply_sent : Option Bool
  pub route_ref : Option String
  pub profile : Option String
  pub last_failure_at_ms : Option ℕ

-- `TurnOutcome(status)` with every default.
abbrev pub outcome : TurnOutcomeStatus → TurnOutcome
outcome status = record {
  status = status;
  route_state = none;
  result = none;
  error = none;
  failure = none;
  synthetic_id = none;
  synthetic_kind = none;
  reply_sent = none;
  route_ref = none;
  profile = none;
  last_failure_at_ms = none;
}

-- A value of a control response.
pub data ControlValue : Type 0 where
  status : TurnOutcomeStatus → ControlValue
  route_state : RouteState → ControlValue
  kind : SyntheticTurnKind → ControlValue
  string : String → ControlValue
  number : ℕ → ControlValue
  boolean : Bool → ControlValue
  error : ErrorName → ControlValue
  failure : FailureInfo → ControlValue
  stop_reason : ControlValue

abbrev field {ℓ} :
    {A : Type ℓ} → String → (A → ControlValue) → Option A → List (String × ControlValue)
field name f none = []
field name f (some a) = (name, f a) ∷ []

abbrev job_field : Option SyntheticTurnKind → Option String → List (String × ControlValue)
job_field (some SyntheticTurnKind.scheduled_job) (some id) = ("job_id", ControlValue.string id) ∷ []
job_field _ id = []

abbrev error_fields : Option FailureInfo → Option ErrorName → List (String × ControlValue)
error_fields (some f) e =
    ("error", ControlValue.error (ErrorName.code f.code)) ∷ ("failure", ControlValue.failure f) ∷ []
error_fields none none = []
error_fields none (some e) = ("error", ControlValue.error e) ∷ []

-- `TurnOutcome.to_control_response`, as the list of the keys that it sets.
unfoldable pub to_control_response : TurnOutcome → List (String × ControlValue)
to_control_response o =
    ("status", ControlValue.status o.status)
    ∷ (field "route_state" ControlValue.route_state o.route_state
        ++ (field "route_ref" ControlValue.string o.route_ref
            ++ (field "profile" ControlValue.string o.profile
                ++ (field "last_failure_at_ms" ControlValue.number o.last_failure_at_ms
                    ++ (job_field o.synthetic_kind o.synthetic_id
                        ++ (field "synthetic_id" ControlValue.string o.synthetic_id
                            ++ (field "synthetic_kind" ControlValue.kind o.synthetic_kind
                                ++ (field "stop_reason" (λ (t : Text). ControlValue.stop_reason)
                                      o.result
                                    ++ (field "reply_sent" ControlValue.boolean o.reply_sent
                                        ++ error_fields o.failure o.error)))))))))
