-- ===== src/Permissions.antt =====
-- src/signal_hermes_router/permissions.py: the allowlist that answers an agent's tool calls.
--
-- A value of a request is null, a string, or of a type that the caller chooses (`J`); Python's
-- comparison, truth and `str` on that type, `str.lower`, `re.fullmatch` and the methods of
-- `pathlib.Path` are parameters (Host). The parsing of the configured rules is not modelled.
pub mod Allowed
pub mod Parse
pub mod Examples
use signal_hermes_router.Prelude.{
  ℕ, String, Bool, true, false, not, ◌&&◌, ◌||◌, List, [], ◌∷◌, Option, none, some, any, is_some,
  if◌then◌else◌, ◌==◌,
}
use signal_hermes_router.Text.{Text, codes, starts_with, text_eq}

pub data Value (J : Type 0) : Type 0 where
  null : Value J
  string : Text → Value J
  other : J → Value J

-- What the module calls of Python. `resolve` is `Path.resolve(strict=False)` and `none` an error of
-- it; `relative_to` says that the first path is the second one or below it.
pub record Host (J : Type 0) : Type 0 where
  pub same : J → J → Bool
  pub truth : J → Bool
  pub str_of : J → Text
  pub lower : Text → Text
  pub fullmatch : Text → Text → Bool
  pub expanduser : Text → Option Text
  pub is_absolute : Text → Bool
  pub resolve : Text → Option Text
  pub relative_to : Text → Text → Bool

pub record ArgPredicate (J : Type 0) : Type 0 where
  pub equals : Value J
  pub prefix : Option Text
  pub one_of : Option (List (Value J))
  pub regex : Option Text
  pub present : Option Bool

pub record PermissionRule (J : Type 0) : Type 0 where
  pub tool_name : Text
  pub arguments : List (Text × ArgPredicate J)

pub record StaticPermissionPolicy (J : Type 0) : Type 0 where
  pub rules : List (PermissionRule J)
  pub mcp_only : Bool

-- The input of a tool call: a dictionary, or another value.
pub data RawInput (J : Type 0) : Type 0 where
  mapping : List (Text × Value J) → RawInput J
  single : Value J → RawInput J

-- The keys that the module reads of `toolCall`; an absent key is null.
pub record ToolCall (J : Type 0) : Type 0 where
  pub tool_name_camel : Value J  -- toolName
  pub tool_name : Value J
  pub name : Value J
  pub title : Value J
  pub raw_input_camel : RawInput J  -- rawInput
  pub raw_input : RawInput J

pub record PermissionOption (J : Type 0) : Type 0 where
  pub kind : Value J
  pub option_id : Value J

pub record PermissionRequest (J : Type 0) : Type 0 where
  pub tool_call : ToolCall J
  pub options : List (PermissionOption J)

pub data AcpResponse (J : Type 0) : Type 0 where
  response_cancelled : AcpResponse J
  selected : Value J → AcpResponse J

abbrev local_tool_names : List Text
local_tool_names =
    codes "shell"
    ∷ codes "bash"
    ∷ codes "sh"
    ∷ codes "zsh"
    ∷ codes "python"
    ∷ codes "exec"
    ∷ codes "execute"
    ∷ codes "run"
    ∷ codes "run_command"
    ∷ codes "run_shell_command"
    ∷ codes "subprocess"
    ∷ codes "code_interpreter"
    ∷ codes "terminal"
    ∷ codes "fs"
    ∷ codes "read_file"
    ∷ codes "write_file"
    ∷ codes "edit_file"
    ∷ codes "list_directory"
    ∷ codes "create_directory"
    ∷ codes "delete_file"
    ∷ codes "move_file"
    ∷ codes "copy_file"
    ∷ []

abbrev path_argument_names : List Text
path_argument_names = codes "path" ∷ codes "file_path" ∷ codes "filepath" ∷ codes "cwd" ∷ []

abbrev starts_any : Text → List Text → Bool
starts_any s prefixes = any (starts_with s) prefixes

-- s.replace("-", "_")
unfoldable pub underscored : Text → Text
underscored [] = []
underscored (c ∷ cs) = (if c == 45 then 95 else c) ∷ underscored cs

-- s.endswith(suffix)
unfoldable pub ends_with : Text → Text → Bool
ends_with [] suffix = text_eq [] suffix
ends_with (c ∷ cs) suffix = text_eq (c ∷ cs) suffix || ends_with cs suffix

-- `raw_input.get(key)`, with `none` where the key is absent.
unfoldable pub lookup {ℓ} : {A : Type ℓ} → Text → List (Text × A) → Option A
lookup key [] = none
lookup key ((k, a) ∷ rest) = if text_eq k key then some a else lookup key rest

module _ {J : Type 0} (host : Host J) where
  unfoldable pub is_local_tool : Text → Bool
  is_local_tool tool_name =
      let lower = host.lower tool_name in
      any (text_eq lower) local_tool_names
      || starts_any lower (codes "terminal/" ∷ codes "fs/" ∷ [])

  -- `==` of two values
  unfoldable pub value_eq : Value J → Value J → Bool
  value_eq null null = true
  value_eq (string s) (string t) = text_eq s t
  value_eq (other a) (other b) = host.same a b
  value_eq _ _ = false

  -- `str(value)`
  abbrev pub str_value : Value J → Text
  str_value null = codes "None"
  str_value (string s) = s
  str_value (other a) = host.str_of a

  abbrev is_null : Value J → Bool
  is_null null = true
  is_null _ = false

  abbrev pub truth_value : Value J → Bool
  truth_value null = false
  truth_value (string []) = false
  truth_value (string (c ∷ cs)) = true
  truth_value (other a) = host.truth a

  -- `_is_path_argument`
  unfoldable pub is_path_argument : Text → Bool
  unfolding underscored ends_with
  is_path_argument argument_name =
      let normalized = underscored (host.lower argument_name) in
      any (text_eq normalized) path_argument_names || ends_with normalized (codes "_path")

  abbrev within_root : Option Text → Option Text → Bool
  within_root (some requested) (some root) = host.relative_to requested root
  within_root _ _ = false

  abbrev absolute_within : Option Text → Option Text → Bool
  absolute_within (some root) (some requested) =
      host.is_absolute root
      && (host.is_absolute requested && within_root (host.resolve requested) (host.resolve root))
  absolute_within _ _ = false

  -- `_path_prefix_matches`
  unfoldable pub path_prefix_matches : Value J → Text → Bool
  path_prefix_matches (string value) prefix =
      absolute_within (host.expanduser prefix) (host.expanduser value)
  path_prefix_matches _ prefix = false

  abbrev presence : Option Bool → Bool → Bool
  presence none exists = true
  presence (some true) exists = exists
  presence (some false) exists = not exists

  abbrev prefix_matches : Option Text → Text → Value J → Bool
  prefix_matches none argument_name value = true
  prefix_matches (some prefix) argument_name value =
      if is_path_argument argument_name
      then path_prefix_matches value prefix
      else starts_with (str_value value) prefix

  abbrev one_of_matches : Option (List (Value J)) → Value J → Bool
  one_of_matches none value = true
  one_of_matches (some values) value = any (value_eq value) values

  abbrev regex_matches : Option Text → Value J → Bool
  regex_matches none value = true
  regex_matches (some regex) value = host.fullmatch regex (str_value value)

  abbrev absent_wanted : Option Bool → Bool
  absent_wanted (some false) = true
  absent_wanted _ = false

  -- `ArgPredicate.matches`
  unfoldable pub predicate_matches : ArgPredicate J → Value J → Bool → Text → Bool
  unfolding value_eq is_path_argument path_prefix_matches
  predicate_matches p value exists argument_name =
      presence p.present exists
      && (absent_wanted p.present
          || ((is_null p.equals || value_eq value p.equals)
              && (prefix_matches p.prefix argument_name value
                  && (one_of_matches p.one_of value && regex_matches p.regex value))))

  abbrev or_null : Option (Value J) → Value J
  or_null none = null
  or_null (some v) = v

  unfoldable pub arguments_match : List (Text × ArgPredicate J) → List (Text × Value J) → Bool
  unfolding predicate_matches
  arguments_match [] raw_input = true
  arguments_match ((key, p) ∷ rest) raw_input =
      let found = lookup key raw_input in
      predicate_matches p (or_null found) (is_some found) key && arguments_match rest raw_input

  -- `PermissionRule.matches`
  unfoldable pub rule_matches : PermissionRule J → Text → List (Text × Value J) → Bool
  unfolding arguments_match
  rule_matches rule tool_name raw_input =
      text_eq tool_name rule.tool_name && arguments_match rule.arguments raw_input

  abbrev or_value : Value J → Value J → Value J
  or_value a b = if truth_value a then a else b

  unfoldable pub called_tool : ToolCall J → Text
  called_tool call = str_value (
      or_value call.tool_name_camel
        (or_value call.tool_name (or_value call.name (or_value call.title (string [])))))

  abbrev truth_raw : RawInput J → Bool
  truth_raw (mapping []) = false
  truth_raw (mapping (e ∷ rest)) = true
  truth_raw (single v) = truth_value v

  abbrev as_mapping : RawInput J → List (Text × Value J)
  as_mapping (mapping m) = m
  as_mapping (single v) = (codes "value", v) ∷ []

  unfoldable pub input_of : ToolCall J → List (Text × Value J)
  input_of call = as_mapping (
      if truth_raw call.raw_input_camel
      then call.raw_input_camel
      else if truth_raw call.raw_input
      then call.raw_input
      else mapping [])

  unfoldable pub allows_tool_call : StaticPermissionPolicy J → ToolCall J → Bool
  unfolding rule_matches
  allows_tool_call policy call =
      let tool_name = called_tool call in
      if policy.mcp_only && is_local_tool tool_name
      then false
      else any (λ rule. rule_matches rule tool_name (input_of call)) policy.rules

  -- The loop over the options for one kind. Also whether an option has the kind.
  abbrev option_of_kind : Text → List (PermissionOption J) → Option (Value J)
  option_of_kind kind [] = none
  option_of_kind kind (o ∷ rest) =
      if value_eq o.kind (string kind) then some o.option_id else option_of_kind kind rest

  -- `_first_option_id`
  unfoldable pub first_option_id : List (PermissionOption J) → List Text → Value J
  first_option_id options [] = null
  first_option_id options (kind ∷ kinds) = elim (option_of_kind kind options) [
    | some id ↦ id
    | none ↦ first_option_id options kinds
  ]

  unfoldable pub select_option : StaticPermissionPolicy J → PermissionRequest J → Value J
  unfolding first_option_id
  select_option policy request =
      if not (allows_tool_call policy request.tool_call)
      then first_option_id request.options (codes "reject_once" ∷ codes "reject_always" ∷ [])
      else first_option_id request.options (codes "allow_once" ∷ [])

  abbrev response_of : Value J → AcpResponse J
  response_of null = response_cancelled
  response_of (string s) = selected (string s)
  response_of (other a) = selected (other a)

  unfoldable pub acp_response : StaticPermissionPolicy J → PermissionRequest J → AcpResponse J
  unfolding select_option
  acp_response policy request = response_of (select_option policy request)

unfoldable pub with_mcp_only :
    {J : Type 0} → Bool → StaticPermissionPolicy J → StaticPermissionPolicy J
with_mcp_only b policy = record policy { mcp_only = b }
