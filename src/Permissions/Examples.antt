-- ===== src/Permissions/Examples.antt =====
-- A policy of one rule that bounds a path, asked about a path below its root.
use mathlib.Core.List.{Memᴰ}
use signal_hermes_router.Prelude.{◌≡◌, refl, ◌⊎◌, true, false, none, some, [], ◌∷◌}
use signal_hermes_router.Text.{codes, starts_with, text_eq}
use signal_hermes_router.Permissions.{
  null, string, Host, ArgPredicate, PermissionRule, StaticPermissionPolicy, mapping, single,
  ToolCall, PermissionOption, PermissionRequest, selected, is_local_tool, called_tool, lookup,
  input_of, allows_tool_call, acp_response,
}
use signal_hermes_router.Permissions.Allowed.{
  Covers, Offers, allows_tool_call-Covers, acp_response-Offers,
}

-- No other values, and paths that are compared as they are written.
abbrev host : Host (Unit {0})
host = record {
  same = λ a b. true;
  truth = λ a. false;
  str_of = λ a. [];
  lower = λ t. t;
  fullmatch = λ r t. false;
  expanduser = λ t. some t;
  is_absolute = λ t. starts_with t (47 ∷ []);
  resolve = λ t. some t;
  relative_to = λ t root. starts_with t root;
}

abbrev under_data : ArgPredicate (Unit {0})
under_data = record {
  equals = null;
  prefix = some (codes "/data/");
  one_of = none;
  regex = none;
  present = some true;
}

abbrev policy : StaticPermissionPolicy (Unit {0})
policy = record {
  rules = record { tool_name = codes "notes"; arguments = (codes "path", under_data) ∷ [] } ∷ [];
  mcp_only = true;
}

abbrev call : ToolCall (Unit {0})
call = record {
  tool_name_camel = string (codes "notes");
  tool_name = null;
  name = null;
  title = null;
  raw_input_camel = mapping ((codes "path", string (codes "/data/a")) ∷ []);
  raw_input = single null;
}

abbrev request : PermissionRequest (Unit {0})
request = record {
  tool_call = call;
  options =
      record { kind = string (codes "reject_once"); option_id = string (codes "no") }
      ∷ record { kind = string (codes "allow_once"); option_id = string (codes "yes") }
      ∷ [];
}

allowed : allows_tool_call host policy call ≡ true
unfolding allows_tool_call is_local_tool text_eq called_tool starts_with lookup input_of
allowed = refl

answered : acp_response host policy request ≡ selected (string (codes "yes"))
unfolding acp_response allows_tool_call is_local_tool text_eq called_tool starts_with lookup
    input_of
answered = refl

allows_tool_call_example :
    ((rule : PermissionRule (Unit {0})) × Memᴰ rule policy.rules
      × Covers host (called_tool host call) (input_of host call) rule)
    × ((policy.mcp_only ≡ false) ⊎ (is_local_tool host (called_tool host call) ≡ false))
allows_tool_call_example = allows_tool_call-Covers host policy call allowed

acp_response_example :
    (o : PermissionOption (Unit {0})) × Memᴰ o request.options
    × (((allows_tool_call host policy call ≡ true)
          × Offers host (codes "allow_once" ∷ []) (string (codes "yes")) o)
        ⊎ ((allows_tool_call host policy call ≡ false)
            × Offers host
                (codes "reject_once" ∷ codes "reject_always" ∷ [])
                (string (codes "yes"))
                o))
acp_response_example = acp_response-Offers host policy request (string (codes "yes")) answered
