-- ===== src/Permissions/Parse.antt =====
-- permissions.py: the parsing of the configured rules.
--
-- The fields of a predicate keep the values that the file gives them, of whatever type.
use signal_hermes_router.Prelude.{
  String, Bool, not, ◌||◌, List, [], ◌∷◌, Option, none, some, str_eq, if◌then◌else◌,
}
use signal_hermes_router.Values.{
  Value, null, string, list, mapping, Items, nil, cons, Fields, end, field, value_error, type_error,
  unspecified, Result, ok, raises, ◌>>=◌, ◌>>◌, raise_if, Python, get, has_key, has_only, truth,
  or_value, text_of,
}

pub record ConfiguredPredicate : Type 0 where
  pub equals : Value
  pub prefix : Value
  pub one_of : Option Items
  pub regex : Value
  pub present : Value

pub record ConfiguredRule : Type 0 where
  pub tool_name : String
  pub arguments : List (String × ConfiguredPredicate)

pub record ConfiguredPolicy : Type 0 where
  pub rules : List ConfiguredRule
  pub mcp_only : Bool

abbrev characters : String → Items
characters String.[] = nil
characters (String.◌∷◌ c s) = cons (string (String.◌∷◌ c String.[])) (characters s)

abbrev keys : Fields → Items
keys end = nil
keys (field k v rest) = cons k (keys rest)

-- tuple(value) if value is not None else None
abbrev optional_tuple : Value → Result (Option Items)
optional_tuple null = ok none
optional_tuple (list xs) = ok (some xs)
optional_tuple (mapping d) = ok (some (keys d))
optional_tuple (string s) = ok (some (characters s))
optional_tuple _ = raises type_error

abbrev equal_to : Value → ConfiguredPredicate
equal_to v = record { equals = v; prefix = null; one_of = none; regex = null; present = null }

abbrev predicate_keys : List String
predicate_keys = "equals" ∷ "prefix" ∷ "one_of" ∷ "regex" ∷ "present" ∷ []

-- The unknown keys are sorted for the message, which may end in a TypeError.
abbrev predicate_of_mapping : Fields → Result ConfiguredPredicate
predicate_of_mapping d = do
  raise_if (not (has_only predicate_keys d)) unspecified
  one_of ← optional_tuple (get "one_of" d)
  ok (record {
    equals = get "equals" d;
    prefix = get "prefix" d;
    one_of = one_of;
    regex = get "regex" d;
    present = get "present" d;
  })

-- `ArgPredicate.from_config`
unfoldable pub predicate_from_config : Value → Result ConfiguredPredicate
predicate_from_config (mapping d) = predicate_of_mapping d
predicate_from_config v = ok (equal_to v)

-- `d[k] = v` on the items of a dictionary
abbrev set_argument :
    String
    → ConfiguredPredicate
    → List (String × ConfiguredPredicate)
    → List (String × ConfiguredPredicate)
set_argument k p [] = (k, p) ∷ []
set_argument k p ((j, q) ∷ rest) =
    let later = set_argument k p rest in if str_eq j k then (j, p) ∷ rest else (j, q) ∷ later

abbrev pub raw_arguments : Fields → Value
raw_arguments d =
    if has_key "arguments" d
    then get "arguments" d
    else if has_key "args" d
    then get "args" d
    else mapping end

module _ (py : Python) where
  abbrev parse_arguments :
      Fields → List (String × ConfiguredPredicate) → Result (List (String × ConfiguredPredicate))
  parse_arguments end done = ok done
  parse_arguments (field k v rest) done =
      predicate_from_config v >>= λ p. parse_arguments rest (set_argument (text_of py k) p done)

  abbrev pub arguments_of : Value → Result (List (String × ConfiguredPredicate))
  arguments_of (mapping d) = parse_arguments d []
  arguments_of _ = raises value_error

  abbrev pub rule_of_mapping : Fields → Result ConfiguredRule
  rule_of_mapping d = do
    raise_if (has_key "deny" d || has_key "denylist" d) value_error
    let tool_name = or_value (get "tool" d) (get "tool_name" d)
    raise_if (not (truth tool_name)) value_error
    arguments ← arguments_of (raw_arguments d)
    ok (record { tool_name = text_of py tool_name; arguments = arguments })

  -- `PermissionRule.from_config`
  unfoldable pub rule_from_config : Value → Result ConfiguredRule
  rule_from_config (mapping d) = rule_of_mapping d
  rule_from_config v = raises unspecified

  abbrev pub rules_of : Items → Result (List ConfiguredRule)
  rules_of nil = ok []
  rules_of (cons v vs) = do rule ← rule_from_config v; rules ← rules_of vs; ok (rule ∷ rules)

  -- The values of a list. The keys and characters of another iterable are no rules.
  abbrev pub rules_in : Value → Result (List ConfiguredRule)
  rules_in (list xs) = rules_of xs
  rules_in v = if truth v then raises unspecified else ok []

  -- `StaticPermissionPolicy.from_config`
  unfoldable pub policy_from_config : Value → Bool → Result ConfiguredPolicy
  policy_from_config v mcp_only = do
    rules ← rules_in v
    ok (record { rules = rules; mcp_only = mcp_only })
