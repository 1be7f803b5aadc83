-- ===== src/Permissions/Allowed.antt =====
-- permissions.py: what an answer says about the rules and the options.
use mathlib.Core.List.{Memᴰ}
use signal_hermes_router.Prelude.{
  Bool, true, false, ◌≡◌, ◌≢◌, refl, ◌⊎◌, inl, inr, List, [], ◌∷◌, some, any, is_some, All, arith,
  Bool-cases, Option-cases,
}
use signal_hermes_router.Text.{Text, codes}
use signal_hermes_router.Text.Laws.{text_eq_iff}
use signal_hermes_router.Permissions.{
  Value, null, string, other, Host, ArgPredicate, PermissionRule, StaticPermissionPolicy, ToolCall,
  PermissionOption, PermissionRequest, response_of, selected, lookup, is_local_tool, value_eq,
  predicate_matches, arguments_match, rule_matches, called_tool, input_of, allows_tool_call,
  option_of_kind, first_option_id, select_option, acp_response, or_null,
}

-- An element that passes a test.
any-Mem {ℓ} :
    {A : Type ℓ} (p : A → Bool) (xs : List A) → any p xs ≡ true → (a : A) × Memᴰ a xs × (p a ≡ true)
any-Mem p [] h = cc
any-Mem p (x ∷ xs) h = elim (Bool-cases (p x)) [
  | inl e ↦ (x, Memᴰ.head refl, e)
  | inr e ↦ let (a, m, q) = any-Mem p xs (ground arith) in (a, Memᴰ.tail m, q)
]

module _ {J : Type 0} (host : Host J) where
  -- A predicate of an argument holds of what the input has under its key.
  abbrev pub Holds : List (Text × Value J) → Text × ArgPredicate J → Type 0
  Holds raw_input (key, p) =
      let found = lookup key raw_input in
      predicate_matches host p (or_null host found) (is_some found) key ≡ true

  -- A rule that covers a tool call: it names the tool, and each of its arguments holds.
  abbrev pub Covers : Text → List (Text × Value J) → PermissionRule J → Type 0
  Covers tool_name raw_input rule =
      (rule.tool_name ≡ tool_name) × All (Holds raw_input) rule.arguments

  arguments_match-Holds :
      (arguments : List (Text × ArgPredicate J)) (raw_input : List (Text × Value J))
      → arguments_match host arguments raw_input ≡ true
      → All (Holds raw_input) arguments
  unfolding arguments_match
  arguments_match-Holds [] raw_input h = tt
  arguments_match-Holds ((key, p) ∷ rest) raw_input h =
      (ground arith, arguments_match-Holds rest raw_input (ground arith))

  rule_matches-Covers :
      (rule : PermissionRule J) (tool_name : Text) (raw_input : List (Text × Value J))
      → rule_matches host rule tool_name raw_input ≡ true
      → Covers tool_name raw_input rule
  unfolding rule_matches
  rule_matches-Covers rule tool_name raw_input h = (
    ground (arith, text_eq_iff tool_name rule.tool_name),
    arguments_match-Holds rule.arguments raw_input (ground arith),
  )

  -- A tool call that is allowed is covered by a rule of the policy, and under `mcp_only` its tool is
  -- not a local one.
  pub allows_tool_call-Covers :
      (policy : StaticPermissionPolicy J) (call : ToolCall J)
      → allows_tool_call host policy call ≡ true
      → ((rule : PermissionRule J) × Memᴰ rule policy.rules
          × Covers (called_tool host call) (input_of host call) rule)
        × ((policy.mcp_only ≡ false) ⊎ (is_local_tool host (called_tool host call) ≡ false))
  unfolding allows_tool_call
  allows_tool_call-Covers policy call h =
      let tool = called_tool host call in
      let input = input_of host call in
      let (rule, m, e) =
        any-Mem (λ r. rule_matches host r tool input) policy.rules (ground arith) in
      ((rule, m, rule_matches-Covers rule tool input e), ground arith)

  -- An option of one of the kinds, with its identifier.
  abbrev pub Offers : List Text → Value J → PermissionOption J → Type 0
  Offers kinds id o =
      (kind : Text) × Memᴰ kind kinds
      × (value_eq host o.kind (string kind) ≡ true)
      × (o.option_id ≡ id)

  option_of_kind-Mem :
      (kind : Text) (options : List (PermissionOption J)) {id : Value J}
      → option_of_kind host kind options ≡ some id
      → (o : PermissionOption J) × Memᴰ o options
        × (value_eq host o.kind (string kind) ≡ true)
        × (o.option_id ≡ id)
  option_of_kind-Mem kind [] h = cc
  option_of_kind-Mem kind (x ∷ xs) h = elim (Bool-cases (value_eq host x.kind (string kind))) [
    | inl e ↦ (x, Memᴰ.head refl, e, ground arith)
    | inr e ↦ let (o, m, k, i) = option_of_kind-Mem kind xs (ground arith) in (o, Memᴰ.tail m, k, i)
  ]

  first_option_id-Offers :
      (options : List (PermissionOption J)) (kinds : List Text) (id : Value J)
      → first_option_id host options kinds ≡ id
      → (id ≡ null) ⊎ ((o : PermissionOption J) × Memᴰ o options × Offers kinds id o)
  unfolding first_option_id
  first_option_id-Offers options [] id h = inl (ground arith)
  first_option_id-Offers options (kind ∷ kinds) id h =
      elim (Option-cases (option_of_kind host kind options)) [
        | inr (i, e) ↦
            let (o, m, k, same) = option_of_kind-Mem kind options e in
            inr (o, m, (kind, Memᴰ.head refl, k, cc (same, (rw (first_option_id, e) at h))))
        | inl e ↦ elim (first_option_id-Offers options kinds id (rw (first_option_id, e) at h)) [
          | inl n ↦ inl n
          | inr (o, m, (k, mk, q, i)) ↦ inr (o, m, (k, Memᴰ.tail mk, q, i))
        ]
      ]

  response_of-selected : (v id : Value J) → response_of host v ≡ selected id → (v ≡ id) × (v ≢ null)
  response_of-selected null id h = cc
  response_of-selected (string s) id h = (cc h, λ e. cc e)
  response_of-selected (other a) id h = (cc h, λ e. cc e)

  selected-Offers :
      (options : List (PermissionOption J)) (kinds : List Text) (id : Value J)
      → response_of host (first_option_id host options kinds) ≡ selected id
      → (o : PermissionOption J) × Memᴰ o options × Offers kinds id o
  selected-Offers options kinds id h =
      let (same, there) = response_of-selected (first_option_id host options kinds) id h in
      elim (first_option_id-Offers options kinds id same) [
        | inl n ↦ absurd (there (cc (same, n)))
        | inr found ↦ found
      ]

  -- A response that selects an option selects one that the request offers: one of kind `allow_once`
  -- if the tool call is allowed, and one that rejects if it is not.
  pub acp_response-Offers :
      (policy : StaticPermissionPolicy J) (request : PermissionRequest J) (id : Value J)
      → acp_response host policy request ≡ selected id
      → (o : PermissionOption J) × Memᴰ o request.options
        × (((allows_tool_call host policy request.tool_call ≡ true)
              × Offers (codes "allow_once" ∷ []) id o)
            ⊎ ((allows_tool_call host policy request.tool_call ≡ false)
                × Offers (codes "reject_once" ∷ codes "reject_always" ∷ []) id o))
  unfolding acp_response select_option
  acp_response-Offers policy request id h =
      let options = request.options in
      elim (Bool-cases (allows_tool_call host policy request.tool_call)) [
        | inl ok ↦
            let (o, m, f) = selected-Offers options (codes "allow_once" ∷ []) id (rw ok at h) in
            (o, m, inl (ok, f))
        | inr bad ↦
            let (o, m, f) =
              selected-Offers options (codes "reject_once" ∷ codes "reject_always" ∷ []) id
                (rw bad at h) in
            (o, m, inr (bad, f))
      ]
