-- ===== src/Config/Parse/Definitions/Known.antt =====
-- config.py: what the jobs and notifications that are parsed are like.
use signal_hermes_router.Prelude.{
  ◌≡◌, refl, inl, inr, true, false, String, List, [], ◌∷◌, some, is_some, All, Apart, any, str_eq,
  arith, Bool-cases, Option-cases,
}
use signal_hermes_router.Text.{strip_string}
use signal_hermes_router.Values.{
  Value, null, string, list, mapping, Items, nil, cons, Fields, value_error, Python, ok, get,
  get_or, or_raise,
}
use signal_hermes_router.Values.Holds.{
  Holds, ok-Holds, raises-Holds, >>=-Holds, raise_if-Holds, any-Holds, or_raise-given,
}
use signal_hermes_router.Models.{SyntheticTurnKind}
use signal_hermes_router.Permissions.Parse.{policy_from_config}
use signal_hermes_router.Config.{Route, SyntheticRouteDefinition, find, opt_eq}
use signal_hermes_router.Config.Parse.Names.{normalize_safe_token}
use signal_hermes_router.Config.Parse.Names.Exact.{Safe, normalize_safe_token-Safe}
use signal_hermes_router.Config.Parse.Route.{unless_null}
use signal_hermes_router.Config.Parse.Definitions.{
  named, prompt_of, parse_definition, definition_in, parse_definitions, definitions_in,
  parse_synthetic_definitions,
}

-- A safe id of the wanted kind, for a route of the list, with a prompt that is not blank.
pub record IsKnown (routes : List Route) (k : SyntheticTurnKind) (d : SyntheticRouteDefinition)
    : Type 0 where
  pub id : Safe d.id
  pub kind : d.kind ≡ k
  pub route : is_some (find (λ r. opt_eq r.name d.route_name) routes) ≡ true
  pub prompt : str_eq (strip_string d.prompt) "" ≡ false

abbrev pub OtherId : SyntheticRouteDefinition → SyntheticRouteDefinition → Type 0
OtherId x y = str_eq y.id x.id ≡ false

named-find :
    (routes : List Route) (name : String) {r : Route}
    → named routes name ≡ some r
    → is_some (find (λ x. opt_eq x.name name) routes) ≡ true
unfolding find
named-find [] name e = cc
named-find (x ∷ rest) name e = elim (Bool-cases (opt_eq x.name name)) [
  | inl here ↦ rw here refl
  | inr other ↦ elim (Option-cases (named rest name)) [
    | inl absent ↦ cc (e, absent, other)
    | inr (r, found) ↦ rw other (named-find rest name found)
  ]
]

prompt_of-filled : (v : Value) → Holds (λ s. str_eq (strip_string s) "" ≡ false) (prompt_of v)
prompt_of-filled (string s) =
    raise_if-Holds (str_eq (strip_string s) "") value_error (λ e. ok-Holds e)
prompt_of-filled _ = raises-Holds

unlisted :
    (d : SyntheticRouteDefinition) (seen : List String) (rest : List SyntheticRouteDefinition)
    → All (λ x. any (str_eq x.id) (d.id ∷ seen) ≡ false) rest
    → All (OtherId d) rest × All (λ x. any (str_eq x.id) seen ≡ false) rest
unlisted d seen [] h = (tt, tt)
unlisted d seen (x ∷ rest) (h, hs) =
    let (others, later) = unlisted d seen rest hs in ((ground arith, others), (ground arith, later))

module _ (py : Python) (routes : List Route) (kind : SyntheticTurnKind) where
  New : List String → SyntheticRouteDefinition → Type 0
  New seen d = IsKnown routes kind d × (any (str_eq d.id) seen ≡ false)

  parse_definition-New :
      (raw : Fields) (seen : List String)
      → Holds (New seen) (parse_definition py routes kind raw seen)
  unfolding New
  parse_definition-New raw seen =
      >>=-Holds _ (normalize_safe_token-Safe py (get "id" raw)) (λ id hid.
        raise_if-Holds (any (str_eq id) seen) value_error (λ fresh.
          any-Holds (normalize_safe_token py (get "route" raw)) (λ name _.
            any-Holds (or_raise value_error (named routes name)) (λ r er.
              >>=-Holds _ (prompt_of-filled (get "prompt" raw)) (λ prompt hp.
                any-Holds
                  (unless_null (λ v. policy_from_config py v r.mcp_only) (get "permissions" raw))
                  (λ policy _. ok-Holds (
                    record {
                      id = hid;
                      kind = refl;
                      route =
                          named-find routes name
                            (or_raise-given value_error (named routes name) er);
                      prompt = hp;
                    },
                    fresh,
                  )))))))

  definition_in-New :
      (v : Value) (seen : List String) → Holds (New seen) (definition_in py routes kind v seen)
  definition_in-New (mapping raw) seen = parse_definition-New raw seen
  definition_in-New _ seen = raises-Holds

  AllNew : List String → List SyntheticRouteDefinition → Type 0
  AllNew seen ds =
      All (IsKnown routes kind) ds × All (λ d. any (str_eq d.id) seen ≡ false) ds × Apart OtherId ds

  parse_definitions-AllNew :
      (vs : Items) (seen : List String)
      → Holds (AllNew seen) (parse_definitions py routes kind vs seen)
  unfolding AllNew New
  parse_definitions-AllNew nil seen = ok-Holds (tt, tt, tt)
  parse_definitions-AllNew (cons v vs) seen =
      >>=-Holds _ (definition_in-New v seen) (λ d (known, fresh).
        >>=-Holds _ (parse_definitions-AllNew vs (d.id ∷ seen)) (λ rest (all, new, apart).
          let (others, later) = unlisted d seen rest new in
          ok-Holds ((known, all), (fresh, later), (others, apart))))

  KnownAll : List SyntheticRouteDefinition → Type 0
  KnownAll ds = All (IsKnown routes kind) ds × Apart OtherId ds

  definitions_in-KnownAll : (v : Value) → Holds KnownAll (definitions_in py routes kind v)
  unfolding KnownAll AllNew
  definitions_in-KnownAll null = ok-Holds (tt, tt)
  definitions_in-KnownAll (list values) =
      let h = parse_definitions-AllNew values [] in
      record { of_ok = λ ds e. let (k, _, a) = h.of_ok ds e in (k, a) }
  definitions_in-KnownAll _ = raises-Holds

  -- Every definition that is parsed has a safe id, the kind of its section, the name of a route of
  -- the list and a prompt that is not blank; no two have the same id.
  pub parse_synthetic_definitions-IsKnown :
      (key : String) (raw : Fields) {ds : List SyntheticRouteDefinition}
      → parse_synthetic_definitions py routes kind key raw ≡ ok ds
      → All (IsKnown routes kind) ds × Apart OtherId ds
  unfolding parse_synthetic_definitions KnownAll
  parse_synthetic_definitions-IsKnown key raw e =
      (definitions_in-KnownAll (get_or key (list nil) raw)).of_ok _ e
