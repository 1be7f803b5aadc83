-- ===== src/Events/Fields.antt =====
-- events.py: reading the parts of an envelope.
use signal_hermes_router.Prelude.{
  String, Bool, true, false, not, ◌||◌, List, [], ◌∷◌, Option, none, some, if◌then◌else◌,
}
use signal_hermes_router.Text.{codes}
use signal_hermes_router.Prompt.Escape.{includes}
use signal_hermes_router.Values.{
  Value, null, string, list, mapping, Items, nil, cons, Fields, end, type_error, key_error,
  attribute_error, Result, ok, raises, ◌>>=◌, Python, get, has_key, lookup, or_raise, or_value,
  truth, is_blank, is_null, text_of, is_key,
}

-- key in value
abbrev among : String → Items → Bool
among k nil = false
among k (cons v vs) = is_key k v || among k vs

unfoldable pub member : String → Value → Result Bool
member k (mapping d) = ok (has_key k d)
member k (list xs) = ok (among k xs)
member k (string s) = ok (includes (codes k) (codes s))
member k _ = raises type_error

-- value[key]
unfoldable pub item : String → Value → Result Value
item k (mapping d) = or_raise key_error (lookup k d)
item k _ = raises type_error

-- value.get(key)
unfoldable pub get_attr : String → Value → Result Value
get_attr k (mapping d) = ok (get k d)
get_attr k _ = raises attribute_error

abbrev empty : Value
empty = mapping end

-- (value.get(key) or {})
abbrev pub get_part : String → Value → Result Value
get_part k v = get_attr k v >>= λ w. ok (or_value w empty)

abbrev given : Bool → Value → Result Value → Result Value
given true v rest = rest
given false v rest = ok v

abbrev present : Bool → Result Value → Result Value → Result Value
present true v rest = v >>= λ w. given (is_blank w) w rest
present false v rest = rest

-- `_first_present`
unfoldable pub first_present : Value → List String → Result Value
first_present v [] = ok null
first_present v (k ∷ ks) =
    let rest = first_present v ks in member k v >>= λ there. present there (item k v) rest

-- `a or b` of two steps
abbrev pub or_step : Result Value → Result Value → Result Value
or_step a b = a >>= λ v. if truth v then ok v else b

-- `_group_id`
unfoldable pub group_id : Value → Result Value
group_id data_message = do
  group_info ← get_part "groupInfo" data_message
  or_step (first_present data_message ("groupId" ∷ "group_id" ∷ []))
      (first_present group_info ("groupId" ∷ "group_id" ∷ "id" ∷ []))

abbrev message_types : List String
message_types =
    "dataMessage" ∷ "editMessage" ∷ "syncMessage" ∷ "storyMessage" ∷ "callMessage" ∷ "typingMessage"
    ∷ "receiptMessage" ∷ []

abbrev first_key : List String → Value → Result String
first_key [] envelope = ok "unknown"
first_key (k ∷ ks) envelope =
    let rest = first_key ks envelope in member k envelope >>= λ there. if there then ok k else rest

-- `_message_type`
unfoldable pub message_type : Value → Result String
message_type envelope = first_key message_types envelope

abbrev or_part : Value → Result Value → Result Value
or_part v other = if truth v then ok v else other

abbrev pub edited : Value → Value → Result Value
edited group v = if truth group then ok v else (do
  edit ← get_part "editMessage" v
  later ← get_attr "dataMessage" edit
  ok (or_value later v))

abbrev pub unless_group : Value → Result Value
unless_group (mapping d) = group_id (mapping d) >>= λ g. edited g (mapping d)
unless_group v = ok v

abbrev pub as_mapping : Value → Value
as_mapping (mapping d) = mapping d
as_mapping v = empty

-- `_data_message_from_envelope`
unfoldable pub data_message_from_envelope : Value → Result Value
data_message_from_envelope envelope = do
  direct ← get_part "dataMessage" envelope
  first ← or_part direct (get_part "editMessage" envelope >>= get_part "dataMessage")
  sent ← or_part first (get_part "syncMessage" envelope >>= get_part "sentMessage")
  message ← unless_group sent
  ok (as_mapping message)

-- `unwrap_signal_event`
abbrev is_mapping : Value → Bool
is_mapping (mapping d) = true
is_mapping _ = false

abbrev unless_mapping : Value → Value → Value
unless_mapping (mapping d) params = mapping d
unless_mapping _ params = params

abbrev inner : Bool → Value → Result Value
inner false params = ok params
inner true params = item "result" params >>= λ r. ok (unless_mapping r params)

abbrev pub is_direct_shape : Fields → Bool
is_direct_shape raw = is_mapping (get "envelope" raw)

unfoldable pub unwrap_signal_event : Fields → Result Value
unwrap_signal_event raw =
    let params = or_value (get "params" raw) empty in
    if is_direct_shape raw
    then ok (mapping raw)
    else (member "result" params >>= λ there. inner there params)

-- `_optional_str`
unfoldable pub optional_str : Python → Value → Option String
optional_str py v = if is_blank v then none else some (text_of py v)

-- `_has_exception`
unfoldable pub has_exception : Value → Bool
has_exception (mapping d) = not (is_null (get "exception" d))
has_exception _ = false
