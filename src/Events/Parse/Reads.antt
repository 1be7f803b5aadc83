-- ===== src/Events/Parse/Reads.antt =====
-- events.py: reads of an envelope that end in no exception.
use signal_hermes_router.Prelude.{
  ◌≡◌, refl, inl, inr, String, true, false, List, [], ◌∷◌, some, str_eq, Bool-cases,
}
use signal_hermes_router.Values.{
  Value, null, mapping, Fields, end, Result, ok, raises, get, is_null, truth, has_key, lookup,
  field, is_key, is_blank, get_or, ◌>>=◌,
}
use signal_hermes_router.Events.Fields.{
  get_attr, data_message_from_envelope, group_id, first_present, member, item, unless_group, edited,
  as_mapping,
}
use signal_hermes_router.Events.Probe.{is_direct_message, ungrouped}

abbrev pub Returns {ℓ} : {A : Type ℓ} → Result A → Type ℓ
Returns {A = A} m = (a : A) × (m ≡ ok a)

pub truth-null : (g : Value) → truth g ≡ true → is_null g ≡ false
unfolding truth
truth-null null h = cc
truth-null _ h = refl

has_key-lookup :
    (k : String) (d : Fields) → has_key k d ≡ true → (v : Value) × (lookup k d ≡ some v)
unfolding has_key lookup
has_key-lookup k end h = cc
has_key-lookup k (field j v rest) h = elim (Bool-cases (is_key k j)) [
  | inl e ↦ (v, rw e refl)
  | inr e ↦ let (w, found) = has_key-lookup k rest (cc (e, h)) in (w, rw e found)
]

pub first_present-Returns : (d : Fields) (ks : List String) → Returns (first_present (mapping d) ks)
unfolding first_present member item
first_present-Returns d [] = (null, refl)
first_present-Returns d (k ∷ ks) = elim (Bool-cases (has_key k d)) [
  | inl e ↦
      let (v, found) = has_key-lookup k d e in
      elim (Bool-cases (is_blank v)) [
        | inl blank ↦ rw (e, found, blank) (first_present-Returns d ks)
        | inr filled ↦ (v, rw (e, found, filled) refl)
      ]
  | inr e ↦ rw e (first_present-Returns d ks)
]

first_step {ℓ κ} :
    {A : Type ℓ} {B : Type κ} (m : Result A) (f : A → Result B) {b : B}
    → (m >>= f) ≡ ok b
    → Returns m
first_step (ok a) f e = (a, refl)
first_step (raises x) f e = cc

empty_ungrouped : Returns (ungrouped (mapping end))
unfolding group_id get_attr first_present member get get_or has_key truth
empty_ungrouped = (true, refl)

-- A data message that is read has a group, or none, without an exception.
pub ungrouped-Returns :
    (v : Value) (env : Fields) {m : Value}
    → get "dataMessage" env ≡ v
    → data_message_from_envelope (mapping env) ≡ ok m
    → Returns (ungrouped v)
unfolding data_message_from_envelope get_attr truth
ungrouped-Returns (mapping end) env ev em = empty_ungrouped
ungrouped-Returns (mapping (field k w rest)) env ev em =
    let v = mapping (field k w rest) in
    let (u, eu) = first_step (unless_group v) (λ message. ok (as_mapping message)) (rw ev at em) in
    let (g, eg) = first_step (group_id v) (λ g. edited g v) eu in (is_null g, rw eg refl)
ungrouped-Returns _ env ev em = (false, refl)

pub is_direct_message-Returns :
    (kind : String) (v : Value) → Returns (ungrouped v) → Returns (is_direct_message kind v)
is_direct_message-Returns kind v h = elim (Bool-cases (str_eq kind "dataMessage")) [
  | inl e ↦ rw e h
  | inr e ↦ (false, rw e refl)
]
