-- ===== src/Dedupe/View.antt =====
-- dedupe.py: the table as a map from identities, under each statement.
use signal_hermes_router.Prelude.{
  ℕ, ◌≡◌, refl, ◌∙◌, inl, inr, Bool, true, false, not, ◌&&◌, List, [], ◌∷◌, Option, none, some,
  arith, keep, is_some, Bool-cases, if◌then◌else◌,
}
use signal_hermes_router.Dedupe.Rows.{
  Identity, Row, processing, handled, key_eq, key_eq_iff, is_processing, is_handled_status,
  select_row, select_handled, insert_claim, upsert_handled, delete_claim,
}

-- No two rows have one identity.
abbrev pub IsKeyed : List Row → Type 0
IsKeyed [] = Unit
IsKeyed (r ∷ rs) = (select_row r.key rs ≡ none) × IsKeyed rs

abbrev pub filter_row : (Row → Bool) → Option Row → Option Row
filter_row p none = none
filter_row p (some r) = if p r then some r else none

pub key_eq_refl : (k : Identity) → key_eq k k ≡ true
key_eq_refl k = (key_eq_iff k k).1 refl

-- The row that is found has the identity that was asked for.
pub select_row_key :
    (k : Identity) (rows : List Row) {r : Row} → select_row k rows ≡ some r → r.key ≡ k
unfolding select_row
select_row_key k [] h = cc
select_row_key k (x ∷ xs) {r = r} h =
    ground (arith, key_eq_iff x.key k, select_row_key k xs {r = r})

select_row-keep-none :
    (p : Row → Bool) (k : Identity) (rows : List Row)
    → select_row k rows ≡ none
    → select_row k (keep p rows) ≡ none
unfolding select_row
select_row-keep-none p k [] h = refl
select_row-keep-none p k (r ∷ rs) h = ground (arith, select_row-keep-none p k rs)

-- A DELETE leaves of each identity's row what its test keeps.
pub select_row-keep :
    (p : Row → Bool) (k : Identity) (rows : List Row)
    → IsKeyed rows
    → select_row k (keep p rows) ≡ filter_row p (select_row k rows)
unfolding select_row
select_row-keep p k [] u = refl
select_row-keep p k (r ∷ rs) u =
    ground (arith, select_row-keep p k rs u.1, key_eq_iff r.key k, select_row-keep-none p k rs)

pub keep-IsKeyed : (p : Row → Bool) (rows : List Row) → IsKeyed rows → IsKeyed (keep p rows)
keep-IsKeyed p [] u = tt
keep-IsKeyed p (r ∷ rs) u = elim (Bool-cases (p r)) [
  | inl kept ↦ rw kept (select_row-keep-none p r.key rs u.0, keep-IsKeyed p rs u.1)
  | inr gone ↦ rw gone (keep-IsKeyed p rs u.1)
]

pub select_row-insert_claim :
    (k j : Identity) (now : ℕ) (rows : List Row)
    → select_row j (insert_claim k now rows).0 ≡ (
        if is_some (select_row k rows)
        then select_row j rows
        else if key_eq k j
        then some (record { key = k; status = processing; updated_at_ms = now })
        else select_row j rows)
unfolding insert_claim
select_row-insert_claim k j now rows = ground arith

pub insert_claim-IsKeyed :
    (k : Identity) (now : ℕ) (rows : List Row) → IsKeyed rows → IsKeyed (insert_claim k now rows).0
unfolding insert_claim
insert_claim-IsKeyed k now rows u = ground arith

pub select_row-upsert_handled :
    (k j : Identity) (now : ℕ) (rows : List Row)
    → select_row j (upsert_handled k now rows) ≡ (
        if key_eq k j
        then some (record { key = k; status = handled; updated_at_ms = now })
        else select_row j rows)
unfolding upsert_handled select_row
select_row-upsert_handled k j now [] = refl
select_row-upsert_handled k j now (r ∷ rs) = ground (
  arith,
  key_eq_iff r.key k,
  key_eq_iff r.key j,
  key_eq_iff k j,
  select_row-upsert_handled k j now rs,
)

pub upsert_handled-IsKeyed :
    (k : Identity) (now : ℕ) (rows : List Row) → IsKeyed rows → IsKeyed (upsert_handled k now rows)
unfolding upsert_handled select_row
upsert_handled-IsKeyed k now [] u = (refl, tt)
upsert_handled-IsKeyed k now (r ∷ rs) u = elim (Bool-cases (key_eq r.key k)) [
  | inl same ↦ rw same u
  | inr other ↦ rw other (
    ground
        (arith, select_row-upsert_handled k r.key now rs, key_eq_iff k r.key, key_eq_iff r.key k),
    upsert_handled-IsKeyed k now rs u.1,
  )
]

abbrev pub handled_row : Option Row → Bool
handled_row none = false
handled_row (some r) = is_handled_status r.status

handled_none :
    (k : Identity) (rows : List Row) → select_row k rows ≡ none → select_handled k rows ≡ false
unfolding select_handled select_row
handled_none k [] h = refl
handled_none k (r ∷ rs) h = ground (arith, handled_none k rs)

-- `is_handled` and `status` agree.
pub select_handled-row :
    (k : Identity) (rows : List Row)
    → IsKeyed rows
    → select_handled k rows ≡ handled_row (select_row k rows)
unfolding select_handled select_row
select_handled-row k [] u = refl
select_handled-row k (r ∷ rs) u =
    ground (arith, select_handled-row k rs u.1, key_eq_iff r.key k, handled_none k rs)

filter_row_same :
    (k j : Identity) (o : Option Row)
    → ((r : Row) → o ≡ some r → r.key ≡ j)
    → filter_row (λ r. not (key_eq r.key k && is_processing r.status)) o
      ≡ filter_row (λ r. not (key_eq k j && is_processing r.status)) o
filter_row_same k j none h = refl
filter_row_same k j (some r) h =
    let e : r.key ≡ j = h r refl in ground (arith, key_eq_iff r.key k, key_eq_iff k j)

pub select_row-delete_claim :
    (k j : Identity) (rows : List Row)
    → IsKeyed rows
    → select_row j (delete_claim k rows)
      ≡ filter_row (λ r. not (key_eq k j && is_processing r.status)) (select_row j rows)
unfolding delete_claim
select_row-delete_claim k j rows u =
    select_row-keep (λ r. not (key_eq r.key k && is_processing r.status)) j rows u
    ∙ filter_row_same k j (select_row j rows) (λ r e. select_row_key j rows e)
