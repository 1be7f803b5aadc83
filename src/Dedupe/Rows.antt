-- ===== src/Dedupe/Rows.antt =====
-- dedupe.py: the rows of `dedupe_events`, and the SQL statements of the methods on them.
use signal_hermes_router.Prelude.{
  ℕ, String, Bool, true, false, not, ◌&&◌, List, [], ◌∷◌, Option, none, some, ◌↔◌, ◌≡◌, arith, keep,
  any, is_some, eq_iff, str_eq, ltb, ◌==◌, if◌then◌else◌,
}

pub data Status : Type 0 where
  processing handled : Status

-- The primary key.
pub record Identity : Type 0 where
  pub route_key : String
  pub source_uuid : String
  pub timestamp : ℕ

unfoldable pub key_eq : Identity → Identity → Bool
key_eq a b =
    str_eq a.route_key b.route_key
    && (str_eq a.source_uuid b.source_uuid && (a.timestamp == b.timestamp))

pub key_eq_iff : (a b : Identity) → (key_eq a b ≡ true) ↔ (a ≡ b)
unfolding key_eq
key_eq_iff a b = ground (arith, eq_iff a.route_key b.route_key, eq_iff a.source_uuid b.source_uuid)

pub record Row : Type 0 where
  pub key : Identity
  pub status : Status
  pub updated_at_ms : ℕ

abbrev pub is_processing : Status → Bool
is_processing processing = true
is_processing handled = false

abbrev pub is_handled_status : Status → Bool
is_handled_status s = not (is_processing s)

-- SELECT status ... WHERE route_key = ? AND source_uuid = ? AND timestamp = ?
unfoldable pub select_row : Identity → List Row → Option Row
select_row k [] = none
select_row k (r ∷ rs) = if key_eq r.key k then some r else select_row k rs

abbrev status_of : Option Row → Option Status
status_of none = none
status_of (some r) = some r.status

unfoldable pub select_status : Identity → List Row → Option Status
unfolding select_row
select_status k rows = status_of (select_row k rows)

abbrev pub matches_handled : Identity → Row → Bool
matches_handled k r = key_eq r.key k && is_handled_status r.status

-- SELECT 1 ... AND status = 'handled'
unfoldable pub select_handled : Identity → List Row → Bool
select_handled k rows = any (matches_handled k) rows

-- INSERT ... VALUES (?, ?, ?, 'processing', ?); the IntegrityError of the primary key is `false`.
unfoldable pub insert_claim : Identity → ℕ → List Row → List Row × Bool
unfolding select_row
insert_claim k now rows =
    if is_some (select_row k rows)
    then (rows, false)
    else (record { key = k; status = processing; updated_at_ms = now } ∷ rows, true)

-- INSERT ... 'handled' ... ON CONFLICT DO UPDATE SET status = 'handled', updated_at_ms = ...
unfoldable pub upsert_handled : Identity → ℕ → List Row → List Row
upsert_handled k now [] = record { key = k; status = handled; updated_at_ms = now } ∷ []
upsert_handled k now (r ∷ rs) =
    if key_eq r.key k
    then record r { status = handled; updated_at_ms = now } ∷ rs
    else r ∷ upsert_handled k now rs

-- DELETE ... AND status = 'processing'
unfoldable pub delete_claim : Identity → List Row → List Row
delete_claim k rows = keep (λ r. not (key_eq r.key k && is_processing r.status)) rows

-- DELETE FROM dedupe_events WHERE status = 'processing'
unfoldable pub delete_processing : List Row → List Row
delete_processing rows = keep (λ r. is_handled_status r.status) rows

abbrev backfill_row : ℕ → Row → Row
backfill_row now r = if r.updated_at_ms == 0 then record r { updated_at_ms = now } else r

-- UPDATE dedupe_events SET updated_at_ms = ? WHERE updated_at_ms = 0
unfoldable pub backfill : ℕ → List Row → List Row
backfill now [] = []
backfill now (r ∷ rs) = backfill_row now r ∷ backfill now rs

abbrev pub expired : ℕ → Row → Bool
expired cutoff r = is_handled_status r.status && ltb r.updated_at_ms cutoff

-- DELETE ... WHERE rowid IN (SELECT rowid ... WHERE status = 'handled' AND updated_at_ms < ? LIMIT ?)
-- with the rows that are left and the cursor's row count. SQL leaves open which rows the limit
-- takes: here the first ones.
unfoldable pub delete_expired : ℕ → ℕ → List Row → List Row × ℕ
delete_expired cutoff ℕ.zero rows = (rows, 0)
delete_expired cutoff (ℕ.suc n) [] = ([], 0)
delete_expired cutoff (ℕ.suc n) (r ∷ rs) =
    let taken = delete_expired cutoff n rs in
    let left = delete_expired cutoff (ℕ.suc n) rs in
    if expired cutoff r then (taken.0, ℕ.suc taken.1) else (r ∷ left.0, left.1)
