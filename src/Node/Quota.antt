-- ===== src/Node/Quota.antt =====
-- packages/node/src/storage-quota-manager.ts: the reservation, the usage of a directory with its cache,
-- and the quota. A directory is what `stat` and `readdir` show below it, and links lead to no circle.
pub mod Usage
use claw_mem.Prelude.{
  if◌then◌else◌, ltb, leb, Result, ok, err, ◌>>=◌, guard, or_else, ℕ, zero, suc, ◌+◌, String, Bool,
  not, Option, none, some, List, [], ◌∷◌, ◌==◌,
}
use claw_mem.JsMap

mutual
  -- What a path is: a directory whose listing fails has no entries.
  pub data PathEntry : Type 0 where
    file : ℕ → PathEntry
    directory : PathEntries → PathEntry
    gone special : PathEntry

  pub data PathEntries : Type 0 where
    nil : PathEntries
    cons : String → PathEntry → PathEntries → PathEntries

pub record QuotaConfig : Type 0 where
  pub quota_bytes : ℕ
  pub reserved_bytes : ℕ
  pub enforce_quota : Bool

pub record CachedUsage : Type 0 where
  pub bytes : ℕ
  pub expires_at : ℕ

-- What the tools and the disk answer to a reservation.
pub record ReserveHost : Type 0 where
  pub existing_size : Option ℕ
  pub available : Result String ℕ
  pub fallocate : Bool
  pub truncate_tool : Bool
  pub truncate_file : Result String (Unit {0})

pub data Method : Type 0 where
  skipped existing by_fallocate by_truncate by_node : Method

pub record Reservation : Type 0 where
  pub reserved : ℕ
  pub method : Method

-- The check of the free space throws inside its own `try`, so its outcome is logged and dropped.
unfoldable pub preflight : ℕ → Result String ℕ → Result String (Unit {0})
preflight target available = do free ← available; guard (leb target free) "Cannot reserve"

unfoldable pub make_reservation : ℕ → ReserveHost → Result String Reservation
unfolding preflight
make_reservation target h =
    let checked : Unit {0} = or_else (preflight target h.available) tt in
    if h.fallocate
    then ok (record { reserved = target; method = by_fallocate })
    else if h.truncate_tool
    then ok (record { reserved = target; method = by_truncate })
    else h.truncate_file >>= (λ _. ok (record { reserved = target; method = by_node }))

unfoldable pub ensure_reserved : QuotaConfig → ReserveHost → Result String Reservation
unfolding make_reservation
ensure_reserved cfg h =
    let made = make_reservation cfg.reserved_bytes h in
    if leb cfg.reserved_bytes 0
    then ok (record { reserved = 0; method = skipped })
    else elim h.existing_size [
      | none ↦ made
      | some size ↦
          if leb cfg.reserved_bytes size
          then ok (record { reserved = size; method = existing })
          else made
    ]

module _ (join : String → String → String) where
  abbrev pub push_entries :
      String → PathEntries → List (String × PathEntry) → List (String × PathEntry)
  push_entries path nil stack = stack
  push_entries path (cons name e es) stack = push_entries path es ((join path name, e) ∷ stack)

  -- The loop of `diskUsage`, on fuel, with the end of the array as the head of the stack.
  unfoldable pub usage_loop : ℕ → String → List (String × PathEntry) → ℕ → Option ℕ
  usage_loop fuel excluded [] total = some total
  usage_loop zero excluded (p ∷ stack) total = none
  usage_loop (suc fuel) excluded ((path, gone) ∷ stack) total = usage_loop fuel excluded stack total
  usage_loop (suc fuel) excluded ((path, special) ∷ stack) total =
      usage_loop fuel excluded stack total
  usage_loop (suc fuel) excluded ((path, file size) ∷ stack) total =
      let counted = usage_loop fuel excluded stack (total + size) in
      let passed = usage_loop fuel excluded stack total in
      if path == excluded then passed else counted
  usage_loop (suc fuel) excluded ((path, directory es) ∷ stack) total =
      let entered = usage_loop fuel excluded (push_entries path es stack) total in
      let passed = usage_loop fuel excluded stack total in
      if path == excluded then passed else entered

  unfoldable pub disk_usage : ℕ → String → PathEntry → String → Option ℕ
  unfolding usage_loop
  disk_usage fuel path e excluded = usage_loop fuel excluded ((path, e) ∷ []) 0

-- `getUsage`: a cached value until it expires, and a new one, cached for half a second.
unfoldable pub get_usage : ℕ → ℕ → String → ℕ → JsMap.Map CachedUsage → ℕ × JsMap.Map CachedUsage
unfolding JsMap.get JsMap.set
get_usage now later path measured cache =
    let entry : CachedUsage = record { bytes = measured; expires_at = later + 500 } in
    let fresh : ℕ × JsMap.Map CachedUsage = (measured, JsMap.set cache path entry) in
    elim (JsMap.get cache path) [
      | none ↦ fresh
      | some c ↦ if ltb now c.expires_at then (c.bytes, cache) else fresh
    ]

unfoldable pub assert_can_add :
    QuotaConfig
    → ℕ
    → ℕ
    → String
    → ℕ
    → ℕ
    → JsMap.Map CachedUsage
    → Result String (Unit {0}) × JsMap.Map CachedUsage
unfolding get_usage
assert_can_add cfg now later data_dir measured bytes cache =
    let usage = get_usage now later data_dir measured cache in
    if not cfg.enforce_quota
    then (ok tt, cache)
    else if ltb cfg.quota_bytes (usage.0 + bytes)
    then (err "Storage quota exceeded", usage.1)
    else (ok tt, usage.1)

unfoldable pub invalidate_cache : Option String → JsMap.Map CachedUsage → JsMap.Map CachedUsage
unfolding JsMap.delete
invalidate_cache none cache = []
invalidate_cache (some path) cache = if path == "" then [] else JsMap.delete cache path
