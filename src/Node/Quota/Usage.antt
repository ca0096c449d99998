-- ===== src/Node/Quota/Usage.antt =====
-- The loop over a directory ends, and adds up the files below it.
use claw_mem.Prelude.{
  if◌then◌else◌, Bool-cases, ok, ℕ, zero, suc, ◌+◌, ◌≤◌, String, ◌≡◌, refl, ap, ◌∙◌, inl, inr, some,
  List, [], ◌∷◌, arith, ◌==◌,
}
use claw_mem.Node.Quota.{
  PathEntry, PathEntries, file, directory, gone, special, nil, cons, push_entries, usage_loop,
  disk_usage, QuotaConfig, ReserveHost, make_reservation, ensure_reserved,
}

unfoldable mutual
  -- The paths at and below an entry.
  pub paths_of : PathEntry → ℕ
  paths_of (file size) = 1
  paths_of gone = 1
  paths_of special = 1
  paths_of (directory es) = suc (paths_below es)

  pub paths_below : PathEntries → ℕ
  paths_below nil = 0
  paths_below (cons name e es) = paths_of e + paths_below es

module _ (join : String → String → String) (excluded : String) where
  unfoldable mutual
    -- The sizes of the files at and below an entry, without what lies at the excluded path.
    pub bytes_of : String → PathEntry → ℕ
    bytes_of path (file size) = if path == excluded then 0 else size
    bytes_of path gone = 0
    bytes_of path special = 0
    bytes_of path (directory es) =
        let inside = bytes_below path es in if path == excluded then 0 else inside

    pub bytes_below : String → PathEntries → ℕ
    bytes_below path nil = 0
    bytes_below path (cons name e es) = bytes_of (join path name) e + bytes_below path es

  abbrev stack_paths : List (String × PathEntry) → ℕ
  stack_paths [] = 0
  stack_paths ((path, e) ∷ stack) = paths_of e + stack_paths stack

  abbrev stack_bytes : List (String × PathEntry) → ℕ
  stack_bytes [] = 0
  stack_bytes ((path, e) ∷ stack) = bytes_of path e + stack_bytes stack

  push_entries-paths :
      (path : String) (es : PathEntries) (stack : List (String × PathEntry))
      → stack_paths (push_entries join path es stack) ≡ paths_below es + stack_paths stack
  unfolding paths_below
  push_entries-paths path nil stack = omega arith
  push_entries-paths path (cons name e es) stack =
      omega (arith, push_entries-paths path es ((join path name, e) ∷ stack))

  push_entries-bytes :
      (path : String) (es : PathEntries) (stack : List (String × PathEntry))
      → stack_bytes (push_entries join path es stack) ≡ bytes_below path es + stack_bytes stack
  unfolding bytes_below
  push_entries-bytes path nil stack = omega arith
  push_entries-bytes path (cons name e es) stack =
      omega (arith, push_entries-bytes path es ((join path name, e) ∷ stack))

  usage_loop-sum :
      (fuel : ℕ) (stack : List (String × PathEntry)) (total : ℕ)
      → stack_paths stack ≤ fuel
      → usage_loop join fuel excluded stack total ≡ some (total + stack_bytes stack)
  unfolding usage_loop paths_of bytes_of
  usage_loop-sum fuel [] total h = ap some (omega arith)
  usage_loop-sum zero ((path, file size) ∷ stack) total h = ground arith
  usage_loop-sum zero ((path, directory es) ∷ stack) total h = ground arith
  usage_loop-sum zero ((path, gone) ∷ stack) total h = ground arith
  usage_loop-sum zero ((path, special) ∷ stack) total h = ground arith
  usage_loop-sum (suc fuel) ((path, gone) ∷ stack) total h =
      usage_loop-sum fuel stack total (omega arith) ∙ ap some (omega arith)
  usage_loop-sum (suc fuel) ((path, special) ∷ stack) total h =
      usage_loop-sum fuel stack total (omega arith) ∙ ap some (omega arith)
  usage_loop-sum (suc fuel) ((path, file size) ∷ stack) total h =
      elim (Bool-cases (path == excluded)) [
        | inl e ↦ rw e (usage_loop-sum fuel stack total (omega arith) ∙ ap some (omega arith))
        | inr e ↦
            rw e (usage_loop-sum fuel stack (total + size) (omega arith) ∙ ap some (omega arith))
      ]
  usage_loop-sum (suc fuel) ((path, directory es) ∷ stack) total h =
      elim (Bool-cases (path == excluded)) [
        | inl e ↦ rw e (usage_loop-sum fuel stack total (omega arith) ∙ ap some (omega arith))
        | inr e ↦ rw e (
            usage_loop-sum fuel (push_entries join path es stack) total
              (omega (arith, push_entries-paths path es stack))
            ∙ ap some (omega (arith, push_entries-bytes path es stack)))
      ]

  -- With as many rounds as there are paths, the loop ends with the sum of the sizes of all files below
  -- the path, without what is excluded.
  pub disk_usage-bytes_of :
      (path : String) (e : PathEntry)
      → disk_usage join (paths_of e) path e excluded ≡ some (bytes_of path e)
  unfolding disk_usage
  disk_usage-bytes_of path e =
      usage_loop-sum (paths_of e) ((path, e) ∷ []) 0 (omega arith) ∙ ap some (omega arith)

-- A reservation never fails for want of space: its outcome is the same whatever space is free.
pub ensure_reserved-free :
    (cfg : QuotaConfig) (h : ReserveHost) (free : ℕ)
    → ensure_reserved cfg (record h { available = ok free }) ≡ ensure_reserved cfg h
unfolding ensure_reserved make_reservation
ensure_reserved-free cfg h free = refl
