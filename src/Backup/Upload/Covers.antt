-- ===== src/Backup/Upload/Covers.antt =====
-- Which paths the entries of a manifest have.
use claw_mem.Prelude.{
  String, ◌≡◌, ◌||◌, [], ◌∷◌, arith, ◌==◌, Option-cases, is_some, any_of, ok, refl, sym, ◌∙◌, inl,
  inr, Bool, true, false, ◌&&◌, Option, none, some, List, keep_if, Result, >>=-eq_ok, ap, ◌++◌,
  append-nil,
}
use mathlib.Core.Path.{ap₂}
use claw_mem.JsMap.{get, set, has, get-set}
use claw_mem.JsMap
use claw_mem.Backup.Types.{FileState, ManifestFileEntry, SnapshotManifest}
use claw_mem.Backup.Detect.Sorted.{
  is_at, is_new, is_other, is_same, previous_hash, detect_changes_lem,
}
use claw_mem.Backup.Upload.{
  UploadEnv, UploadResult, upload_file, upload_from, upload_files, carry_from, carry_over_entries,
  spread,
}
use claw_mem.Backup.Detect.{detect_changes}

abbrev Files : Type 0
Files = JsMap.Map ManifestFileEntry

has-set :
    (m : Files) (k p : String) (e : ManifestFileEntry) → has (set m k e) p ≡ (k == p) || has m p
unfolding has
has-set m k p e = rw get-set (ground arith)

has-none : (m : Files) (p : String) → get m p ≡ none → has m p ≡ false
unfolding has
has-none m p e = rw e

has-some : (m : Files) (p : String) (v : ManifestFileEntry) → get m p ≡ some v → has m p ≡ true
unfolding has
has-some m p v e = rw e

has-cons :
    (k : String) (e : ManifestFileEntry) (m : Files) (p : String)
    → has ((k, e) ∷ m) p ≡ (k == p) || has m p
unfolding has get
has-cons k e m p = ground arith

or-false : (a : Bool) → a || false ≡ a
or-false a = ground arith

or_swap : (k a b : Bool) → (k || a) || b ≡ a || (k || b)
or_swap k a b = ground arith

or_drop : (a k b : Bool) → a || b ≡ a || ((k && false) || b)
or_drop a k b = ground arith

or_move : (k a b : Bool) → (k || a) || b ≡ a || ((k && true) || b)
or_move k a b = ground arith

has-spread : (a b : Files) (p : String) → has (spread a b) p ≡ has a p || has b p
unfolding spread
has-spread a [] p = unfold has get in sym (or-false (is_some (get a p)))
has-spread a ((k, e) ∷ b) p =
    rw (has-spread (set a k e) b p, has-set a k p e, has-cons k e b p)
      (or_swap (k == p) (has a p) (has b p))

has-carry_from :
    (fs : List FileState) (previous entries : Files) (p : String)
    → has (carry_from fs previous entries) p
      ≡ has entries p || any_of (λ f. (f.relative_path == p) && has previous f.relative_path) fs
unfolding carry_from
has-carry_from [] previous entries p = sym (or-false (has entries p))
has-carry_from (f ∷ fs) previous entries p = elim (Option-cases (get previous f.relative_path)) [
  | inl e ↦
      rw (e, has-carry_from fs previous entries p, has-none previous f.relative_path e)
        (or_drop (has entries p) (f.relative_path == p) _)
  | inr (prev, e) ↦
      rw
        (
          e,
          has-carry_from fs previous (set entries f.relative_path prev) p,
          has-set entries f.relative_path p prev,
          has-some previous f.relative_path prev e,
        )
        (or_move (f.relative_path == p) (has entries p) _)
]

has-carry_over :
    (fs : List FileState) (previous : Files) (p : String)
    → has (carry_over_entries fs previous) p
      ≡ any_of (λ f. (f.relative_path == p) && has previous f.relative_path) fs
unfolding carry_over_entries
has-carry_over fs previous p = has-carry_from fs previous [] p ∙ (unfold has get in refl)

ok_inj : {a b : UploadResult} → ◌≡◌ {A = Result String UploadResult} (ok a) (ok b) → a ≡ b
ok_inj e = cc e

module _ (env : UploadEnv) (key : String) (password : Option String) where
  has-upload_from :
      (fs : List FileState) (done : UploadResult) {r : UploadResult} (p : String)
      → upload_from env key password fs done ≡ ok r
      → has r.entries p ≡ has done.entries p || is_at fs p
  unfolding upload_from
  has-upload_from [] done p e = rw (← ok_inj e) (sym (or-false (has done.entries p)))
  has-upload_from (f ∷ fs) done p e =
      let (entry, _, e') = >>=-eq_ok (upload_file env key password f) _ e in
      has-upload_from fs _ p e'
      ∙ (ap (λ b. b || is_at fs p) (has-set done.entries f.relative_path p entry)
          ∙ or_swap (f.relative_path == p) (has done.entries p) (is_at fs p))

  -- The entries of an upload are those of the files that it was given.
  pub has-upload_files :
      (fs : List FileState) {r : UploadResult} (p : String)
      → upload_files env key password fs ≡ ok r
      → has r.entries p ≡ is_at fs p
  unfolding upload_files
  has-upload_files fs p e = has-upload_from fs _ p e ∙ (unfold has get in refl)

is_at-append : (fs gs : List FileState) (p : String) → is_at (fs ++ gs) p ≡ is_at fs p || is_at gs p
is_at-append [] gs p = refl
is_at-append (f ∷ fs) gs p = ground (arith, is_at-append fs gs p)

module _ (files : Files) (p : String) where
  -- The entry of an unchanged file at the path.
  abbrev carried : FileState → Bool
  carried f = (f.relative_path == p) && has files f.relative_path

  three_parts :
      (fs : List FileState)
      → any_of carried (keep_if (λ f. is_same (previous_hash files f) f.hash) fs)
          || (is_at (keep_if (λ f. is_new (previous_hash files f) f.hash) fs) p
              || is_at (keep_if (λ f. is_other (previous_hash files f) f.hash) fs) p)
        ≡ is_at fs p
  three_parts [] = refl
  three_parts (f ∷ fs) = elim (Option-cases (get files f.relative_path)) [
    | inl e ↦ ground (arith, three_parts fs, has-none files f.relative_path e)
    | inr (prev, e) ↦ ground (arith, three_parts fs, has-some files f.relative_path prev e)
  ]

-- A full backup has an entry for each current file and for no other path.
pub full_covers :
    (env : UploadEnv) (key : String) (password : Option String) (current : List FileState)
    {r : UploadResult} (p : String)
    → let changes = detect_changes current none in
      upload_files env key password (changes.added ++ changes.modified) ≡ ok r
      → has r.entries p ≡ is_at current p
unfolding detect_changes
full_covers env key password current p e =
    has-upload_files env key password (current ++ []) p e
    ∙ ap (λ fs. is_at fs p) (append-nil current)

-- So has an incremental backup: the entries that are carried over and those that are uploaded are
-- together those of the current files, so the newest manifest alone names every file.
pub incremental_covers :
    (env : UploadEnv) (key : String) (password : Option String) (current : List FileState)
    (m : SnapshotManifest) {r : UploadResult} (p : String)
    → let changes = detect_changes current (some m) in
      upload_files env key password (changes.added ++ changes.modified) ≡ ok r
      → has (spread (carry_over_entries changes.unchanged m.files) r.entries) p ≡ is_at current p
incremental_covers env key password current m {r = r} p e =
    let changes = detect_changes current (some m) in
    let (a, b, c, d) = detect_changes_lem current m in
    has-spread (carry_over_entries changes.unchanged m.files) r.entries p
    ∙ (ap₂ (◌||◌) (has-carry_over changes.unchanged m.files p ∙ ap (any_of (carried m.files p)) c) (
          has-upload_files env key password (changes.added ++ changes.modified) p e
          ∙ (is_at-append changes.added changes.modified p
              ∙ ap₂ (◌||◌) (ap (λ fs. is_at fs p) a) (ap (λ fs. is_at fs p) b)))
        ∙ three_parts m.files p current)
