-- ===== src/Backup/Detect/Sorted.antt =====
-- What each part of a change set is.
use claw_mem.Prelude.{
  Bool-cases, keep_if, any_of, String, ◌≡◌, sym, inl, inr, Bool, true, false, not, Option, none,
  some, List, [], ◌∷◌, ◌++◌, append-nil, append_assoc, arith, ◌==◌, if◌then◌else◌, refl, ap, ◌&&◌,
}
use claw_mem.JsMap.{get, keys}
use claw_mem.JsMap
use claw_mem.Backup.Types.{FileState, ChangeSet, ManifestFileEntry, SnapshotManifest}
use claw_mem.Backup.Detect.{remove, place, place_all, detect_changes}

-- The digest that the previous manifest has at the file's path.
abbrev pub previous_hash : JsMap.Map ManifestFileEntry → FileState → Option String
previous_hash files f = elim (get files f.relative_path) [ none ↦ none | some e ↦ some e.hash ]

-- The file has no entry, an entry with another digest, one with the same digest.
abbrev pub is_new : Option String → String → Bool
is_new none h = true
is_new (some g) h = false

abbrev pub is_other : Option String → String → Bool
is_other none h = false
is_other (some g) h = not (g == h)

abbrev pub is_same : Option String → String → Bool
is_same none h = false
is_same (some g) h = g == h

abbrev pub is_at : List FileState → String → Bool
is_at fs p = any_of (λ f. f.relative_path == p) fs

-- One file more at the end of a part, if the test says so.
part_step {ℓ} :
    {A : Type ℓ} (p : A → Bool) (done : List A) (x : A) (xs : List A)
    → (done ++ (if p x then x ∷ [] else [])) ++ keep_if p xs ≡ done ++ keep_if p (x ∷ xs)
part_step p done x xs = elim (Bool-cases (p x)) [
  | inl e ↦ rw e (append_assoc done (x ∷ []) (keep_if p xs))
  | inr e ↦ rw (e, append-nil done)
]

keep_if-true {ℓ} : {A : Type ℓ} (xs : List A) → keep_if (λ x. true) xs ≡ xs
keep_if-true [] = refl
keep_if-true (x ∷ xs) = ap (◌∷◌ x) (keep_if-true xs)

keep_if-remove :
    (p : String) (q : String → Bool) (xs : List String)
    → keep_if q (remove p xs) ≡ keep_if (λ x. not (p == x) && q x) xs
unfolding remove
keep_if-remove p q [] = refl
keep_if-remove p q (x ∷ xs) = ground (arith, keep_if-remove p q xs)

keep_if-ext {ℓ} :
    {A : Type ℓ} (p q : A → Bool) (xs : List A)
    → ((x : A) → p x ≡ q x)
    → keep_if p xs ≡ keep_if q xs
keep_if-ext p q [] h = refl
keep_if-ext p q (x ∷ xs) h = rw (h x, keep_if-ext p q xs h)

module _ (files : JsMap.Map ManifestFileEntry) where
  abbrev new_file : FileState → Bool
  new_file f = is_new (previous_hash files f) f.hash

  abbrev other_file : FileState → Bool
  other_file f = is_other (previous_hash files f) f.hash

  abbrev same_file : FileState → Bool
  same_file f = is_same (previous_hash files f) f.hash

  place-added :
      (f : FileState) (cs : ChangeSet)
      → (place files f cs).added ≡ cs.added ++ (if new_file f then f ∷ [] else [])
  unfolding place
  place-added f cs = ground (arith, append-nil cs.added)

  place-modified :
      (f : FileState) (cs : ChangeSet)
      → (place files f cs).modified ≡ cs.modified ++ (if other_file f then f ∷ [] else [])
  unfolding place
  place-modified f cs = ground (arith, append-nil cs.modified)

  place-unchanged :
      (f : FileState) (cs : ChangeSet)
      → (place files f cs).unchanged ≡ cs.unchanged ++ (if same_file f then f ∷ [] else [])
  unfolding place
  place-unchanged f cs = ground (arith, append-nil cs.unchanged)

  place-deleted :
      (f : FileState) (cs : ChangeSet)
      → (place files f cs).deleted ≡ remove f.relative_path cs.deleted
  unfolding place
  place-deleted f cs = ground arith

  added_all :
      (fs : List FileState) (cs : ChangeSet)
      → (place_all files fs cs).added ≡ cs.added ++ keep_if new_file fs
  unfolding place_all
  added_all [] cs = sym (append-nil cs.added)
  added_all (f ∷ fs) cs =
      rw (added_all fs (place files f cs), place-added f cs) (part_step new_file cs.added f fs)

  modified_all :
      (fs : List FileState) (cs : ChangeSet)
      → (place_all files fs cs).modified ≡ cs.modified ++ keep_if other_file fs
  unfolding place_all
  modified_all [] cs = sym (append-nil cs.modified)
  modified_all (f ∷ fs) cs =
      rw (modified_all fs (place files f cs), place-modified f cs)
        (part_step other_file cs.modified f fs)

  unchanged_all :
      (fs : List FileState) (cs : ChangeSet)
      → (place_all files fs cs).unchanged ≡ cs.unchanged ++ keep_if same_file fs
  unfolding place_all
  unchanged_all [] cs = sym (append-nil cs.unchanged)
  unchanged_all (f ∷ fs) cs =
      rw (unchanged_all fs (place files f cs), place-unchanged f cs)
        (part_step same_file cs.unchanged f fs)

  deleted_all :
      (fs : List FileState) (cs : ChangeSet)
      → (place_all files fs cs).deleted ≡ keep_if (λ p. not (is_at fs p)) cs.deleted
  unfolding place_all
  deleted_all [] cs = sym (keep_if-true cs.deleted)
  deleted_all (f ∷ fs) cs =
      rw
        (
          deleted_all fs (place files f cs),
          place-deleted f cs,
          keep_if-remove f.relative_path _ cs.deleted,
        )
        (keep_if-ext _ _ cs.deleted (λ p. ground arith))

-- Against a previous manifest: the files are split in three, each in their order, by the digest that
-- the manifest has for them, and a path of the manifest is deleted exactly when no file has it.
pub detect_changes_lem :
    (current : List FileState) (m : SnapshotManifest)
    → let cs = detect_changes current (some m) in
      (cs.added ≡ keep_if (λ f. is_new (previous_hash m.files f) f.hash) current)
      × (cs.modified ≡ keep_if (λ f. is_other (previous_hash m.files f) f.hash) current)
      × (cs.unchanged ≡ keep_if (λ f. is_same (previous_hash m.files f) f.hash) current)
      × (cs.deleted ≡ keep_if (λ p. not (is_at current p)) (keys m.files))
unfolding detect_changes
detect_changes_lem current m = (
  added_all m.files current _,
  modified_all m.files current _,
  unchanged_all m.files current _,
  deleted_all m.files current _,
)
