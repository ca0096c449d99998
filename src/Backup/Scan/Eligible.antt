-- ===== src/Backup/Scan/Eligible.antt =====
-- What the walk collects.
use claw_mem.Prelude.{
  ◌⊎◌, All, Result, ok, err, ℕ, ◌≤◌, String, ◌≡◌, true, some, List, arith, Option-cases, All-append,
  inl, subst, inr, if◌then◌else◌, refl, none, [], ltb, Bool-cases, ◌>>=◌, ◌||◌, ◌∷◌, All-map,
}
use claw_mem.Backup.Types.{FileState}
use claw_mem.Backup.Classify.{Class, classify_file, should_skip_file_by_name, should_skip_dir}
use claw_mem.Backup.Scan.{
  CocBackupConfig, Stat, Entry, Entries, file, dir, unreadable, symbolic_link, special, nil, cons,
  max_file_bytes, join, is_memory, append_scan, scan_classified, scan_file, walk_entry, walk,
  scan_files, Bool, Option, false, state_of, is_hidden,
}

-- A file that stands in a tree: its path, what `stat` says of it, and its content.
unfoldable mutual
  pub IsEntry : String → Entry → String → Stat → List ℕ → Type 0
  IsEntry d (file name stat content) path st bytes =
      (join d name ≡ path) × (stat ≡ ok st) × (content ≡ ok bytes)
  IsEntry d (dir name es) path st bytes = IsFile (join d name) es path st bytes
  IsEntry d (unreadable name) path st bytes = ⊥
  IsEntry d (symbolic_link name) path st bytes = ⊥
  IsEntry d (special name) path st bytes = ⊥

  pub IsFile : String → Entries → String → Stat → List ℕ → Type 0
  IsFile d nil path st bytes = ⊥
  IsFile d (cons e es) path st bytes = IsEntry d e path st bytes ⊎ IsFile d es path st bytes

-- A base directory that cannot be listed holds nothing.
abbrev pub Stands : Option Entries → String → Stat → List ℕ → Type 0
Stands none path st bytes = ⊥
Stands (some es) path st bytes = IsFile "" es path st bytes

module _ (sha256_hex : List ℕ → String) (base : String) (cfg : CocBackupConfig) where
  -- A file that stands where `Found` says, with its size, its time and the digest of its content; that
  -- the tables classify, in a category that is switched on, not above the size limit; and marked for
  -- encryption where its rule or its category says so.
  pub record Eligible (Found : String → Stat → List ℕ → Type 0) (f : FileState) : Type 0 where
    pub class : Class
    pub stat : Stat
    pub content : List ℕ
    pub found : Found f.relative_path stat content
    pub classified : classify_file f.relative_path ≡ some class
    pub of_class : f.category ≡ class.category
    pub switched_on : cfg.categories f.category ≡ true
    pub size : f.size_bytes ≡ stat.size
    pub time : f.mtime_ms ≡ stat.mtime_ms
    pub small : f.size_bytes ≤ max_file_bytes
    pub digest : f.hash ≡ sha256_hex content
    pub rule_encrypts : class.encrypt ≡ true → f.encrypted ≡ true
    pub memory_encrypts :
        is_memory f.category ≡ true → cfg.encrypt_memory ≡ true → f.encrypted ≡ true

  abbrev AllEligible : (String → Stat → List ℕ → Type 0) → Result String (List FileState) → Type 0
  AllEligible Found (ok fs) = All (Eligible Found) fs
  AllEligible Found (err e) = Unit

  widen :
      (Found More : String → Stat → List ℕ → Type 0)
      → ((p : String) (st : Stat) (c : List ℕ) → Found p st c → More p st c)
      → (r : Result String (List FileState)) → AllEligible Found r
      → AllEligible More r
  widen Found More w (ok fs) h =
      All-map (Eligible Found) (Eligible More) fs
        (λ f e. record {
          class = e.class;
          stat = e.stat;
          content = e.content;
          found = w f.relative_path e.stat e.content e.found;
          classified = e.classified;
          of_class = e.of_class;
          switched_on = e.switched_on;
          size = e.size;
          time = e.time;
          small = e.small;
          digest = e.digest;
          rule_encrypts = e.rule_encrypts;
          memory_encrypts = e.memory_encrypts;
        })
        h
  widen Found More w (err e) h = tt

  -- One file, with what `stat` and `readFile` answer for it.
  abbrev Answered :
      String → Result String Stat → Result String (List ℕ) → String → Stat → List ℕ → Type 0
  Answered path stat content p st bytes = (path ≡ p) × (stat ≡ ok st) × (content ≡ ok bytes)

  state-Eligible :
      (path : String) (c : Class) (st : Stat) (bytes : List ℕ)
      → classify_file path ≡ some c
      → cfg.categories c.category ≡ true
      → ltb max_file_bytes st.size ≡ false
      → Eligible (Answered path (ok st) (ok bytes)) (state_of sha256_hex base cfg path c st bytes)
  state-Eligible path c st bytes h on fits = record {
    class = c;
    stat = st;
    content = bytes;
    found = (refl, refl, refl);
    classified = h;
    of_class = refl;
    switched_on = on;
    size = refl;
    time = refl;
    small = ground arith;
    digest = refl;
    rule_encrypts = λ e. rw e;
    memory_encrypts = λ m e. ground arith;
  }

  read-Eligible :
      (path : String) (c : Class) (st : Stat) (content : Result String (List ℕ))
      → classify_file path ≡ some c
      → cfg.categories c.category ≡ true
      → ltb max_file_bytes st.size ≡ false
      → AllEligible
          (Answered path (ok st) content)
          (content >>= λ bytes. ok (state_of sha256_hex base cfg path c st bytes ∷ []))
  read-Eligible path c st (ok bytes) h on fits = (state-Eligible path c st bytes h on fits, tt)
  read-Eligible path c st (err e) h on fits = tt

  classified-Eligible :
      (path : String) (c : Class) (stat : Result String Stat) (content : Result String (List ℕ))
      → classify_file path ≡ some c
      → AllEligible
          (Answered path stat content)
          (scan_classified sha256_hex base cfg path c stat content)
  unfolding scan_classified
  classified-Eligible path c (err e) content h = elim (Bool-cases (cfg.categories c.category)) [
    | inr off ↦ rw off tt
    | inl on ↦ rw on tt
  ]
  classified-Eligible path c (ok st) content h = elim (Bool-cases (cfg.categories c.category)) [
    | inr off ↦ rw off tt
    | inl on ↦ elim (Bool-cases (ltb max_file_bytes st.size)) [
      | inl big ↦ rw (on, big) tt
      | inr fits ↦ rw (on, fits) (read-Eligible path c st content h on fits)
    ]
  ]

  file-Eligible :
      (path name : String) (stat : Result String Stat) (content : Result String (List ℕ))
      → AllEligible
          (Answered path stat content)
          (scan_file sha256_hex base cfg path name stat content)
  unfolding scan_file
  file-Eligible path name stat content = elim (Bool-cases (should_skip_file_by_name name)) [
    | inl skipped ↦ rw skipped tt
    | inr kept ↦ rw kept (elim (Option-cases (classify_file path)) [
      | inl e ↦ rw e tt
      | inr (c, e) ↦ rw e (classified-Eligible path c stat content e)
    ])
  ]

  if-Eligible :
      (Found : String → Stat → List ℕ → Type 0) (b : Bool) (r : Result String (List FileState))
      → AllEligible Found r
      → AllEligible Found (if b then ok [] else r)
  if-Eligible Found true r h = tt
  if-Eligible Found false r h = h

  append-Eligible :
      (Found : String → Stat → List ℕ → Type 0) (a b : Result String (List FileState))
      → AllEligible Found a
      → AllEligible Found b
      → AllEligible Found (append_scan a b)
  unfolding append_scan
  append-Eligible Found (ok fs) (ok gs) h k = All-append (Eligible Found) fs gs h k
  append-Eligible Found (ok fs) (err e) h k = tt
  append-Eligible Found (err e) b h k = tt

  mutual
    unfolding walk IsEntry IsFile

    entry-Eligible :
        (e : Entry) (d : String) → AllEligible (IsEntry d e) (walk_entry sha256_hex base cfg d e)
    entry-Eligible (file name stat content) d = file-Eligible (join d name) name stat content
    entry-Eligible (dir name es) d =
        if-Eligible (IsEntry d (dir name es)) (should_skip_dir name || is_hidden name) _
          (entries-Eligible es (join d name))
    entry-Eligible (unreadable name) d = tt
    entry-Eligible (symbolic_link name) d = tt
    entry-Eligible (special name) d = tt

    entries-Eligible :
        (es : Entries) (d : String) → AllEligible (IsFile d es) (walk sha256_hex base cfg d es)
    entries-Eligible nil d = tt
    entries-Eligible (cons e es) d =
        append-Eligible (IsFile d (cons e es)) _ _
          (widen (IsEntry d e) (IsFile d (cons e es)) (λ p st c k. inl k) _ (entry-Eligible e d))
          (widen (IsFile d es) (IsFile d (cons e es)) (λ p st c k. inr k) _ (entries-Eligible es d))

  -- Every file that the scan returns stands in the tree and is eligible: its path, size, time and the
  -- digest of its content are those of the tree.
  pub scan_files-Eligible :
      (tree : Option Entries) (fs : List FileState)
      → scan_files sha256_hex base cfg tree ≡ ok fs
      → All (Eligible (Stands tree)) fs
  unfolding scan_files
  scan_files-Eligible none fs e = subst (AllEligible (Stands none)) e tt
  scan_files-Eligible (some es) fs e = subst (AllEligible (IsFile "" es)) e (entries-Eligible es "")
