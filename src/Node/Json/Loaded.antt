-- ===== src/Node/Json/Loaded.antt =====
-- The records of the JSON registry and its file: what a load reads and what a write leaves.
use claw_mem.Prelude.{
  if◌then◌else◌, Bool-cases, get_or, is_some, if_both, String, ◌≡◌, refl, sym, ◌∙◌, inl, inr, true,
  false, none, List, [], ◌∷◌, arith, ◌==◌, eq_iff, Option-cases, ap, subst, some,
}
use claw_mem.JsMap
use claw_mem.Node.Types.{NodeEntry}
use claw_mem.Node.Json.{JsonNodeRegistry, add_entries, load_if_needed, persist}

-- Every entry stands under its own name, and no name stands twice.
abbrev pub Keyed : JsMap.Map NodeEntry → Type 0
Keyed [] = Unit
Keyed ((k, e) ∷ m) = (e.name ≡ k) × (JsMap.get m k ≡ none) × Keyed m

get-set_other :
    (m : JsMap.Map NodeEntry) (k j : String) (e : NodeEntry)
    → JsMap.get m j ≡ none
    → (k == j) ≡ false
    → JsMap.get (JsMap.set m k e) j ≡ none
get-set_other m k j e h n = JsMap.get-set m k j e ∙ rw n h

pub set-Keyed : (m : JsMap.Map NodeEntry) (e : NodeEntry) → Keyed m → Keyed (JsMap.set m e.name e)
unfolding JsMap.set JsMap.get
set-Keyed [] e h = (refl, refl, tt)
set-Keyed ((j, w) ∷ m) e (a, b, h) = elim (Bool-cases (j == e.name)) [
  | inl q ↦ rw q (sym ((eq_iff j e.name).0 q), b, h)
  | inr q ↦ rw q (
    a,
    get-set_other m e.name j e b (ground (arith, eq_iff e.name j, eq_iff j e.name)),
    set-Keyed m e h,
  )
]

pub delete-Keyed : (m : JsMap.Map NodeEntry) (k : String) → Keyed m → Keyed (JsMap.delete m k)
unfolding JsMap.delete
delete-Keyed [] k h = tt
delete-Keyed ((j, w) ∷ m) k (a, b, h) =
    if_both (λ (n : JsMap.Map NodeEntry). Keyed n) (j == k) _ _ (λ _. delete-Keyed m k h)
      (λ q. (a, JsMap.get-delete m k j ∙ ground (arith, b), delete-Keyed m k h))

add_entries-Keyed :
    (es : List NodeEntry) (m : JsMap.Map NodeEntry) → Keyed m → Keyed (add_entries m es)
unfolding add_entries
add_entries-Keyed [] m h = h
add_entries-Keyed (e ∷ es) m h = add_entries-Keyed es (JsMap.set m e.name e) (set-Keyed m e h)

-- Reading back what was written adds the written entries.
get-add_entries :
    (m n : JsMap.Map NodeEntry) (j : String)
    → Keyed n
    → JsMap.get (add_entries m (JsMap.values n)) j
      ≡ (if is_some (JsMap.get n j) then JsMap.get n j else JsMap.get m j)
unfolding add_entries JsMap.get
get-add_entries m [] j h = refl
get-add_entries m ((k, e) ∷ n) j (a, b, h) =
    ap (λ i. JsMap.get (add_entries (JsMap.set m i e) (JsMap.values n)) j) a
    ∙ get-add_entries (JsMap.set m k e) n j h
    ∙ elim (Bool-cases (k == j)) [
      | inl q ↦
          let none_behind : JsMap.get n j ≡ none =
            subst (λ i. JsMap.get n i ≡ none) ((eq_iff k j).0 q) b in
          rw (JsMap.get-set m k j e, none_behind, q) refl
      | inr q ↦ rw (JsMap.get-set m k j e, q) refl
    ]

-- What the file holds once it is read.
abbrev pub stored : JsonNodeRegistry → JsMap.Map NodeEntry
stored r = add_entries [] (get_or r.file [])

-- A registry on a disk that takes its writes: once it has read its file it agrees with it, and before
-- that it has no records.
pub record IsLoaded (r : JsonNodeRegistry) : Type 0 where
  pub keyed : Keyed r.records
  pub writes : r.refuses ≡ false
  pub fresh : r.loaded ≡ false → r.records ≡ []
  pub agrees : r.loaded ≡ true → (j : String) → JsMap.get r.records j ≡ JsMap.get (stored r) j

pub load-agrees :
    (r : JsonNodeRegistry)
    → IsLoaded r
    → (j : String) → JsMap.get (load_if_needed r).records j ≡ JsMap.get (stored r) j
unfolding load_if_needed
load-agrees r v j = elim (Bool-cases r.loaded) [
  | inl h ↦ rw h (v.agrees h j)
  | inr h ↦ rw (h, v.fresh h) refl
]

pub load-Keyed : (r : JsonNodeRegistry) → IsLoaded r → Keyed (load_if_needed r).records
unfolding load_if_needed
load-Keyed r v =
    if_both (λ (q : JsonNodeRegistry). Keyed q.records) r.loaded _ _ (λ _. v.keyed)
      (λ h. add_entries-Keyed (get_or r.file []) r.records v.keyed)

pub load-loaded : (r : JsonNodeRegistry) → (load_if_needed r).loaded ≡ true
unfolding load_if_needed
load-loaded r = elim (Bool-cases r.loaded) [ inl h ↦ rw h refl | inr h ↦ rw h refl ]

load-file : (r : JsonNodeRegistry) → (load_if_needed r).file ≡ r.file
unfolding load_if_needed
load-file r = elim (Bool-cases r.loaded) [ inl h ↦ rw h refl | inr h ↦ rw h refl ]

pub load-refuses : (r : JsonNodeRegistry) → IsLoaded r → (load_if_needed r).refuses ≡ false
unfolding load_if_needed
load-refuses r v =
    if_both (λ (q : JsonNodeRegistry). q.refuses ≡ false) r.loaded _ _ (λ _. v.writes)
      (λ _. v.writes)

pub stored-load : (r : JsonNodeRegistry) → stored (load_if_needed r) ≡ stored r
stored-load r = ap (λ f. add_entries [] (get_or f [])) (load-file r)

pub load-IsLoaded : (r : JsonNodeRegistry) → IsLoaded r → IsLoaded (load_if_needed r)
load-IsLoaded r v = record {
  keyed = load-Keyed r v;
  writes = load-refuses r v;
  fresh = λ h. let l = load-loaded r in cc;
  agrees = λ _ j. load-agrees r v j ∙ ap (λ m. JsMap.get m j) (sym (stored-load r));
}

-- The registry that wrote these records.
abbrev pub saved : JsonNodeRegistry → JsMap.Map NodeEntry → JsonNodeRegistry
saved r m = record r { records = m; file = some (JsMap.values m) }

pub persist-saved :
    {A : Type 0} (a : A) (r : JsonNodeRegistry) (m : JsMap.Map NodeEntry)
    → r.refuses ≡ false
    → persist a (record r { records = m }) ≡ (some a, saved r m)
unfolding persist
persist-saved a r m w = rw w refl

-- What is written is what is read again.
pub stored-saved :
    (r : JsonNodeRegistry) (m : JsMap.Map NodeEntry)
    → Keyed m
    → (j : String) → JsMap.get (stored (saved r m)) j ≡ JsMap.get m j
unfolding JsMap.get
stored-saved r m h j =
    get-add_entries [] m j h
    ∙ elim (Option-cases (JsMap.get m j)) [ inl q ↦ rw q refl | inr (e, q) ↦ rw q refl ]

pub saved-IsLoaded :
    (r : JsonNodeRegistry) (m : JsMap.Map NodeEntry)
    → r.loaded ≡ true
    → r.refuses ≡ false
    → Keyed m
    → IsLoaded (saved r m)
saved-IsLoaded r m l w h = record {
  keyed = h;
  writes = w;
  fresh = λ k. cc;
  agrees = λ _ j. sym (stored-saved r m h j);
}
