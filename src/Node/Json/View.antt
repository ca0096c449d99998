-- ===== src/Node/Json/View.antt =====
-- The JSON file of nodes keeps the promise of a registry, also when it is read again.
use claw_mem.Prelude.{
  if◌then◌else◌, Bool-cases, is_some, if_both, String, ◌≡◌, refl, sym, ◌∙◌, inl, inr, true, false,
  none, [], ◌∷◌, arith, ◌==◌, eq_iff, ap, subst, any_of, ℕ, Bool, some, Option,
}
use claw_mem.JsMap
use claw_mem.Node.Types.{NodeEntry, NodeEntryInput}
use claw_mem.Node.Order.{any_of-sort_by, is_newer}
use claw_mem.Node.Registry.{IsRegistry, written}
use claw_mem.Node.Json.{
  JsonNodeRegistry, load_if_needed, json_list, json_get, json_upsert, json_delete, json_registry,
}
use claw_mem.Node.Json.Loaded.{
  Keyed, set-Keyed, delete-Keyed, stored, load-agrees, load-Keyed, load-loaded, load-refuses,
  stored-load, load-IsLoaded, saved, persist-saved, stored-saved, saved-IsLoaded, IsLoaded,
}

any_of-values :
    (m : JsMap.Map NodeEntry) (j : String)
    → Keyed m
    → any_of (λ e. e.name == j) (JsMap.values m) ≡ is_some (JsMap.get m j)
unfolding JsMap.get
any_of-values [] j h = refl
any_of-values ((k, e) ∷ m) j (a, b, h) = rw a (ground (arith, any_of-values m j h))

-- A write behind the load, where the disk takes it.
json_upsert-saved :
    (now : ℕ) (i : NodeEntryInput) (r : JsonNodeRegistry)
    → IsLoaded r
    → json_upsert now i r ≡ (
        let s = load_if_needed r in
        let e = written now i (JsMap.get s.records i.name) in
        (some e, saved s (JsMap.set s.records i.name e)))
unfolding json_upsert
json_upsert-saved now i r v =
    persist-saved (written now i (JsMap.get (load_if_needed r).records i.name)) (load_if_needed r) _
      (load-refuses r v)

json_upsert-view :
    (now : ℕ) (i : NodeEntryInput) (r : JsonNodeRegistry)
    → IsLoaded r
    → (j : String)
    → JsMap.get (stored (json_upsert now i r).1) j ≡ (
        if i.name == j
        then some (written now i (JsMap.get (stored r) i.name))
        else JsMap.get (stored r) j)
json_upsert-view now i r v j =
    let s = load_if_needed r in
    let e = written now i (JsMap.get s.records i.name) in
    ap (λ x. JsMap.get (stored x.1) j) (json_upsert-saved now i r v)
    ∙ stored-saved s _ (set-Keyed s.records e (load-Keyed r v)) j
    ∙ JsMap.get-set s.records i.name j e
    ∙ rw (load-agrees r v i.name, load-agrees r v j) refl

json_upsert-IsLoaded :
    (now : ℕ) (i : NodeEntryInput) (r : JsonNodeRegistry)
    → IsLoaded r
    → IsLoaded (json_upsert now i r).1
json_upsert-IsLoaded now i r v =
    let s = load_if_needed r in
    subst (λ (x : Option NodeEntry × JsonNodeRegistry). IsLoaded x.1)
      (sym (json_upsert-saved now i r v))
      (saved-IsLoaded s _ (load-loaded r) (load-refuses r v)
        (set-Keyed s.records (written now i (JsMap.get s.records i.name)) (load-Keyed r v)))

-- What a removal leaves, by whether there was something to remove.
abbrev removed_from : String → JsonNodeRegistry → Option Bool × JsonNodeRegistry
removed_from k s =
    if is_some (JsMap.get s.records k)
    then (some true, saved s (JsMap.delete s.records k))
    else (some false, s)

json_delete-saved :
    (k : String) (r : JsonNodeRegistry)
    → IsLoaded r
    → json_delete k r ≡ removed_from k (load_if_needed r)
unfolding json_delete JsMap.has
json_delete-saved k r v = elim (Bool-cases (is_some (JsMap.get (load_if_needed r).records k))) [
  | inl h ↦ rw h (
      persist-saved true (load_if_needed r) (JsMap.delete (load_if_needed r).records k)
        (load-refuses r v))
  | inr h ↦ rw h refl
]

json_delete-view :
    (k : String) (r : JsonNodeRegistry)
    → IsLoaded r
    → (j : String)
    → JsMap.get (stored (json_delete k r).1) j ≡ (if k == j then none else JsMap.get (stored r) j)
json_delete-view k r v j =
    let s = load_if_needed r in
    let gone : JsMap.get (JsMap.delete s.records k) j
        ≡ (if k == j then none else JsMap.get (stored r) j) =
      JsMap.get-delete s.records k j ∙ rw (load-agrees r v j) refl in
    ap (λ x. JsMap.get (stored x.1) j) (json_delete-saved k r v)
    ∙ if_both
        (λ (q : Option Bool × JsonNodeRegistry).
          JsMap.get (stored q.1) j ≡ (if k == j then none else JsMap.get (stored r) j))
        (is_some (JsMap.get s.records k)) _ _
        (λ _. stored-saved s _ (delete-Keyed s.records k (load-Keyed r v)) j ∙ gone)
        (λ absent.
          ap (λ m. JsMap.get m j) (stored-load r)
          ∙ ground (arith, absent, load-agrees r v k, eq_iff k j))

json_delete-IsLoaded :
    (k : String) (r : JsonNodeRegistry) → IsLoaded r → IsLoaded (json_delete k r).1
json_delete-IsLoaded k r v =
    let s = load_if_needed r in
    subst (λ (x : Option Bool × JsonNodeRegistry). IsLoaded x.1) (sym (json_delete-saved k r v))
      (if_both (λ (x : Option Bool × JsonNodeRegistry). IsLoaded x.1)
        (is_some (JsMap.get s.records k)) _ _
        (λ _.
          saved-IsLoaded s _ (load-loaded r) (load-refuses r v)
            (delete-Keyed s.records k (load-Keyed r v)))
        (λ _. load-IsLoaded r v))

json_delete-reply :
    (k : String) (r : JsonNodeRegistry)
    → IsLoaded r
    → (json_delete k r).0 ≡ some (is_some (JsMap.get (stored r) k))
json_delete-reply k r v =
    let s = load_if_needed r in
    ap (λ x. x.0) (json_delete-saved k r v) ∙ elim (Bool-cases (is_some (JsMap.get s.records k))) [
      | inl h ↦ rw h (ap some (sym h ∙ ap is_some (load-agrees r v k)))
      | inr h ↦ rw h (ap some (sym h ∙ ap is_some (load-agrees r v k)))
    ]

-- The file is a registry where the disk takes its writes, and so is what is read from it again: the view
-- is that of the file alone.
pub json_registry-IsRegistry : IsRegistry json_registry IsLoaded (λ r. JsMap.get (stored r))
unfolding json_list json_get
json_registry-IsRegistry = record {
  list_valid = λ r v. load-IsLoaded r v;
  list_view = λ r v j. ap (λ m. JsMap.get m j) (stored-load r);
  list_names = λ r v j.
      any_of-sort_by is_newer (λ e. e.name == j) _
      ∙ any_of-values _ j (load-Keyed r v)
      ∙ ap is_some (load-agrees r v j);
  lookup_valid = λ k r v. load-IsLoaded r v;
  lookup_view = λ k r v j. ap (λ m. JsMap.get m j) (stored-load r);
  lookup_reply = λ k r v. load-agrees r v k;
  upsert_valid = json_upsert-IsLoaded;
  upsert_view = json_upsert-view;
  upsert_reply =
      λ now i r v. ap (λ x. x.0) (json_upsert-saved now i r v) ∙ rw (load-agrees r v i.name) refl;
  remove_valid = json_delete-IsLoaded;
  remove_view = json_delete-view;
  remove_reply = json_delete-reply;
}
