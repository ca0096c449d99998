-- ===== src/Node/Table/View.antt =====
-- The table of nodes keeps the promise of a registry.
use claw_mem.Prelude.{
  count, if◌then◌else◌, ltb, Bool-cases, is_some, keep_if, any_of, ℕ, String, ◌≡◌, refl, inl, inr,
  not, none, some, List, [], ◌∷◌, arith, ◌==◌, eq_iff, ◌∙◌, eq_refl, ap,
}
use claw_mem.Node.Order.{any_of-sort_by, is_first}
use claw_mem.Node.Types.{NodeEntry, NodeEntryInput}
use claw_mem.Node.Registry.{written, IsRegistry}
use claw_mem.Node.Table.{
  find_row, upsert_row, inserted_row, store_upsert, store_get, store_list, store_delete, node_store,
}

find_row-name :
    (es : List NodeEntry) (j : String) → any_of (λ e. e.name == j) es ≡ is_some (find_row es j)
unfolding find_row
find_row-name [] j = refl
find_row-name (e ∷ es) j = ground (arith, find_row-name es j)

count-find_row :
    (es : List NodeEntry) (j : String)
    → ltb 0 (count (λ e. e.name == j) es) ≡ is_some (find_row es j)
unfolding find_row
count-find_row [] j = refl
count-find_row (e ∷ es) j = ground (arith, count-find_row es j)

find_row-upsert_row :
    (now : ℕ) (i : NodeEntryInput) (es : List NodeEntry) (j : String)
    → find_row (upsert_row (inserted_row now i) es) j
      ≡ (if i.name == j then some (written now i (find_row es i.name)) else find_row es j)
unfolding find_row upsert_row
find_row-upsert_row now i [] j = refl
find_row-upsert_row now i (e ∷ es) j = elim (Bool-cases (e.name == i.name)) [
  | inl h ↦
      rw (h, (eq_iff e.name i.name).0 h)
        (elim (Bool-cases (i.name == j)) [ inl k ↦ rw k refl | inr k ↦ rw k refl ])
  | inr h ↦ rw h (
      ground (
        arith,
        find_row-upsert_row now i es j,
        eq_iff e.name j,
        eq_iff i.name j,
        eq_iff e.name i.name,
      ))
]

find_row-delete :
    (k : String) (es : List NodeEntry) (j : String)
    → find_row (keep_if (λ e. not (e.name == k)) es) j ≡ (if k == j then none else find_row es j)
unfolding find_row
find_row-delete k [] j = ground arith
find_row-delete k (e ∷ es) j =
    ground (arith, find_row-delete k es j, eq_iff e.name k, eq_iff k j, eq_iff e.name j)

-- The table is a registry.
pub node_store-IsRegistry : IsRegistry node_store (λ _. Unit) find_row
unfolding store_upsert store_get store_list store_delete
node_store-IsRegistry = record {
  list_valid = λ es _. tt;
  list_view = λ es _ j. refl;
  list_names = λ es _ j. any_of-sort_by is_first (λ e. e.name == j) es ∙ find_row-name es j;
  lookup_valid = λ k es _. tt;
  lookup_view = λ k es _ j. refl;
  lookup_reply = λ k es _. refl;
  upsert_valid = λ now i es _. tt;
  upsert_view = λ now i es _ j. find_row-upsert_row now i es j;
  upsert_reply = λ now i es _. rw (find_row-upsert_row now i es i.name, eq_refl i.name) refl;
  remove_valid = λ k es _. tt;
  remove_view = λ k es _ j. find_row-delete k es j;
  remove_reply = λ k es _. ap some (count-find_row es k);
}
