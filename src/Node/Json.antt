-- ===== src/Node/Json.antt =====
-- packages/node/src/json-registry.ts: `JsonNodeRegistry`. The file is what `JSON.parse` reads from it,
-- the entries with a name, or nothing where it is missing or corrupt; `refuses` says that the disk takes
-- no writes of it.
pub mod Loaded
pub mod View
use claw_mem.Prelude.{
  if◌then◌else◌, get_or, ℕ, ◌/◌, String, Bool, true, false, Option, none, some, List, [], ◌∷◌,
}
use claw_mem.JsMap
use claw_mem.Node.Order.{sort_by, is_newer}
use claw_mem.Node.Types.{NodeEntry, NodeEntryInput, NodeRegistry, default_advertised}

pub record JsonNodeRegistry : Type 0 where
  pub file : Option (List NodeEntry)
  pub refuses : Bool
  pub loaded : Bool
  pub records : JsMap.Map NodeEntry

-- `for (const n of parsed.nodes) this.records.set(n.name, n)`.
unfoldable pub add_entries : JsMap.Map NodeEntry → List NodeEntry → JsMap.Map NodeEntry
unfolding JsMap.set
add_entries m [] = m
add_entries m (e ∷ es) = add_entries (JsMap.set m e.name e) es

unfoldable pub load_if_needed : JsonNodeRegistry → JsonNodeRegistry
unfolding add_entries
load_if_needed r =
    if r.loaded
    then r
    else record r { loaded = true; records = add_entries r.records (get_or r.file []) }

-- The answer of a method that persists, or nothing where the write throws; the records stay changed.
unfoldable pub persist : {A : Type 0} → A → JsonNodeRegistry → Option A × JsonNodeRegistry
persist answer r =
    if r.refuses
    then (none, r)
    else (some answer, record r { file = some (JsMap.values r.records) })

unfoldable pub json_list : JsonNodeRegistry → List NodeEntry × JsonNodeRegistry
unfolding load_if_needed
json_list r = (sort_by is_newer (JsMap.values (load_if_needed r).records), load_if_needed r)

unfoldable pub json_get : String → JsonNodeRegistry → Option NodeEntry × JsonNodeRegistry
unfolding load_if_needed JsMap.get
json_get name r = (JsMap.get (load_if_needed r).records name, load_if_needed r)

unfoldable pub json_upsert :
    ℕ → NodeEntryInput → JsonNodeRegistry → Option NodeEntry × JsonNodeRegistry
unfolding load_if_needed JsMap.get JsMap.set persist
json_upsert now input r =
    let s = load_if_needed r in
    let entry : NodeEntry = record {
      name = input.name;
      node_type = input.node_type;
      network = input.network;
      data_dir = input.data_dir;
      services = input.services;
      advertised_bytes = get_or input.advertised_bytes default_advertised;
      rpc_port = input.rpc_port;
      config_path = input.config_path;
      created_at_epoch = elim (JsMap.get s.records input.name) [
        | none ↦ now / 1000
        | some e ↦ e.created_at_epoch
      ];
      updated_at_epoch = some (now / 1000);
    } in
    persist entry (record s { records = JsMap.set s.records input.name entry })

unfoldable pub json_delete : String → JsonNodeRegistry → Option Bool × JsonNodeRegistry
unfolding load_if_needed JsMap.has JsMap.delete persist
json_delete name r =
    let s = load_if_needed r in
    let removed = JsMap.has s.records name in
    if removed
    then persist true (record s { records = JsMap.delete s.records name })
    else (some false, s)

abbrev pub json_registry : NodeRegistry JsonNodeRegistry
json_registry = record {
  list = json_list;
  lookup = json_get;
  upsert = json_upsert;
  remove = json_delete;
}
