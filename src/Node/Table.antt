-- ===== src/Node/Table.antt =====
-- packages/claw-mem/src/db/node-store.ts: `NodeStore`, the registry of nodes in the database, each
-- statement as what it does to the table `coc_nodes`, whose primary key is the name.
pub mod View
use claw_mem.Prelude.{
  count, if◌then◌else◌, ltb, get_or, keep_if, ℕ, ◌/◌, String, Bool, not, Option, none, some, List,
  [], ◌∷◌, ◌==◌,
}
use claw_mem.Node.Order.{sort_by, is_first}
use claw_mem.Node.Types.{NodeEntry, NodeEntryInput, NodeRegistry, default_advertised}

unfoldable pub find_row : List NodeEntry → String → Option NodeEntry
find_row [] name = none
find_row (e ∷ es) name = if e.name == name then some e else find_row es name

abbrev pub inserted_row : ℕ → NodeEntryInput → NodeEntry
inserted_row now input = record {
  name = input.name;
  node_type = input.node_type;
  network = input.network;
  data_dir = input.data_dir;
  services = input.services;
  advertised_bytes = get_or input.advertised_bytes default_advertised;
  rpc_port = input.rpc_port;
  config_path = input.config_path;
  created_at_epoch = now / 1000;
  updated_at_epoch = some (now / 1000);
}

-- `INSERT … ON CONFLICT(name) DO UPDATE`: all columns but the name and the time of creation.
unfoldable pub upsert_row : NodeEntry → List NodeEntry → List NodeEntry
upsert_row new [] = new ∷ []
upsert_row new (e ∷ es) =
    let rest = upsert_row new es in
    if e.name == new.name
    then record e {
      node_type = new.node_type;
      network = new.network;
      data_dir = new.data_dir;
      services = new.services;
      advertised_bytes = new.advertised_bytes;
      rpc_port = new.rpc_port;
      config_path = new.config_path;
      updated_at_epoch = new.updated_at_epoch;
    }
      ∷ es
    else e ∷ rest

unfoldable pub store_upsert :
    ℕ → NodeEntryInput → List NodeEntry → Option NodeEntry × List NodeEntry
unfolding upsert_row find_row
store_upsert now input rows =
    let after = upsert_row (inserted_row now input) rows in (find_row after input.name, after)

unfoldable pub store_get : String → List NodeEntry → Option NodeEntry × List NodeEntry
unfolding find_row
store_get name rows = (find_row rows name, rows)

unfoldable pub store_list : List NodeEntry → List NodeEntry × List NodeEntry
store_list rows = (sort_by is_first rows, rows)

unfoldable pub store_list_by_network : String → List NodeEntry → List NodeEntry
store_list_by_network network rows = sort_by is_first (keep_if (λ e. e.network == network) rows)

unfoldable pub store_delete : String → List NodeEntry → Option Bool × List NodeEntry
store_delete name rows =
    (some (ltb 0 (count (λ e. e.name == name) rows)), keep_if (λ e. not (e.name == name)) rows)

abbrev pub node_store : NodeRegistry (List NodeEntry)
node_store = record {
  list = store_list;
  lookup = store_get;
  upsert = store_upsert;
  remove = store_delete;
}
