-- ===== src/Node/Registry.antt =====
-- What a registry of nodes promises: it is a finite map from names to entries, and an entry that is
-- written again keeps the time of its creation.
pub mod Replay
use claw_mem.Prelude.{
  if◌then◌else◌, get_or, is_some, any_of, ℕ, ◌/◌, String, ◌≡◌, Option, none, some, ◌==◌,
}
use claw_mem.Node.Types.{NodeEntry, NodeEntryInput, NodeRegistry, default_advertised}

-- What each name stands for.
abbrev pub Nodes : Type 0
Nodes = String → Option NodeEntry

-- The entry that is written over what was there.
abbrev pub written : ℕ → NodeEntryInput → Option NodeEntry → NodeEntry
written now input old = record {
  name = input.name;
  node_type = input.node_type;
  network = input.network;
  data_dir = input.data_dir;
  services = input.services;
  advertised_bytes = get_or input.advertised_bytes default_advertised;
  rpc_port = input.rpc_port;
  config_path = input.config_path;
  created_at_epoch = elim old [ none ↦ now / 1000 | some e ↦ e.created_at_epoch ];
  updated_at_epoch = some (now / 1000);
}

-- A state stands for the nodes of a view, and each method does to the view what it promises.
pub record IsRegistry {S : Type 0} (r : NodeRegistry S) (Valid : S → Type 0) (view : S → Nodes)
    : Type 0 where
  pub list_valid : (s : S) → Valid s → Valid (r.list s).1
  pub list_view : (s : S) → Valid s → (j : String) → view (r.list s).1 j ≡ view s j
  pub list_names :
      (s : S) → Valid s → (j : String) → any_of (λ e. e.name == j) (r.list s).0 ≡ is_some (view s j)
  pub lookup_valid : (k : String) (s : S) → Valid s → Valid (r.lookup k s).1
  pub lookup_view :
      (k : String) (s : S) → Valid s → (j : String) → view (r.lookup k s).1 j ≡ view s j
  pub lookup_reply : (k : String) (s : S) → Valid s → (r.lookup k s).0 ≡ view s k
  pub upsert_valid : (now : ℕ) (i : NodeEntryInput) (s : S) → Valid s → Valid (r.upsert now i s).1
  pub upsert_view :
      (now : ℕ) (i : NodeEntryInput) (s : S)
      → Valid s
      → (j : String)
      → view (r.upsert now i s).1 j
        ≡ (if i.name == j then some (written now i (view s i.name)) else view s j)
  pub upsert_reply :
      (now : ℕ) (i : NodeEntryInput) (s : S)
      → Valid s
      → (r.upsert now i s).0 ≡ some (written now i (view s i.name))
  pub remove_valid : (k : String) (s : S) → Valid s → Valid (r.remove k s).1
  pub remove_view :
      (k : String) (s : S)
      → Valid s
      → (j : String) → view (r.remove k s).1 j ≡ (if k == j then none else view s j)
  pub remove_reply : (k : String) (s : S) → Valid s → (r.remove k s).0 ≡ some (is_some (view s k))
