-- ===== src/Node/Manager.antt =====
-- packages/node/src/node-manager.ts: `NodeManager`, over any registry of nodes. What it does to the disk
-- and to processes is the list of its effects; whether the disk, the quota and each service let it is
-- the environment. The content of node-config.json is not modelled.
pub mod Installed
use Prim.Native.String.{◌++◌ as concat}
use mathlib.Core.List.{◌++◌}
use claw_mem.Prelude.{
  if◌then◌else◌, ltb, leb, eqb, get_or, is_some, length, any_of, Result, ok, err, guard, ℕ, zero,
  suc, ◌+◌, String, Bool, true, false, not, ◌&&◌, ◌||◌, Option, none, some, List, [], ◌∷◌, ◌==◌,
  ◌>>◌, ◌-◌,
}
use claw_mem.Backup.Pattern.{codes}
use claw_mem.Node.Types.{NodeEntry, NodeEntryInput, NodeRegistry}

pub data NodeType : Type 0 where
  validator fullnode archive gateway dev : NodeType

pub data NetworkId : Type 0 where
  testnet prowl_testnet mainnet local custom : NetworkId

abbrev pub type_text : NodeType → String
type_text validator = "validator"
type_text fullnode = "fullnode"
type_text archive = "archive"
type_text gateway = "gateway"
type_text dev = "dev"

abbrev pub network_text : NetworkId → String
network_text testnet = "testnet"
network_text prowl_testnet = "prowl-testnet"
network_text mainnet = "mainnet"
network_text local = "local"
network_text custom = "custom"

pub record InstallOptions : Type 0 where
  pub node_type : NodeType
  pub network : NetworkId
  pub name : Option String
  pub rpc_port : Option ℕ
  pub data_dir : Option String
  pub advertised_bytes : Option ℕ

-- What an installation and the life of a node do outside of the registry.
pub data Effect : Type 0 where
  wrote_key wrote_config deleted_data : String → Effect
  started stopped : String → String → Effect

-- The configuration, the presets, texts of numbers and paths, and what the world answers.
pub record Host : Type 0 where
  pub services_of : NodeType → List String
  pub preset_port : NetworkId → Option ℕ
  pub default_port : ℕ
  pub default_advertised_bytes : ℕ
  pub text_of : ℕ → String
  pub node_dir : String → String
  pub config_path : String → String
  pub quota : Result String (Unit {0})
  pub write_key : Result String (Unit {0})
  pub write_config : Result String (Unit {0})
  pub repository : Result String (Unit {0})
  pub start_service : String → Result String (Unit {0})
  pub stop_service : String → Result String (Unit {0})
  pub delete_data : Result String (Unit {0})

-- `/^[a-zA-Z0-9_-]+$/`.
abbrev pub is_name_char : ℕ → Bool
is_name_char c =
    (leb 97 c && leb c 122)
    || ((leb 65 c && leb c 90) || ((leb 48 c && leb c 57) || (eqb c 95 || eqb c 45)))

abbrev pub all_of : (ℕ → Bool) → List ℕ → Bool
all_of p [] = true
all_of p (c ∷ cs) = p c && all_of p cs

abbrev pub is_node_name : String → Bool
is_node_name name = ltb 0 (length (codes name)) && all_of is_name_char (codes name)

abbrev pub prefix_of : NodeType → String
prefix_of validator = "val"
prefix_of fullnode = "fn"
prefix_of archive = "archive"
prefix_of gateway = "gateway"
prefix_of dev = "dev"

abbrev pub minimum_bytes : ℕ
minimum_bytes = 268435456

abbrev pub reversed : List String → List String
reversed [] = []
reversed (k ∷ ks) = reversed ks ++ (k ∷ [])

module _ (h : Host) where
  abbrev pub candidate : NodeType → ℕ → String
  candidate t i = concat (prefix_of t) (concat "-" (h.text_of i))

  -- The loop of `generateDefaultName`, with the rounds that are left, and the time behind it.
  unfoldable pub first_free : NodeType → List NodeEntry → ℕ → ℕ → ℕ → String
  first_free t existing now zero i = concat (prefix_of t) (concat "-" (h.text_of now))
  first_free t existing now (suc left) i =
      let rest = first_free t existing now left (i + 1) in
      if any_of (λ n. n.name == candidate t i) existing then rest else candidate t i

  unfoldable pub generate_default_name : NodeType → List NodeEntry → ℕ → String
  unfolding first_free
  generate_default_name t existing now = first_free t existing now 100 1

  abbrev pub advertised_of : InstallOptions → ℕ
  advertised_of o = get_or o.advertised_bytes h.default_advertised_bytes

  -- What `install` checks before it writes.
  unfoldable pub check_install :
      InstallOptions → String → Option NodeEntry → Result String (Unit {0})
  check_install o name known = do
    guard (not (is_some known)) (concat "Node already exists: " name)
    guard (is_node_name name) "Name must be alphanumeric with dashes/underscores"
    guard (leb minimum_bytes (advertised_of o)) "advertisedBytes is below the COC P2P minimum"
    h.quota

  abbrev pub entry_of : InstallOptions → String → NodeEntryInput
  entry_of o name =
      let dir = get_or o.data_dir (h.node_dir name) in
      record {
        name = name;
        node_type = type_text o.node_type;
        network = network_text o.network;
        data_dir = dir;
        services = h.services_of o.node_type;
        advertised_bytes = some (advertised_of o);
        rpc_port = get_or o.rpc_port (get_or (h.preset_port o.network) h.default_port);
        config_path = some (h.config_path dir);
      }

  -- The services that are started until one fails, and whether none did.
  unfoldable pub start_services : String → List String → Result String (Unit {0}) × List Effect
  start_services dir [] = (ok tt, [])
  start_services dir (k ∷ ks) =
      let rest = start_services dir ks in
      elim (h.start_service k) [ err e ↦ (err e, []) | ok _ ↦ (rest.0, started dir k ∷ rest.1) ]

  -- Stops that fail are passed over.
  unfoldable pub stop_services : String → List String → List Effect
  stop_services dir [] = []
  stop_services dir (k ∷ ks) =
      let rest = stop_services dir ks in
      elim (h.stop_service k) [ err e ↦ rest | ok _ ↦ stopped dir k ∷ rest ]

  module _ {S : Type 0} (r : NodeRegistry S) where
    -- `install` from the check of the name on: the name, or an error; the effects; and the registry.
    unfoldable pub install_as :
        ℕ → InstallOptions → String → S → (Result String String × List Effect) × S
    unfolding check_install
    install_as now o name s =
        let known = r.lookup name s in
        let input = entry_of o name in
        elim (check_install o name known.0) [
          | err e ↦ ((err e, []), known.1)
          | ok _ ↦ elim h.write_key [
            | err e ↦ ((err e, []), known.1)
            | ok _ ↦ elim h.write_config [
              | err e ↦ ((err e, wrote_key input.data_dir ∷ []), known.1)
              | ok _ ↦
                  let effects = wrote_key input.data_dir ∷ wrote_config input.data_dir ∷ [] in
                  let registered = r.upsert now input known.1 in
                  elim registered.0 [
                    | none ↦ ((err "the registry was not written", effects), registered.1)
                    | some _ ↦ ((ok name, effects), registered.1)
                  ]
            ]
          ]
        ]

    unfoldable pub install : ℕ → InstallOptions → S → (Result String String × List Effect) × S
    unfolding install_as generate_default_name
    install now o s =
        let listed = r.list s in
        let fresh = install_as now o (generate_default_name o.node_type listed.0 now) listed.1 in
        elim o.name [ none ↦ fresh | some n ↦ if n == "" then fresh else install_as now o n s ]

    unfoldable pub start_node : String → S → (Result String (Unit {0}) × List Effect) × S
    unfolding start_services
    start_node name s =
        let node = r.lookup name s in
        elim node.0 [
          | none ↦ ((err "Node not found", []), node.1)
          | some e ↦ elim h.repository [
            | err x ↦ ((err x, []), node.1)
            | ok _ ↦ (start_services e.data_dir e.services, node.1)
          ]
        ]

    unfoldable pub stop_node : String → S → (Result String (Unit {0}) × List Effect) × S
    unfolding stop_services
    stop_node name s =
        let node = r.lookup name s in
        elim node.0 [
          | none ↦ ((err "Node not found", []), node.1)
          | some e ↦ ((ok tt, stop_services e.data_dir (reversed e.services)), node.1)
        ]

    -- Nothing where the registry cannot be written.
    unfoldable pub remove_node : String → Bool → S → (Option Bool × List Effect) × S
    unfolding stop_node
    remove_node name delete_data s =
        let node = r.lookup name s in
        let stop = stop_node name node.1 in
        let gone = r.remove name stop.1 in
        elim node.0 [
          | none ↦ ((some false, []), node.1)
          | some e ↦ (
            (
              gone.0,
              stop.0.1
                  ++ (if delete_data && elim h.delete_data [ ok _ ↦ true | err x ↦ false ]
                      then deleted_data e.data_dir ∷ []
                      else []),
            ),
            gone.1,
          )
        ]
