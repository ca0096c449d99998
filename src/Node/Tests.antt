-- ===== src/Node/Tests.antt =====
-- Registries, the manager and the quota at concrete inputs.
use Prim.Native.String.{◌++◌ as concat}
use claw_mem.Prelude.{
  map, if◌then◌else◌, ok, err, ◌≤◌, String, ◌≡◌, refl, true, none, some, List, [], ◌∷◌, ◌==◌, false,
}
use claw_mem.Node.Types.{NodeEntryInput}
use claw_mem.Node.Registry.{written}
use claw_mem.Node.Registry.Replay.{Call, call, run, answers, changes, looks_up, writes, removes}
use claw_mem.Node.Json.{
  json_registry, json_list, json_get, json_upsert, load_if_needed, add_entries, persist,
}
use claw_mem.Node.Table.{node_store, find_row, store_list, store_get, store_upsert, upsert_row}
use claw_mem.Node.Table.View.{node_store-IsRegistry}
use claw_mem.JsMap
use claw_mem.Node.Json.Loaded.{stored}
use claw_mem.Node.Stores.{run_lem, opened, run-opened}
use claw_mem.Node.Manager.{
  Host, InstallOptions, install, remove_node, fullnode, testnet, entry_of, is_node_name,
  minimum_bytes, advertised_of, install_as, generate_default_name, first_free, check_install,
}
use claw_mem.Node.Manager.Installed.{install-ok, install-err, remove_node-install}
use claw_mem.Node.Quota.{PathEntry, file, directory, cons, nil, disk_usage}
use claw_mem.Node.Processes.{Processes, StartHost, status, read_pid, start, stop, spawn}
use claw_mem.Node.Processes.Life.{IsLife, start-IsLife}
use claw_mem.Node.Quota.Usage.{paths_of, bytes_of, disk_usage-bytes_of}

abbrev input : String → NodeEntryInput
input name = record {
  name = name;
  node_type = "fullnode";
  network = "testnet";
  data_dir = "/n";
  services = "node" ∷ "agent" ∷ [];
  advertised_bytes = none;
  rpc_port = 8545;
  config_path = none;
}

abbrev calls : List Call
calls =
    writes 1000 (input "a")
    ∷ writes 2000 (input "b")
    ∷ writes 3000 (input "a")
    ∷ removes "b"
    ∷ looks_up "a"
    ∷ []

run_lem_example :
    ((run json_registry calls (opened none)).0 ≡ answers calls (JsMap.get (stored (opened none))))
    × ((j : String)
        → JsMap.get (stored (run json_registry calls (opened none)).1) j
          ≡ changes calls (JsMap.get (stored (opened none))) j)
    × ((run node_store calls []).0 ≡ answers calls (find_row []))
    × ((j : String) → find_row (run node_store calls []).1 j ≡ changes calls (find_row []) j)
run_lem_example = run_lem calls none []

run-opened_example :
    (run json_registry
      (looks_up "a" ∷ [])
      (opened (run json_registry calls (opened none)).1.file)).0
    ≡ (run json_registry (looks_up "a" ∷ []) (run json_registry calls (opened none)).1).0
run-opened_example = run-opened calls (looks_up "a" ∷ []) none

abbrev host : Host
host = record {
  services_of = λ t. "node" ∷ "agent" ∷ [];
  preset_port = λ n. some 28780;
  default_port = 18780;
  default_advertised_bytes = 268435456;
  text_of = λ i. "1";
  node_dir = λ name. concat "/nodes/" name;
  config_path = λ dir. concat dir "/node-config.json";
  quota = ok tt;
  write_key = ok tt;
  write_config = ok tt;
  repository = ok tt;
  start_service = λ k. ok tt;
  stop_service = λ k. ok tt;
  delete_data = ok tt;
}

abbrev unnamed : InstallOptions
unnamed = record {
  node_type = fullnode;
  network = testnet;
  name = none;
  rpc_port = none;
  data_dir = none;
  advertised_bytes = none;
}

installed : (install host node_store 1000 unnamed []).0.0 ≡ ok "fn-1"
unfolding install install_as generate_default_name first_free check_install store_list store_get
    find_row store_upsert
installed = refl

install-ok_example :
    (find_row [] "fn-1" ≡ none)
    × (is_node_name "fn-1" ≡ true)
    × (minimum_bytes ≤ advertised_of host unnamed)
    × ((j : String)
        → find_row (install host node_store 1000 unnamed []).1 j ≡ (
            if "fn-1" == j
            then some (written 1000 (entry_of host unnamed "fn-1") none)
            else find_row [] j))
install-ok_example =
    install-ok host node_store (λ _. Unit) find_row node_store-IsRegistry 1000 unnamed [] "fn-1" tt
      installed

-- A configuration that cannot be written.
abbrev full_disk : Host
full_disk = record host { write_config = err "ENOSPC" }

refused : (install full_disk node_store 1000 unnamed []).0.0 ≡ err "ENOSPC"
unfolding install install_as generate_default_name first_free check_install store_list store_get
    find_row
refused = refl

install-err_example :
    find_row (install full_disk node_store 1000 unnamed []).1 "fn-1" ≡ find_row [] "fn-1"
install-err_example =
    install-err full_disk node_store (λ _. Unit) find_row node_store-IsRegistry 1000 unnamed []
      "ENOSPC" tt refused "fn-1"

remove_node-install_example :
    ((remove_node host node_store "fn-1" true (install host node_store 1000 unnamed []).1).0.0
      ≡ some true)
    × ((j : String)
        → find_row
            (remove_node host node_store "fn-1" true (install host node_store 1000 unnamed []).1).1
            j
          ≡ find_row [] j)
remove_node-install_example =
    remove_node-install host node_store (λ _. Unit) find_row node_store-IsRegistry 1000 unnamed []
      "fn-1" true tt installed

-- A directory with a file, the reserved file and a directory.
abbrev disk : PathEntry
disk =
    directory
      (cons "a" (file 5) (cons "r" (file 100) (cons "d" (directory (cons "b" (file 7) nil)) nil)))

abbrev under : String → String → String
under dir name = concat dir (concat "/" name)

disk_usage-bytes_of_example :
    disk_usage under (paths_of disk) "/x" disk "/x/r" ≡ some (bytes_of under "/x/r" "/x" disk)
disk_usage-bytes_of_example = disk_usage-bytes_of under "/x/r" "/x" disk

counted : disk_usage under 5 "/x" disk "/x/r" ≡ some 12
unfolding disk_usage
counted = refl

abbrev machine : Processes
machine = record { pid_files = ("/n/coc-node.pid", 7) ∷ []; running = 8 ∷ 9 ∷ []; signalled = [] }

abbrev starter : StartHost
starter = record { script = ok tt; open_log = ok tt; pid = some 12; write_pid = ok tt }

idle : (status "/n/coc-node.pid" machine).running ≡ false
unfolding status read_pid JsMap.get
idle = refl

up : (start starter "/n/coc-node.pid" machine).0 ≡ ok tt
unfolding start read_pid spawn JsMap.get
up = refl

start-IsLife_example :
    IsLife "/n/coc-node.pid" 12 machine (start starter "/n/coc-node.pid" machine).1
start-IsLife_example = start-IsLife starter "/n/coc-node.pid" machine 12 refl idle refl refl up

-- A pid file that outlives its process: the signal goes to the process that has the number now.
stale :
    (stop false "/n/coc-node.pid" (record machine { running = 8 ∷ 7 ∷ [] })).1.signalled ≡ 7 ∷ []
unfolding stop read_pid JsMap.get
stale = refl

-- A spawn that fails counts as a start, and leaves a pid file without a pid.
no_process :
    start (record starter { pid = none }) "/n/coc-node.pid" machine
    ≡ (ok tt, record machine { pid_files = ("/n/coc-node.pid", 0) ∷ [] })
unfolding start spawn read_pid JsMap.get JsMap.set
no_process = refl

-- Two nodes of one second: the file keeps the order of their insertion, the table goes by their names.
listed_apart :
    (map
        (λ e. e.name)
        (json_list
          (run json_registry
            (writes 1000 (input "a") ∷ writes 1000 (input "b") ∷ [])
            (opened none)).1).0
      ≡ "a" ∷ "b" ∷ [])
    × (map
          (λ e. e.name)
          (store_list
            (run node_store (writes 1000 (input "a") ∷ writes 1000 (input "b") ∷ []) []).1).0
        ≡ "b" ∷ "a" ∷ [])
unfolding run call json_list json_upsert load_if_needed add_entries persist store_list store_upsert
    upsert_row JsMap.get JsMap.set
listed_apart = (refl, refl)

-- A registry whose file cannot be written: the installation fails, and the node is there all the same.
half_installed :
    ((install host json_registry 1000 unnamed (record (opened none) { refuses = true })).0.0
      ≡ err "the registry was not written")
    × (map
          (λ e. e.name)
          (json_list
            (install host json_registry 1000 unnamed (record (opened none) { refuses = true })).1).0
        ≡ "fn-1" ∷ [])
unfolding install install_as generate_default_name first_free check_install json_list json_get
    json_upsert load_if_needed add_entries persist JsMap.get JsMap.set
half_installed = (refl, refl)
