-- ===== src/Node/Stores.antt =====
-- Both registries of nodes answer as a map does, and the JSON file loses nothing when it is read again.
use claw_mem.Prelude.{String, ◌≡◌, refl, sym, ◌∙◌, false, Option, List, []}
use claw_mem.Node.Types.{NodeEntry}
use claw_mem.JsMap
use claw_mem.Node.Registry.Replay.{Call, run, run-answers, answers, changes}
use claw_mem.Node.Json.{JsonNodeRegistry, json_registry}
use claw_mem.Node.Json.Loaded.{IsLoaded, stored}
use claw_mem.Node.Json.View.{json_registry-IsRegistry}
use claw_mem.Node.Table.{node_store, find_row}
use claw_mem.Node.Table.View.{node_store-IsRegistry}

-- A registry that is opened on a file, on a disk that takes its writes.
abbrev pub opened : Option (List NodeEntry) → JsonNodeRegistry
opened file = record { file = file; refuses = false; loaded = false; records = [] }

opened-IsLoaded : (file : Option (List NodeEntry)) → IsLoaded (opened file)
opened-IsLoaded file = record { keyed = tt; writes = refl; fresh = λ _. refl; agrees = λ h. cc }

-- On a disk that takes the writes: a JSON registry that is opened on the file which another one wrote
-- answers every lookup, write and removal as that one goes on to.
pub run-opened :
    (cs more : List Call) (file : Option (List NodeEntry))
    → (run json_registry more (opened (run json_registry cs (opened file)).1.file)).0
      ≡ (run json_registry more (run json_registry cs (opened file)).1).0
run-opened cs more file =
    let laws = json_registry-IsRegistry in
    let view : JsonNodeRegistry → String → Option NodeEntry = λ r. JsMap.get (stored r) in
    let first =
      run-answers json_registry IsLoaded view laws cs (opened file) (view (opened file))
        (opened-IsLoaded file) (λ j. refl) in
    let left = (run json_registry cs (opened file)).1 in
    let again =
      run-answers json_registry IsLoaded view laws more (opened left.file) (view left)
        (opened-IsLoaded left.file) (λ j. refl) in
    let on =
      run-answers json_registry IsLoaded view laws more left (view left) first.2 (λ j. refl) in
    again.0 ∙ sym on.0

-- On any table, and on any file on a disk that takes the writes: both registries answer every sequence
-- of lookups, writes and removals as the finite map does that the file, or the table, holds; and they
-- hold the map's state behind them.
pub run_lem :
    (cs : List Call) (file : Option (List NodeEntry)) (rows : List NodeEntry)
    → ((run json_registry cs (opened file)).0 ≡ answers cs (JsMap.get (stored (opened file))))
      × ((j : String)
          → JsMap.get (stored (run json_registry cs (opened file)).1) j
            ≡ changes cs (JsMap.get (stored (opened file))) j)
      × ((run node_store cs rows).0 ≡ answers cs (find_row rows))
      × ((j : String) → find_row (run node_store cs rows).1 j ≡ changes cs (find_row rows) j)
run_lem cs file rows =
    let json =
      run-answers json_registry IsLoaded (λ r. JsMap.get (stored r)) json_registry-IsRegistry cs
        (opened file) (JsMap.get (stored (opened file))) (opened-IsLoaded file) (λ j. refl) in
    let table =
      run-answers node_store (λ _. Unit) find_row node_store-IsRegistry cs rows (find_row rows) tt
        (λ j. refl) in
    (json.0, json.1, table.0, table.1)
