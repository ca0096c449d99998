-- ===== src/Node/Types.antt =====
-- packages/node/src/types.ts: node records, and the port that registries of nodes implement. A time is
-- in milliseconds; its ISO text says the same and is left out.
use claw_mem.Prelude.{ℕ, String, Bool, Option, List}

pub record NodeEntry : Type 0 where
  pub name : String
  pub node_type : String
  pub network : String
  pub data_dir : String
  pub services : List String
  pub advertised_bytes : ℕ
  pub rpc_port : ℕ
  pub config_path : Option String
  pub created_at_epoch : ℕ
  pub updated_at_epoch : Option ℕ

pub record NodeEntryInput : Type 0 where
  pub name : String
  pub node_type : String
  pub network : String
  pub data_dir : String
  pub services : List String
  pub advertised_bytes : Option ℕ
  pub rpc_port : ℕ
  pub config_path : Option String

abbrev pub default_advertised : ℕ
default_advertised = 268435456

-- `NodeRegistry`: the methods, over the state that they read and change. `upsert` has the time first;
-- it and `remove` return nothing where they throw.
pub record NodeRegistry (S : Type 0) : Type 0 where
  pub list : S → List NodeEntry × S
  pub lookup : String → S → Option NodeEntry × S
  pub upsert : ℕ → NodeEntryInput → S → Option NodeEntry × S
  pub remove : String → S → Option Bool × S
