-- ===== src/Settings.antt =====
-- mari.go and types.go: the options of `Open`, and what it sets from them.
pub mod Trigger
mod Tests
use mariv.Base.{ℕ, Bool, true, false, Option, none, some}
use mariv.Serialize.{MetaData}
use mariv.Pool.{Pool, new_pool}
use mariv.Compact.{default_trigger}

-- The path of the file goes to the operating system, and is not kept here.
pub record InitOpts : Type 0 where
  pub node_pool_size : Option ℕ
  pub compact_trigger : Option (MetaData → Bool)
  pub append_only : Option Bool

-- The fields of `Mari` that do not change.
pub record Settings : Type 0 where
  pub pool : Pool
  pub append_only : Bool
  pub compact_trigger : MetaData → Bool

abbrev pub given {ℓ} : {A : Type ℓ} → Option A → A → A
given none default = default
given (some a) default = a

abbrev pub default_node_pool_size : ℕ
default_node_pool_size = 1000000

abbrev pub max_compact_version : ℕ
max_compact_version = 1000000

unfoldable pub settings : InitOpts → Settings
settings opts = record {
  pool = new_pool (given opts.node_pool_size default_node_pool_size);
  append_only = given opts.append_only false;
  compact_trigger = given opts.compact_trigger (default_trigger max_compact_version);
}
