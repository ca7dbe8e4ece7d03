-- ===== src/Session.antt =====
-- crates/studio-core/src/session.rs, log.rs and crates/studio-carriers/src/lib.rs: what a session is asked
-- and what it tells. A channel that a caller waits on for its answer is a number.
use tuning_tools.Base.{ℕ, Bool, Option, List}
use tuning_tools.Message.{Message, Text}
use tuning_tools.ReadPlan.{ReadItem}
use tuning_tools.Catalog.{Catalog}
use tuning_tools.Catalog.Read.{TableLayout}
use tuning_tools.Tune.{CatalogCheck, TuneValue}
use tuning_tools.Stats.{StatsSnapshot}

pub data LinkState : Type 0 where
  connecting connected disconnected failed : LinkState

pub data StreamState : Type 0 where
  absent searching : StreamState
  attached : Text → Bool → StreamState

pub data CoreState : Type 0 where
  running halted sleeping locked_up unknown : CoreState

pub record LogLine : Type 0 where
  pub host_time : ℕ
  pub timestamp : Option Text
  pub level : Option Text
  pub message : Text
  pub location : Option Text
  pub module_name : Option Text

pub data SessionEvent : Type 0 where
  status : LinkState → Option Message → SessionEvent
  stats : StatsSnapshot → CoreState → StreamState → Option Message → SessionEvent
  log : List LogLine → SessionEvent
  tune : CatalogCheck → List TuneValue → SessionEvent
  catalog : Catalog → SessionEvent

pub data SessionCommand : Type 0 where
  set_watches : List ReadItem → SessionCommand
  set_rate : ℕ → SessionCommand
  set_catalog : Option (TableLayout × Catalog) → SessionCommand
  request : ℕ → ℕ → ℕ → SessionCommand
  discard save : ℕ → SessionCommand
  set_cell_watches : List (ℕ × ℕ) → SessionCommand
  read : List (ℕ × ℕ) → ℕ → SessionCommand
  stop : SessionCommand
