-- ===== src/Runtime/Server/Model.antt =====
-- The state of backend/msm/runtime/server_runtime.py: one server's driver. Times are whole numbers
-- of one unit. Messages are data; `translate` is their text in the language of the panel.
use minecraft_server_manager.Prelude.{ℕ, Bool, Option, List, Text, Dict}
use minecraft_server_manager.Prelude.Int.{ℤ}
use minecraft_server_manager.Core.States.{ServerState}
use minecraft_server_manager.Core.LogLine.{LogLine}
use minecraft_server_manager.Core.Restart.{RestartPolicy, Reason}
use minecraft_server_manager.Runtime.Pipeline.{Pipeline}

-- The texts of the console and of the reasons; an actor is `none` for MSM itself.
pub data Message : Type 0 where
  start_requested stop_requested_by forced_stop_by : Option Text → Message
  readopted readopted_stopped readopted_gone detached : Message
  start_complete start_assumed stopping server_stopped stopped_alone : Message
  stop_signal_sent forced_termination no_logs_folder : Message
  pre_start_failed eula_not_accepted eula_accepted launch_command : Message
  note start_failed suggested_fix : Text → Message
  crashed_with : ℤ → Message
  restart_refused : Reason → Message
  restart_planned : Reason → ℕ → Message

pub record ErrorReport : Type 0 where
  pub code : Text
  pub cause : Text
  pub remediation : Text

-- The exceptions that the methods raise.
pub data Error : Type 0 where
  already_running not_running console_unavailable : Error
  start_error : ErrorReport → Error
  illegal_transition : ServerState → ServerState → Error

-- A launched process: `exit` is its return code once it has ended.
pub record Handle : Type 0 where
  pub pid : ℕ
  pub exit : Option ℤ
  pub stdin_available : Bool

-- A process found alive after a restart of MSM; `alive` is what `is_alive` answers for it.
pub record AdoptedProcess : Type 0 where
  pub pid : ℕ
  pub alive : Bool

pub record Players : Type 0 where
  pub online : Dict Text (Option Text)
  pub recently_left : List Text
  pub pending_uuids : Dict Text Text

-- `_supervise` waits for the process, then (the process over) for the reader, with the uptime read
-- when the process ended.
pub data Supervision : Type 0 where
  no_supervision : Supervision
  waiting : Supervision
  draining : ℕ → Supervision

-- Where the holder of `_lock` stands between two waits of `start`.
pub data Phase : Type 0 where
  unlocked : Phase
  checking_orphan preparing spawning : Option Text → Phase
  stopping_adopted : Bool → Phase

pub record Snapshot : Type 0 where
  pub state : ServerState
  pub state_reason : Option Message
  pub pid : Option ℕ
  pub players_online : ℕ
  pub consecutive_crashes : ℕ
  pub console_writable : Bool
  pub adopted : Bool
  pub log_seq : ℕ
  pub log_dropped : ℕ

-- The events that the runtime publishes on the bus.
pub data Published : Type 0 where
  log : LogLine → Published
  status : Snapshot → Published
  players : List (Text × Option Text) → Published
  player_join player_leave : Text → Option Text → Published
  crash : ℤ → ℕ → List LogLine → Published
  restart_scheduled : ℕ → Reason → Published

pub record Config : Type 0 where
  pub restart_policy : RestartPolicy
  pub auto_accept_eula : Bool
  pub has_pre_start : Bool
  pub translate : Message → Text

pub record Runtime : Type 0 where
  pub config : Config
  pub state : ServerState
  pub state_since : ℕ
  pub state_reason : Option Message
  pub last_error : Option ErrorReport
  pub handle : Option Handle
  pub adopted : Option AdoptedProcess
  pub pipeline : Pipeline
  pub players : Players
  pub stop_requested : Bool
  pub consecutive_crashes : ℕ
  pub started_at : Option ℕ
  pub supervision : Supervision
  pub readiness_task : Bool
  pub restart_task : Bool
  pub liveness_task : Bool
  pub tailer : Bool
  pub phase : Phase
  pub clock : ℕ
  pub published : List Published
