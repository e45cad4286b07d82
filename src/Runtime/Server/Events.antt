-- ===== src/Runtime/Server/Events.antt =====
-- server_runtime.py: `_handle_minecraft_event`.
use minecraft_server_manager.Prelude.{
  false, Option, none, some, List, [], ◌∷◌, ◌++◌, Text, if◌then◌else◌, codes,
}
use minecraft_server_manager.Core.States.{online, starting, stopping, same_state}
use minecraft_server_manager.Core.LogLine.{error}
use minecraft_server_manager.Runtime.Server.Model.{
  Message, Players, Published, Runtime, start_complete, suggested_fix,
}
use minecraft_server_manager.Runtime.Server.Console.{Action, Done, ok, emit, set_state}
use minecraft_server_manager.Runtime.Server.Players.{join, leave, remember_uuid, replace_list}

-- The events that core/patterns.py reads from a line. A missing name or UUID is `none`.
pub data MinecraftEvent : Type 0 where
  server_ready server_stopping : MinecraftEvent
  player_join player_leave : Option Text → MinecraftEvent
  player_uuid : Option Text → Option Text → MinecraftEvent
  player_list : List Text → MinecraftEvent
  fatal : Option Text → Option Text → MinecraftEvent

abbrev pub publish_all : (Players → Players × List Published) → Runtime → Runtime
publish_all f r =
    let (p, published) = f r.players in
    record r { players = p; published = r.published ++ published }

abbrev pub or_empty : Option Text → Text
or_empty none = []
or_empty (some text) = text

abbrev pub suggest : Option Text → Runtime → Runtime
suggest none r = r
suggest (some []) r = r
suggest (some (c ∷ cs)) r = emit (suggested_fix (c ∷ cs)) error r

unfoldable pub handle_event : MinecraftEvent → Action Done
unfolding same_state emit join leave remember_uuid replace_list
handle_event server_ready r =
    if same_state r.state starting
    then set_state online start_complete (record r { readiness_task = false })
    else (ok tt, r)
handle_event server_stopping r =
    if same_state r.state online then set_state stopping Message.stopping r else (ok tt, r)
handle_event (player_join (some (c ∷ cs))) r = (ok tt, publish_all (join (c ∷ cs)) r)
handle_event (player_leave (some (c ∷ cs))) r = (ok tt, publish_all (leave (c ∷ cs)) r)
handle_event (player_uuid (some (c ∷ cs)) (some (d ∷ ds))) r =
    (ok tt, record r { players = remember_uuid (c ∷ cs) (d ∷ ds) r.players })
handle_event (player_list names) r = (ok tt, publish_all (replace_list names) r)
handle_event (fatal cause remediation) r = (
  ok tt,
  suggest remediation (record r {
    last_error = some (record {
      code = codes "SERVER_FATAL";
      cause = or_empty cause;
      remediation = or_empty remediation;
    });
  }),
)
handle_event _ r = (ok tt, r)
