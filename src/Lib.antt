-- ===== src/Lib.antt =====
-- Minecraft Server Manager (MSM): a model of the backend in backend/msm, and what is proved of it.
--
-- MSM drives Minecraft servers as child processes. Each server has a runtime (runtime/
-- server_runtime.py) that starts, stops, supervises, restarts and adopts one process, numbers its
-- console lines (runtime/log_pipeline.py), keeps the last ones (runtime/ring_buffer.py) and publishes
-- what happens on a bus (bus/event_bus.py). WebSocket connections (ws/connection.py) subscribe to
-- topics of the bus and forward events to browsers. The decisions stand apart, as pure code in core/.
-- Console commands (core/commands.py, core/danger.py) come from browsers, from the steps of events
-- (events/engine.py), which schedules (schedule/rules.py) or users start, and from hot backups
-- (backup/hot.py); services/hosting_service.py limits what the accounts' servers may use.
--
-- Files, and the code that each one is about:
--   Prelude          numbers, lists, texts (lists of code points), dicts; no code of MSM
--   Core/States      core/states.py: the states of a server and the table of legal changes
--   Core/Restart     core/restart_policy.py: evaluate, compute_delay, is_stable
--   Core/Permissions core/permissions.py: roles and the permissions that they give
--   Core/LogLine     core/log_line.py: the fields of a console line
--   Core/Commands    core/commands.py: sanitize_command, command_verb, the validations and builders
--   Core/Danger      core/danger.py: classify and the two tests of a confirmation
--   Runtime/RingBuffer  runtime/ring_buffer.py: RingBuffer, every method
--   Runtime/Pipeline    runtime/log_pipeline.py: LogPipeline, up to its callbacks
--   Runtime/Server      runtime/server_runtime.py: ServerRuntime. Model is its state; Console its
--                       output and _set_state; Players and Events are _handle_minecraft_event; Start
--                       and Stop are the methods and the tasks, cut at their waits; Steps lists every
--                       input that can arrive between two waits and what handles it
--   Runtime/Command     runtime/server_runtime.py: send_command, with the echo of log_pipeline.py
--   Runtime/ProcessHandle  runtime/process_handle.py: write_line and stop
--   Bus              bus/event_bus.py and bus/topics.py
--   Ws               ws/connection.py and ws/messages.py: the flush of a batch; Ws/Dialogue: the
--                    messages of a client and the backlog; Ws/Interleaved: the two together
--   Security/RateLimit  security/ratelimit.py
--   Security/Access  security/rbac.py and security/access.py
--   LauncherSync     Manifest is launcher_sync/manifest.py (Json its documents), Plan is plan.py, Disk
--                    is disk.py, Download is remote.py's download; State, Service and Service/Sync are
--                    run_sync and what it calls in services/launcher_service.py, Service/Pending is
--                    apply_pending
--   Backup/Hot       backup/hot.py: _command_and_wait, frozen_world, _restore
--   Services/Hosting services/hosting_service.py: Quota.from_dict, the checks, allocate_port,
--                    enforce_properties
--   Services/Members services/member_service.py: share and remove
--   Schedule/Rules   schedule/rules.py: parse_rule and to_dict; Schedule/Occurrences: next_occurrence
--   Events/Engine    events/engine.py: parse_steps and EventRunner.run
--   Events/Actions   events/actions.py: validate and execute of the built-in actions
--   Minecraft/Properties  minecraft/properties.py: the lines, validate_value and apply_changes
-- The other modules below these hold the proofs, and the modules Tests the concrete runs.
--
-- How the code is read. An object is a record, a method a function from the record to the new one;
-- an exception is a value, and what was changed before it stays changed. In Runtime/Server a
-- coroutine is cut at each await: the field `phase` says where the holder of the runtime's lock
-- waits, `supervision` where its supervising task does, and an input of Steps is one piece of code
-- between two awaits, so that a list of inputs is any interleaving that asyncio allows. A due
-- restart is the input that clears the pending task, followed by a call of start. A call of start,
-- stop or kill is handled when the lock is free, where the code waits for it. The short wait for the
-- end of the log tailer or of a cancelled task, inside one of these pieces, is not a cut. The flush
-- of a WebSocket batch takes as arguments what is done with the client's messages at each of its
-- awaits. A restart that is cancelled does not print its line, and the lines that a launch prints
-- before its wait stand with those after it. In the other modules an operation is read as one piece;
-- the write to a process and its drain are one answer. What processes, the file system and the
-- database answer are arguments of the functions that ask; a regular expression is a parameter, or a
-- function on the text where the model needs its meaning. No fuel is used: loops are recursion on
-- the list or the range of numbers that they go through, such as the nine days that next_occurrence
-- tries.
--
-- Bounds and simplifications. Durations and times are whole numbers of one unit, in
-- Security/RateLimit microseconds; the backoff factor is a whole number (the program only uses 2).
-- Identifiers and limits are natural numbers. Messages are data in the state and become text by a
-- parameter, so their wording is not modelled, nor are time stamps, statistics and the program's own
-- logs. int() of a topic's part reads ASCII digits. Instants of the schedules are microseconds, and
-- the conversions of a time zone are parameters, as are casefold, upper, lower, the test of a word
-- character and the comparison of characters without case. The adoption of a surviving process is an
-- input of a runtime that nothing has happened to yet, which is when services/server_service.py
-- calls it; what a raw console line means (core/patterns.py) is an input.
--
-- Not modelled: the HTTP interface, the database, most services, downloads, archives,
-- provisioning, the other files of Minecraft, launchers and the process backends, which are input and
-- output or stand outside this model; the statistics task of the runtime,
-- the loops of a connection; commands with floating-point coordinates.
pub mod Prelude
pub mod Core
pub mod Runtime
pub mod Bus
pub mod Ws
pub mod Security
pub mod LauncherSync
pub mod Backup
pub mod Services
pub mod Schedule
pub mod Events
pub mod Minecraft
