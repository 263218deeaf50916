-- ===== src/Lib.antt =====
-- Drisp CLI (the package `athena-flow-cli`): a terminal front end for coding agents. It runs an agent
-- harness (Claude Code or Codex), answers its hooks, repeats its turns as a workflow, and connects
-- running sessions to chat channels through a gateway daemon. This library models the core of eight
-- of its parts.
--
-- Gateway (src/gateway). An adapter hands a chat message to the dispatch pipeline. The pipeline looks
-- for a live runtime in the slot of the message's attachment: there it parks the turn in the session
-- registry and pushes it, else it keeps the message in the inbound queue until a runtime registers.
-- The runtime's completion is sent to the place that was parked with the turn, by the outbound
-- dispatcher, which keeps a failed send in the outbox and tries again. Permission requests and
-- questions of a session are raced over the channels by the relay.
--   Gateway/BindingStore       src/gateway/runtimeBindingStore.ts: bind, unbind,
--                              notifyConnectionClosed, expireStaleBinding and the reads
--   Gateway/SessionRegistry    src/gateway/sessionRegistry.ts: beginDispatch, completeDispatch,
--                              clearDispatchesFor and the counts
--   Gateway/SessionKey         src/gateway/router/sessionKey.ts: deriveSessionKey
--   Gateway/InboundQueue       src/gateway/state/inboundQueue.ts: enqueue, drain
--   Gateway/Outbox             src/gateway/state/outbox.ts: enqueue, peekDue, delete, recordFailure
--   Gateway/OutboundDispatcher src/gateway/outboundDispatcher.ts: dispatch, drain, attempt, backoffFor
--   Gateway/Pipeline           src/gateway/dispatchPipeline.ts: handleInbound, registerRuntime,
--                              unregisterRuntime, notifyConnectionClosed; in Pipeline/Completion
--                              handleTurnComplete and handleRunEvent; composed of the six above
--   Gateway/Relay/Pending      src/gateway/relay/pendingRegistry.ts: inspect, register, settle, cancel,
--                              disposeAll
--   Gateway/Relay              src/gateway/relay/coordinator.ts: requestPermission, requestQuestion,
--                              broadcast
--   Gateway/Reconcile          src/gateway/channelReconcilePlan.ts: planChannelReconciliation,
--                              pathIdFromSidecarPath
--   Gateway/ChannelManager     src/gateway/channelManager.ts: register, unregister, stop, send, the window
--                              of recent messages, and the reads
--   Gateway/Reconciler         src/gateway/channelSidecarReconciler.ts: reconcile and its actions, which
--                              carry the plan out on the channel manager
--   Gateway/DaemonArgs         src/gateway/entryArgs.ts: parseGatewayDaemonArgs
-- Controller (src/core/controller). `handleEvent` decides a hook event by the rules over tools, or
-- leaves it to the user.
--   Controller                 src/core/controller/rules.ts, permission.ts and runtimeController.ts
-- Feed (src/core/feed). The mapper turns the events of a harness into numbered events of runs. A
-- decision that arrives later is brought back to the event that asked for it, and the output of a tool
-- to the event that began it.
--   Feed/RunLifecycle          src/core/feed/internals/runLifecycle.ts: the counters and the runs;
--                              Boundary: closeRunIntoEvent, beginRun, and makeEvent of
--                              src/core/feed/mapper.ts; Resume: restoreFrom
--   Feed/ToolCorrelation       src/core/feed/internals/toolCorrelation.ts
--   Feed/DecisionCorrelation   src/core/feed/internals/decisionCorrelation.ts
--   Feed/Store                 src/core/feed/feedStore.ts, and buildPostByToolUseId of
--                              src/core/feed/items.ts
--   Feed/Tasks                 src/core/feed/internals/taskStateTracker.ts, taskLifecycleTracker.ts and
--                              rootPlanTracker.ts
--   Feed/Subagents             src/core/feed/internals/subagentLifecycle.ts, subagentTracker.ts, and
--                              ActorRegistry of src/core/feed/entities.ts
-- Workflow (src/core/workflows). The runner starts turn after turn until the tracker file says that
-- the work is done or blocked, a turn fails, the limit is reached, or the run is cancelled.
--   Workflow                   src/core/workflows/loopManager.ts (getState) and sessionPlan.ts
--                              (shouldContinueWorkflowRun)
--   Workflow/Runner            src/core/workflows/workflowRunner.ts (createWorkflowRunner, mergeTokens)
--                              and sessionPlan.ts (createWorkflowRunState)
-- Harness (src/harnesses). The output of a Claude process arrives in chunks, which are cut into lines.
--   Harness/LineParser         src/harnesses/claude/runtime/boundedLineParser.ts
--   Harness/Tokens             src/harnesses/claude/process/tokenAccumulator.ts
-- Channels (src/app/channels). The bridge of a session connects it to the gateway, registers again when
-- the connection is lost, and hands the turns that are pushed to it to the session's handlers.
--   Channels/Bridge            src/app/channels/sessionBridge.ts: start, stop, onTurnDispatch, the loop of
--                              kickReconnect, and requestWithReconnect
-- Dashboard (src/app/dashboard). An assignment of the dashboard waits until the daemon is ready, and is
-- then run or refused; a decision of the dashboard waits in a table for its run.
--   Dashboard/AssignmentIntake src/app/dashboard/dashboardAssignmentIntake.ts, and
--                              validateDashboardAssignment of remoteRunExecutor.ts beside it
--   Dashboard/PairedExecution  src/app/dashboard/dashboardPairedExecution.ts: admitAssignment, cancelRun,
--                              rejectAssignment, the end of a run, stop and the reads
--   Dashboard/DecisionInbox    src/app/dashboard/dashboardDecisionInbox.ts: enqueue, pendingForSession,
--                              markConsumed
-- Shell (src/app/shell). The view of a session reduces the actions of the keyboard on a state that is
-- fitted to the layout first.
--   Shell/UiState              src/app/shell/sessionUiState.ts: the types
--   Shell/Scroll               clamp, computeScrollState, computeFeedState, computeMessageState,
--                              resolveTodoScroll and the ends of the panes
--   Shell/Resolve              resolveSessionUiState
--   Shell/Reduce               reduceSessionUiState, every action
-- Common holds what the parts share: Boolean tests, lists, dictionaries in the order of insertion
-- (JavaScript's Map), sorting, and text as code units. In each part the file named for it has the
-- definitions and its children have the proofs; `Tests` applies the theorems to sample data.
--
-- How the code is modelled. An object with state is a record, and a method takes it and returns it.
-- The time is an argument, read once in each handler. Numbers of the source that count or measure
-- time are natural numbers; a difference of times is an integer. What the source calls back,
-- throws or logs to an observer is returned. Handles of pushes, timers, promises and abort controllers
-- are numbers, and a timer runs out by a call of its own, so that timers, answers and requests
-- come in any order. The SQLite tables are lists of rows with their AUTOINCREMENT counter, whose
-- payload column holds the message itself. What a channel answers to a send, the turns of a harness
-- and the content of the tracker file are arguments. The agent resolver, the id source, and the JSON
-- text of a run event are parameters, and so are JSON.parse, Number, and what the feed's collaborators
-- keep for a run. An exception is a value. A run id is the pair of its session and its number. Every
-- loop is structural, over a list of rows, entries, rounds, arguments or bytes; no fuel is needed.
--
-- Not modelled: logs and traces; calls that interleave with the awaits of one drain or of one
-- reconciliation; the interval timer of the dispatcher; attachments of messages; the prompts of a
-- workflow, the creation of its tracker file and the reason that is cut from a blocked line; the
-- projections and the timeline of the feed; single requests of the session bridge and the jitter of
-- its delays, and starts of it that overlap; the sockets, publishers and the executor of the
-- dashboard; the commands, the channel adapters and the daemon around the pipeline; the decoding of
-- UTF-8; the harness processes; the terminal interface.
pub mod Channels
pub mod Common
pub mod Controller
pub mod Dashboard
pub mod Feed
pub mod Gateway
pub mod Harness
pub mod Shell
pub mod Workflow
