-- ===== src/Lib.antt =====
-- Verification of foya, a local agent runtime written in Go.
--
-- The kernel (internal/kernel) takes messages for sessions, queues them and runs one turn of a session
-- at a time in the agent engine (internal/agent). A turn calls tools (internal/tool), which ask for
-- approval (internal/interaction), whose results are cut to size before the model reads them, and
-- which may start child agents (internal/subagent).
-- Messages, queues and sessions are internal/conversation.
--
--   Prelude       lists, texts, decimals, integers, maps, results: what the components share.
--   Conversation  Compaction: budgets and excerpts of internal/conversation/compaction.go. Of the same
--                 file, Cuts has atomicGroups, safePrefixCut and planBoundary, Checkpoint validCheckpoint
--                 and ProjectForRoute, and Planner BuildPlanWithOptions; the segments of a checkpoint are
--                 of internal/conversation/hierarchy.go.
--                 Message: the input of a turn and the queued message
--                 (internal/conversation/message.go, queue.go).
--   Kernel        Turns: `turnScheduler` of internal/kernel/queue.go. Submit has SubmitInput and
--                 EnqueueInput, Edit has List-, Update- and DeleteQueuedMessage, Control has
--                 DispatchQueuedMessage, cancelCurrentTurn, CompactSession, stopSessionAndWait and
--                 runTurnLoop. Valid, Steps, Ends and Stops hold the invariant, Runs the sequences of
--                 handlers, Order, Fifo and Dispatch the order of the inputs.
--   Agent         LoopGuard: internal/agent/loopguard.go.
--   Subagent      Manager: internal/subagent/manager.go, subagent.go and Spawn of execution.go. A run
--                 is a goroutine in runAsync, whose steps are operations; a call of Spawn takes and
--                 gives a slot without a run. Counts, Slots and Spawns hold the invariant of the two
--                 counters, Runs the sequences of steps, Bounds, Children and Statuses what follows
--                 for the limits, the runs of a root and the states of the runs, Changes and Finals what
--                 becomes of one run. Usage has the calls that cancel, the charge of tokens, which
--                 wraps around at 2 ^ 64, and the limits.
--   Interaction   Approval: internal/interaction/approval.go. Question: question.go beside it.
--   Broker        internal/broker/broker.go, the event bus. Sends holds the invariant, Closed the
--                 sequences of steps.
--   Channel       Pairings: internal/channel/pairings.go, codes that bind a chat to a session; Aging has
--                 what expiry leaves, Later and Calls what any later calls leave.
--   Workflow      internal/workflow/workflow.go. Changes has the operations on the records, Specs the
--                 documents of a spec and the marks of its tasks, Specs.Submit SubmitSpec and
--                 SyncSpecTaskProgress. Valid and Kept hold the invariant, Runs the sequences of calls,
--                 where the two locks of CompleteActive are separate.
--   Tool          Diff: `UnifiedDiff` of internal/tool/diff.go; Truncate: internal/tool/truncate.go.
--
-- A handler of the scheduler is a function of its state. One function is what happens between one
-- `mu.Lock` and its `Unlock` and what the same goroutine does right after; the goroutines that run a
-- turn are part of the state, and any order of the critical sections is a list of operations. Calls of
-- the engine and of the event log are recorded as effects, latest first. Identifiers and times are
-- arguments. A map is an association list whose lookup takes the first entry, a string is the list of
-- its code points, in Tool of its bytes. Go's ints that count are natural numbers, and where a test
-- on a negative number matters the number is an integer. A loop is a structural recursion; the one of
-- atomicGroups, which takes several messages at once, has the number of messages as its fuel, as each
-- turn takes at least one. The loop of uniqueDirectory, which ends only if a folder is free, takes the
-- number of turns as its fuel, and a call of it may have no result. The steps of PublishMustDeliver
-- take one send at a time, so that other calls may come between.
--
-- Not modelled: what SubmitInput and EnqueueInput check before they take the lock, RewindTurn, the
-- engine, telemetry, notification handlers, the waits with a timeout, the other packages of internal,
-- the command, the applications and the deployment. JSON and SHA-256, which the loop guard and the
-- checkpoints use, are parameters, as are the hook and the reviewer of an approval, and of a plan the
-- token estimate and the shortening of old tool results. Path functions, letters and lower case are
-- parameters of the workflows, whose artifact files and policies are not modelled. The database that
-- keeps the bindings of channels is a parameter of the pairings.
pub mod Agent
pub mod Broker
pub mod Channel
pub mod Conversation
pub mod Interaction
pub mod Kernel
pub mod Prelude
pub mod Subagent
pub mod Tool
pub mod Workflow
