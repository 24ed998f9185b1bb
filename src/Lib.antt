-- ===== src/Lib.antt =====
-- The aimebu message bus: rooms, messages, agents and what they show to each other, as the server
-- (internal/server) keeps them in memory; and the refresh of login tokens beside it
-- (internal/usages).
--
-- Parts. `store` (internal/server/store.go) holds rooms, histories, agents, open waits, reactions
-- and preferences; HTTP handlers call its methods, each of which takes the store's lock, changes
-- the state, and afterwards notifies subscribers. Here the store is the record `Types.Store`, each
-- method a function from the store to the store, and the notifications are listed in its field
-- `events`, the latest first.
--   Prelude, Prelude/*     tests, integers, lists, byte strings, association lists, sets as lists.
--   Types                  internal/types/types.go, the store struct, errors, events.
--   Prefs                  store_room_prefs.go: setRoomPref, clearHiddenForRoomLocked, and the
--                          handler that lets only the last member hide a room.
--   Posting                emitSystemMessageFull of store_rooms.go, lookups of store_messages.go;
--                          Posting/Frame: what a message of the system leaves alone.
--   Rooms                  store_rooms.go: createRoom, joinRoom, leaveRoomWithEvent, kickAgents...;
--                          Rooms/Direct: findOrCreateDM; Rooms/Roles: assignRole of roles.go;
--                          Rooms/Valid, Steps, Membership, Leaving: their lemmas; Rooms/Calls: runs
--                          of calls.
--   Messages               reads of store_messages.go; Messages/Expiry: read-time expiry against
--                          filters; Messages/Order: the IDs of a history.
--   Agents                 keepalives of store_agents.go; Agents/Waits: enterWait, leaveWait and
--                          the sockets, Agents/Waits/Counts and Calls: their counters over runs;
--                          Agents/Liveness: setAgentState and a turn of sweepAgentLiveness,
--                          Agents/Liveness/Edges: one agent over time, Agents/Liveness/Rounds: the
--                          sweep over the store and its messages, with Rounds/Silent.
--                          Agents/Names, Register: registerHuman and registerAIWithSession, with
--                          Register/Rules and Identity; Agents/Removal: deregisterAgent,
--                          cleanupStaleAgents, clearAll, with Removal/Rules, Pruning, Clearing;
--                          Agents/Calls: runs of calls on rooms and agents.
--   Reactions, Cursors     addReaction, removeReaction, summarizeReactions; advanceCursor,
--                          agentUnreadSinceCursor, agentRoomViews, POST /agents/{id}/read.
--   Addressing             addressing.go from the mention tokens on: resolveAddressedTokens,
--                          ambiguousMentionTokens, with Addressing/Targets and Groups.
--   Submission, Sending    what a message may carry, of store_helpers.go and resolveAttachments of
--                          store_attachments.go, and roomSendWithVisualPlan: Submission/Bounds,
--                          Sending/Alerts, Rules and Replies are on them.
--   Memory                 memory.go: add, update, remove, clean; Memory/Usage, Replacing, Quota: the
--                          bytes under a cap, over runs of calls; Memory/Versions: concurrent
--                          changes; Memory/Snapshot: what agents are shown, with Snapshot/Seen and
--                          Trimmed; Memory/Recall, Recall/Found: the search through messages.
--   Usages                 internal/usages: Usages/Retry: retry.go, with Retry/Bounds;
--                          Usages/Rotation: when a token is due and how long a failure waits
--                          (target_refresh_last.go, targetProfileDue, targetBackoff), with
--                          Rotation/Gaps; Usages/StateStore: target_refresh_state.go, with
--                          StateStore/Saving; Usages/Schedule: warmup_schedule.go, with
--                          Schedule/Printing and Accepted. The token refresher of
--                          target_refresher.go and target_refresh_run.go: Usages/World: its state
--                          and its arguments; Usages/Commits: commitRotated, finishCommit;
--                          Usages/Refresher: refreshProfile, spend, recoverEntry, with
--                          Refresher/Follows, Commit, Parts: what each part of the protocol leaves
--                          alone; Refresher/Spending, Settled, Runs, Launched, Spent, Recovered,
--                          Gate: how a spent token stays blocked; Refresher/Gap: the time after
--                          a commit; Refresher/Once: runs of calls.
--   Examples, Examples/*   sample stores, tests, and every theorem at a concrete input.
--
-- Conventions. A string is a list of its bytes; lower case and trimming are those of ASCII. A map
-- is an association list, ranged over in the list's order, which stands for any order the code may
-- take. A time is a number of nanoseconds since the epoch, a stored stamp what time.Parse reads off
-- it, with whole seconds; one call reads the clock once. A limit or an ID that the code treats as
-- absent when it is not positive is 0; where negative numbers matter the model has ℤ. IDs and
-- counters are unbounded: an int64 counter that starts at 0 does not wrap within 2^63 messages.
-- An error carries its kind, not its words,
-- and the announcement of a role names it by its key where the code takes its label. `decimal` runs on fuel one above its number, and every
-- step divides the number by ten; all other loops are structural.
--
-- Not modelled: SQLite and files (the state is in memory), the delivery of notifications over
-- channels, HTTP routing and JSON; leaderboards, settings; and the packages around the bus
-- (internal/switcher, internal/credtarget, internal/mcp, cmd/aimebu; of internal/usages the clients
-- of web services, the manager that polls them, paces), which share no state with it.
-- Concurrency is a sequence of whole calls: each method's critical section is one step, and the
-- steps of a run may come from any clients in any order; sending, which takes the lock several
-- times, is one step too, and so is one refresh of a profile, which holds its account's lock.
-- Arguments of the model: canonicalModelSlug at a registration; parseAddressedTo, json.Valid and the
-- random IDs of plan blocks at sending; the drawn IDs of memory records; for the refresher what
-- reads a credential file, the result of the CLI, which saves of the state file and which commits
-- succeed, the point at which the process dies, what a request's client answers, and whether a
-- context is done. Texts are UTF-8 where runes are counted.
mod Prelude
pub mod Types
pub mod Prefs
pub mod Posting
pub mod Rooms
pub mod Messages
pub mod Agents
pub mod Reactions
pub mod Cursors
pub mod Addressing
pub mod Submission
pub mod Sending
pub mod Examples
pub mod Memory
pub mod Usages
