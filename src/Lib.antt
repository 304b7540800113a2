-- ===== src/Lib.antt =====
-- realtime-game-backend: a server for two-player real-time games, in three processes. The gateway
-- (src/gateway) talks to the players; the match service (src/match) lines them up, pairs them and asks
-- the room service for a room; the room service (src/room) runs the games frame by frame, keeps their
-- history for players who reconnect, and stores snapshots and results. This library models the parts
-- that decide: the battle rooms, their manager, the match queue, and the gateway's event streams,
-- sessions and answers.
--
-- Which file models what:
--   Room/Types      src/room/room_types.hpp: constants, phases, snapshots, records.
--   Room/Battle     src/room/battle_room.{hpp,cpp}. The record BattleRoom has the private fields of the
--                   class under their names; State has the constructor, RestoreFrom, Finish, Abort;
--                   Commands has Join, SubmitInput, SetPresence; Frames has Tick and AdvanceOneFrame;
--                   Results has Result, MarkResult*, IsExpired and SnapshotsAfter. Calls makes a call
--                   a value, and runs lists of them. The other children hold proofs and are named for
--                   what they prove.
--   Room/Manager    src/room/room_manager.{hpp,cpp}: State has the tables and the requests, Ticking
--                   has Tick, the stores and the shutdown, Queries the read-only calls, Restart has
--                   Restore and RejectSnapshots, Restored what a restart needs of the stored rows.
--                   Steps is the relation of locked blocks.
--   Room/Snapshots  src/room/room_snapshot_reader.cpp: parsing and validation of stored rooms.
--   Room/Recovery   what these three parts make of a room that survives a restart.
--   Match/Queue     src/match/match_queue.{hpp,cpp}, and the entries of match_queue_store.hpp: State
--                   has the fields, Requests has SweepLocked and the locked blocks of Enqueue and
--                   Cancel, Pairing has TakePairGroupsLocked and CommitGroupLocked, Saving has the
--                   snapshot and its schedule, Restart has Restore, Rounds composes them into the
--                   public calls. System is the relation of locked blocks; the other children
--                   hold proofs.
--   Match/Store     src/match/match_queue_store.cpp: Codec has the text of a line and its parser.
--   Gateway/Client  src/gateway/room_client.hpp and event_sink.hpp: what the event streams call.
--   Gateway/Events  the event texts of src/gateway/stream_hub.cpp; its children read them as a client does.
--   Gateway/Stream  src/gateway/stream_hub.{hpp,cpp}. State has the table, Subscribe and Unsubscribe,
--                   Closing has CloseAll and the counters, Push has TickRoom, Backfill has
--                   BackfillSubscription, and Collect, Commit and Tick the phases of Tick. Steps is the relation of locked blocks,
--                   Refinement a table of rows that those blocks implement; the other children
--                   hold proofs.
--   Gateway/Requests  src/gateway/gateway_service.cpp: LastEventId has the header of a client that comes back,
--                   Failures (with error.cpp) the answers to failed calls, Sessions logging in and out
--                   (with in_memory_player_directory.cpp and src/common/token.cpp), and Redis the
--                   creation of a session in redis_session_store.cpp; Handlers has six of the handlers.
--   Base            integers, byte strings, hash tables and lists that all parts share.
--   Examples        the theorems at concrete inputs.
--
-- How state and concurrency are modelled: a method is a function from the state before to the state
-- after, with its results. All servers take a mutex for short blocks and let it go for calls of other
-- services, so concurrent behaviour is a sequence of locked blocks: a step relation whose steps are
-- those blocks, with any arguments and any answers of the services, and statements about every state
-- that steps lead to. The match queue's groups between taking and commit are part of that state.
--
-- Numbers: int32_t and int64_t are integers without bounds; the bounds of hit points and frames are
-- among the results, and clocks in milliseconds stay far from 2^63. TotalFramesAdvanced keeps its
-- wrap-around at 2^64. Strings are lists of bytes.
--
-- Loops are recursions on the list they walk. TakePairGroupsLocked has fuel, the length of the line, of
-- which each round takes two players; that this is enough is among the results. The frames of a tick
-- are counted before the loop, as in the source.
--
-- Parameters: the stores of results and snapshots and their readers, the allocator of rooms, and the
-- generators of room and match ids. Nothing is supposed of them but, for the tables of the manager,
-- that a new room id is not in use, and, for the rooms after a restart, that the stored rows which the
-- reader accepts are sound (IsSound of Room/Manager/Restored), which the reader tests in part only. The
-- event streams act on a world, any type with functions for the sinks, the clock and the room client;
-- theorems about a round of Tick take it at a stretch. The store of sessions, the commands of Redis and
-- the hash of passwords are parameters too.
--
-- Not modelled: logging, metrics of elapsed time, the start and stop of threads, and RPC, MySQL, Redis
-- and HTTP glue; of the gateway's handlers GetMatchResult, GetCurrentPlayer and StreamEvents.
pub mod Base
pub mod Room
pub mod Match
pub mod Gateway
pub mod Examples
