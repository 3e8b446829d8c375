-- ===== src/Lib.antt =====
-- A verification library for zdxsv, the private server of "Gundam vs. Zeta Gundam" (Go).
--
-- The program. Consoles connect to a lobby (pkg/lobby), meet in lobbies and rooms, and are sent to a
-- battle server (pkg/battle) when a battle starts. There, and between players who run zproxy
-- (src/zproxy), the console's TCP stream travels as numbered messages over UDP (pkg/proto).
--
-- The files.
--   Prelude: Boolean tests, lists, maps and slices that the other modules share.
--   Proto/BattleBuffer: pkg/proto/battlebuf.go, BattleBuffer. Window reads the two slices of the ring,
--     Represents relates the ring to the whole history of messages.
--   Proto/MessageFilter: pkg/proto/battlebuf.go, MessageFilter, and the loop of UDPPeer.OnReceive.
--   Proto/Delivery: one direction of a stream from console to console over a bad network, with the
--     steps of pkg/battle/udp_peer.go and src/zproxy/main.go. Invariant is its safety, Progress its
--     liveness.
--   Proto/FinScanner: pkg/proto/fin.go. Bytes is an automaton that reads byte by byte, Chunks the loop
--     over one read, Stream a whole stream.
--   Model/Rule: pkg/lobby/model/rule.go. Menu holds the menus, Wire the block sent to the console.
--   Message: pkg/lobby/message/message.go. Codec takes messages to bytes and back.
--   Message/Body: the same file, the readers and writers of a body; the Shift JIS coders are parameters.
--     Fields is about whole bodies, Cipher about the encrypted strings and the console's side of them.
--   Message/Dispatch: the buffers of a connection in pkg/lobby/server.go, SendMessage and dispatchLoop.
--     Order is about the bytes of several messages, Ending about the loop's fuel.
--   Battle/Room: pkg/battle/room.go. Members relates the slice of peers to a list of members, History
--     follows a room through its calls.
--   Battle/Rpc: pkg/battle/battlerpc/rpc.go. Battle/Logic: pkg/battle/logic.go; Sound is its invariant,
--     Joining its joins. Rooms are announced by the lobby and peers are behind pointers into a heap.
--   Battle/TcpPeer: pkg/battle/tcp_peer.go, the read loop. Frames is about the loop over one buffer,
--     Reads about several reads.
--   SessionId: pkg/sessionid/sessionid.go, and ParseSessionID. RoundTrip has the game's side.
--   Relay: pkg/lobby/relay.go. Members is about who reaches whom, Sound the relation of bindings and
--     addresses, Binding and Handling that packets keep it.
--   Model/Battle: pkg/lobby/model/battle.go. Places is about the users' places and sides.
--   Model/User, Model/Room, Model/Lobby: the files of these names in pkg/lobby/model. Users are behind
--     pointers into a heap, which rooms and lobbies share.
--   App: pkg/lobby/app.go, App and AppPeer, with what each peer was sent. App/Rooms, App/Lobbies,
--     App/Leaving, App/Start and App/SignIn: the methods of pkg/lobby/app_core.go on rooms, on lobbies and
--     the room after a battle, on the chat and the ways of leaving, on the start of a battle and on the
--     choice of a user. App/Members says who is where: its IsSound is the relation of users, rooms and
--     lobbies; Places and Frames are about single writes, Rooms, Lobbies and Sound about single moves;
--     Enters, Exits, Doors, Leaves, Starts, Queues and Returns are about the methods; History is about
--     all of them, and Gone about what is left after an exit.
--   App/Handlers: the handlers of pkg/lobby/msg_room.go (Rooms), msg_lobby.go and msg_login.go (Lobbies)
--     and msg_battle.go (Battles). Serve is the event of a message in App.Serve. Kept, Answers,
--     RoomAnswers, LobbyAnswers and Answering are about the answers that a peer gets.
--   Spectators: pkg/lobby/spectator.go, SpectatorRegistry; Writes has deliver and write. Delivery is about
--     what one spectator gets, Counts, Bounds, Picks and History about the numbers of spectators.
--
-- State and operations. A struct is a record with the fields of the struct, a method a function to the
-- new record and the result; the methods that lock a mutex hold it throughout, so a call is one step,
-- but for two: Room.Leave unlocks before Clear, and is two steps (Battle/Room, leave and clear), between
-- which others may come; Logic.Join, which takes its locks one after the other, is a single step.
-- Unsigned integers are natural numbers, with the wrap written out (% 65536, % 2 ^ 32). A Go map is a
-- function to Option, or an association list where the code counts it or ranges over it; the order of
-- the list stands for the order of the range. A time is an argument of the call that reads the clock.
-- In App a lobby or room is found by its platform and number, which stand for its pointer; a lobby that
-- no one has used is the new one, which getLobby would make. What a peer is sent is a list of notices
-- and answers for that peer. Outside (the clock, codes, addresses, the battle server), Accounts (the
-- database) and Context (the Shift JIS coders and the rule of the lobby) are parameters.
--
-- Fuel. The loop of FinScanner.scan takes as many rounds as the read has bytes; every round takes one
-- byte at least, so the loop never runs out (Proto/FinScanner/Chunks). The dispatch loop of a lobby
-- connection takes twelve bytes at least with every message (Message/Dispatch/Ending), the loop over
-- frames of Battle/TcpPeer one byte at least with every frame.
--
-- What the network may do. In Proto/Delivery packets are never taken out of the network, so that they
-- may be lost, repeated and reordered. The ring has no check against running full: a write is a step
-- only where the ring has room, and an acknowledgement only where it is not older than the ring.
--
-- Not modelled: the database, the HTTP interfaces, the check of the login key, bans and battle results,
-- the battle info for emulators (a protobuf message) and the other protobuf code, the patches of client
-- memory with the handlers that need them, the checks of silent peers, the bytes of notices, chat bots,
-- DNS and TLS, the timers of the select loops, and the log output.
pub mod Prelude
pub mod Proto
pub mod Model
pub mod Message
pub mod Battle
pub mod SessionId
pub mod Relay
pub mod App
pub mod Spectators
