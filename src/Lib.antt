-- ===== src/Lib.antt =====
-- TeamChat API: rooms, invites, messages, direct messages and accounts of a chat server, over MongoDB
-- (Mongoose) and Redis.
--
-- How the program is put together. Express routes (src/routes) run middleware (src/middleware) and then
-- a controller, which calls a service (src/services). Services read and write documents of three
-- collections (src/models) and keys of Redis: caches, counters, and one-time tokens. Errors are thrown
-- (src/errors/AppError.js) and become responses. Mails are jobs of a queue, taken by a worker
-- (src/workers). Clients that hold a socket (src/socket) get the news of their rooms; who is connected is
-- in a map of the process and in sorted sets of Redis.
--
-- How it is modelled. An async function is an `Action`: it takes the state of the world and returns a
-- result or an error, with the state that it leaves; what was written before a throw stays written.
-- MongoDB, Redis, bcrypt, JWT and the random generators are not part of the repository. The stores and
-- the two libraries are the instance argument `Backend`, records of the calls that the code makes with
-- their documented behaviour as laws; ids, tokens and salts that are made by a generator are arguments.
-- Demo.antt gives an instance, on which tests and witnesses run. A request runs to its end before the
-- next begins, except in the files named Race and in Rooms/Overlap.antt.
--
--   Action.antt, Errors.antt   results; src/errors/AppError.js. A name that is not imported where it is
--                              used is the error `reference_error`.
--   Models/                    src/models: Room.js, Message.js, User.js. ObjectIds are numbers, times are
--                              milliseconds, a text whose length matters is its list of UTF-16 units.
--   Backend/Keys.antt          the key templates of Redis and the values stored under them.
--   Backend/Commands.antt      the interface `Redis`: GET, GETDEL, SET with and without EX, DEL, INCR,
--                              EXPIRE, SCAN, at a time.
--   Backend/Documents.antt     the interface `Collection`.
--   Backend/Recent.antt        the order that a query sorted by time answers in.
--   Backend/Sets.antt          the interface `SortedSets`: ZADD, ZREM, ZREMRANGEBYSCORE, EXPIRE.
--   Backend/Memory.antt, Backend/MemorySets.antt
--                              the interfaces in memory.
--   World.antt                 the interface `Crypto`, the setters of schemas, the state `World`, and the calls as actions.
--   Text.antt                  String.prototype.trim, and the count of code points that [...s] makes.
--   Paginate.antt              src/utils/paginate.js; bounds in Paginate/Bounds.antt.
--   Members.antt               the array `members` of a room, as the services read and change it.
--   Rooms.antt                 src/services/roomService.js: create_room is createRoom, list_rooms
--                              listRooms, get_room_by_id getRoomById, join_room joinRoom, leave_room
--                              leaveRoom, create_invite createInvite, join_via_invite joinViaInvite,
--                              kick_member kickMember, set_member_role setMemberRole, delete_room
--                              deleteRoom; fill_cache is the end of getRoomById. Rooms/Roster.antt is
--                              listMembers; Rooms/Calls.antt runs sequences of the calls; Rooms/Race.antt
--                              lets cached reads overlap with them, and Rooms/Overlap.antt requests that
--                              have loaded a room;
--                              Rooms/Matrix.antt and the files beneath it see the rooms as the matrix of who
--                              has which role where, and the calls as moves of it; the other files are about
--                              roles, the heir of a room, the invariant, the clock, the cache, the listing,
--                              invites, authority, access and deletion.
--   Auth.antt, Auth/Reset.antt src/services/authService.js and src/utils/tokens.js, function by function
--                              under the same names; Auth/Sessions.antt is about refresh tokens,
--                              Auth/Lockout.antt and Auth/Lockout/Recovery.antt about logins, Auth/Mails.antt
--                              about mails, Auth/Apart.antt and Auth/Refusals.antt about what the HTTP
--                              limiter has to do with them, Auth/Race.antt about two registrations at a time.
--   Messages.antt              src/services/messageService.js; Messages/ReactionMap.antt is the map of
--                              reactions under $addToSet and $pull; Messages/Pages.antt follows cursors.
--   Users.antt, Dm.antt        src/services/userService.js and dmService.js; Dm/Pairs.antt,
--                              Dm/Departure.antt and Dm/Race.antt are about opening a DM, again after leaving
--                              it, and by both users at a time.
--   Unread.antt, Receipts.antt src/services/unreadService.js and readReceiptService.js.
--   Middleware.antt            src/middleware/authenticate.js, requireVerified.js, requireMember.js,
--                              requireRoomRole.js, and the chains of src/routes/rooms.js.
--   RateLimiter.antt           src/middleware/rateLimiter.js; RateLimiter/Window.antt is about a window.
--   MessageLimit.antt          src/socket/rateLimiter.js; beneath it a window as a count of attempts, and
--                              the log of all attempts that it is compared with.
--   Presence.antt              src/services/presenceService.js; `tick` is a run of
--                              src/jobs/presenceEvictionJob.js; Presence/Eviction.antt is about it.
--   Server.antt                the state of the socket server: `user_sockets` is the map userSockets of
--                              src/socket/index.js, `channels` the calls of join, `emitted` the emissions in
--                              their order; and `safe` of src/socket/messageHandlers.js.
--   Server/Messages.antt       src/socket/messageHandlers.js; Wrapped.antt, Answers.antt and Sending.antt
--                              beneath it are about `safe`, the answer to a request and a new message.
--   Server/Typing.antt, Server/Reading.antt
--                              src/socket/typingHandlers.js and readReceiptHandlers.js; Server/Quiet.antt
--                              is about what these handlers leave alone.
--   Server/Connections.antt    src/middleware/socketAuthenticate.js, which throws for every socket, and the
--                              handlers of connection and disconnect in src/socket/index.js, for sockets that
--                              have their claims; beneath it Tabs.antt is about the map, Open.antt about the
--                              open connections, Online.antt about each handler, Runs.antt about runs of all
--                              handlers, Shown.antt about how long a user is shown, Hearing.antt
--                              about the channels that a socket joins.
--   Http.antt                  src/utils/ApiResponse.js and src/middleware/errorHandler.js.
--   Http/                      src/controllers: AuthController, RoomController (with
--                              presenceController.js), MessageController, UserController (with
--                              dmController.js), and the routes of src/routes/auth.js and rooms.js that
--                              lead to them.
--   Http/RoomsRouter.antt, Http/UsersRouter.antt, Http/AuthRouter.antt
--                              src/routes/rooms.js, users.js, dm.js and auth.js: from a request to its
--                              middleware and handler; Http/RoomsRouter/Access.antt is about who gets
--                              through, Http/AuthRouter/Limited.antt about how many,
--                              on the guards of Http/AuthController/Guards.antt.
--   Http/HealthController.antt, Http/App.antt
--                              src/controllers/healthController.js; the end of src/app.js and
--                              src/middleware/correlationId.js.
--   Http/Mounts.antt           src/app.js: all routers together, with the error handler. Beneath it,
--                              Anonymous.antt is about requests without a token and Runs.antt about
--                              the rooms after requests and events of sockets in any order, and
--                              Hearing.antt about who hears a message then; the files
--                              called Confined.antt follow the operations of the accounts and the
--                              users, Http/RoomsRouter/Effects.antt and Channels.antt the routes of the
--                              rooms, and
--                              Server/Connections/Apart.antt the connections.
--   Worker.antt                src/workers/emailWorker.js and src/utils/email.js; beneath it the ways of a
--                              mail's token.
--   Prelude/, Tests/           shared names and lemmas; witnesses.
--
-- Fuel. The SCAN loop of invalidateAllRefreshTokens is the only loop that the data does not bound. It
-- takes fuel, and the length of the iteration, which Redis promises to be finite, is enough. All other
-- loops are structural.
--
-- Not modelled: failures of the stores; delivery of what is emitted, by Socket.IO and its Redis adapter;
-- the timers of jobs; the way Express matches paths. The dashboard of the mail queue and Swagger's pages
-- are other packages' routers, and parameters, as is what MongoDB and Mongoose make of a path of reactions
-- with a dot, a dollar sign or U+0000 in the emoji. Requests are not interleaved within a handler, but
-- for reads of the room cache, requests that have loaded a room to change its members or delete it, and
-- the creation of a DM or an account after its lookup; the version by which Mongoose refuses a save is
-- not kept, and any save may fail. Logging, configuration, the OpenAPI text, the seed data and the start
-- of the process have no model.
pub mod Prelude
pub mod Errors
pub mod Action
pub mod Models
pub mod Backend
pub mod World
pub mod Paginate
pub mod Unread
pub mod Receipts
pub mod Members
pub mod Rooms
pub mod Text
pub mod Messages
pub mod Users
pub mod Auth
pub mod Middleware
pub mod RateLimiter
pub mod MessageLimit
pub mod Presence
pub mod Dm
pub mod Server
pub mod Http
pub mod Worker
pub mod Demo
pub mod Tests
