-- ===== src/Lib.antt =====
-- The server of a chat application: an API server and socket servers, which a router connects.
-- This library models its wire format, the connection to the router, the table of websocket ids,
-- the websocket sessions, the HTTP handlers of relations, chains and authentication, and accounts.
--
-- Parts and files (paths from the repository's root):
-- - Wire: socket/conn_helpers.go and messages/conn_helpers.go, which hold the same text. package_op
--   and byte_to_params_and_payload on bytes; a Go `byte` counter wraps at 256.
-- - Router: socket/socket_client.go and messages/api_client.go. Router.Frame reads a frame
--   (read_tcp), Router.Reader is its loop, with the frames that the socket server hands on to Socket
--   and the API server logs, Router.Heartbeat is the two heartbeat checks as steps over the events
--   of their channels, Router.Recovery the first connection, the recovery of a lost one and the
--   retries of a write. Dialling and writing are arguments: the list of their outcomes.
-- - Socket: socket/socket.go and socket/socket_op.go. The table of ids in 32 shards, with a lock for
--   each, the Go channels with their buffers, and what each operation of the router does; a call
--   returns, panics or waits for ever (where a delivery waits for a full channel, the code holds a
--   read lock of the shard; here the shard is left unlocked, so more calls can follow). The hash and the generated ids are arguments. Socket.Run
--   lets any calls follow each other.
-- - WebSocket: socket/websocket.go. WebSocket.Receiver is the goroutine msg_chan_recv, one function
--   for each message of its channel; WebSocket.Client the read loop of ClientSocket;
--   WebSocket.Auth auth_client; WebSocket.Connect connect_user. They meet in Socket's channels: a
--   session's channel is read by its receiver, written by the router's deliveries and by the client.
-- - Http.Reply: errors/errors.go, helpers/response.helpers.go and the message types of messages/.
--   Http.Store: the table user_relations of server.go behind an interface, Database, whose laws,
--   IsDatabase, are those of CQL's UPDATE; Works says that no write fails. Http.Friends:
--   services/relation.services.go with GetUsernameByID, CheckExistingRelationChain,
--   InsertChainsUsers (without its column `created`) and messages/message.go; Http.Mapper:
--   RelationsMapper of helpers/relation.helpers.go; Http.User: GetAllRelations and Initialize of
--   services/user.services.go; Http.Chain: middlewares/chain.middlewares.go;
--   Http.GetChain: GetChain of helpers/chain.helpers.go and of services/chain.services.go, over the
--   table `chains`, whose queries are an argument with the laws Selects; Http.Audio:
--   services/chain_messages.services.go with SendMessage and ParseParamMessageUUID, MinIO and the writes of `chains` being an
--   argument, Media, with the laws IsMedia and MarksSeen; Http.Audio.Listed and Heard join it to GetChain;
--   Http.Authenticate: middlewares/auth.middlewares.go with ParseJWT of helpers/auth.helpers.go.
-- - Accounts: services/auth.services.go. Accounts.Store has the tables of users of server.go and the
--   two kinds of redis keys behind an interface, Database, with the laws IsDatabase of their
--   queries and writes, a write that fails being applied or not; Works says that none fails.
--   Accounts.Register is Register and ResendVerification, Accounts.Verify VerifyEmail and
--   Accounts.Login Login; Accounts.Tokens GenerateJWT and GenerateAndRefreshTokens, and
--   Accounts.Password DecryptRequestPasswordHash, both of helpers/auth.helpers.go.
--   Accounts.Base64 is the decoder of Go's library, and Prelude.Int its ParseInt. Accounts.Spec
--   says which change of the tables each service may make, whatever its code does; the tables'
--   invariant is proved from that alone. Accounts.Session joins a login to Http.Authenticate.
--
-- Numbers are natural numbers; an integer of w bits that the code lets wrap is taken modulo 2 ^ w.
-- Go's sort is insertion sort, which is stable; the order in which a map is ranged over is an
-- argument. Ids and UUIDs are numbers in Http, and their text in Accounts. Letters are put into
-- lower and upper case as in ASCII.
--
-- Bounds and fuel: Prelude.Decimal prints a number on fuel, one more than the number, which is
-- enough since a number has no more digits than that. The loops of the code that end by an input
-- are recursions on the list of those inputs: the answers of a client, the outcomes of a dial, the
-- generated ids; the case that the list is over is the loop that still waits. Router.Reader's fuel
-- is the number of bytes that arrive, and each frame takes some.
--
-- Not modelled: Go's memory model (a step of the receiver, a call of the table and a write are
-- atomic), JSON, JWT, the database, redis, MinIO and mail, which are arguments or left out; the
-- log files; the heartbeat channel's capacity; a claim that is missing in a token; the expiry of
-- redis' keys; two calls of the account services at once, which are taken one after the other; RSA,
-- AES, GCM, bcrypt and the validator, which are arguments; when a goroutine of GetAudioMessage runs;
-- start-up, routes and configuration.
pub mod Prelude
pub mod Wire
pub mod Router
pub mod Socket
pub mod WebSocket
pub mod Accounts
pub mod Http
pub mod Tests
