-- ===== src/Lib.antt =====
-- ZQim, an instant-messaging server in Go. Clients hold a TCP connection to a connection server
-- (comit); a web server (logic) serves accounts, friends and groups over HTTP. The modules model:
--   Prelude      shared names, lists, maps (a Go map is an association list)
--   Frame        comit/fxsrv/request.go, unpack and read of comit/fxsrv/connect.go: GetBytes is
--                get_bytes, unpack is unpack, one round of its loop is round
--   Conn         the rest of comit/fxsrv/connect.go, contex.go, handles/pinghandle.go; Conn.Race is Write
--                and Close from several goroutines, one access at a time
--   Heap         MinHeap of comit/manage/ackmessage.go over Go's container/heap
--   Services     comit/config/config.go, ComitManages of comit/manage/comits.go, the messages, and the
--                services (protobuf, redis, databases, jwt) that the handlers take as parameters
--   Cache        comit/rediscache
--   Chat, Acks   comit/handles/chathandle.go
--   Rpc          comit/grpcserver/server.go
--   Auth         comit/handles/authhandle.go, middlehandles/authmiddle.go, CloseHandle of router/router.go
--   Pull         comit/handles/pullmessage.go
--   Route        AddRouter, AddMiddleware, routesRun of comit/fxsrv, setRouter of comit/router/router.go
--   Serve        Run of comit/fxsrv/server.go: the connections, their read loops and the pool's goroutines
--                around Frame, Route and Auth
--   Registry     comit/registrationDiscovery/registry.go, comit/manage/comits.go
--   Balance      logic/service/comitService.go; Balance.Sync is registryDiscoverService.go beside it
--   Etcd         the registration: Init, Registry, Less of registry.go, comit/main.go, and the keys that
--                both GetConfig read
--   Pool         comit/fxsrv/workpool.go
--   Sql          gorm over the tables of logic/models, as parameters with named properties
--   Modle        comit/modle/friends.go, groupchat.go; Web.Shared ties both servers to one store
--   Web          the web server's state, logic/utils/error.go, logic/config/redis.go
--   Friends      logic/models/friend.go, notify.go; Friends.Api is controller/friendController.go
--   Groups       logic/models/groupchat.go; Groups.Api is controller/groupController.go
--   Token        logic/pkg/jwt/jwt.go, logic/middleware/authermiddle.go
--   Users        logic/models/user.go, logic/controller/userController.go
--   Http         logic/router/router.go: Http.Table has every route with its controller, and Http.Serve
--                runs one, behind AuthMiddle or not
--   Options      comit/fxsrv/options.go
--   Ack          comit/manage/connectmanage.go and AckMessageManage of ackmessage.go
--   Url          unescapePath, shouldEscape, ishex, unhex of logic/controller/osshandle.go
--   Oss          the rest of osshandle.go: the upload policy and the checks of a callback
-- Bytes, ids and times are native numbers; a result that a machine width can cut is reduced by %.
-- Fuel: unpack_loop gets one round more than the buffer has bytes, and every round that goes on
-- shortens the buffer; up_loop gets the position it starts at, down_loop the distance to the end,
-- and their case without fuel is what the loop's own test gives there; tick_loop makes exactly the
-- rounds that the source counts.
-- A handler gets the address of its connection and returns the state of the server, Sys, with its
-- error. Calls of other servers are recorded in the state; what the other server does with them is
-- Rpc's. Handlers run one at a time, in an order that Serve leaves open. The body of a request is a
-- slice of its connection's buffer, so Serve runs it with what the buffer holds there by then.
-- The table of Registry and Sys.comits are the same Go map; Registry keeps it apart from the handlers.
-- A handler of the web server gets the user id of its token and what ShouldBind made of the request,
-- and returns the state, Web, with its answer; `none` is a panic. A transaction works on a copy of the
-- database that Commit installs; Callback, which the source calls on errors, ends none, and Web counts
-- the ones left open. A row is a list of columns; the models rely on gorm and MySQL as Sql.Laws says.
-- The pool's select statements are steps, whose order is free; in Serve each function of the pool runs
-- in one step, and the write loops, TimeLoop and other servers are events that set the state.
-- The events of a watch carry keys without their prefix. The state of etcd is that of its parameter;
-- a lease that ends is a later state without the entries.
-- Not modelled: the reading of configuration, logging and the opening of databases, which are calls of
-- libraries; generated code; and the client, which is not in Go.
mod Prelude
pub mod Url
pub mod Frame
pub mod Heap
pub mod Conn
pub mod Pool
pub mod Ack
pub mod Services
pub mod Cache
pub mod Chat
pub mod Rpc
pub mod Acks
pub mod Auth
pub mod Pull
pub mod Route
pub mod Serve
pub mod Registry
pub mod Balance
pub mod Options
pub mod Sql
pub mod Modle
pub mod Web
pub mod Friends
pub mod Groups
pub mod Token
pub mod Users
pub mod Oss
pub mod Http
pub mod Etcd
