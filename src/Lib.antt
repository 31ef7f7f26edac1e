-- ===== src/Lib.antt =====
-- A verification library for paho.mqtt.golang, the Eclipse Paho MQTT 3.1.1 client in Go: models of its
-- parts, and theorems on what they do.
--
-- The program. An application asks the client (client.go) to connect, publish and subscribe. A call
-- takes a token (token.go) and, where the protocol asks for one, a message id (messageids.go), puts the
-- packet into a store (store.go, with memstore.go, memstore_ordered.go and filestore.go as
-- implementations) where it must survive a lost connection, and hands it to the outgoing loop (net.go),
-- which writes it in the format of packets/. The incoming loop (net.go) reads packets, updates ids,
-- tokens and store, and answers. Arriving messages go to the handlers of the routes that match
-- (router.go, topic.go). On a new connection the client sends again what is in the store. ping.go watches
-- a quiet connection. The connection status (status.go) is shared by all goroutines, and backoff.go
-- spaces the attempts to connect. options.go and message.go hold the settings and make the CONNECT.
--
-- The files.
-- - Base and its children: byte strings, lists over the native numbers, Go maps as association lists
--   (Base.Assoc), bit operations (Base.Bits).
-- - Packets.Codec: decodeByte to encodeLength of packets/packets.go. A reader is a function from the
--   bytes left to a value and the bytes behind it, or an error. Packets.Header: FixedHeader, pack and
--   unpack. Packets.Packet: the structs, NewControlPacket and Details. Packets.Write, Packets.Unpack:
--   the methods of those names, one function for each type. Packets.Read: ReadPacket. Packets.Validate:
--   the method of CONNECT.
-- - Token, MessageIds: tokens are values in a store of objects, and the map of ids holds references.
-- - Topic, Router: strings.Split, the validations, the matching, the list of routes, and the dispatch of
--   a message where the order is kept.
-- - Store: the keys, and persistInbound and persistOutbound over the interface Store, which is a record
--   of operations (Store.StoreOps) with laws (Store.Laws). Store.Memory and Store.Ordered implement it.
-- - Backoff: getBackoffSleepTime, with the clock as an argument.
-- - Status: each section of a method that runs under the lock is a function; Status.System has the calls
--   in progress and their steps in any order.
-- - Net: what the goroutines of a connection share, the record Comms in place of commsFns. Net.Handshake:
--   connectMQTT and verifyCONNACK. Net.Incoming: startIncoming, whose loop is over the bytes that arrive,
--   and startIncomingComms, one function for each branch. Net.Outgoing: startOutgoingComms and ackFunc.
--   A loop with a select is a function over the list of what it takes, in the order it takes it
--   (Arrival, Departure); what a channel receives is a list that grows. Net.Stream, Net.Outgoing.Wire,
--   Net.Exchange, Net.Suback and Net.Invariant are theorems on them.
-- - Options: ClientOptions, NewClientOptions, the plain setters, and newConnectMsgFromOptions of message.go.
-- - Client: the state of a client and its queries. Client.Publish, Client.Subscribe, Client.Resume,
--   Client.Connect: the methods of these names and their kin. The status that an operation reads can
--   change while it runs, so that each read is an argument of its own (Looks). Client.Delivery follows a
--   message through Client.Publish, Net.Outgoing and Net.Incoming. Client.Resume.Unsubscribe and
--   Client.Resume.Pubrec follow what resume sends through Net.Incoming. Client.Subscribe.Barred and
--   Client.Subscribe.Allowed are the two ways of a call in Client.Subscribe.Refused.
-- - Keepalive: the loop of keepalive over the ticks and the traffic with their times.
-- - Store.File: filestore.go over a directory, an association list from names to files; write is the list
--   of its calls, so that a crash is a prefix of the list.
--
-- Values. Numbers are natural numbers with the wrap-around of their width written out. A Go string is
-- its bytes. A panic is a result of its own: `panic`, or `none` where the comment says so. The order of
-- a range over a map is the order of the association list.
--
-- Fuel. getID: 65535 rounds, one for each id. SUBSCRIBE: a round takes at least three bytes of the
-- remaining length, which is the fuel. UNSUBSCRIBE: a round takes at least one byte of the buffer, whose
-- length is the fuel. `decimal`: five digits, as a 16-bit number has. encodeLength needs none: it
-- recurs on the order of the numbers. startIncoming: a round takes at least one byte, so that more
-- fuel than there are bytes is enough.
--
-- Not modelled: opening connections (netconn.go, websocket.go), and deadlines, other than as a cause for
-- a Write to fail; a Write that fails may have sent a part of its bytes (Net.Outgoing.Fault). A timer in a
-- select is the choice that it makes. The goroutines of startCommsWorkers and stopCommsWorkers, the retry
-- loops of Connect and reconnect, the waits of Disconnect, and the semaphore of resume. Packets are values.
-- That resume sets DUP in the object that a memory store holds is modelled (the operation `touch` of
-- Store.StoreOps); that Write sets the remaining length of a packet that a memory store holds is not,
-- since Write sets it again. Failures of the file system, which panic, and verifyReadWrite; that path.Join
-- cleans a key (no key of the client changes by it). The options that are callbacks or belong to other
-- packages, and the readers of options (options_reader.go). Logging, tracing and notifications, the
-- waiting on tokens, the dispatch without order, and the example commands (cmd).
pub mod Base
pub mod Packets
pub mod Token
pub mod MessageIds
pub mod Topic
pub mod Router
pub mod Store
pub mod Backoff
pub mod Status
pub mod Net
pub mod Options
pub mod Client
pub mod Keepalive
