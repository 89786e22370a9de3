-- ===== src/Lib.antt =====
-- A model of the core of SimQ, an MQTT v5 broker, and its theorems.
--
-- Wire, for corev5/v2/message: the packet codec. Wire/Codes holds the constants and the tables of
-- valid reason codes (message.go, identifier.go, util.go); Wire/Slice the Go slices that are read,
-- with what the backing array holds behind them; Wire/VarInt `lbEncode`, `lbDecode` and
-- `BigEndianPutUvarint`; Wire/Strings length-prefixed bytes and user properties; Wire/Header the
-- fixed header (header.go); Wire/Ack the packets PUBACK, PUBREC, PUBREL and PUBCOMP, with `Len` and
-- `Encode` in Wire/Ack/Encode, about which InPlace is.
--
-- A byte is a number, a `uint32` a number with its wrap-around written out. A Go function that can
-- fail returns an `Outcome`: a value, an error, a run-time panic, or `stuck`, which is no result of
-- the code but a loop whose fuel is used up. With an error result the counts that the code returns
-- beside it, and what a receiver holds by then, are left out.
--
-- AckQueue, for the `ackqueue` of corev5/v2/sessions/impl/mem_ackqueue.go: the packets in flight of
-- a session. AckQueue itself holds the operations, AckQueue/Invariant what holds of every queue,
-- AckQueue/Spec the flight that a client sees, a list of packets and a ping; Grow,
-- Insert and Join about the operations on the ring, Refine and Acked about the three calls of
-- the interface, and Run about any list of such calls. What a message encodes to is part of a
-- message here. The loop of `Acked` takes an entry off in each round, so `count` rounds are enough
-- fuel. The mutex is held through every call, so calls are a sequence.
--
-- Topics, for corev5/v2/topics/impl/memtopics.go: Topics itself holds `nextTopicLevel` and the tree
-- of subscriptions (`sinsert`, `sremove`, `smatch`, `matchQos`), Topics/Retained the tree of retained
-- messages (`rinsert`, `rremove`, `rmatch`, `allRetained`). Topics/Levels is about names and their
-- levels, Rule the MQTT rule for filters and the lesser QoS, Match, Subscribers, Covers and Complete
-- about what `smatch` finds by that rule, Changes, Insert, Update and
-- Remove about `sinsert` and `sremove`, with the tree as a map from filters; Dispatch holds
-- `Subscribe`, `Unsubscribe`, `Subscribers`, `Retain` and `Retained`, and Subscribe and Delivery are
-- about the first three of them. A subscriber is a
-- number, its identity; the two slices of a node are one list of entries; a Go map is a list of its
-- children, whose order stands for the order in which it happens to be gone through. `sinsert` and
-- `rinsert` have fuel, a round for each level of the topic.
--
-- Buffer, for corev5/v2/service/buffer.go: the ring between the network and the processor. Buffer
-- itself holds its operations, an attempt of a call at a time: a goroutine that sleeps is a result,
-- `waits`, and one that wants a mutex that another call has left locked is `locked`. A test of `done` and
-- the sleep behind it are one step, which leaves out that a reader can miss a `Close` between the two. The two sides
-- touch different positions, and an attempt is a step. Positions are natural numbers, since an int64
-- that counts bytes does not overflow; lengths are not negative. Network holds the rounds of
-- `ReadFrom` and `WriteTo`, with what the connection does as data. Copy and Reads and Writes are about
-- the bytes, Invariant about what holds of every ring, Spec is a queue of bytes with a bound, Run is
-- about all calls on an open ring, Loops about the two rounds, Close and Stuck about sides that sleep.
-- `ringCopy` has fuel for the bytes, of which each round copies one at least. The helpers on rings,
-- which AckQueue has too, are in Base/Window.
--
-- Framing, for corev5/v2/service/sendrecv.go and the loop `processor` of process.go: packets in a
-- ring. A message is anything with `New`, `Decode`, `Len` and `Encode`, the record `Codec`, which Acks
-- fills for the acknowledgements. Size and Peek are about `peekMessageSize`, Carry about a round of
-- `processor`, Send about `writeMessage`, Stream about many messages. What `processIncoming` does is a
-- parameter. `peekMessageSize` looks at four bytes behind the type, its fuel. Flow control, the
-- removal of reason strings on request and the transport by sessions of Getty are left out.
--
-- Flow, for process.go: PUBLISH and its acknowledgements (`processPublish`, `topicAliceIn`,
-- `processAcked` and four cases of `processIncoming`), on the queues of AckQueue. What a service does
-- outside is kept as lists: the responses that it sends, the messages that it hands to `onPublish`, the
-- callbacks that it calls. Messages are those of Wire/Publish, and what a queue keeps of them is read
-- again by the codecs of Wire. Whether a response is written or a message delivered, what `Encode`
-- makes of a PUBLISH that was changed since it was read, and packets of other types in a queue are
-- given by a record `Env`; that delivering may put packets into a queue of the same session is
-- left out. Inflight is about a queue with known entries, Arrivals
-- about a message that comes repeatedly, Once about one that is released then.
--
-- Flow/Subscriptions, for the same file, holds `processSubscribe` and `processUnsubscribe`, with the
-- topics of the session (mem_session.go) and the topics manager as a record of operations. Held is
-- about these topics as a map, Granted about a SUBSCRIBE that is granted, from the Laws of a manager, and Trees fills these with the trees
-- of Topics. What is sent to the cluster is left out.
--
-- Wire/Publish, for publish.go, holds `Decode` and `EncodeToBuf` of PUBLISH; the counter of identifiers
-- is an argument. Kept is about the bytes that a message keeps.
--
-- Wire/Subscribe, for subscribe.go, holds a SUBSCRIBE and the calls on its topics; Filters and
-- Edits hold these as a list of topics with their options, Changes, Options and Answers are about the
-- calls on that list, Distinct about topics that stand once, and Codec holds `Decode` and
-- `EncodeToBuf`, about which Build, Read and RoundTrip are. Wire/Unsubscribe and Wire/Suback are for
-- unsubscribe.go, suback.go and unsuback.go, with their Build and Laws, and Wire/Request is the front
-- of a packet that they share. The loops over topics have a round of fuel for each byte.
-- Wire/Disconnect is `Decode` of DISCONNECT (disconnect.go), and Expiry is about it.
--
-- Not modelled: the other packets, the rest of sessions and their stores, shared
-- and system topics, and network, database and cluster code.
pub mod Base
pub mod Wire
pub mod AckQueue
pub mod Topics
pub mod Buffer
pub mod Framing
pub mod Flow
