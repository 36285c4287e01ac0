-- ===== src/Lib.antt =====
-- Verification of the network simulator: hosts send files over a simple TCP through routers that
-- forward packets and find their ways by a distance vector algorithm.
--
-- Parts of the program, and the files that model them
-- - Messages/ (Packet, RoutingMessage, AbstractNetMessage): Message.antt. A pointer to a node is the
--   node's address; a byte is a number.
-- - TCPConnection.h and TCPConnection.cpp: Tcp/. State.antt has the class as the record
--   `TcpConnection` (a member m_outBuffer is `out_buffer`, and so on), Packetize.antt `packetize`,
--   Sender.antt `sendMessage`, `sendNextWindow`, `handleAck`, `timeoutBody`, `measureRTT` and what
--   they call, Receiver.antt `handleData` and what it calls; `take_packet` of Tcp.antt is
--   `takePacket`, which chooses between `handleAck` and `handleData`.
-- - NetworkController.cpp: Controller.antt, the counters that all nodes share.
-- - Nodes/: Nodes/Node.antt is AbstractNode, Nodes/Router.antt Router, Nodes/Host.antt Host.
--   Nodes/Interface.antt has the virtual methods as a record that both classes fill, through which
--   a network calls its nodes; Nodes/Queue.antt is the interface of the message queue. A host gives
--   a packet to the connection with its source, by the methods of the record
--   `ConnectionInterface` (Tcp.antt), and performs what that connection asks for.
-- - Network.h and Network.cpp: Network.antt has the state and the commands on it,
--   Network/Running.antt `run`, `shutDown`, `waitForConverge`, and the turns of threads and the
--   calls between nodes, each one step; Network/Interface.antt the class as a record of methods.
-- - main.cpp: Command.antt, the command language over an abstract stream of words and over any
--   network that has these methods.
--
-- How code becomes a definition
-- A method is a function from the state before to the state after. A fault (an access out of range,
-- a null pointer, a division by zero, std::terminate) is `none`. What a method asks of other objects
-- is appended to a list in its state: `effects` of a connection (packets sent, files written, pauses)
-- and `calls` of a node (messages handed over, counters, pauses). uint64_t and uint16_t arithmetic is
-- on numbers with the wrap-around written out (Base/Word.antt). An unordered_map is an association
-- list (Base/Dict.antt) whose order stands for the unspecified order of iteration.
-- A lock is held within a call, so a call is one step; a thread is modelled by its turns
-- (`turn` of a node, `timeout_body` of a connection), and the timeout threads of a connection by the
-- list of the times for which they wait.
--
-- Proofs
-- Segments/ says what `packetize` makes of a message, Reception/ what a receiver makes of arrivals in
-- any order, with losses and repetitions, and Transfer.antt joins the two. Window/ is the sending
-- side: `IsSending` is the invariant of a transmission, each file shows one operation on it, and
-- Session.antt, Answer.antt and Events.antt join them for acks and timers in any order.
-- Nodes/Table.antt, Nodes/Broadcast.antt and Nodes/Counting.antt are on the routing table, the
-- messages about it and their counter; Nodes/Contract.antt is the contract of a node.
-- Routing/ is on the routes of a whole network with fixed links: Routing.antt has walks and the
-- invariant of a node, the files under it show one kind of step each, and Routing/Steps.antt has the
-- step relation and the states reached by it, and Routing/Forward.antt takes a packet one hop on in
-- them. Convergence/ is on the same steps: on what one router tells another (Convergence.antt), and
-- on the ways in a network at rest (Cheapest.antt). Detection/ is on them too: on the counter of
-- routing messages (Detection.antt has the account that it is part of, Steps.antt the states
-- reached), and on `waitForConverge`, which reads it (Waiting.antt).
-- Nodes/Quiet.antt and Network/Quiet.antt have what these share: calls that are no routing messages.
-- Exchange.antt puts a sender and a receiver together, with the acks on their way between them;
-- Exchange/ is on every order of events there, by the lemmas of Window/ and Reception/.
-- Network/Ends.antt and Network/Links.antt are on `addLink`. Network/Threads.antt,
-- Network/Joining.antt, Network/LifeCycle.antt and Network/Pending.antt are on the threads of the
-- nodes: `run` and `join_threads` are `none` where they do not return, at std::terminate, at an
-- exception that nothing catches, and where a join waits for a thread that has not ended.
-- Command/Loops.antt is on the loops of the commands. Tests/ has the inputs and states at which the
-- theorems are applied.
--
-- Parameters, bounds and fuel
-- `Env` holds what a connection reads from outside: `Packet_Size`, the clock, the operations on floats
-- (bit patterns), the memory behind a message and an uninitialised delay. `RouterEnv` holds the value
-- of rand() and its comparison with the drop rate, `MessageQueue` the calls of the concurrent queue,
-- `CommandStream` the extractions from a stringstream. Loops over a buffer or a map are structural.
-- The loop of `handleAdd` runs on fuel, for which more than the length of the stream is enough.
-- `waitForConverge` runs on fuel, the `rounds` of a `Schedule`, which also says what the threads do
-- while the program sleeps; out of fuel it is taken to wait for ever.
-- Of the queue `QueueLaws` asks only that what comes out of it was put into it, `KeepsMessages`
-- that what is put into it stays there until it comes out, and `CountsMessages` that the routing
-- messages in it can be counted; none asks for an order.
-- The theorems on a transmission ask for fewer than 2^61 bytes in the message, which keeps sizes and
-- indices inside uint64_t.
--
-- Not modelled
-- The log lines of connections (those of nodes, and what the network and main.cpp print, are modelled,
-- numbers in them as numbers and without padding); the reading of files (a parameter); how long a
-- join waits (a `Schedule` says what the threads do before it), and at what time the shared pointers
-- let a node be destroyed; concurrentqueue-master/, a library of another project. A
-- call of a connection is one step of its host, so a change of the routing table in the middle of
-- such a call is not seen.
pub mod Base
pub mod Message
pub mod Controller
pub mod Tcp
pub mod Segments
pub mod Reception
pub mod Transfer
pub mod Exchange
pub mod Window
pub mod Nodes
pub mod Network
pub mod Routing
pub mod Convergence
pub mod Detection
pub mod Command
pub mod Tests
