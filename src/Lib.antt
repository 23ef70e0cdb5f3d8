-- ===== src/Lib.antt =====
-- JumboCoin: a node of a peer-to-peer coin network. The development models the node's own code, the
-- .cpp and .hpp files of src, and says what its parts promise.
--
-- The parts of the program and how they meet:
--   * src/tx.hpp, src/tx.cpp: transactions, their byte format, their construction and verification.
--   * src/sig.hpp, src/sig.cpp: hashes and signatures, by calls of Crypto++.
--   * src/blockchain.hpp, src/blockchain.cpp: blocks, which hold transactions, and their byte
--     format.
--   * src/jumbopacket.hpp, src/jumbopacket.cpp: the messages that nodes exchange; one holds a
--     block.
--   * src/mine.hpp, src/mine.cpp: the search for a nonce, which broadcasts the block that it finds.
--   * src/server.hpp, src/server.cpp: the clients connected to a node, and their messages.
--   * src/client.hpp, src/client.cpp: the servers that a node is connected to, and their messages.
--
-- The files:
--   * Base: names of the libraries, Boolean tests on numbers, lists over the native numbers.
--   * Bytes: byte strings, little-endian integers, the outcome of a call, and readers: a reader
--     takes the memory behind c_str() and a cursor, as the Decode functions take `serial` and `cr`.
--     Bytes/Reads is the theory of readers that take back what a serializer wrote, Bytes/Ensures
--     that of readers on any memory, Bytes/Short that of memory that is too short, Bytes/Formats
--     that of readers of a format.
--   * Crypto: what the code calls of Crypto++, as the interface `Crypto`, and the laws that
--     theorems rely on, `Laws`, for keys that hold something; Crypto/Toy fills both. Sig: CalculateSHA256, SignMessage, ValidateSignature. Keys:
--     GenerateKeys, SaveKey and LoadKey of src/sig.hpp; Keys/RoundTrip holds the theorems.
--   * Tx, with Tx/Input and Tx/Output: Tx::Serialize, Tx::Decode, Tx::DecodeAndVerify, Tx::Verify,
--     Tx::ConstructAndSign and the same of Tx_Input and Tx_Output. Tx/Fits, Tx/Fields,
--     Tx/RoundTrip, Tx/Construct, Tx/Signing, Tx/Authentic and Tx/Bounds hold the theorems.
--     Tx/Format reads the byte format as Tx::Serialize writes it.
--   * Block: Block::Block, Block::Serialize, Block::DecodeBlock, Block::Hash. Block/Fits,
--     Block/RoundTrip, Block/TwoTx and Block/Short hold the theorems. Block/Format reads what
--     Block::Serialize writes.
--   * Chain: Blockchain's fields and its operations, which are stubs in the code.
--   * Packet: Packet, EncodedPacket, DecodedPacket, ReadHeader, the Serialize and Decode functions
--     of each message. Packet/Header, Packet/RoundTrip and Packet/Sizes hold the theorems.
--   * Miner: Miner::IsMined, Miner::MineBlock, Miner::BroadcastMinedBlock. Miner/Search and
--     Miner/Arrival hold the theorems.
--   * Dict: std::map with string keys; Dict/Order is its order, Dict/Cursor its iterator. Tcp: what
--     the code calls of the library in src/tcp, as the interface `Tcp`. Node: the globals of
--     server.cpp and client.cpp, a log of what was printed and sent, and HasClientWithIP.
--   * Server: one round of the loops of server.cpp (the heartbeat loop, the loop that accepts
--     clients), SendMessage, SendMessageToAllClients, BroadcastBlock, ReceiveMessage,
--     ClientDisconnected. Server/Sweep with Server/Sweep/Kills, Server/Alive and Server/Messages
--     hold the theorems.
--   * Client: ConnectToServer, the loop over peers.dat, initialize_client_connection up to its
--     loops, ReceiveMessage, Disconnected, BroadcastTx. Client/Loops: the rounds of its two loops,
--     keep_alive and that of the messages. Client/Init: the reading of peers.dat and a round of the
--     main loop of NodeClient::Init. Client/Dedup: requests and threads that connect as a step relation.
--     Client/Connect, Client/Effects, Client/Faults, Client/Messages and Client/Init/Peers hold the theorems.
--   * Server/Steps: the threads of server.cpp as a step relation; Server/Spec: what the server
--     promises, as actions on a view of it, with Server/Spec/Refines; Server/Ledger: what becomes
--     of the clients; Server/Round: a round of the heartbeat loop one entry at a time, between
--     which the other threads run, with Server/Round/Fair, Server/Round/Alone,
--     Server/Round/History, Server/Round/Beats and Server/Round/Ledger; Server/Handshake: the poke,
--     between a node's client and another's server.
--   * Server/Faults: how ReceiveMessage ends on any bytes; Server/Bundles: ReceiveMessage on a message
--     that arrives with bytes behind it.
--   * Network: several nodes, their threads and the messages between them; Network/Mutual holds the
--     theorem, and Network/Calm, Network/Change, Network/Puts, Network/Establish and Network/Moves
--     the steps of its proof. Network/Losses: the same with connections that fail, that the server
--     drops and whose loops end; Network/Losses/Lasts holds the theorem, with Network/Losses/Stale.
--     Network/Drain: what the requests in a network still cost; Network/Drain/Settles holds the
--     theorems, with Network/Drain/Sums, Network/Drain/Among, Network/Drain/Costs,
--     Network/Drain/Shrinks and Network/Drain/Progress. Network/Online: nodes that start up with
--     their lists of peers, and the theorem about them.
--   * Server/Timing: when the rounds of the heartbeat loop and the heartbeats of a client come,
--     with Server/Timing/Latency.
--   * Server/Start: NodeServer::Init and its mining thread; Server/Start/MineThread holds the
--     theorem.
--   * MyIp: JumboPacket::GetMyIP; MyIp/Descriptors holds the theorem.
--   * Checks: test_transactions and test_block of src/jc.cpp; Checks/Pass holds the theorems.
--   * Main: test_server_client and main of src/jc.cpp, up to the loops of the threads; Main/Startup
--     holds the theorems.
--   * Tests: concrete data, and runs of the theorems on it.
--
-- How the code is read:
--   * An integer of w bits is a natural number; where the code cuts a value to a narrower type the
--     model has `% 2 ^ w`. The machine is little-endian and reads integers at any address. Cursors
--     (size_t) do not wrap around, since they stay within a buffer. A loop `for (int i = 0; i < n;
--     i++)` with an unsigned n is n rounds.
--   * A call ends in `ok`, in `throws` with the name of the exception, or in `fault`: it has read
--     outside the buffer and the terminating null behind it, where C++ promises nothing.
--   * `Garbage` holds what a new block's uninitialised fields happen to contain. An empty vector of
--     key bytes is parsed as the empty string.
--   * The clock, the random pool, and the results of connectTo, sendMsg, start, GetMyIP and, in
--     MyIp, of the calls on sockets are arguments. The files are a map from names to bytes.
--   * Each definition of Server and Client is one step, which runs alone on the state that its
--     thread finds. Server/Round takes the heartbeat loop apart into smaller steps: one for each
--     entry. What other threads do to a node between the lines of peers.dat is an argument of the
--     loop over them; Network/Online, where all nodes start before any connects, has them do nothing
--     there. A round of the main loop of NodeClient::Init ends only when the loops of its connection have
--     ended, since `join` waits for them.
--   * A message is what one call of SendMessage, SendMessageToAllClients or BroadcastBlock sends, and it
--     reaches the other side's ReceiveMessage in a call of its own. TCP promises no such thing: src/tcp
--     calls ReceiveMessage with whatever one `recv` returned, and ReceiveMessage reads one header of
--     it. What the theorems on Network and Server/Handshake say of pokes is said of messages that arrive
--     one by one.
--   * In Network, which step comes next is open: which thread's connectTo has succeeded, which
--     connection acceptClient returns, and which message arrives, messages in any order. A client's
--     getIp() is the address of the node that connected, and GetMyIP answers the node's own.
--     Network/Drain weighs what is left to do: a message is at most 7, a thread that connects at
--     most 6, a connection that waits 1.
--   * MineBlock's inner loop is recursion on the number of nonces that are left, which starts at
--     UINT32_MAX as in the code. Its outer loop runs on fuel, and one round is always enough: the
--     inner loop sets `good` at the latest after 10000 attempts.
--
-- Not modelled: src/tcp (another project's library), Crypto++, the creation of threads and their sleeps,
-- and what two threads do to a map at the same moment: a step runs alone. Blockchain::Blockchain, whose genesis
-- block holds a key that is never initialised, and JumboPacket::DecodePacket, a template no instance of
-- which compiles, are not modelled either; nothing uses them.
pub mod Base
pub mod Bytes
pub mod Crypto
pub mod Sig
pub mod Keys
pub mod Tx
pub mod Block
pub mod Packet
pub mod Miner
pub mod MyIp
pub mod Dict
pub mod Tcp
pub mod Node
pub mod Client
pub mod Server
pub mod Chain
pub mod Network
pub mod Checks
pub mod Main
pub mod Tests
