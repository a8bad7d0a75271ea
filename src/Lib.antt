-- ===== src/Lib.antt =====
-- uvgTorrent, a BitTorrent client in C: its data structures, its text and byte-order helpers, its
-- sockets, its side of the UDP tracker protocol and of the peer protocol, its pool of threads, and
-- the torrent that ties them together.
--
-- A magnet link is read from a file by `Torrent_parse` (src/torrent/torrent.c), which keeps the hash
-- and the name by way of a hash table (src/data_structures/hashmap) and makes a tracker of every
-- `tr` value (src/tracker/tracker.c), decoded and split by src/utils/str/string_utils.c.
-- `Torrent_connect` and `Torrent_announce` go through the trackers; each sends a connect request
-- and then an announce request (src/tracker/packets) through a socket (src/utils/sock/socket.c), and
-- reads the response, the peers of which go into a linked list (src/data_structures/linkedlist). With
-- each peer it goes through a handshake, an extended handshake, the metadata of the torrent and a
-- piece (src/peer/peer.c), whose messages are those of src/peer/packets. The pool of threads and the
-- random numbers (src/utils/thread_pool, src/utils/rand) are not called by the rest.
--
--   Base        numbers, lists, Boolean tests, and what a C call comes to (`Run`)
--   Libc        the C library on strings
--   Words       integers in memory, on hosts of both byte orders
--   Net         src/utils/net/net_utils.c (htonl_util is `htonl`, and so on)
--   LinkedList  src/data_structures/linkedlist: nodes at addresses of a heap
--   Hashmap     src/data_structures/hashmap: a function from bucket numbers to chains
--   Bencode     `bencode_to_hashmap` of src/utils/bencode/bencode.c
--   Str         src/utils/str/string_utils.c
--   Os          the answers of the operating system, and the log of what leaves the program
--   Socket      src/utils/sock/socket.c
--   Tracker     src/tracker: State (the struct, `Tracker_init`), Connect, Announce, ConnectPacket and
--               AnnouncePacket; the other files prove what is listed below
--   Peer        src/peer/peer.c: Session has its four operations and the loop body of
--               `Tracker_announce`; Handshake, ExtendedHandshake, Metadata and RequestPiece are
--               src/peer/packets, Stream the reading loop that the last two share, Files the
--               files of the metadata
--   ThreadPool  src/utils/thread_pool: a step relation of the threads and the client
--   Rand        src/utils/rand/rand_utils.c
--   Torrent     src/torrent/torrent.c; Torrent/Parse is `Torrent_parse`
--   Main        src/uvgTorrent.c
--   Tests       concrete inputs
--
-- A method `T_f` of a struct `T` is the function `f` of the module for `T`; the label `error` and
-- the continuations after a call are functions of their own. State is passed and returned: a heap,
-- a struct, or the `World` of the monad `Cmd`. What the system answers to its n-th call is an
-- argument, so the theorems hold for every behaviour of the network. An access outside an object,
-- a call through what is no function, and a read of a pointer that nothing was written to, is
-- `fault`, `exit(1)` is `halted`, and a recursion that the code does not bound is `out_of_fuel`.
--
-- Fuel: `Tracker_connect` and `Tracker_announce` call themselves with one attempt less to go, so a
-- fuel above the attempts left is enough; the loop over the peers of a response moves on by 6
-- bytes, so the size of the response and one is enough; `Bucket_get` needs 1 where it returns. The
-- loop that reads a message of a peer is not bounded by the code: with bytes in every read the
-- buffer bounds it, without them no fuel is enough. `randto` needs as much as there are numbers
-- thrown away, `bencode_to_hashmap` more than a dictionary or a list has members. Machine integers
-- are their bit patterns, with the wrap-around written out where the code can reach it.
--
-- Allocations succeed, except where an argument says otherwise (the nodes of the linked list and
-- the buckets). How much room the platform leaves behind an array that is written past its end is
-- an argument, `Layout`. What the program makes of a struct that it reads as another type is an
-- argument too. Arrays of variable size find room on the stack, an empty one as well. Output, the
-- text of errors and the destruction of packets are left out, but for that of an announce
-- response, which closes the sockets of its peers. Not modelled: the reader of bencoded text
-- (src/utils/bencode), which is the work of others and is the argument `Reader` of
-- `bencode_to_hashmap` and of the peer.
pub mod Base
pub mod Bencode
pub mod Libc
pub mod Words
pub mod Net
pub mod LinkedList
pub mod Hashmap
pub mod Str
pub mod Os
pub mod Peer
pub mod ThreadPool
pub mod Rand
pub mod Socket
pub mod Tracker
pub mod Torrent
pub mod Main
pub mod Tests
