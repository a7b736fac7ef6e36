-- ===== src/Lib.antt =====
-- w3m: the multiplayer protocol of the Witcher 3 mod.
--
-- A player's game calls into the client (src/client/module/scripting_experiments.cpp), which
-- sends the player's state to the master server and hands the states of the other players to the
-- game's scripts. The server (src/server/server.cpp) keeps a map of clients by network address,
-- authenticates each by a signature of a nonce under the key whose hash is the client's guid, and
-- sends the states of the authenticated clients to all of them in every frame. Both ends share
-- the network manager (src/common/network), which cuts packets into commands and hands them to
-- callbacks, and the byte buffers (src/common/utils/byte_buffer.hpp), which read and write the
-- data of the packets.
--
-- The files, and the code that each models, by its path in the repository:
-- - Prelude: shared names. Prelude/Outcome is what a C++ call does: it returns, throws, ends the
--   process, or is undefined. Prelude/Words has the bytes of little-endian integers.
-- - ByteBuffer: src/common/utils/byte_buffer.hpp. The deserializer is its buffer and its offset;
--   the sums of `size_t` wrap at 2^64. A trivially copyable type is a `Layout`
--   (ByteBuffer/Objects): its size, its bytes and back. ByteBuffer/Refinement has plain parsers
--   on the bytes that are left as the specification of the reader; ByteBuffer/RoundTrip is about
--   reading what was written.
-- - Text: src/common/utils/string.cpp, on lists of character codes. Text/Decimal has the
--   functions of the C and C++ libraries on decimal numbers.
-- - Network/Address: src/common/network/address.cpp and address.hpp. An address is the union of
--   socket addresses by its bytes. `getaddrinfo`, `inet_ntop` and `std::hash` are parameters.
-- - Network/Manager: src/common/network/manager.cpp, and the sending half of socket.cpp. A
--   callback works on a state and may throw after it has changed it. `bind` and `sendto` are
--   parameters.
-- - Game: src/common/game/structs.hpp. A floating-point number is its bit pattern.
-- - Cryptography: what authentication uses of src/common/utils/cryptography.cpp, over a record
--   `Tomcrypt` of the functions of libtomcrypt. A key is a public or a private one.
-- - Server: src/server/server.cpp, server.hpp and client.hpp. The unordered map of clients is the
--   list of its entries in the order of iteration (Server/Clients). Server/Handlers has each
--   handler and the frame, on the world of a call (the clients and every datagram sent so far)
--   and its environment (the clock, eight random bytes, `sendto`).
-- - Multiplayer: src/client/module/scripting_experiments.cpp, the player's end of the protocol.
-- - ScriptArray: the array of src/client/module/scripting.hpp, with the slots of its block of
--   memory.
-- - Scheduler: a pipeline of src/client/module/scheduler.cpp. A callback is an opaque value; what
--   calling it does is a parameter, and may be to schedule further tasks, to throw, or to change
--   the clock.
-- - ComponentLoader: src/client/loader/component_loader.cpp. A component is a value with a
--   priority, and its hooks are parameters.
-- - Signature: src/common/utils/signature.cpp and signature.hpp, the search for a pattern of bytes.
--   Signature/Pattern and Signature/Matches have the pattern as tokens and what it means for them
--   to match; Signature/Sorting and Signature/Ranges are about the parts that the threads take.
-- - Updater: src/client/updater/file_updater.cpp. The threads of `update_files` are a relation on
--   what they share and where each of them stands, in steps that any of them may take. Files are a
--   function from paths to contents; the hash, the network, what the system answers and how much of
--   what is written the disk keeps are parameters.
-- - Cleanup: the cleaning of directories in the same file, on the tree of the files and folders
--   below the base directory; what the system refuses to remove is a parameter. Cleanup/Sweep is
--   about a loop that removes what an earlier listing names.
-- - Hook: the branches of src/common/utils/hook.cpp. Code is a function from addresses to bytes; the
--   pieces of memory for trampolines are the list that `get_memory_near` keeps, and what
--   `VirtualAlloc` answers is a parameter. Hook/Room is about where that memory lies. Hook/Detours
--   is the class `detour`, with the functions of MinHook as a parameter.
-- - Flags: src/common/utils/flags.cpp, the flags on the command line.
-- - Console: the coloured messages of src/server/console.cpp on a POSIX system.
--
-- Locks are not modelled: the callbacks of a manager and the frame of the server each hold the
-- lock of the map of clients, so that what happens to the server is a sequence of whole packets
-- and frames (the steps of Server/Authentication).
--
-- Loops on lists are structural. The others are on fuel: the search of `replace` in Text, whose
-- every round but the last takes a character off the text, so that one more round than there are
-- characters is enough; the digits of a port in Text/Decimal, of which there are at most five;
-- the hundred rounds of `bind_socket`; and the loop of `pop_back` in ScriptArray, where each
-- round takes off one object and the count of the objects is enough; the search for free memory in
-- Hook, on three rounds more than pieces fit into 2^32 bytes; and a jump or a call there, which needs
-- a second round for the branch to its trampoline, and no third, as the trampoline is near.
--
-- Not modelled: the waiting on sockets and their thread; the text that `printf` makes; the parts of
-- the client that patch the game, draw, or call Windows or Steam; the property store; of the
-- updater, the list from the server and the progress window. They are calls of the system or of
-- the game, or are left for later.
pub mod Prelude
pub mod ByteBuffer
pub mod Text
pub mod Network
pub mod Game
pub mod Cryptography
pub mod Server
pub mod Multiplayer
pub mod ScriptArray
pub mod Scheduler
pub mod ComponentLoader
pub mod Console
pub mod Signature
pub mod Updater
pub mod Cleanup
pub mod Hook
pub mod Flags
