-- ===== src/Lib.antt =====
-- Verification of vulkan_remote: Vulkan forwarded over TCP from a client driver to a server that
-- has the GPU, with a Wayland proxy beside it.
--
-- The parts of the program and the modules that model them:
--   common/wire.hpp, common/wire.cpp: Framing. `Writer` and `Reader` (u32, u64, bytes, string, read
--     and so on; the typed calls are `put_u32`, `get_u32` ...), the socket loops `write_all` and
--     `read_all`, and whole messages, `send_message` and `recv_message`.
--   wayland/wire.hpp, wayland/wire.cpp: Wayland. The message shapes and the table lookups,
--     `decode_message`, `encode_message`, the object table, and the two kinds of frames that are
--     taken off a stream buffer.
--   server/objects.hpp and the teardown in server/session.cpp: Objects. The table that gives native
--     objects their ids, the tables of a connection, and `destroy_device_objects`,
--     `destroy_session_objects` with the native calls they make, in order.
--   server/session.cpp, class RequestWorkers: Workers. The pool that runs requests, as the relation
--     `Run` over its critical sections: `submit`, `start`, `finish`, `stop`.
--   client/remote_objects.cpp, struct Connection: Connection. The requests in flight, as the relation
--     `Run` over critical sections: `begin_request`, `begin_ping`, `withdraw`, `receive`, `fail_all`.
--     The loop for a free id is given two rounds more than there are entries, since at most these
--     and 0 are passed over.
--   server/session.cpp, Server::serve: Serve. One round of the loop, `serve_message`, with the decoding
--     of the requests that wait and `wait_loop`, which a worker runs. Handlers are an argument, and
--     so are the rounds of `wait_loop`.
--   client/memory.cpp, the mapped ranges of client/remote_objects.cpp, common/memory_contract.hpp:
--     Mapped. `allocate_memory`, `free_memory`, `map_memory`, `unmap_memory`, the checks of explicit
--     ranges, and `flush_mapped`, `download_mapped` with the messages that they split a range into, and
--     `acquire`, which merges the device's bytes into the host's copy.
--     Their loops are given a round more than there are bytes, since each round moves at least one.
--     `publish_coherent_mapped` (Mapped/Publish) sends the changed bytes; `answer` stands for the
--     server.
--   server/handlers_memory.cpp: Transfers. `map_transfer` as `map_upload` and `map_download`, the
--     handlers of FlushMappedMemory, DownloadMappedMemory and vkFreeMemory. The driver is a `Driver`;
--     what is relied on of it, that flushes and invalidations of valid ranges carry the bytes of the
--     range between the host and the device, is the record `Views`. The messages are those of
--     Mapped, encoded and decoded with Framing.
--   server/own_window_input.cpp, the windows of server/session.cpp and their use in
--     server/handlers_wsi.cpp: Windows. `record_input`, `take_input_events`, the windows and the map
--     from surfaces, and the polls, as steps of the relation `Reach`.
--   wayland/proxy_server.cpp: Proxy. `handle_request_frame`, with the call that it makes of libwayland,
--     and `pump_frames`, the loop of `pump_link` over the frames that have arrived, which is given a
--     round more than there are bytes. What libwayland knows and returns is an
--     argument. Proxy/Events: `generic_dispatcher`, which encodes the events of the compositor.
--     Proxy/Sessions: both in any order, as the relation `Reach`.
--   Base: numbers, lists, maps and tests that the parts share.
--
-- The parts meet where the code's do: Serve uses the tables of Objects, the pool of Workers and the
-- Reader and Writer of Framing; Mapped and Connection are the two halves of a client's calls, and
-- Transfers.Flushes joins the flush of Mapped to the server's handler; Proxy uses the messages, the
-- tables and the frames of Wayland.
-- Not modelled: sockets, threads and clocks, which are steps and arguments; the calls of the Vulkan
-- driver, except for the memory that Transfers maps, of which only the order is kept; the handlers of
-- other commands, the marshalling of Vulkan structures and presentation; the window system; generated
-- tables.
pub mod Base
pub mod Framing
pub mod Wayland
pub mod Objects
pub mod Workers
pub mod Connection
pub mod Serve
pub mod Mapped
pub mod Transfers
pub mod Windows
pub mod Proxy
