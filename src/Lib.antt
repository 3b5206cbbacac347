-- ===== src/Lib.antt =====
-- LIGHT-BELT drives addressable light strips from a host program. A frame of colours is mapped to the
-- physical nodes, and an output sends it: over UDP to ESP32 nodes, one datagram for a frame (version
-- 2, and version 3 with several outputs of a node in a frame) or chunks of a frame (version 3), over
-- DDP to WLED nodes, and over RS-485 to analog nodes. This library models the wire
-- protocols, the part of the program on which the host and the firmware have to agree byte by byte,
-- the outputs that send them, the mapping of strips to nodes before them, the switch of effects with
-- the music, and the tokens of the host's clients.
--
-- The files and the code they model, with paths from the root of the repository:
--   Prelude    shared tests, lists, results and sets; Prelude/Results has the exceptions as values
--   Wire       what the protocols share: `struct.pack` and `struct.unpack` in big-endian order
--              (Wire/Bytes, Wire/Struct), `zlib.crc32` (Wire/Crc), and the RGB payload with the integer
--              limits (Wire/Pixels), in light_engine/outputs/udp_v2.py and udp_v3.py
--   UdpV2      light_engine/outputs/udp_v2.py: `UdpV2Packet` with `__post_init__` (`post_init`),
--              `encode` and `decode`
--   UdpV3      light_engine/outputs/udp_v3.py. Frame has the header; Packet `UdpV3Output` and
--              `UdpV3Packet`; Chunk `UdpV3Chunk` and `UdpV3ChunkPacket`; Datagrams
--              `encode_udp_v3_frame_datagrams`, which uses both codecs; Sequence `is_newer_sequence`;
--              Reassembler `UdpV3FrameReassembler`, whose `accept` decodes a datagram as a frame or as
--              a chunk packet and steps its state; Beacon `UdpV3ClockBeacon`
--   Rs485      light_engine/outputs/rs485_v2.py: the checksum, `RS485v2Packet` (`Rs485v2Packet`) and
--              `RS485v2StreamParser` (`StreamParser`, `feed`)
--   Ddp        light_engine/outputs/ddp_output.py: `encode_ddp_packets`
--   Frames     light_engine/mapping/physical.py: the frames that a mapping hands to the outputs
--   PhysicalMapping
--              light_engine/mapping/physical.py: the class of that name, with `_validate` (`validate`) and
--              in PhysicalMapping/Map `map` (`map_frame`), which puts the pixels of the strips into
--              the buffers of the nodes
--   VirtualPaths
--              light_engine/mapping/virtual.py: `build_virtual_paths`, `VirtualPath.split`
--   AuthManager
--              host_services/auth_manager.py: refresh tokens, WebSocket tickets and access tokens
--   AdaptiveSelector
--              light_engine/show/adaptive_selector.py: `AdaptiveEffectSelector`, which switches the effect
--              of a cue with the music, without the choice of its speed
--   Transport  what the UDP and DDP outputs share: the modes, the state of a sender, its datagrams, its
--              socket (`open_socket`, `close_socket`), and the loop over the nodes of a frame (`each`)
--   UdpOutputV2, UdpOutputV3
--              light_engine/outputs/udp_output.py: the two classes, with `open`, `close`, `send_frame`
--              and `flush_latest`; UdpOutputV3 has the clock beacons and the apply time, and
--              UdpOutputV3/Flush its flush
--   DdpOutput  light_engine/outputs/ddp_output.py: the class of that name
--   SerialOutput
--              light_engine/outputs/serial_output.py: `SerialOutputV2`
--   SimulatorOutput
--              light_engine/outputs/simulator_output.py: the class of that name
--   Outputs    light_engine/outputs/__init__.py: `LatestFrameQueue`, the health counters, `open_all`,
--              `send_all` and `close_all`; the concrete outputs are a parameter (`Driver`)
--   Samples    a frame and outputs for the tests
-- A module's children hold the proofs about it, and its Examples the tests.
--
-- Bytes and integers are natural numbers, a byte string is a list of them, and a wrap-around is
-- written out. `_require_uint` refuses negative numbers and values that are no integers as well;
-- such values do not exist here. A dataclass is a record, and `post_init` says whether Python could
-- make it. An exception is the `err` of a result, with its class and without its message. An
-- `except ValueError: return None` is `caught`. Dictionaries are lists in the order of insertion.
-- A receiver and a parser are records, and each call returns the new one.
--
-- A method that changes its object and may raise is an `Action` (Prelude/Actions): from the object to a
-- result and the object as it is then, also where it raises. What the program takes from the operating
-- system is a parameter: a `World` has the calls of a UDP socket, of the clock and of sleep, a `PortWorld`
-- those of a serial port; they may change the world and may raise, and nothing else is assumed of
-- them. Channels are natural numbers, as `round(c * 255)` makes them of the floats of a frame, and the time
-- of a frame is in microseconds. The time stamp that `mark_success` sets is left out.
--
-- Loops: `range(0, n, step)` has the number of rounds that Python computes. The loop of the stream
-- parser has fuel for one round more than the buffer has bytes, and the loop of the DDP packets one
-- more than the payload has; each round takes a byte at least. Both are shown never to run out.
--
-- The times and the features that AdaptiveSelector compares are floats in the program. Here they are
-- natural numbers, in ticks and in thousandths, so that a comparison is exact.
--
-- Not modelled: the reports of the outputs (`capabilities`, `to_dict`), the creation of outputs from a
-- configuration, the composition of shows into frames, the choice of an effect's speed, the effects
-- and colours in floating point, the engine, the rest of the host services and the firmware.
pub mod Prelude
pub mod Wire
pub mod UdpV2
pub mod UdpV3
pub mod Rs485
pub mod Ddp
pub mod AdaptiveSelector
pub mod AuthManager
pub mod DdpOutput
pub mod Frames
pub mod Outputs
pub mod PhysicalMapping
pub mod Samples
pub mod SerialOutput
pub mod SimulatorOutput
pub mod Transport
pub mod UdpOutputV2
pub mod UdpOutputV3
pub mod VirtualPaths
