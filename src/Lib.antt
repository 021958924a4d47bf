-- ===== src/Lib.antt =====
-- ESPView shows the screen of a microcontroller on a PC and passes the PC's input back, over a
-- serial line or TCP. This library models the C++ code under shared/ that both ends run.
--
-- The way of a message: MessageEncoder (shared/protocol/encoder.cpp) cuts it into packets of at most
-- 4096 bytes, each with a header of 20 bytes and a CRC-32 (packet.cpp, crc32.cpp, byte_order.h); a
-- transport carries the bytes, in pieces of any size; StreamDecoder (decoder.cpp) finds the packets,
-- checks them and reassembles the message; FrameAssembler (frame_assembler.cpp) makes the messages
-- of a frame one committed frame; ProtocolEndpoint (protocol_endpoint.cpp) owns these, shakes hands
-- with its peer, answers it and watches over it; DisplayRouter (shared/display/display_router.cpp)
-- chooses the displays that it goes to. InputManager (shared/input/input_manager.cpp) takes what the
-- user does at the PC, and the codec beside it makes messages of it. ScanTransaction
-- (shared/wifi/scan_transaction.cpp) suspends the display while the Wi-Fi scans, ReconnectPolicy
-- beside it and ReinitPolicy (shared/oled/oled_recovery.cpp) say when a lost connection or display is
-- tried again, and BoundedQueue (shared/transport/bounded_queue.h) bounds what waits between threads.
--
-- Which file models which part:
--   Protocol.Wire, Protocol.MessageType  shared/protocol/protocol.h
--   Protocol.Crc32       crc32.h, crc32.cpp: `crc32_update` is `crc32Update`, `crc32` is `crc32`
--   Protocol.ByteOrder   byte_order.h: `read_u16_le` is `readU16LE`, and so on
--   Protocol.Packet      packet.h, packet.cpp: `encode_packet`, `decode_header`, `verify_packet_crc`
--   Protocol.Message     message.h, message.cpp: the message, `allowedAckRequestType`;
--                        Builders has the builders of HELLO, SET_MODE, ACK, ERROR, PING, PONG,
--                        input and frames; Capabilities, Preview and Wifi the builders and parsers of those
--   Protocol.Encoder     encoder.h, encoder.cpp: `encode`, `encode_stream`
--   Protocol.Decoder     decoder.h, decoder.cpp: `feed`, `process` (its turns are `turn_at`),
--                        `consume`, `reset`, `on_timeout`; Scan is the search for 'ESPV', and
--                        Reassembly is `handleVerifiedPacket`
--   Protocol.FrameAssembler  frame_assembler.h, frame_assembler.cpp: `on_message` with its three
--                        handlers, `on_stream_error`, `reset`
--   Protocol.RuntimeStats    runtime_stats.h, runtime_stats.cpp
--   Protocol.Endpoint    protocol_endpoint.h, protocol_endpoint.cpp: the state; Acks is the request that
--                        waits, Sending `transmit`, `tryTransmit` and the sending calls, Generations
--                        where sessions begin and end, Handlers the messages that come, Receiving
--                        `onTransportData`, Ticking `tick`, and Steps runs of the calls
--   Wifi.ScanTransaction     shared/wifi/scan_transaction.h, scan_transaction.cpp: every call
--   Wifi.ReconnectPolicy     shared/wifi/reconnect_policy.h, reconnect_policy.cpp: every call
--   Oled.ReinitPolicy        shared/oled/oled_recovery.h, oled_recovery.cpp: every call
--   Transport.BoundedQueue   shared/transport/bounded_queue.h: both classes
--   Display.Router       shared/display/display_router.h, display_router.cpp; Settling is about
--                        `reconcileStateLocked`, Switching `setMode`, Delivery the application's route
--   Input                shared/input: Event is input_event.h, Codec input_codec.cpp, Manager
--                        input_manager.cpp, Policy input_policy.h, CoordinateMapper and
--                        KeyboardMapper the files of these names, HostKey the keys' numbers
--   Base                 lists, words and bytes over the native numbers, and the laws of xor
--
-- State is a record, an operation a function to the record afterwards and the callbacks that were
-- called, as a list of events in the order of the calls. A pointer with its size is a list. Words
-- are natural numbers below a power of two, with the casts written out; where the code adds in a
-- type that the operands cannot overflow the sum is the plain one. The counters of the statistics of an
-- endpoint and of a frame assembler, which have 64 bits and which no operation reads, are unbounded.
--
-- An endpoint's transport is a parameter: two sinks with a state of their own, and whether the lock of
-- the sending side is free; its callbacks do not call back, and an answer to a request is a later
-- call. Each call reads the clock once.
--
-- Fuel: `Protocol.Decoder.feed` runs `process` for 4 * n + 4 turns over n pending bytes. A turn that
-- goes on lowers 4 * (pending bytes) + (rank of the state), so that is enough. `scan` gets one turn
-- more than there are bytes, and each of its turns passes one. `send_chunks` gets one turn more than
-- there are bytes of payload, and each sends at least one; the endpoint sends by
-- `Protocol.Encoder.Total.streamed`, which has the proof that this is enough, and so no case without
-- a result.
--
-- Not modelled: locks and threads (each class is called under its owner's lock or from one thread),
-- names and texts for printing, `encodeStreaming` and `sendMessageStreaming`, and the other
-- parts of shared/; pc/ and esp32/ are glue to Qt and ESP-IDF.
pub mod Base
pub mod Display
pub mod Input
pub mod Oled
pub mod Protocol
pub mod Transport
pub mod Wifi
