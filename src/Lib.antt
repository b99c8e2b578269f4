-- ===== src/Lib.antt =====
-- SmartMic for Windows: the audio service (windows/audio-service), the kernel driver of the virtual
-- microphone (windows/driver), and the code both ends of the phone link share (shared).
--
-- The phone and the PC agree on a session key over a short code (shared/security), and exchange sealed
-- datagrams under it (shared/media, shared/session, shared/protocol). The phone's packets wait in the
-- jitter buffer. Every 20 ms the router of the service takes a frame from the local microphone or the
-- phone, as the state machine and the crossfade say, and writes it to the driver link, which puts it
-- into a ring that the driver reads. Control calls reach the router through a ring buffer of events.
--
-- - Audio.StateMachine: windows/audio-service/src/source_state_machine.cpp (`apply`, `wantsPhone`,
--   `wantsLocal`). Children: Region, on states and modes; Traces, on sequences of events.
-- - Audio.RingBuffer: windows/audio-service/include/smartmic/ring_buffer.h, over the copies of Cells.
--   Children: Refine, on the queue that it stands for; Capacity, on `roundUpPow2`.
-- - Audio.Crossfade: windows/audio-service/src/crossfade.cpp, both classes as one, over the arithmetic
--   of Audio.Float. Child: Landing.
-- - Audio.Io and Audio.Router: include/smartmic/audio_io.h and src/router.cpp of the same folder, the
--   control surface and `tick` with all it calls. Children: Frame, on a tick; Drain, on control calls;
--   Watchdog, on the timers; Limiter, on the samples of a frame; Steady and Unarmed, on the state over a
--   whole tick.
-- - Audio.DeviceRegistry: src/device_registry.cpp of the same folder. Child: Guards.
-- - Driver.Ring: windows/driver/ring.cpp (`Read`, `ProducerAlive`, `SetStreamOpen`, `GetStats`) and
--   `write` of windows/audio-service/platform/windows/smartmic_driver_link.cpp. Children: Reads, on any
--   producer; Writes, on both sides in step; Starved, on a consumer that has run ahead.
-- - Driver.Claim: windows/driver/ring.cpp, mapping and releasing. Child: Exclusive.
-- - Driver.Stream: windows/driver/minwavestream.cpp. Children: Events, on the table of events; Sizes,
--   on allocation; Fits and Valid, on each operation; Calls, on sequences of them; Ticks, on what the
--   timer delivers.
-- - Driver.Miniport: windows/driver/minwave.cpp. Child: Streams.
-- - Driver.Control: the dispatch routines of windows/driver/driver.cpp. Children: Requests, on the claims
--   that they make; Owner, on whose the ring is.
-- - Driver.Attach: `start` and `stop` of smartmic_driver_link.cpp, whose system calls reach Driver.Control.
--   Child: Exclusive.
-- - Driver.Life: `SmartMicAddDevice`, `SmartMicPnpHandler` and `SmartMicStartDevice` of driver.cpp, with the
--   allocation in ring.cpp. Child: Balance. Driver.Adapter: windows/driver/adapter.cpp.
-- - Protocol.ReplayWindow: shared/protocol/include/smartmic/protocol/replay_window.h. Child: History.
-- - Protocol.Messages and Protocol.Codec: shared/protocol/src/message.cpp and codec.cpp, the control
--   messages. Children: RoundTrip; Accepts, on which texts are taken; Values, a JSON library to run it on.
-- - Media.SecureChannel: shared/media/src/secure_channel.cpp, with the counters of Media.Bytes.
--   Children: Sealed, on two paired channels; Once, on a receiver and any packets.
-- - Media.JitterBuffer: shared/media/src/jitter_buffer.cpp. Children: Queue, on the map; Account, on what
--   becomes of packets; Order, on the play position.
-- - Media.Packets and Media.PhoneSource: shared/media/include/smartmic/media/media_packet.h and
--   shared/media/src/phone_media_source.cpp, with the sender of the phone. Children: RoundTrip, on headers;
--   Heard, on both ends.
-- - Security.Offers and Security.Exchange: shared/security/src/pairing.cpp. Children: Spent, on the
--   limits of an offer; Agreement, on two sides of an exchange. Security.Link: the pairing link, built and
--   parsed. Child: RoundTrip.
-- - Session.PeerSession: shared/session/src/peer_session.cpp. Children: Choke, on what gets through;
--   Rewind, on pairing messages that come late.
-- - Apps.Phone: apps/phone-core/phone_runtime.cpp. Children: Live, on the button and the microphone;
--   Worker, on its timeouts.
-- - Apps.Service: the callbacks and the loop of apps/service/main.cpp, over the operations of a router and
--   a phone source, which Apps.Service.Parts fills with those above. Children: Announce, on PTT_READY;
--   Switch, on the router behind it. Apps.Link: the phone and the service over a network that loses,
--   delays, reorders and repeats.
--
-- An object is a record, and a method a function from it to what it returns and the new record. Calls
-- run one after another: the memory orders of the atomics and the locks are not modelled. Machine words
-- are natural numbers with their wrap-around written out. Memory is a function from indices. The lists of
-- bytes and character codes are lists of numbers.
--
-- Parameters stand for code outside the repository: floating-point arithmetic (Audio.Float, with the laws
-- that are used and an instance of them in Audio.Float.Milli), the audio devices (Audio.Io), sodium
-- (Media.SecureChannel, Security.Exchange), the Opus decoder and the estimate in doubles
-- (Media.JitterBuffer), the Opus encoder (Media.PhoneSource), the JSON reader (Session.PeerSession), the
-- JSON library (Protocol.Codec), and what the kernel, its memory manager and PortCls answer (the modules
-- of Driver).
--
-- `roundUpPow2` runs on fuel 64, which is enough up to 2 ^ 63; the loop of `drainEvents` on one more
-- than the capacity of its queue, which is enough because the queue holds no more.
--
-- Not modelled: exceptions that end the process, where a peer sends a field that is no text; transports,
-- the resampler, key files, the command line of the service, COM queries and descriptors of the driver.
-- Left out: Windows audio calls, logging, third-party copies, user interfaces, and the apps in other
-- languages.
pub mod Prelude
pub mod Cells
pub mod Audio
pub mod Driver
pub mod Protocol
pub mod Media
pub mod Security
pub mod Session
pub mod Apps
