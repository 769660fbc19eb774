-- ===== src/Lib.antt =====
-- Fluvora, a streaming platform in Rust: a verification library for its core.
--
-- The program. A control plane keeps rooms, whose members, roles, chat and gifts are decided by an
-- event-sourced aggregate (crates/foundation/domain): a command is decided against the room, the
-- event it yields is applied to the room and stored, and a room is rebuilt from its events or from
-- a snapshot. A media plane carries WebRTC. A node reads datagrams from one socket and sorts them
-- by their first bytes (crates/webrtc/rtc-datagram), unprotects media with SRTP
-- (crates/webrtc/srtp), parses RTP (crates/webrtc/rtp), and forwards each packet to the down-tracks
-- of the subscribers (crates/webrtc/sfu-core), which rewrite it and keep it for retransmission. The
-- layer that a down-track aims at is chosen by crates/webrtc/congestion-control, which also estimates
-- the bandwidth. Feedback comes as RTCP (crates/webrtc/rtcp), keyframes are recognised by
-- crates/webrtc/media-codec, and the keys of SRTP come from a DTLS handshake
-- (crates/webrtc/dtls-adapter).
-- Field encodings share a cursor and a bounded buffer (crates/foundation/bytes-codec).
--
-- The files.
-- - Prelude: names that the rest shares. Prelude.Words has the checked and saturating operations,
--   Prelude.Bytes big-endian integers, Prelude.Bits and Prelude.Masks single bits and masks,
--   Prelude.Int signed integers, Prelude.Fields fields read by position, Prelude.Sets and Prelude.Maps the hash sets and
--   maps, Prelude.Text strings, Prelude.Sorting and Prelude.Collect what their names
--   say of Rust's library.
-- - Room: crates/foundation/domain/src/lib.rs. Room.Model has the types, Room.History
--   the bounded deduplication histories, Room.Decide `decide` with one function per command,
--   Room.Apply `apply`, `create`, `restore` and `execute`, Room.Snapshot `snapshot` and
--   `restore_snapshot`. Room.Members, Room.Allowed, Room.Staff, Room.Execute, Room.Invariant,
--   Room.Replay, Room.Idempotence, Room.Gifts, Room.Authority and Room.RoundTrip hold the proofs.
-- - BytesCodec: crates/foundation/bytes-codec/src/lib.rs. BytesCodec.Reader is `Reader`,
--   BytesCodec.Writer is `Writer`, BytesCodec.Fields what a sequence of fields written and read
--   does.
-- - Rtp: crates/webrtc/rtp. Rtp.Sequence is sequence.rs, Rtp.Extension is extension.rs, Rtp.Packet
--   the parser of packet.rs (`parse`, `parse_header_length`), Rtp.Build its builder, Rtp.Rewrite
--   `rewrite_header_extensions` and `Rewrite::apply`, Rtp.Errors error.rs. Rtp.ExtensionRoundTrip,
--   Rtp.HeaderLength, Rtp.Prefix, Rtp.Kept, Rtp.RewriteParse and Rtp.Spelled hold proofs.
-- - Srtp: crates/webrtc/srtp. Srtp.Replay is replay.rs with the outbound index of context.rs,
--   Srtp.Keys is keys.rs, Srtp.Context `protect_rtp` and `unprotect_rtp` of context.rs, Srtp.Control
--   `protect_rtcp` and `unprotect_rtcp`, Srtp.Errors is error.rs. AES in counter mode and HMAC-SHA1 are
--   the record Srtp.Keys.Primitives, and what the code relies on of them is Srtp.Keys.Lawful. Srtp.Window,
--   Srtp.Index, Srtp.Crypt, Srtp.Media, Srtp.Indexed, Srtp.Paired, Srtp.Exchange,
--   Srtp.ControlExchange, Srtp.Session and Srtp.Authentic hold the proofs. A call that changes a
--   packet in place returns the context, the packet and its answer.
-- - Datagram: crates/webrtc/rtc-datagram/src/lib.rs. Datagram.Classify is the whole of it,
--   Datagram.Mux a proof.
-- - MediaCodec: crates/webrtc/media-codec/src/lib.rs. MediaCodec.Inspect is `inspect_payload` with
--   what it calls, MediaCodec.Facts a proof.
-- - SfuCore: crates/webrtc/sfu-core. SfuCore.Model is model.rs with the two types it takes from
--   crates/webrtc/media-codec/src/lib.rs, and SfuCore.Outputs the rest of it with error.rs;
--   SfuCore.DownTrack and SfuCore.Forward are down_track.rs; SfuCore.Room and SfuCore.Routing are
--   room.rs, the tracks and subscriptions in the one and `handle_rtp` and `handle_rtcp` in the other.
--   SfuCore.Forwarding, SfuCore.Keyframes, SfuCore.Timestamps, SfuCore.Consistency, SfuCore.Tracks,
--   SfuCore.Subscribers, SfuCore.Unchanged, SfuCore.Handled, SfuCore.Reached and SfuCore.Throttle hold
--   the proofs.
-- - Rtcp: crates/webrtc/rtcp. Rtcp.Model is model.rs with error.rs, Rtcp.Twcc is twcc.rs, Rtcp.Parse
--   and Rtcp.Encode are the two halves of codec.rs. Rtcp.Fits says which packets have fields that
--   fit the wire. Rtcp.Reports, Rtcp.Descriptions, Rtcp.Feedback, Rtcp.Statuses, Rtcp.Compound and
--   Rtcp.Loops hold the proofs.
-- - Dtls: crates/webrtc/dtls-adapter. Dtls.Keying is keying.rs, Dtls.Fingerprint is fingerprint.rs,
--   Dtls.Errors is error.rs; Dtls.Mirrored, which joins Dtls.Keying with Srtp.Context, and
--   Dtls.Printed hold the proofs.
-- - Congestion: crates/webrtc/congestion-control. Congestion.Selector is layer.rs,
--   Congestion.Estimator is estimator.rs over the signed arithmetic of Congestion.Signed,
--   Congestion.Best, Congestion.Hysteresis and Congestion.Bounds are proofs. The unstable sort of
--   the options is a stable one, which gives one of the orders that Rust allows.
--
-- How state is read. A method that takes `&mut self` is a function that returns the value after
-- it, beside its answer; where an error leaves changes behind, as in `DownTrack::forward`, the state
-- is returned with the error. A `Result` is `Prelude.Result`. Unsigned integers are native numbers:
-- where Rust wraps, the remainder is written out, and where it checks or saturates, the operations
-- of Prelude.Words are used with the width. A `Duration` is a number of nanoseconds, and
-- `saturating_sub` is subtraction that stops at 0. Sets and maps are lists with one entry for each
-- key. Only `handle_rtp` of SfuCore.Routing reads the order of a map's values, and it is given that
-- order as a parameter. Identifiers are numbers.
--
-- Loops. Those over a list, a slice or a deque are structural recursion. The two parsers of header
-- extensions jump over a value and so take fuel, the length of the block that they are given; each
-- round reads one byte at least, and the round trip shows that this is enough for every encoded
-- block. The loop of the RTCP parser has the length of the datagram as its fuel; out of fuel is
-- `none`, apart from every answer, and with this fuel there always is an answer, which more fuel does
-- not change. Its loops over chunks and items take fuel in the same way, and the round trip shows that
-- it is enough for what is encoded. The loop of
-- `register_sent` has the fuel as an argument, since it need not end. The loops of payload inspection
-- take the length of the payload, each round reading one byte at least. The loop of `evict` in Room.History ends because each round drops the oldest element.
--
-- What is not modelled. `Display` of errors, which is text. The inside of AES and HMAC, and the
-- zeroizing of memory. SDP, STUN, TURN, ICE, the OpenSSL backend of DTLS, the data channel, the media pipeline, and the services, which run these crates over sockets, processes and databases.
pub mod Prelude
pub mod BytesCodec
pub mod Datagram
pub mod Dtls
pub mod MediaCodec
pub mod Rtp
pub mod Rtcp
pub mod Srtp
pub mod SfuCore
pub mod Congestion
pub mod Room
