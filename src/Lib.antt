-- ===== src/Lib.antt =====
-- Verification of shairplay-rust, an AirPlay receiver in Rust.
--
-- The receiver reads RTSP requests from a connection, and audio packets behind them. An encrypted
-- connection first passes through the framed cipher of src/crypto/chacha_transport.rs; the
-- plaintext goes to the incremental parser of src/proto/http.rs, and a whole request to the
-- dispatch of src/raop/rtsp.rs, which asks src/proto/digest.rs about a password; a pairing request
-- goes to the handlers of src/raop/handlers_ap2.rs, its body in the format of src/crypto/tlv.rs,
-- and on to src/crypto/pairing_homekit.rs or, for AirPlay 1, src/crypto/pairing.rs; a session's
-- description in that of src/proto/sdp.rs, and a track's metadata in that of src/proto/dmap.rs. The
-- audio of a classic session arrives as RTP packets, which src/raop/rtp.rs receives and
-- src/raop/buffer.rs decrypts, decodes with src/codec/alac.rs and puts in order; src/raop/ntp.rs
-- keeps its clock. src/net/ptp.rs reads the clock of the sender of an AirPlay 2 session, and
-- src/codec/aac.rs frames its buffered packets.
--
-- Files:
--   Base: natural numbers, Boolean tests, lists, machine words and the methods of `str`.
--   Tlv: crypto/tlv.rs. TlvValues is the list of entries; encode and decode are the loops, on fuel.
--   RaopBuffer: raop/buffer.rs. Format has parse_fmtp, parse_l16, parse_codec and build_decoder_info,
--     Decode the decryption and the codecs of queue, Build new and format, and the parent queue,
--     dequeue and flush. Invariant says when a buffer is well formed, Contents what it holds: the
--     frames from first_seqnum on, with gaps; Contents also has the abstract pop and offer.
--   ChachaTransport: crypto/chacha_transport.rs. CipherContext is the state of one direction.
--   Http: proto/http.rs. HttpRequest has the source's fields; scan is the loop over the head.
--   Rtsp: raop/rtsp.rs, and HttpResponse of proto/http.rs. dispatch is the middleware, the route table
--     and the special methods; Connection is the interface to what it calls.
--   Digest: proto/digest.rs, on the code points of the header.
--   Ntp: raop/ntp.rs. The task is a function from events and times to the packets sent.
--   Sdp: proto/sdp.rs. A line is read as a key and a value, and put where the field is none.
--   Dmap: proto/dmap.rs. The loop is recursion on fuel over what is left of the payload.
--   Alac: codec/alac.rs. The parent has the decoder and its configuration, Reader the bits, Rice and
--     Predictor the two stages of a channel, Subframe the headers, Output the bytes, and Frame
--     decode_frame. A word is its bit pattern, with the signed operations of Base/Words; `none` is a
--     panic. decode_mono and decode_stereo share decode_element, which their samples and bytes fill.
--   Ptp: net/ptp.rs. Messages are byte lists; OffsetSmoother has the source's fields.
--   Aac: codec/aac.rs.
--   BufferedAudio: raop/buffered_audio.rs, the parts of a payload that may be an AAC access unit.
--   Aes: crypto/aes.rs. AesCtr has the source's fields and the key; Stream has the cipher that takes one
--     byte at a time, Counter the counter as a number.
--   Crypto: what the pairings share: the primitives, the errors of error.rs and the result type. Toy has
--     primitives for the examples.
--   Rtp: raop/rtp.rs, around RaopBuffer. A round is a function of what the loop waited for; Framing has
--     the TCP connection, with what is done with a frame as a parameter, Drain the inner loop, whose
--     fuel of 33 is enough for a window of 32, Rounds the UDP loop, and View its abstract view.
--   Pairing: crypto/pairing.rs. Session has the calls of a session in any order, Handshake the client.
--   Homekit: crypto/pairing_homekit.rs. Srp is SrpServer up to M4, Identity M5 and M6, Verify
--     PairVerifyServer, and Store the MemoryPairingStore of raop/types.rs. Agreement has the numbers of
--     SRP-6a, Accepts the client, Gates and Signatures what an accepted message has shown.
--   PairHandlers: the handlers of pair-setup and pair-verify in raop/handlers_ap2.rs, with those of
--     raop/handlers_ap1.rs that they fall back to. RaopConnection is the part of the connection that they
--     change; Guarded has the requests of pair-verify one by one, Steps those of pair-setup, and Reachable
--     any sequence of them.
--
-- Choices: a machine integer is a natural number with its wrap-around written out; an i16, i32 or
-- i64 that is compared with zero is a ℤ, and a bit pattern in the ALAC decoder. A sample is a
-- multiple of 1/32768, or of 1/8388608 for 24 bits, which an f32 holds exactly. A loop whose steps
-- use up input is recursion on fuel, the length of the input, which is enough because a round takes
-- a byte at least; `stuck` marks exhausted fuel. The Rice decoder's fuel is the number of samples,
-- and each round moves its index on. A call that mutates its object returns its answer and the new
-- object.
--
-- Parameters: the AES-CBC of the `cbc` crate and the ALAC decoder as the packet buffer sees it
-- (Backend), MD5 (Md5), ChaCha20-Poly1305 (Aead, with the laws IsAead), HKDF (Hkdf), httparse with
-- the decoding of lossy UTF-8 (Library), the decoding of UTF-8 in metadata (Utf8), a block of AES
-- (BlockCipher, with the law IsBlockCipher), and SHA-512, the big numbers (with the laws IsBigNum),
-- Ed25519 and X25519 (Crypto). What is random is an argument. Interface: the handlers, the RSA
-- signature and the streams (Connection), of which only the pairing handlers have a model, in
-- PairHandlers.
--
-- Not modelled: sockets, tasks and logging; the AAC decoder; what a caught panic of the ALAC
-- decoder leaves in its buffers; FairPlay, whose tables have no specification; the request handlers
-- other than those of pairing. Overflow checks of debug builds are not modelled: the arithmetic
-- wraps, and a shift is by its amount modulo the width, as in release builds.
pub mod Base
pub mod Tlv
pub mod RaopBuffer
pub mod ChachaTransport
pub mod Ptp
pub mod Aac
pub mod Aes
pub mod Crypto
pub mod Pairing
pub mod Homekit
pub mod PairHandlers
pub mod Rtp
pub mod BufferedAudio
pub mod Http
pub mod Rtsp
pub mod Digest
pub mod Alac
pub mod Dmap
pub mod Sdp
pub mod Ntp
