-- ===== src/Lib.antt =====
-- A model of usb-camera-over-tailscale, a board that joins a tailnet by its own Tailscale node and
-- serves pictures of a USB camera over HTTP.
--
-- A packet from the network reaches the node as a WireGuard message or a disco message
-- (crates/tsnode/src/magicsock.rs tells them apart). A WireGuard transport message is decrypted, its
-- counter goes through the replay window, and the IP packet inside through the packet filter
-- before it reaches the local TCP stack. The control server is spoken to over HTTP/2
-- in encrypted records, which an HTTP/1.1 upgrade starts.
--
-- Parts and files:
-- - Base, Ip: shared helpers. Numbers are natural; a machine word keeps its wrap-around written out.
--   Bytes are numbers and texts are lists of code points. Code that can fail returns `Exec`: a
--   value, an error, or a panic for an index or a slice out of range.
-- - Wireguard.Replay: `ReplayWindow` of crates/tsnode/src/wireguard.rs. The loop that clears words
--   runs on fuel, one more than the words it passes, which is shown to be enough.
-- - Crypto: crates/tsnode/src/crypto.rs, with the third-party primitives as a record and what is
--   relied on as laws (decryption undoes encryption, both ends of a key exchange agree, sizes).
--   Noise: crates/tsnode/src/noise.rs.
-- - Wireguard: crates/tsnode/src/wireguard.rs. Tunnel is the state, Handshake makes and reads the
--   handshake messages, Transport is the data path with `tick`. Fresh random values and the
--   timestamp are arguments, a time is a number of seconds, and an error leaves the tunnel as it was.
--   The keys for mac1 are computed where they are used.
-- - Filter: crates/tsnode/src/filter.rs. Compile is `IpSet::parse` and `Filter::compile`, Packet is
--   `parse_tuple`. The reader of addresses of the standard library is a parameter.
-- - Disco: crates/tsnode/src/disco.rs. The NaCl box is a record with the law that opening undoes
--   sealing, and random bytes are arguments.
-- - Stun: crates/tsnode/src/stun.rs. The loop over the attributes runs on fuel, one more than their
--   bytes, which is shown to be enough.
-- - Http: crates/adapter-core/src/http.rs. Requests and heads are bytes; what percent_decode gives is a text,
--   in which bytes that are not UTF-8 are replaced as String::from_utf8_lossy does (Base.Utf8).
-- - Uvc: crates/adapter-core/src/uvc.rs. The walk over the descriptors runs on fuel, one more than their
--   bytes; a parse error of the source is an error of `Exec`. Controls is the control table with the
--   parsing and the codec of settings.
-- - Shell: crates/adapter-core/src/shell.rs, a small monad over the device, the console to come and what
--   was shown. Line is `read_line`, Config the changes of the configuration, Wizard is `login` and
--   `wizard`, Commands is `dispatch`, Loop is `run`. The device is a record of actions, of which nothing is
--   assumed but where a theorem says so. The loops that wait for the user or the node have no bound, so
--   they run on fuel.
-- - Firmware: of firmware/src/nvs_store.rs `load_config`, `save_config` and the text of the networks, over
--   a store with the operations of the trait `Store` of crates/tsnode/src/node.rs. What is relied on of
--   it is that it is a map whose writes and removals are whole or change nothing of other keys.
-- - Net: the byte streams of crates/tsnode/src/net.rs, which are what their reads will give, one after the
--   other. Http1: crates/tsnode/src/http1.rs. The loops that read end with the stream. The loop over
--   chunks runs on fuel, one more than the bytes, of which every turn passes two at least.
-- - Derp: crates/tsnode/src/derp.rs, from the dialled connection on. Whether the deadline of a read has passed
--   is a function of the turn of its loop.
-- - Control: crates/tsnode/src/controlbase.rs. Handshake has both sides of the Noise handshake, Records is
--   `NoiseConn`, whose operations leave the connection changed also where they fail, and Dial is `dial`.
-- - H2: crates/tsnode/src/h2.rs. Frame is the framing, Handle is `handle_frame` and what it calls.
--   The HPACK decoder is a parameter, which may fail or panic; its panic is an error only on a target
--   that unwinds, which the firmware is not. Machine integers wrap around, as in a release build; a
--   debug build would panic where they overflow. A write appends to what was sent, or fails if the transport
--   does. Header names and values are kept as bytes, where the source makes them lossy strings, and
--   the error of a GOAWAY as its code and debug bytes.
--
-- Not modelled: crates/tsnode/src/magicsock.rs, control.rs, netstack.rs and node.rs, which tie these parts
-- together with sockets, threads, smoltcp and JSON; the rest of the firmware, which binds ESP-IDF; the host tool;
-- sockets and name resolution of net.rs; the texts of help and status in shell.rs; and of h2.rs the
-- requests and the waits for a response.
pub mod Base
pub mod Wireguard
pub mod Ip
pub mod Crypto
pub mod Noise
pub mod Filter
pub mod Firmware
pub mod Disco
pub mod Stun
pub mod Http
pub mod Net
pub mod Http1
pub mod Control
pub mod Derp
pub mod Uvc
pub mod Shell
pub mod H2
