-- ===== src/Lib.antt =====
-- A model of the rust-vnc crate, a client library and a proxy library for the RFB protocol
-- (VNC).
--
-- The crate and its parts:
--   * src/lib.rs declares the errors that every reader returns, and the rectangle type.
--   * src/protocol.rs has the messages of RFB. Each type has `read_from`, on any `Read`, and
--     `write_to`, on any `Write`.
--   * src/security/des.rs is the block cipher of VNC authentication.
--   * src/client.rs runs the handshake (`Client::from_tcp_stream`) by the messages of
--     src/protocol.rs and the cipher, and then a thread that turns messages into events.
--   * src/zrle.rs decodes the pixels of a ZRLE rectangle for that thread.
--   * src/proxy.rs relays the messages between a client and a server.
--   * client/main.rs and proxy/main.rs are programs on top of the library.
--
-- The files here:
--   * Common: names of the libraries, tests on numbers, lists measured by native numbers, 32-bit
--     signed integers, and `&`, `|`, `^` on words as arithmetic.
--   * Wire: `Error` and `Result` of src/lib.rs, and readers. A `Reader` is a function from the
--     bytes that still arrive to a result with those left over. `?` is the bind of the do
--     blocks. Wire/Ints has the big-endian integers of the byteorder crate, Wire/RoundTrip the
--     relation `Reads` between a reader and the bytes it takes up, Wire/Session a stream in both
--     directions, and Wire/Display how an error is printed.
--   * Protocol: src/protocol.rs, a module for each group of messages. `read_x` and `write_x` are
--     `X::read_from` and `X::write_to`; in the modules ClientMessage (`C2S`), ServerMessage
--     (`S2C`), Version, PixelFormat and Encoding they keep the names `read_from` and `write_to`.
--   * Des: src/security/des.rs, function by function; Des/Tables has its tables. Des/Permute and
--     Des/Feistel hold what the proofs need on the permutations and the rounds, Des/Bytes and
--     Des/Chunks on messages as blocks.
--   * Client: src/client.rs. Client/Auth has the methods and the caller's choice, and the
--     reversal of the password's bits; Client/Handshake has `from_tcp_stream` cut at its early
--     returns, in the order of the source; Client/Events has `Event`, `Event::pump` and the
--     thread that runs it; Client/Requests the methods of `Client` on a connection. Client/Apple
--     is src/security/apple.rs: the response to Apple remote desktop. Client/Password and the
--     modules below the others hold the theorems.
--   * Zrle: src/zrle.rs. Zrle itself has `BitReader`, `read_run_length` and the size of a tile
--     on one side; Zrle/Palette `copy_true_color` and `copy_indexed`; Zrle/Pixels the layout of
--     a pixel and the subencodings of a tile; Zrle/Decode `Decoder::decode`, and Zrle/Inflate
--     `ZlibReader`. The other modules below it hold the theorems.
--   * Proxy: src/proxy.rs. `from_tcp_streams` in the order of the source, one round and the loop
--     of each of the two threads, and `join`; Proxy/Threads has the rounds of both threads as a
--     step relation, the modules below it what a step keeps. Proxy/Serving is proxy/main.rs: the
--     ports, and what the program reports of each client. The other modules below hold theorems.
--   * Viewer: client/main.rs. Viewer itself has the closure that chooses an authentication
--     method, with the key that it makes of a password, the table of pixel formats, and the
--     match that settles on a format; Viewer/Start the rest of `main` before its loop.
--     Viewer/Running is that loop, round by round: Viewer/Screen has the match on the client's
--     events, Viewer/Drawing the drawing of the cursor, Viewer/Input the match on the user's
--     input. Viewer/Keys is `map_special_key`, Viewer/Cursor `mask_cursor`, and Viewer/Mask the
--     loop that widens a cursor's mask. The other modules below hold theorems.
--   * Protocol/Frame says on its own, without `read_from`, which bytes make up a whole message
--     of a server with its rectangles; Client/Events/Delivery says which events it is to give.
--   * Wire/Outcome: what an action keeps of its state, and what it gives where it succeeds.
--
-- How the state and the types correspond: a `u8`, `u16`, `u32` or `u64` is a native number, with
-- `% 2 ^ w` where the source casts with `as`; an `i32` is an integer in two's complement. A
-- `String` is the list of its code points, a `Vec<u8>` a list of bytes. A `TcpStream` is a
-- record of the bytes that will arrive and of those sent so far; an action on it returns the
-- stream together with the outcome, so that what was sent before an error is kept. The channel
-- of the events is the list of those sent and the number of those that its receiver still takes
-- before it is dropped. Its other end in Client/Requests is a list of what the calls of
-- `try_recv` find. The pixel format in the mutex is, for the thread, a function from the number
-- of a message to the format, since the program may change it at any time; the lock is taken
-- once for each message. In Proxy/Threads a round of a thread is one step, since each thread
-- reads one socket, writes the other, and writes at the end of a round. What the threads do
-- share is that either shuts both sockets down: that is a step too, and a round of the other
-- thread may then break off, in a read of it or behind a part of its write. The variables of the
-- program are two records, Controls for the input and Screen for what is shown. The calls of SDL
-- that draw are kept as a list, in order.
--
-- What the code relies on: `read_exact` of std takes exactly the number of bytes asked for or
-- fails, and byteorder's readers are `read_exact` and the big-endian value. Where a read fails,
-- what it consumed is not kept: the source never reads on after a failure. A write is taken to
-- succeed, but for the rounds that break off in Proxy/Threads. Every definition is by structural
-- recursion. Some recur on a bound. The chunks of a message in Des are no more than its bytes;
-- the loops over tiles take at least 1 off the side in each round, and the runs of a tile at
-- least one pixel; the loop of the event thread and the loops of the proxy take a byte of the
-- stream in each round, and their bound is the bytes that arrive and one more; the calls that
-- drain the channel are bounded alike. The loop of `set_format` need not end, so it takes the
-- bound as an argument and says whether it has ended.
--
-- What is a parameter: of flate2, `decompress` with what it adds to `total_in` and `total_out`,
-- in Zrle/Inflate; for `Decoder::decode` it is, with `ZlibReader` around it, the record `Zlib`,
-- which says what is delivered for compressed data, and whether the data was used up by that.
-- The cryptography of the Apple response (octavo, num-bigint, rust-crypto, and the MD5 of
-- src/security/md5.rs, which is another project's code) is the record Crypto. The handshake has
-- `apple_auth` as an argument; `none` stands for a build without the feature apple-auth. The
-- caller's closure `auth` is an argument too, and so are, of the program, the formats of SDL
-- with their `==` and masks, byteorder's NativeEndian, `str::bytes`, the keysyms of the crate
-- x11, what SDL's rectangles and pixels are, and how an io error is printed. The readings of the
-- clock and the events of SDL are given with each round of the program's loop: each event of the
-- client comes with the time at which it is handled, and with whether the frame is over behind
-- it. The calls of SDL are taken to succeed, but for `Rect::new_unwrap`. Logging is left out.
--
-- `read_exact` on a `ZlibReader` is the loop of std, for which as many rounds as bytes asked for
-- are enough, since a round that goes on has read one. The loop of `mask_cursor` takes a byte of
-- the cursor in each round, and its bound is one more than their number. Printing an error,
-- which may call itself without end, takes the depth as an argument.
--
-- Not modelled: `disconnect` of `Client`, which shuts the socket; of proxy/main.rs the command
-- line and the listener; and of client/main.rs the command line, the connection, and the
-- creation of SDL's contexts. The time for which SDL's events are waited for is left out, since
-- it only says when a round ends.
pub mod Common
pub mod Wire
pub mod Protocol
pub mod Des
pub mod Client
pub mod Zrle
pub mod Proxy
pub mod Viewer
