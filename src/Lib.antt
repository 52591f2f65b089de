-- ===== src/Lib.antt =====
-- vinezombie is an IRC library. Its core turns lines into messages and messages into lines
-- (`src/ircmsg`), over byte strings whose types carry guarantees (`src/string`) and a flat map for
-- tags (`src/util/flatmap.rs`). The client (`src/client`) queues messages, sends them and runs
-- handlers on the replies.
--
-- What each file models:
--
-- Prelude: Boolean tests, lists over native numbers, byte strings, integers.
-- Text.Kinds: the string types of `src/string/subtypes.rs`. A string is its bytes, and the
--   guarantee of its type is `IsValid`; `from_bytes`, `from_super` and `find_invalid` are the
--   conversions of `src/string/subtypes/macros.rs`.
-- Text.Splitter: `Splitter` of `src/string/splitter.rs`, a string with the range that is still to
--   be read. A method returns its result and the new splitter. The predicate `View` of
--   Text.Splitter.View says which bytes a splitter shows; the parsers are proved by it alone.
-- Text.Escape: `escape` and `unescape` of `src/string/tf/escape.rs`.
-- Text.Casemap: `map_bytes` of `src/string/tf.rs` and the casemaps of `src/string/tf/casemap.rs`.
-- Text.Builder and Text.Trim: `Builder` of `src/string/builder.rs`, and `TrimAscii` of
--   `src/string/tf/trim.rs`.
-- Text.Chunks: the encoder and decoder of `src/string/base64.rs`. The engine of the base64 crate is a
--   parameter, and the record `Encodes` says what is documented of it.
-- Util.FlatMap: `from_vec` and `do_dedup` of `src/util/flatmap.rs`; the pointers are indices.
-- Util.EditGuard: the lookups of `FlatMap` and its edit guard, as the list of all elements and the
--   length of the sorted part. A lawful order of keys is a record that the proofs take.
-- Ircmsg.Tags.Edit: the edit guard of `Tags`, over that of `FlatMap`.
-- Ircmsg.Args, Ircmsg.Source, Ircmsg.Tags, Ircmsg.Numeric: the parts of a message, from the files
--   of `src/ircmsg` with those names. Ircmsg.Numeric holds `Cmd::from_word` too.
-- Ircmsg.Codec: `parse`, `write_to`, `bytes_left` and `send_to` of `src/ircmsg/codec.rs`, and
--   `parse` of `src/ircmsg/client.rs` and `src/ircmsg/server.rs`. The functions that read a source
--   and a kind are parameters, as they are in the code. The writer's `write_all` is a parameter.
-- Ircmsg.Read: the readers of `src/ircmsg/codec.rs`. The stream is a parameter with its `read_until`,
--   and the record `Feeds` says what `std` documents of it on a stream that has a newline.
-- Ircmsg.Frames: `scroll_buf`, the encoders and the decoders for `tokio_util` in the same file.
-- Ircmsg.Ctcp: `MaybeCtcp` of `src/ircmsg/ctcp.rs`, with the builder that writes it.
-- State.Mode, State.Types, State.Status: `src/state/mode.rs`. A mode is its letter and a set of modes
--   its `u64`; the laws of bits are in Prelude.Bits.
-- Client.Queue: `Queue` of `src/client/queue.rs`. The readings of the clock are arguments, and the
--   largest `Instant` is a parameter. The adjuster is a record of the trait's operations.
--   Client.Queue.Labels is its labeler, and Client.Queue.Multi the collection of adjusters.
-- Client.Nick: the generators of `src/client/nick.rs` as records of operations on their states, and in
--   Client.Nick.Suffix those of `src/client/nick/suffix.rs`. An overflow is a panic.
-- Client.TimeLimits: the limits and the deadline of `src/client/conn/time.rs`, and the reads that it bounds,
--   over a connection that is a record of operations. A call of one takes the time at which it is made, and a
--   read also gives the time at which it returns.
-- Client.Handlers: `Handlers` of `src/client/handler.rs`, and `SenderRef` of `src/client/handler/channel.rs`.
--   A boxed handler is a state with the function that runs it.
-- Client.Auth: the queue and the mechanisms of `src/client/auth.rs` and `src/client/auth/sasl`, and in
--   Client.Auth.Handler the handler of `src/client/auth/handler.rs`. What is sent is a list of messages.
-- Client.Messages: what these handlers share. Client.Ping: `src/client/handlers/ping.rs`.
-- Client.Cap: `src/client/cap.rs`. Client.Cap.Replies has the server's line that acknowledges a request.
-- Client.Register: `src/client/register.rs` and the types of `src/client/register/handler.rs`. Its handler
--   is in Client.Register.Handling, with what it does on CAP messages in Client.Register.Negotiation and
--   what its arms read in Client.Register.Parts. Moves, Negotiated and Steps below it say once what a
--   message can do to the state, the flag and the account; the properties of runs are instances.
-- Names: `src/names/types.rs`.
--
-- Loops. `Args::parse` runs on fuel for one round more than the line has bytes, which is enough.
-- The head of a message takes three rounds, since each further round clears a flag. The loop of
-- `Tags::parse` takes its fuel as an argument: for tags that were written, one round more than
-- there are tags is enough, and for some tags no fuel is enough. The handlers of a client are run
-- with fuel for as many rounds as there are handlers, which is enough, since each round leaves one
-- fewer to run; the chunks of an encoder are collected with fuel for as many as its length says.
-- The capabilities of a CAP message and the mechanisms of `sasl` are read with fuel for one round more than
-- there are bytes.
--
-- Not modelled: lengths that overflow a `usize`, memory and its capacity, whether a string is
-- borrowed or owned, and serde; that a string is secret is modelled for base64 chunks only. The
-- asynchronous variants of the readers and of the time limits, the loading of secrets, the loop of
-- the client, what a registration saves and the connections are left out.
pub mod Prelude
pub mod Text
pub mod Ircmsg
pub mod Util
pub mod Names
pub mod Client
pub mod State
