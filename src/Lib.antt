-- ===== src/Lib.antt =====
-- A model of dlight-client, a Python library that discovers and controls dLight lamps, with the
-- theorems that make it correct. Paths are from the repository's root.
--
-- The program. `DLightDevice` (dlightclient/device.py) caches the state of one lamp. It updates the
-- cache before the lamp answers, rolls it back when a command fails, and tells its listeners. Its
-- commands go through `AsyncDLightClient` (dlightclient/client.py), which checks arguments, encodes
-- a command, and sends it with retries. Each attempt takes a connection from `ConnectionPool`
-- (dlightclient/_pool.py), writes the command, and reads one framed response by
-- dlightclient/_frame.py.
--
-- The files.
-- - Common: tests, lists, integers and decimal digits that the rest shares.
-- - Errors: dlightclient/exceptions.py, the built-in exceptions that the package lets through, and
--   methods that may raise: what was written before a raise stays written.
-- - Json: decoded JSON as Python's values, dicts in order of insertion, and `==`. Numbers are
--   integers; fractions and NaN do not occur in the protocol and are not modelled.
-- - Models: dlightclient/constants.py and dlightclient/models.py.
-- - Codec: what the package uses of `json` and of UTF-8, as an interface. `Carries` is what a
--   round trip assumes of it for one value, and `Delimits` and `IsUtf8` what reading commands from
--   a stream does. Codec.Python is Python's own implementation: Printer is `json.dumps` with its
--   default separators and escapes, Reader is `json.loads` and `raw_decode` as a machine that takes
--   one character after the other, Characters the escapes, and Utf8 the bytes. The reader
--   takes integers only, and refuses digits that '.', 'e' or 'E' follows, NaN and an escaped lone
--   surrogate. It has none of the interpreter's limits on digits and depth.
-- - Frame: dlightclient/_frame.py. A stream is the bytes that arrive, and whether a timeout, the end
--   or a network error comes after them. Masking, Prefix, Responses, Failures and Commands hold the
--   proofs over any codec, and Exchange those over Python's.
-- - Pool: dlightclient/_pool.py. Pool has the operations, Endpoint the key of a connection, Keyed the
--   dict, Sharing the step relation of concurrent exchanges, Custody and Safety the invariant.
--   A step is what runs between two awaits of `connection`; the lock of a key is an entry of `locks`.
-- - Client: the retry loop of dlightclient/client.py. The network is any function that gives, for
--   each attempt and the timeout in force, the clock, the state of the cached connection, how
--   dialling and sending end, and what arrives. Commands has the public methods, Attempts, Retries,
--   Contract and Dropped the proofs, and Context the client as a context manager around tasks
--   that share its pool, with a closing loop that other tasks may interrupt. Durations and times are in milliseconds.
-- - Remote: the five methods of the client that a device calls, as an interface; Remote.Network is
--   the client as its implementation, and Remote.Lamp the client in front of the emulated lamp, over
--   a network that loses some commands. Remote.Wire follows the bytes of one command from the client
--   to the handler of the emulated lamp and back, Wire.Retried adds the attempts in vain before that,
--   Wire.Requests and Wire.Changes compare it with Remote.Lamp, and Wire.Conversation is a relation
--   for one command after the other.
-- - Device: dlightclient/device.py. State has the record and what the methods do to the cached dict,
--   Listeners the registration of listeners and their notices, Operations the methods, Scenes
--   `apply_scene`, Flash `flash`; the other modules hold the proofs. There a method runs as a whole;
--   Overlap has the methods that change one key as steps between awaits, with cancellations and state
--   queries, for other tasks that use the device meanwhile. Typed is about the type of the cache, Coherence has a device in front of the
--   emulated lamp, and Coherence.Networked one over the client, the wire and the lamp's handler. The
--   two commands of a scene reach the lamp in either order.
-- - Discovery: dlightclient/discovery.py. A stream is a machine whose events are the datagrams, the
--   turns of the generator, the expiry of `wait_for` and the caller's `aclose`. Streams, Answers and
--   Ends hold the proofs.
-- - Lamp: tools/fake_dlight_server.py, its failure modes and how it handles a command; Control has
--   the control port and Control.Sessions its connections, Server the handler of a connection,
--   Announcer the discovery responder. Python's `int`, `float` and `lower` are parameters.
-- - Cli: dlightclient/cli.py after the arguments are parsed; Choice has the choice of an action and how
--   the tool ends, Interaction what it does to a lamp.
-- - Examples: runs of the model, and the theorems at concrete inputs.
--
-- Interaction of the parts. Client uses Pool and Frame; Remote.Network makes a remote of it for Device;
-- Cli puts these and Discovery together. Remote.Lamp puts Lamp behind a device, and Lamp.Announcer
-- puts it before Discovery. Remote.Wire puts Client and Lamp.Server at the two ends of a connection.
--
-- Loops. The retry loop recurs on the rounds of its `range`, and the flash loop on the rounds left,
-- so neither needs fuel. The handler of a connection is run for two turns for each byte in its
-- buffer and one more, which is enough to come to its next read. The digits of a number n take
-- n + 1 rounds.
--
-- Left out: the messages of exceptions, logging, the pauses of `flash`, tasks of async listeners, a
-- cancellation of the task that awaits the `gather` of `apply_scene`, an interaction of the
-- command-line tool with an address or an id that is no text (its task is `odd_id`),
-- the sockets of discovery, the parsing and printing of dlightclient/cli.py and of
-- tools/fake_dlight_server.py, the exports of dlightclient/__init__.py, and the static data of
-- claude_skills_gemini.py.
pub mod Common
pub mod Errors
pub mod Json
pub mod Models
pub mod Codec
pub mod Frame
pub mod Pool
pub mod Client
pub mod Remote
pub mod Device
pub mod Discovery
pub mod Lamp
pub mod Cli
mod Examples
