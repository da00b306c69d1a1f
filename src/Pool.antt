-- ===== src/Pool.antt =====
-- _pool.py: the connections that a client keeps open, one for each endpoint.
pub mod Endpoint
pub mod Keyed
pub mod Sharing
pub mod Custody
pub mod Safety
use dlight_client.Common.{
  ℕ, suc, ◌+◌, Option, none, some, Bool, true, false, not, ◌&&◌, ◌||◌, List, [], ◌∷◌, ◌++◌, leb,
  eqb, if◌then◌else◌,
}
use dlight_client.Errors.{Error, timeout_error, connection_error, Result, ok, err}
use dlight_client.Frame.{Stream}
use Endpoint.{Key}
use Keyed.{find, drop_key, store}

-- A reader and a writer. The bytes are those that the reader holds and nobody has read.
pub record Connection : Type 0 where
  pub id : ℕ
  pub buffered : List ℕ

pub record Entry : Type 0 where
  pub key : Key
  pub connection : Connection
  pub last_activity : ℕ

-- `ConnectionPool`, with what it has done to the sockets: how many were opened, which were closed.
-- Times are in milliseconds. An entry is taken out of the pool while its connection is in use.
pub record Pool : Type 0 where
  pub persistent : Bool
  pub idle_timeout : ℕ
  pub connections : List Entry
  pub opened : ℕ
  pub closed : List ℕ

-- What a `MSG_PEEK` on a duplicate of the socket says.
pub data Peek : Type 0 where
  no_duplicate end_of_stream pending would_block os_error other_error : Peek

-- The state of a cached connection when it is looked at. `none` is a missing socket.
pub record Probe : Type 0 where
  pub closing : Bool
  pub at_eof : Bool
  pub socket : Option Peek

abbrev pub peek_says_live : Peek → Bool
peek_says_live end_of_stream = false
peek_says_live os_error = false
peek_says_live _ = true

-- `_is_live`
unfoldable pub is_live : Probe → Bool
is_live p =
    if p.closing || p.at_eof
    then false
    else elim p.socket [ none ↦ true | some peek ↦ peek_says_live peek ]

-- How `asyncio.open_connection` under `wait_for` ends.
pub data Dial : Type 0 where
  connected late refused unreachable : Dial
  dial_raised : Error → Dial

abbrev pub key_of : Entry → Key
key_of e = e.key

-- `_close_writer`. A writer that is closing already is left alone, any other is closed, and errors
-- are dropped: in each case the connection is closed or closing afterwards.
unfoldable pub close_writer : ℕ → Pool → Pool
close_writer id p = record p { closed = id ∷ p.closed }

abbrev pub dial_error : Dial → Error
dial_error late = timeout_error
dial_error (dial_raised e) = e
dial_error _ = connection_error

-- The second part of `_checkout`: a new connection.
unfoldable pub dial : Dial → Pool → Result Connection × Pool
dial connected p =
    (ok (record { id = p.opened; buffered = [] }), record p { opened = suc p.opened })
dial failure p = (err (dial_error failure), p)

abbrev keep_or_close : Option Entry → ℕ → Probe → Pool → Option Connection × Pool
keep_or_close none now probe p = (none, p)
keep_or_close (some e) now probe p =
    if leb now (e.last_activity + p.idle_timeout) && is_live probe
    then (some e.connection, p)
    else (none, close_writer e.connection.id p)

-- The first part of `_checkout`: the cached connection is popped, and it is closed if it is too old
-- or not live.
unfoldable pub take_cached : Key → ℕ → Probe → Pool → Option Connection × Pool
unfolding is_live close_writer
take_cached key now probe p =
    keep_or_close (find key_of key p.connections) now probe
      (record p { connections = drop_key key_of key p.connections })

abbrev pub or_dial : Option Connection × Pool → Dial → Result Connection × Pool
or_dial (some c, p) d = (ok c, p)
or_dial (none, p) d = dial d p

-- `_checkout`
unfoldable pub checkout : Key → ℕ → Probe → Dial → Pool → Result Connection × Pool
checkout key now probe d p = or_dial (take_cached key now probe p) d

-- The end of `connection` when its body raised, and when it did not. `closing` is what
-- `writer.is_closing()` says then.
unfoldable pub evict : Connection → Pool → Pool
unfolding close_writer
evict c p = close_writer c.id p

unfoldable pub give_back : Key → Connection → Bool → ℕ → Pool → Pool
unfolding close_writer
give_back key c closing now p =
    if p.persistent && not closing
    then record p {
      connections =
          store key_of (record { key = key; connection = c; last_activity = now }) p.connections;
    }
    else close_writer c.id p

close_entries : List Entry → List ℕ → List ℕ
close_entries [] closed = closed
close_entries (e ∷ es) closed = e.connection.id ∷ close_entries es closed

-- `close_all`: `popitem` takes the youngest entry first
unfoldable pub close_all : Pool → Pool
unfolding close_entries
close_all p = record p { connections = []; closed = close_entries p.connections p.closed }

abbrev pub youngest : List Entry → Option Entry
youngest [] = none
youngest (e ∷ []) = some e
youngest (e ∷ f ∷ es) = youngest (f ∷ es)

abbrev pop_entry : Option Entry → Pool → Pool
pop_entry none p = p
pop_entry (some e) p =
    close_writer e.connection.id (record p { connections = drop_key key_of e.key p.connections })

-- One round of its loop; the event loop may run other tasks before the next one.
unfoldable pub close_one : Pool → Pool
unfolding close_writer
close_one p = pop_entry (youngest p.connections) p

abbrev pub empty_pool : Bool → ℕ → Pool
empty_pool persistent idle_timeout = record {
  persistent = persistent;
  idle_timeout = idle_timeout;
  connections = [];
  opened = 0;
  closed = [];
}
