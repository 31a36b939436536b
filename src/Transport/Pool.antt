-- ===== src/Transport/Pool.antt =====
-- iroh/manager.rs, iroh/protocol.rs and iroh/address.rs of crates/failsafe-transport, with the sending
-- of iroh/transport.rs: the connections to the peers, and which device each one stands for. Keys and
-- connecting are parameters, and errors are their texts.
pub mod Books
pub mod Authentic
pub mod Replaced
use failsafe.Prelude.{
  ℕ, ◌≡◌, Bool, true, false, String, Option, none, some, List, [], ◌∷◌, ◌++◌, map, nat_beq,
  if◌then◌else◌, Result, ok, err, ◌>>=◌, ok_or, nat_key, string_key, pair_key, ◌==◌, Key, keep, not,
}
use failsafe.Prelude.Assoc.{get, insert, remove}
use failsafe.Prelude.Strings.{append}
use failsafe.Core.Message.{DeviceId}

-- `remote_id` is the key of the other end.
pub record Connection : Type 0 where
  pub number : ℕ
  pub remote_id : ℕ

-- `book` is the address book; a hash map in it is a list of its entries in their order.
pub record AddressState : Type 0 where
  pub book : List (DeviceId × String)
  pub reverse_lookup : List (String × DeviceId)

-- `handlers` are the loops that accept the streams of a connection, with its device.
pub record Connections : Type 0 where
  pub pool : List (DeviceId × Connection)
  pub addresses : AddressState
  pub handlers : List (DeviceId × ℕ)

-- `public_key` reads a key, `text` writes it; `local_id` is the own key.
pub record Keys : Type 0 where
  pub public_key : String → Result String ℕ
  pub text : ℕ → String
  pub local_id : ℕ

abbrev pub connected_peers : Connections → List DeviceId
connected_peers w = map (λ (p : DeviceId × Connection). p.0) w.pool

abbrev unknown_advice : String
unknown_advice =
    "; not in peer address book — if this repeats, remove stale devices from the server or re-pair the connecting device so its iroh key matches"

module _ (keys : Keys) where
  open keys use {public_key, text, local_id}

  abbrev invalid_key : Result String ℕ → Result String ℕ
  invalid_key (ok key) = ok key
  invalid_key (err e) = err (append "invalid iroh public key: " e)

  unfoldable pub parse_endpoint_addr : String → Result String ℕ
  parse_endpoint_addr address = invalid_key (public_key address)

  abbrev pub noted :
      DeviceId
      → List (String × DeviceId)
      → Result String ℕ
      → Result String (List (String × DeviceId))
  noted device reverse (err e) = err e
  noted device reverse (ok key) = ok (insert (text key) device reverse)

  -- The loop of `build_reverse_lookup`.
  unfoldable pub reverse_each :
      List (DeviceId × String) → List (String × DeviceId) → Result String (List (String × DeviceId))
  reverse_each [] reverse = ok reverse
  reverse_each ((device, address) ∷ entries) reverse =
      noted device reverse (parse_endpoint_addr address) >>= λ more. reverse_each entries more

  unfoldable pub build_reverse_lookup :
      List (DeviceId × String) → Result String (List (String × DeviceId))
  build_reverse_lookup book = reverse_each book []

  unfoldable pub from_book : List (DeviceId × String) → Result String AddressState
  from_book book =
      build_reverse_lookup book >>= λ reverse. ok (record { book = book; reverse_lookup = reverse })

  abbrev pub updated :
      Connections → Result String AddressState → Connections × Result String (Unit {0})
  updated w (err e) = (w, err e)
  updated w (ok next) = (record w { addresses = next }, ok tt)

  unfoldable pub update_address_state :
      List (DeviceId × String) → Connections → Connections × Result String (Unit {0})
  update_address_state book w = updated w (from_book book)

  unfoldable pub resolve_device : Connection → AddressState → Result String DeviceId
  resolve_device connection addresses =
      ok_or (get (text connection.remote_id) addresses.reverse_lookup)
        (append "unknown remote endpoint " (append (text connection.remote_id) unknown_advice))

  -- A connection that is resolved goes into the pool, in place of the one that its device had, and a
  -- handler takes its streams.
  abbrev pub registered : Connection → Connections → Result String DeviceId → Connections
  registered connection w (err e) = w
  registered connection w (ok device) = record w {
    pool = insert device connection w.pool;
    handlers = (device, connection.number) ∷ w.handlers;
  }

  -- `FailsafeProtocol::accept` up to its loop.
  unfoldable pub accept : Connection → Connections → Connections
  accept connection w =
      if nat_beq connection.remote_id local_id
      then w
      else registered connection w (resolve_device connection w.addresses)

  abbrev pub dialed : Connections → Result String Connection → Connections
  dialed w (err e) = w
  dialed w (ok connection) = registered connection w (resolve_device connection w.addresses)

  abbrev pub dial_key : (ℕ → Result String Connection) → Connections → Result String ℕ → Connections
  dial_key connect w (err e) = w
  dial_key connect w (ok key) = if nat_beq key local_id then w else dialed w (connect key)

  abbrev pub dial_missing :
      String → (ℕ → Result String Connection) → Connections → Option Connection → Connections
  dial_missing address connect w (some connection) = w
  dial_missing address connect w none = dial_key connect w (parse_endpoint_addr address)

  -- `connect` dials a key.
  unfoldable pub try_dial_one :
      DeviceId → String → (ℕ → Result String Connection) → Connections → Connections
  try_dial_one device address connect w = dial_missing address connect w (get device w.pool)

  unfoldable pub dial_each :
      List (DeviceId × String) → (ℕ → Result String Connection) → Connections → Connections
  dial_each [] connect w = w
  dial_each ((device, address) ∷ peers) connect w =
      dial_each peers connect (try_dial_one device address connect w)

  -- The book is read once, and no connection comes or ends while its entries are dialled.
  unfoldable pub dial_peers : (ℕ → Result String Connection) → Connections → Connections
  dial_peers connect w = dial_each w.addresses.book connect w

-- The end of a handler, whose connection takes no more streams.
unfoldable pub stream_accept_ended : DeviceId → ℕ → Connections → Connections
stream_accept_ended device number w = record w {
  pool = remove device w.pool;
  handlers = keep (λ h. not (h == (device, number))) w.handlers;
}

-- What `send` does: the connection that takes the frame.
unfoldable pub send_over : DeviceId → Connections → Option Connection
send_over to w = get to w.pool
