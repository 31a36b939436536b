-- ===== src/Transport/Pool/Authentic.antt =====
-- Over which connections the messages for a device go.
use failsafe.Prelude.{
  ℕ, ◌≡◌, sym, ◌∙◌, subst, inl, inr, String, Option, none, some, List, [], ◌∷◌, ◌++◌, nat_beq,
  Result, ok, err, arith, nat_key, string_key, ◌==◌, Bool-cases, Option-cases, Result-cases, beq→eq,
}
use failsafe.Prelude.Assoc.{get, get-insert, get-remove}
use failsafe.Core.Message.{DeviceId}
use failsafe.Transport.Pool.{
  Connection, Connections, Keys, parse_endpoint_addr, reverse_each, build_reverse_lookup, from_book,
  update_address_state, resolve_device, registered, accept, dialed, dial_key, dial_missing,
  try_dial_one, dial_each, dial_peers, stream_accept_ended, send_over,
}
use failsafe.Transport.Pool.Books.{Listed, Listed-append, reverse_each-Listed, Sound}

pub data PoolEvent : Type 0 where
  accepts : Connection → PoolEvent
  dials : (ℕ → Result String Connection) → PoolEvent
  handler_ends : DeviceId → ℕ → PoolEvent
  updates : List (DeviceId × String) → PoolEvent

module _ (keys : Keys) where
  open keys use {text}

  registered-Sound :
      (books : List (DeviceId × String)) (connection : Connection) (w : Connections)
      → Sound keys books w
      → Sound keys books (registered keys connection w (resolve_device keys connection w.addresses))
  unfolding resolve_device send_over
  registered-Sound books connection w h =
      elim (Option-cases (get (text connection.remote_id) w.addresses.reverse_lookup)) [
        | inl unknown ↦ rw unknown h
        | inr (device, known) ↦
            let listed = h.0 device connection.remote_id known in
            rw known (
              h.0,
              λ d c at.
                  let step = sym (get-insert device d connection w.pool) ∙ at in
                  elim (Bool-cases (device == d)) [
                    | inl same ↦
                        let this : connection ≡ c = ground (arith, step, same) in
                        subst (λ (x : Connection). Listed keys d x.remote_id books) this
                          (subst (λ x. Listed keys x connection.remote_id books)
                            (beq→eq device d same) listed)
                    | inr other ↦ h.1 d c (ground (arith, step, other))
                  ],
            )
      ]

  accept-Sound :
      (books : List (DeviceId × String)) (connection : Connection) (w : Connections)
      → Sound keys books w
      → Sound keys books (accept keys connection w)
  unfolding accept
  accept-Sound books connection w h =
      elim (Bool-cases (nat_beq connection.remote_id keys.local_id)) [
        | inl own ↦ rw own h
        | inr other ↦ rw other (registered-Sound books connection w h)
      ]

  dialed-Sound :
      (books : List (DeviceId × String)) (r : Result String Connection) (w : Connections)
      → Sound keys books w
      → Sound keys books (dialed keys w r)
  dialed-Sound books (err e) w h = h
  dialed-Sound books (ok connection) w h = registered-Sound books connection w h

  dial_key-Sound :
      (books : List (DeviceId × String)) (connect : ℕ → Result String Connection)
      (r : Result String ℕ) (w : Connections)
      → Sound keys books w
      → Sound keys books (dial_key keys connect w r)
  dial_key-Sound books connect (err e) w h = h
  dial_key-Sound books connect (ok key) w h = elim (Bool-cases (nat_beq key keys.local_id)) [
    | inl own ↦ rw own h
    | inr other ↦ rw other (dialed-Sound books (connect key) w h)
  ]

  dial_missing-Sound :
      (books : List (DeviceId × String)) (address : String) (connect : ℕ → Result String Connection)
      (o : Option Connection) (w : Connections)
      → Sound keys books w
      → Sound keys books (dial_missing keys address connect w o)
  dial_missing-Sound books address connect (some connection) w h = h
  dial_missing-Sound books address connect none w h =
      dial_key-Sound books connect (parse_endpoint_addr keys address) w h

  dial_each-Sound :
      (books peers : List (DeviceId × String)) (connect : ℕ → Result String Connection)
      (w : Connections)
      → Sound keys books w
      → Sound keys books (dial_each keys peers connect w)
  unfolding dial_each try_dial_one
  dial_each-Sound books [] connect w h = h
  dial_each-Sound books ((device, address) ∷ peers) connect w h =
      dial_each-Sound books peers connect _
        (dial_missing-Sound books address connect (get device w.pool) w h)

  ended-Sound :
      (books : List (DeviceId × String)) (device : DeviceId) (number : ℕ) (w : Connections)
      → Sound keys books w
      → Sound keys books (stream_accept_ended device number w)
  unfolding stream_accept_ended send_over
  ended-Sound books device number w h = (
    h.0,
    λ d c at.
        let step = sym (get-remove device d w.pool) ∙ at in
        elim (Bool-cases (device == d)) [
          | inl same ↦ absurd (ground (arith, step, same))
          | inr other ↦ h.1 d c (ground (arith, step, other))
        ],
  )

  update-Sound :
      (books book : List (DeviceId × String)) (w : Connections)
      → Sound keys books w
      → Sound keys (book ++ books) (update_address_state keys book w).0
  unfolding update_address_state from_book build_reverse_lookup get send_over
  update-Sound books book w h =
      let pooled = λ (d : DeviceId) (c : Connection) (at : send_over d w ≡ some c).
        Listed-append keys d c.remote_id book books (inr (h.1 d c at)) in
      elim (Result-cases (reverse_each keys book [])) [
        | inl (e, bad) ↦
            rw bad (λ d r at. Listed-append keys d r book books (inr (h.0 d r at)), pooled)
        | inr (reverse, good) ↦ rw good (
          λ d r at. elim (reverse_each-Listed keys book [] reverse d r good at) [
            | inl before ↦ absurd (ground (arith, before))
            | inr listed ↦ Listed-append keys d r book books (inl listed)
          ],
          pooled,
        )
      ]

  unfoldable pub happens : PoolEvent → Connections → Connections
  happens (accepts connection) w = accept keys connection w
  happens (dials connect) w = dial_peers keys connect w
  happens (handler_ends device number) w = stream_accept_ended device number w
  happens (updates book) w = (update_address_state keys book w).0

  unfoldable pub happen : List PoolEvent → Connections → Connections
  happen [] w = w
  happen (e ∷ es) w = happen es (happens e w)

  -- The entries of all books that were taken over or refused, the last first.
  abbrev pub books_of : List PoolEvent → List (DeviceId × String) → List (DeviceId × String)
  books_of [] books = books
  books_of (accepts connection ∷ es) books = books_of es books
  books_of (dials connect ∷ es) books = books_of es books
  books_of (handler_ends device number ∷ es) books = books_of es books
  books_of (updates book ∷ es) books = books_of es (book ++ books)

  happen-Sound :
      (es : List PoolEvent) (books : List (DeviceId × String)) (w : Connections)
      → Sound keys books w
      → Sound keys (books_of es books) (happen es w)
  unfolding happen happens dial_peers
  happen-Sound [] books w h = h
  happen-Sound (accepts connection ∷ es) books w h =
      happen-Sound es books _ (accept-Sound books connection w h)
  happen-Sound (dials connect ∷ es) books w h =
      happen-Sound es books _ (dial_each-Sound books w.addresses.book connect w h)
  happen-Sound (handler_ends device number ∷ es) books w h =
      happen-Sound es books _ (ended-Sound books device number w h)
  happen-Sound (updates book ∷ es) books w h =
      happen-Sound es (book ++ books) _ (update-Sound books book w h)

  abbrev pub unconnected : Connections
  unconnected = record {
    pool = [];
    addresses = record { book = []; reverse_lookup = [] };
    handlers = [];
  }

  -- However connections come, are dialled and end, and whatever books the device gets, what is sent to
  -- a device goes over a connection whose other end has the key of an address that one of the books
  -- gave for that device.
  pub send_over-Listed :
      (es : List PoolEvent) (device : DeviceId) (connection : Connection)
      → send_over device (happen es unconnected) ≡ some connection
      → Listed keys device connection.remote_id (books_of es [])
  unfolding send_over get
  send_over-Listed es device connection at =
      let start : Sound keys [] unconnected =
        (λ d r h. absurd (ground (arith, h)), λ d c h. absurd (ground (arith, h))) in
      (happen-Sound es [] unconnected start).1 device connection at
