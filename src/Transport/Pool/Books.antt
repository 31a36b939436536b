-- ===== src/Transport/Pool/Books.antt =====
-- The address books and the reverse table that is built from one: which device a key stands for.
use failsafe.Prelude.{
  ℕ, ◌≡◌, sym, ◌∙◌, ◌⊎◌, inl, inr, String, some, List, [], ◌∷◌, ◌++◌, ok, arith, nat_key,
  string_key, ◌==◌, Bool-cases, Result-cases, beq→eq,
}
use failsafe.Prelude.Assoc.{get, insert, get-insert}
use failsafe.Core.Message.{DeviceId}
use failsafe.Transport.Pool.{
  Connection, Connections, Keys, parse_endpoint_addr, reverse_each, send_over,
}

module _ (keys : Keys) where
  open keys use {text}

  -- One of the entries gives the device an address, whose key is that of the other end.
  abbrev pub Listed : DeviceId → ℕ → List (DeviceId × String) → Type 0
  Listed device remote [] = ⊥
  Listed device remote ((d, address) ∷ entries) =
      ((d ≡ device)
        × ((key : ℕ) × (parse_endpoint_addr keys address ≡ ok key) × (text key ≡ text remote)))
      ⊎ Listed device remote entries

  pub Listed-append :
      (device : DeviceId) (remote : ℕ) (xs ys : List (DeviceId × String))
      → Listed device remote xs ⊎ Listed device remote ys
      → Listed device remote (xs ++ ys)
  Listed-append device remote [] ys (inl h) = absurd h
  Listed-append device remote [] ys (inr h) = h
  Listed-append device remote (x ∷ xs) ys (inl (inl h)) = inl h
  Listed-append device remote (x ∷ xs) ys (inl (inr h)) =
      inr (Listed-append device remote xs ys (inl h))
  Listed-append device remote (x ∷ xs) ys (inr h) = inr (Listed-append device remote xs ys (inr h))

  pub reverse_each-Listed :
      (entries : List (DeviceId × String)) (reverse result : List (String × DeviceId))
      (device : DeviceId) (remote : ℕ)
      → reverse_each keys entries reverse ≡ ok result
      → get (text remote) result ≡ some device
      → (get (text remote) reverse ≡ some device) ⊎ Listed device remote entries
  unfolding reverse_each
  reverse_each-Listed [] reverse result device remote built at = inl (ground (arith, built, at))
  reverse_each-Listed ((d, address) ∷ entries) reverse result device remote built at =
      elim (Result-cases (parse_endpoint_addr keys address)) [
        | inl (e, bad) ↦ absurd (ground (arith, bad, built))
        | inr (key, good) ↦
            let built' : reverse_each keys entries (insert (text key) d reverse) ≡ ok result =
              ground (arith, good, built) in
            elim (reverse_each-Listed entries (insert (text key) d reverse) result device remote
              built' at) [
                | inr listed ↦ inr (inr listed)
                | inl before ↦
                    let step = sym (get-insert (text key) (text remote) d reverse) ∙ before in
                    elim (Bool-cases (text key == text remote)) [
                      | inl same ↦ inr (
                          inl (
                            ground (arith, step, same),
                            (key, good, beq→eq (text key) (text remote) same),
                          ))
                      | inr other ↦ inl (ground (arith, step, other))
                    ]
              ]
      ]

  -- The reverse table names only devices whose address in the books is the key's.
  abbrev pub Sound : List (DeviceId × String) → Connections → Type 0
  Sound books w =
      ((device : DeviceId) (remote : ℕ)
        → get (text remote) w.addresses.reverse_lookup ≡ some device
        → Listed device remote books)
      × ((device : DeviceId) (connection : Connection)
          → send_over device w ≡ some connection
          → Listed device connection.remote_id books)
