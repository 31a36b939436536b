-- ===== src/Transport/Pool/Replaced.antt =====
-- Two connections of one device, as when both devices dial at once.
use failsafe.Prelude.{
  ◌≡◌, refl, true, false, none, some, nat_beq, ok, nat_key, string_key, pair_key, ◌==◌, beq_refl,
  beq-eq-false, ℕ, ◌≢◌, ap,
}
use failsafe.Prelude.Assoc.{contains, get-remove_self, get-insert_self}
use failsafe.Core.Message.{DeviceId}
use failsafe.Transport.Pool.{
  Connection, Connections, Keys, resolve_device, accept, stream_accept_ended, send_over,
}

module _ (keys : Keys) where
  -- When a device that has connected twice loses the older connection, nothing can be sent to it any
  -- more, though the newer connection is still there and its streams are taken.
  pub stream_accept_ended-accept :
      (device : DeviceId) (older newer : Connection) (w : Connections)
      → resolve_device keys older w.addresses ≡ ok device
      → resolve_device keys newer w.addresses ≡ ok device
      → nat_beq older.remote_id keys.local_id ≡ false
      → nat_beq newer.remote_id keys.local_id ≡ false
      → newer.number ≢ older.number
      → let both = accept keys newer (accept keys older w) in
        let left = stream_accept_ended device older.number both in
        (send_over device both ≡ some newer)
        × (send_over device left ≡ none)
        × (contains (device, newer.number) left.handlers ≡ true)
  unfolding accept stream_accept_ended send_over contains
  stream_accept_ended-accept device older newer w first second foreign foreign' differ =
      let a : DeviceId × ℕ = (device, newer.number) in
      let b : DeviceId × ℕ = (device, older.number) in
      let other : (a == b) ≡ false = beq-eq-false a b (λ p. differ (ap (λ q. q.1) p)) in
      rw foreign (
        rw first (
          rw foreign' (
            rw second (
              get-insert_self device newer _,
              get-remove_self device _,
              rw other (rw (beq_refl a) refl),
            ))))
