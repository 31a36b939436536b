-- ===== src/Server/Devices/Isolation.antt =====
-- routes/devices.rs: an account's calls and the devices of others.
use failsafe.Prelude.{
  ℕ, ◌≡◌, ◌≢◌, refl, inl, inr, ◌||◌, Option, none, some, List, [], ◌∷◌, nat_key, string_key, ◌==◌,
  arith, Bool-cases, Option-cases, beq→eq,
}
use failsafe.Prelude.Assoc.{get}
use failsafe.Core.Message.{AccountId, DeviceId}
use failsafe.Server.RefreshToken.{is_some}
use failsafe.Server.Devices.{
  DeviceRow, DeviceTable, DeviceUpsertRequest, DevicePatchRequest, RegisterDeviceMode, upsert,
  pairing, DeviceStore, Written, write, register_removed, register_existing, register_device,
  upsert_device, patched, patch_device, delete_device, heartbeat_device, or_else, says_nothing,
  is_blank,
}
use failsafe.Server.Devices.Ownership.{
  IsKeyed, Isolated, Owned, write-Isolated, write_features-Isolated, found-Owned,
  with_active-Isolated,
}

-- The calls that change the table, with the account of the caller.
pub data Call : Type 0 where
  registers : DeviceUpsertRequest → RegisterDeviceMode → ℕ → Call
  upserts : DeviceId → DeviceUpsertRequest → ℕ → Call
  patches : DeviceId → DevicePatchRequest → Call
  deletes : DeviceId → ℕ → Call
  beats : DeviceId → ℕ → Call

module _ (store : DeviceStore) where
  unfoldable pub perform : AccountId → Call → DeviceTable → Written
  perform a (registers request mode now) rows = register_device store a request mode now rows
  perform a (upserts d request now) rows = upsert_device store a d request now rows
  perform a (patches d request) rows = patch_device store a d request rows
  perform a (deletes d now) rows = delete_device store a d now rows
  perform a (beats d now) rows = heartbeat_device store a d now rows

  unfoldable pub history : List (AccountId × Call) → DeviceTable → DeviceTable
  history [] rows = rows
  history ((a, c) ∷ cs) rows = history cs (perform a c rows).0

  register_removed-Isolated :
      (a : AccountId) (request : DeviceUpsertRequest) (mode : RegisterDeviceMode) (now : ℕ)
      (existing : DeviceRow) (rows : DeviceTable)
      → IsKeyed rows
      → Owned store a existing.device_id rows
      → Isolated store a rows (register_removed store request mode now existing rows)
  register_removed-Isolated a request upsert now existing rows k own = (k, λ d row h ne. h)
  register_removed-Isolated a request pairing now existing rows k own =
      write_features-Isolated store a request.enabled_features
        (record existing {
          deleted_at = none;
          name = store.trim request.name;
          iroh_public_key = store.trim request.iroh_public_key;
          enabled_features = request.enabled_features;
          last_seen = some now;
        })
        rows k own

  register_existing-Isolated :
      (a : AccountId) (request : DeviceUpsertRequest) (mode : RegisterDeviceMode) (now : ℕ)
      (o : Option DeviceRow) (rows : DeviceTable)
      → IsKeyed rows
      → get request.device_id rows ≡ o
      → Isolated store a rows (register_existing store a request mode now o rows)
  register_existing-Isolated a request mode now none rows k at =
      write_features-Isolated store a request.enabled_features
        (record {
          device_id = request.device_id;
          account_id = a;
          name = store.trim request.name;
          iroh_public_key = store.trim request.iroh_public_key;
          enabled_features = request.enabled_features;
          last_seen = some now;
          created_at = now;
          deleted_at = none;
        })
        rows k (λ row h. absurd (ground (arith, at, h)))
  register_existing-Isolated a request mode now (some existing) rows k at =
      elim (Bool-cases (existing.account_id == a)) [
        | inr other ↦ rw other (k, λ d row h ne. h)
        | inl own ↦
            let mine =
              found-Owned store a request.device_id existing rows k at
                (beq→eq existing.account_id a own) in
            elim (Bool-cases (is_some existing.deleted_at)) [
              | inl gone ↦
                  rw (own, gone) (register_removed-Isolated a request mode now existing rows k mine)
              | inr there ↦
                  rw (own, there)
                    (write-Isolated store a
                      (record existing {
                        iroh_public_key = store.trim request.iroh_public_key;
                        last_seen = some now;
                      })
                      rows k mine)
            ]
      ]

  register_device-Isolated :
      (a : AccountId) (request : DeviceUpsertRequest) (mode : RegisterDeviceMode) (now : ℕ)
      (rows : DeviceTable)
      → IsKeyed rows
      → Isolated store a rows (register_device store a request mode now rows)
  unfolding register_device
  register_device-Isolated a request mode now rows k =
      elim (Bool-cases
        ((store.trim request.name == "") || (store.trim request.iroh_public_key == ""))) [
          | inl e ↦ rw e (k, λ d row h ne. h)
          | inr e ↦ rw e (
              register_existing-Isolated a request mode now (get request.device_id rows) rows k
                refl)
        ]

  patched-Isolated :
      (a : AccountId) (request : DevicePatchRequest) (existing : DeviceRow) (rows : DeviceTable)
      → IsKeyed rows
      → Owned store a existing.device_id rows
      → Isolated store a rows (patched store request existing rows)
  patched-Isolated a request existing rows k own = elim (Option-cases request.enabled_features) [
    | inl e ↦ rw e (
        write-Isolated store a (record existing { name = or_else store request.name existing.name })
          rows k own)
    | inr (features, e) ↦ rw e (
        write_features-Isolated store a features
          (record existing {
            name = or_else store request.name existing.name;
            enabled_features = features;
          })
          rows k own)
  ]

  perform-Isolated :
      (a : AccountId) (c : Call) (rows : DeviceTable)
      → IsKeyed rows
      → Isolated store a rows (perform a c rows)
  unfolding perform upsert_device patch_device delete_device heartbeat_device
  perform-Isolated a (registers request mode now) rows k =
      register_device-Isolated a request mode now rows k
  perform-Isolated a (upserts d request now) rows k = elim (Bool-cases (request.device_id == d)) [
    | inl e ↦ rw e (register_device-Isolated a request upsert now rows k)
    | inr e ↦ rw e (k, λ d row h ne. h)
  ]
  perform-Isolated a (patches d request) rows k = elim (Bool-cases (says_nothing store request)) [
    | inl e ↦ rw e (k, λ d row h ne. h)
    | inr e ↦ elim (Bool-cases (is_blank store request.name)) [
      | inl f ↦ rw (e, f) (k, λ d row h ne. h)
      | inr f ↦
          rw (e, f)
            (with_active-Isolated store a (patched store request) d (get d rows) rows k refl
              (λ existing own. patched-Isolated a request existing rows k own))
    ]
  ]
  perform-Isolated a (deletes d now) rows k =
      with_active-Isolated store a
        (λ existing. write store (record existing { deleted_at = some now })) d (get d rows) rows k
        refl
        (λ existing own.
          write-Isolated store a (record existing { deleted_at = some now }) rows k own)
  perform-Isolated a (beats d now) rows k =
      with_active-Isolated store a
        (λ existing. write store (record existing { last_seen = some now })) d (get d rows) rows k
        refl
        (λ existing own.
          write-Isolated store a (record existing { last_seen = some now }) rows k own)

  -- All calls are of other accounts than `b`.
  abbrev pub WithoutAccount : AccountId → List (AccountId × Call) → Type 0
  WithoutAccount b [] = Unit
  WithoutAccount b ((a, c) ∷ cs) = (b ≢ a) × WithoutAccount b cs

  -- No history of calls of other accounts changes, removes or takes over a device of an account.
  pub history-WithoutAccount :
      (cs : List (AccountId × Call)) (rows : DeviceTable) (d : DeviceId) (row : DeviceRow)
      → IsKeyed rows
      → get d rows ≡ some row
      → WithoutAccount row.account_id cs
      → get d (history cs rows) ≡ some row
  unfolding history
  history-WithoutAccount [] rows d row k at others = at
  history-WithoutAccount ((a, c) ∷ cs) rows d row k at others =
      let one = perform-Isolated a c rows k in
      history-WithoutAccount cs (perform a c rows).0 d row one.0 (one.1 d row at others.0) others.1
