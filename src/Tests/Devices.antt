-- ===== src/Tests/Devices.antt =====
-- The device routes at concrete tables.
use failsafe.Prelude.{ℕ, ◌≡◌, refl, none, some, List, [], ◌∷◌, ok, err, arith, nat_key}
use failsafe.Prelude.Assoc.{get}
use failsafe.Core.Message.{AccountId}
use failsafe.Core.Catalog.{clipboard_id, send_id}
use failsafe.Server.Error.{not_found}
use failsafe.Server.Devices.{
  DeviceRow, DeviceTable, DeviceUpsertRequest, DevicePatchRequest, pairing, DeviceStore,
  heartbeat_device, delete_device, upsert_device, patch_device,
}
use failsafe.Server.Devices.Ownership.{IsKeyed}
use failsafe.Server.Devices.Isolation.{
  Call, registers, deletes, beats, history, history-WithoutAccount,
}
use failsafe.Server.Devices.Removal.{delete_device-IsRemoved}

abbrev store : DeviceStore
store = record { trim = λ text. text; write_error = λ row. none }

abbrev desk : DeviceRow
desk = record {
  device_id = 2;
  account_id = 4;
  name = "desk";
  iroh_public_key = "key";
  enabled_features = clipboard_id ∷ [];
  last_seen = none;
  created_at = 0;
  deleted_at = none;
}

abbrev rows : DeviceTable
rows = (2, desk) ∷ []

rows-IsKeyed : IsKeyed rows
unfolding get
rows-IsKeyed d row h = ground (arith, nat_key.same_iff 2 d)

abbrev request : DeviceUpsertRequest
request = record {
  device_id = 2;
  name = "mine";
  iroh_public_key = "other";
  enabled_features = send_id ∷ [];
}

abbrev change : DevicePatchRequest
change = record { name = some "new"; enabled_features = none }

-- Another account tries to take the device over and to delete it.
abbrev attempts : List (AccountId × Call)
attempts = (5, registers request pairing 10) ∷ (5, deletes 2 11) ∷ (6, beats 2 12) ∷ []

desk_found : get {K = ℕ} 2 rows ≡ some desk
unfolding get
desk_found = refl

history-WithoutAccount_example : get {K = ℕ} 2 (history store attempts rows) ≡ some desk
history-WithoutAccount_example =
    history-WithoutAccount store attempts rows 2 desk rows-IsKeyed desk_found
      ((λ p. ground arith), ((λ p. ground arith), ((λ p. ground arith), tt)))

deleted : (delete_device store 4 2 20 rows).1 ≡ ok (record desk { deleted_at = some 20 })
unfolding delete_device get
deleted = refl

delete_device-IsRemoved_example :
    let rows' = (delete_device store 4 2 20 rows).0 in
    (heartbeat_device store 4 2 30 rows' ≡ (rows', err not_found))
    × (delete_device store 4 2 30 rows' ≡ (rows', err not_found))
    × ((upsert_device store 4 2 request 30 rows').0 ≡ rows')
    × ((patch_device store 4 2 change rows').0 ≡ rows')
delete_device-IsRemoved_example =
    delete_device-IsRemoved store 4 2 20 rows (record desk { deleted_at = some 20 }) 30 request
      change rows-IsKeyed deleted
