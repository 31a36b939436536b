-- ===== src/Server/Devices.antt =====
-- routes/devices.rs and presence.rs of crates/failsafe-server. The table is a map by its primary key,
-- and its JSON column holds the list that is written to it. Trimming a text and the errors of the
-- database are parameters; the time of a call, in seconds, and the caller's account are arguments.
pub mod Ownership
pub mod Isolation
pub mod Removal
use failsafe.Prelude.{
  ℕ, ◌-◌, Bool, true, false, not, ◌&&◌, ◌||◌, String, Option, none, some, List, [], ◌∷◌, map, keep,
  all, leb, nat_beq, nat_key, string_key, ◌==◌, if◌then◌else◌, Result, ok, err,
}
use failsafe.Prelude.Assoc.{get, insert}
use failsafe.Core.Message.{AccountId, DeviceId, FeatureId}
use failsafe.Core.Catalog.{is_known_feature}
use failsafe.Server.Error.{
  ServerError, not_found, forbidden, forbidden_message, bad_request, database,
}
use failsafe.Server.RefreshToken.{is_some}

-- entity/device.rs
pub record DeviceRow : Type 0 where
  pub device_id : DeviceId
  pub account_id : AccountId
  pub name : String
  pub iroh_public_key : String
  pub enabled_features : List FeatureId
  pub last_seen : Option ℕ
  pub created_at : ℕ
  pub deleted_at : Option ℕ

abbrev pub DeviceTable : Type 0
DeviceTable = List (DeviceId × DeviceRow)

pub record DeviceUpsertRequest : Type 0 where
  pub device_id : DeviceId
  pub name : String
  pub iroh_public_key : String
  pub enabled_features : List FeatureId

pub record DevicePatchRequest : Type 0 where
  pub name : Option String
  pub enabled_features : Option (List FeatureId)

pub data RegisterDeviceMode : Type 0 where
  upsert pairing : RegisterDeviceMode

pub record DeviceStore : Type 0 where
  pub trim : String → String
  pub write_error : DeviceRow → Option String

abbrev pub Written : Type 0
Written = DeviceTable × Result ServerError DeviceRow

abbrev pub online_threshold_secs : ℕ
online_threshold_secs = 90

unfoldable pub is_online : ℕ → Option ℕ → Bool
is_online now none = false
is_online now (some last_seen) = leb (now - last_seen) online_threshold_secs

module _ (store : DeviceStore) where
  open store use {trim, write_error}

  abbrev written : DeviceRow → Option String → DeviceTable → Written
  written row none rows = (insert row.device_id row rows, ok row)
  written row (some e) rows = (rows, err (database e))

  -- An insert or an update by the primary key.
  abbrev pub write : DeviceRow → DeviceTable → Written
  write row rows = written row (write_error row) rows

  -- `features_to_json(…)?`, and then the write.
  abbrev pub write_features : List FeatureId → DeviceRow → DeviceTable → Written
  write_features features row rows =
      if all is_known_feature features
      then write row rows
      else (rows, err (bad_request "unknown feature"))

  abbrev register_removed :
      DeviceUpsertRequest → RegisterDeviceMode → ℕ → DeviceRow → DeviceTable → Written
  register_removed request upsert now existing rows =
      (rows, err (forbidden_message "device removed"))
  register_removed request pairing now existing rows =
      write_features request.enabled_features
        (record existing {
          deleted_at = none;
          name = trim request.name;
          iroh_public_key = trim request.iroh_public_key;
          enabled_features = request.enabled_features;
          last_seen = some now;
        })
        rows

  abbrev register_existing :
      AccountId
      → DeviceUpsertRequest
      → RegisterDeviceMode
      → ℕ
      → Option DeviceRow
      → DeviceTable
      → Written
  register_existing account_id request mode now (some existing) rows =
      if not (existing.account_id == account_id)
      then (rows, err forbidden)
      else if is_some existing.deleted_at
      then register_removed request mode now existing rows
      else write
          (record existing { iroh_public_key = trim request.iroh_public_key; last_seen = some now })
          rows
  register_existing account_id request mode now none rows =
      write_features request.enabled_features
        (record {
          device_id = request.device_id;
          account_id = account_id;
          name = trim request.name;
          iroh_public_key = trim request.iroh_public_key;
          enabled_features = request.enabled_features;
          last_seen = some now;
          created_at = now;
          deleted_at = none;
        })
        rows

  unfoldable pub register_device :
      AccountId → DeviceUpsertRequest → RegisterDeviceMode → ℕ → DeviceTable → Written
  register_device account_id request mode now rows =
      if (trim request.name == "") || (trim request.iroh_public_key == "")
      then (rows, err (bad_request "name and iroh_public_key are required"))
      else register_existing account_id request mode now (get request.device_id rows) rows

  unfoldable pub upsert_device :
      AccountId → DeviceId → DeviceUpsertRequest → ℕ → DeviceTable → Written
  upsert_device account_id device_id request now rows =
      if not (request.device_id == device_id)
      then (rows, err (bad_request "device_id in path and body must match"))
      else register_device account_id request upsert now rows

  -- `load_active_device(…)?` and what follows, and the same tests of `delete_device`.
  abbrev pub with_active :
      AccountId → (DeviceRow → DeviceTable → Written) → Option DeviceRow → DeviceTable → Written
  with_active account_id next none rows = (rows, err not_found)
  with_active account_id next (some existing) rows =
      if not (existing.account_id == account_id)
      then (rows, err forbidden)
      else if is_some existing.deleted_at
      then (rows, err not_found)
      else next existing rows

  abbrev or_else : Option String → String → String
  or_else none old = old
  or_else (some name) old = trim name

  abbrev patched : DevicePatchRequest → DeviceRow → DeviceTable → Written
  patched request existing rows = elim request.enabled_features [
    | none ↦ write (record existing { name = or_else request.name existing.name }) rows
    | some features ↦
        write_features features
          (record existing {
            name = or_else request.name existing.name;
            enabled_features = features;
          })
          rows
  ]

  abbrev is_blank : Option String → Bool
  is_blank none = false
  is_blank (some name) = trim name == ""

  abbrev says_nothing : DevicePatchRequest → Bool
  says_nothing request = elim request.name [
    | none ↦ elim request.enabled_features [ none ↦ true | some features ↦ false ]
    | some name ↦ false
  ]

  unfoldable pub patch_device : AccountId → DeviceId → DevicePatchRequest → DeviceTable → Written
  patch_device account_id device_id request rows =
      if says_nothing request
      then (rows, err (bad_request "at least one of name or enabled_features is required"))
      else if is_blank request.name
      then (rows, err (bad_request "name cannot be empty"))
      else with_active account_id (patched request) (get device_id rows) rows

  unfoldable pub delete_device : AccountId → DeviceId → ℕ → DeviceTable → Written
  delete_device account_id device_id now rows =
      with_active account_id (λ existing. write (record existing { deleted_at = some now }))
        (get device_id rows) rows

  unfoldable pub heartbeat_device : AccountId → DeviceId → ℕ → DeviceTable → Written
  heartbeat_device account_id device_id now rows =
      with_active account_id (λ existing. write (record existing { last_seen = some now }))
        (get device_id rows) rows

abbrev rows_of : DeviceTable → List DeviceRow
rows_of [] = []
rows_of ((device_id, row) ∷ rows) = row ∷ rows_of rows

unfoldable pub list_devices : AccountId → DeviceTable → List DeviceRow
list_devices account_id rows =
    keep (λ (row : DeviceRow). (row.account_id == account_id) && not (is_some row.deleted_at))
      (rows_of rows)
