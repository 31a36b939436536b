-- ===== src/Server/Devices/Removal.antt =====
-- routes/devices.rs: what a removed device can do.
use failsafe.Prelude.{
  ℕ, ◌≡◌, refl, sym, ap, ◌∙◌, subst, inl, inr, true, ◌||◌, Option, none, some, nat_key, string_key,
  ◌==◌, ok, err, arith, Bool-cases, Option-cases, beq→eq,
}
use failsafe.Prelude.Assoc.{get, insert, get-insert_self}
use failsafe.Core.Message.{AccountId, DeviceId}
use failsafe.Server.Error.{not_found}
use failsafe.Server.RefreshToken.{is_some}
use failsafe.Server.Devices.{
  DeviceRow, DeviceTable, DeviceUpsertRequest, DevicePatchRequest, DeviceStore, Written, write,
  with_active, register_device, upsert_device, patched, patch_device, says_nothing, is_blank,
  delete_device, heartbeat_device,
}
use failsafe.Server.Devices.Ownership.{IsKeyed}

module _ (store : DeviceStore) where
  -- The account's device is marked as deleted.
  abbrev pub IsRemoved : AccountId → DeviceId → DeviceTable → Type 0
  IsRemoved a d rows =
      (row : DeviceRow) × (get d rows ≡ some row)
      × ((row.account_id == a) ≡ true)
      × (is_some row.deleted_at ≡ true)

  with_active-IsRemoved :
      (a : AccountId) (d : DeviceId) (next : DeviceRow → DeviceTable → Written) (rows : DeviceTable)
      → IsRemoved a d rows
      → with_active store a next (get d rows) rows ≡ (rows, err not_found)
  with_active-IsRemoved a d next rows (row, at, own, gone) = rw (at, own, gone) refl

  upsert_device-IsRemoved :
      (a : AccountId) (d : DeviceId) (request : DeviceUpsertRequest) (now : ℕ) (rows : DeviceTable)
      → IsRemoved a d rows
      → (upsert_device store a d request now rows).0 ≡ rows
  unfolding upsert_device register_device
  upsert_device-IsRemoved a d request now rows (row, at, own, gone) =
      elim (Bool-cases (request.device_id == d)) [
        | inr e ↦ rw e refl
        | inl e ↦
            let at' : get request.device_id rows ≡ some row =
              subst (λ j. get j rows ≡ some row) (sym (beq→eq request.device_id d e)) at in
            elim (Bool-cases
              ((store.trim request.name == "") || (store.trim request.iroh_public_key == ""))) [
                | inl f ↦ rw (e, f) refl
                | inr f ↦ rw (e, f, at', own, gone) refl
              ]
      ]

  patch_device-IsRemoved :
      (a : AccountId) (d : DeviceId) (request : DevicePatchRequest) (rows : DeviceTable)
      → IsRemoved a d rows
      → (patch_device store a d request rows).0 ≡ rows
  unfolding patch_device
  patch_device-IsRemoved a d request rows r = elim (Bool-cases (says_nothing store request)) [
    | inl e ↦ rw e refl
    | inr e ↦ elim (Bool-cases (is_blank store request.name)) [
      | inl f ↦ rw (e, f) refl
      | inr f ↦ rw (e, f) (ap (λ w. w.0) (with_active-IsRemoved a d (patched store request) rows r))
    ]
  ]

  write-ok :
      (new : DeviceRow) (rows : DeviceTable) (answer : DeviceRow)
      → (write store new rows).1 ≡ ok answer
      → (write store new rows).0 ≡ insert new.device_id new rows
  write-ok new rows answer h = elim (Option-cases (store.write_error new)) [
    | inl e ↦ rw e refl
    | inr (x, e) ↦ absurd (ground (arith, e, h))
  ]

  deleted-IsRemoved :
      (a : AccountId) (d : DeviceId) (now : ℕ) (o : Option DeviceRow) (rows : DeviceTable)
      (answer : DeviceRow)
      → IsKeyed rows
      → get d rows ≡ o
      → let r =
          with_active store a (λ e. write store (record e { deleted_at = some now })) o rows in
        r.1 ≡ ok answer → IsRemoved a d r.0
  deleted-IsRemoved a d now none rows answer k at = λ h. absurd (ground arith)
  deleted-IsRemoved a d now (some existing) rows answer k at = λ h.
      elim (Bool-cases (existing.account_id == a)) [
        | inr other ↦ absurd (ground (arith, other, h))
        | inl own ↦ elim (Bool-cases (is_some existing.deleted_at)) [
          | inl gone ↦ absurd (ground (arith, own, gone, h))
          | inr there ↦
              let new = record existing { deleted_at = some now } in
              let same : with_active store a (λ e. write store (record e { deleted_at = some now }))
                    (some existing) rows
                  ≡ write store new rows =
                rw (own, there) refl in
              let rows' = write-ok new rows answer (ap (λ w. w.1) (sym same) ∙ h) in
              let found : get d (insert existing.device_id new rows) ≡ some new =
                subst (λ j. get d (insert j new rows) ≡ some new) (sym (k d existing at))
                  (get-insert_self d new rows) in
              (
                new,
                ap (λ (w : Written). get d w.0) same ∙ ap (λ t. get d t) rows' ∙ found,
                own,
                refl,
              )
        ]
      ]

  -- After a device was deleted, its heartbeats and another deletion find no device, and neither
  -- they nor an update or a change of its name and features alter the table.
  pub delete_device-IsRemoved :
      (a : AccountId) (d : DeviceId) (now : ℕ) (rows : DeviceTable) (answer : DeviceRow) (later : ℕ)
      (request : DeviceUpsertRequest) (change : DevicePatchRequest)
      → IsKeyed rows
      → (delete_device store a d now rows).1 ≡ ok answer
      → let rows' = (delete_device store a d now rows).0 in
        (heartbeat_device store a d later rows' ≡ (rows', err not_found))
        × (delete_device store a d later rows' ≡ (rows', err not_found))
        × ((upsert_device store a d request later rows').0 ≡ rows')
        × ((patch_device store a d change rows').0 ≡ rows')
  unfolding delete_device heartbeat_device
  delete_device-IsRemoved a d now rows answer later request change k h =
      let rows' = (delete_device store a d now rows).0 in
      let r = deleted-IsRemoved a d now (get d rows) rows answer k refl h in
      (
        with_active-IsRemoved a d _ rows' r,
        with_active-IsRemoved a d _ rows' r,
        upsert_device-IsRemoved a d request later rows' r,
        patch_device-IsRemoved a d change rows' r,
      )
