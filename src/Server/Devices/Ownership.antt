-- ===== src/Server/Devices/Ownership.antt =====
-- routes/devices.rs: which rows a write can touch.
use failsafe.Prelude.{
  ◌≡◌, ◌≢◌, sym, ◌∙◌, subst, inl, inr, Option, none, some, List, all, nat_key, string_key, ◌==◌,
  arith, Bool-cases, Option-cases, beq→eq,
}
use failsafe.Prelude.Assoc.{get, insert, get-insert, get-insert_ne}
use failsafe.Core.Message.{AccountId, DeviceId, FeatureId}
use failsafe.Core.Catalog.{is_known_feature}
use failsafe.Server.RefreshToken.{is_some}
use failsafe.Server.Devices.{
  DeviceRow, DeviceTable, DeviceStore, Written, write, write_features, with_active,
}

-- Each row stands under its own id.
abbrev pub IsKeyed : DeviceTable → Type 0
IsKeyed rows = (d : DeviceId) (row : DeviceRow) → get d rows ≡ some row → row.device_id ≡ d

pub insert-IsKeyed :
    (row : DeviceRow) (rows : DeviceTable) → IsKeyed rows → IsKeyed (insert row.device_id row rows)
insert-IsKeyed row rows k d row' h = elim (Bool-cases (row.device_id == d)) [
  | inl same ↦
      let e = beq→eq row.device_id d same in
      let found : some row ≡ some row' = cc (get-insert row.device_id d row rows, same, h) in
      cc (found, e)
  | inr other ↦ k d row' (ground (arith, get-insert row.device_id d row rows, other, h))
]

module _ (store : DeviceStore) where
  -- The rows of other accounts than `a` are as before, and rows stand under their ids.
  abbrev pub Isolated : AccountId → DeviceTable → Written → Type 0
  Isolated a rows r =
      IsKeyed r.0
      × ((d : DeviceId) (row : DeviceRow)
          → get d rows ≡ some row
          → row.account_id ≢ a
          → get d r.0 ≡ some row)

  -- The row under an id, if there is one, is the account's.
  abbrev pub Owned : AccountId → DeviceId → DeviceTable → Type 0
  Owned a d rows = (row : DeviceRow) → get d rows ≡ some row → row.account_id ≡ a

  pub write-Isolated :
      (a : AccountId) (new : DeviceRow) (rows : DeviceTable)
      → IsKeyed rows
      → Owned a new.device_id rows
      → Isolated a rows (write store new rows)
  write-Isolated a new rows k own = elim (Option-cases (store.write_error new)) [
    | inr (x, e) ↦ rw e (k, λ d row h ne. h)
    | inl e ↦ rw e (
      insert-IsKeyed new rows k,
      λ d row h ne.
          get-insert_ne new.device_id d new rows
            (λ p. ne (own row (subst (λ j. get j rows ≡ some row) (sym p) h)))
          ∙ h,
    )
  ]

  pub write_features-Isolated :
      (a : AccountId) (features : List FeatureId) (new : DeviceRow) (rows : DeviceTable)
      → IsKeyed rows
      → Owned a new.device_id rows
      → Isolated a rows (write_features store features new rows)
  write_features-Isolated a features new rows k own =
      elim (Bool-cases (all is_known_feature features)) [
        | inl e ↦ rw e (write-Isolated a new rows k own)
        | inr e ↦ rw e (k, λ d row h ne. h)
      ]

  -- The row that was found under an id is the account's.
  pub found-Owned :
      (a : AccountId) (d : DeviceId) (existing : DeviceRow) (rows : DeviceTable)
      → IsKeyed rows
      → get d rows ≡ some existing
      → existing.account_id ≡ a
      → Owned a existing.device_id rows
  found-Owned a d existing rows k at own row h =
      let same : get d rows ≡ some row = subst (λ j. get j rows ≡ some row) (k d existing at) h in
      let e : some existing ≡ some row = sym at ∙ same in cc (e, own)

  pub with_active-Isolated :
      (a : AccountId) (next : DeviceRow → DeviceTable → Written) (d : DeviceId)
      (o : Option DeviceRow) (rows : DeviceTable)
      → IsKeyed rows
      → get d rows ≡ o
      → ((existing : DeviceRow)
          → Owned a existing.device_id rows
          → Isolated a rows (next existing rows))
      → Isolated a rows (with_active store a next o rows)
  with_active-Isolated a next d none rows k at h = (k, λ d row h ne. h)
  with_active-Isolated a next d (some existing) rows k at h =
      elim (Bool-cases (existing.account_id == a)) [
        | inr other ↦ rw other (k, λ d row h ne. h)
        | inl own ↦
            let mine = found-Owned a d existing rows k at (beq→eq existing.account_id a own) in
            elim (Bool-cases (is_some existing.deleted_at)) [
              | inl gone ↦ rw (own, gone) (k, λ d row h ne. h)
              | inr there ↦ rw (own, there) (h existing mine)
            ]
      ]
