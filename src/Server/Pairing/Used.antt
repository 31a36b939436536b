-- ===== src/Server/Pairing/Used.antt =====
-- routes/pairing.rs: the row of a code that is used.
use failsafe.Prelude.{
  ℕ, ◌≡◌, refl, sym, ap, ◌∙◌, inl, inr, true, String, Option, none, some, List, [], ◌∷◌, ◌++◌, map,
  nat_key, arith, Bool-cases, Option-cases,
}
use failsafe.Core.Message.{AccountId}
use failsafe.Server.RefreshToken.{is_some}
use failsafe.Server.Pairing.{
  Text, PairingRow, PairingTable, by_code, text_beq, use_row, create_each, new_code, generate_code,
}

-- The row of the code is used.
abbrev pub IsUsed : Text → PairingTable → Type 0
IsUsed code rows =
    (row : PairingRow) × (by_code code rows ≡ some row) × (is_some row.used_at ≡ true)

by_code-append :
    (code : Text) (rows new : PairingTable) (row : PairingRow)
    → by_code code rows ≡ some row
    → by_code code (rows ++ new) ≡ some row
by_code-append code [] new row h = absurd (ground arith)
by_code-append code (r ∷ rows) new row h = elim (Bool-cases (text_beq r.code code)) [
  | inl same ↦ rw same (ground (arith, h, same))
  | inr other ↦ rw other (by_code-append code rows new row (ground (arith, h, other)))
]

use_row-code : (id now : ℕ) (row : PairingRow) → (use_row id now row).code ≡ row.code
use_row-code id now row = ground arith

pub by_code-use_row :
    (id now : ℕ) (code : Text) (rows : PairingTable) (row : PairingRow)
    → by_code code rows ≡ some row
    → by_code code (map (use_row id now) rows) ≡ some (use_row id now row)
by_code-use_row id now code [] row h = absurd (ground arith)
by_code-use_row id now code (r ∷ rows) row h =
    let mapped : text_beq (use_row id now r).code code ≡ text_beq r.code code =
      ap (λ t. text_beq t code) (use_row-code id now r) in
    elim (Bool-cases (text_beq r.code code)) [
      | inl same ↦
          let first : by_code code (r ∷ rows) ≡ some r = rw same refl in
          let e : some r ≡ some row = sym first ∙ h in
          rw (mapped, same) (ap (λ o. elim o [ none ↦ none | some x ↦ some (use_row id now x) ]) e)
      | inr other ↦
          rw (mapped, other) (by_code-use_row id now code rows row (ground (arith, h, other)))
    ]

pub use_row-IsUsed :
    (id now : ℕ) (code : Text) (rows : PairingTable)
    → IsUsed code rows
    → IsUsed code (map (use_row id now) rows)
use_row-IsUsed id now code rows (row, at, used) =
    (use_row id now row, by_code-use_row id now code rows row at, ground (arith, used))

pub create_each-IsUsed :
    (insert_error : PairingRow → PairingTable → Option String) (account_id : AccountId) (now : ℕ)
    (attempts : List (ℕ × List ℕ)) (code : Text) (rows : PairingTable)
    → IsUsed code rows
    → IsUsed code (create_each insert_error account_id now attempts rows).0
unfolding create_each
create_each-IsUsed insert_error account_id now [] code rows h = h
create_each-IsUsed insert_error account_id now ((id, picks) ∷ attempts) code rows h =
    let row = new_code account_id now id (generate_code picks) in
    elim (Option-cases (insert_error row rows)) [
      | inl e ↦ rw (e, create_each) (h.0, by_code-append code rows (row ∷ []) h.0 h.1, h.2)
      | inr (x, e) ↦
          rw (e, create_each) (create_each-IsUsed insert_error account_id now attempts code rows h)
    ]
