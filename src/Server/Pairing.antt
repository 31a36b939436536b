-- ===== src/Server/Pairing.antt =====
-- pairing.rs and routes/pairing.rs of crates/failsafe-server. A code is the list of its code points;
-- white space and upper case are those of the standard library and are parameters. The devices and
-- what answers a redeemed code are parameters; a transaction that fails changes nothing. Reads of the
-- database, and beginning a transaction, do not fail here.
pub mod Codes
pub mod Used
pub mod Once
use failsafe.Prelude.{
  ℕ, ◌+◌, ◌≤◌, Bool, true, false, not, ◌&&◌, ◌||◌, String, Option, none, some, List, [], ◌∷◌, ◌++◌,
  map, all, find?, get_elem?, take, ltb, leb, nat_beq, nat_key, ◌==◌, if◌then◌else◌, Result, ok,
  err,
}
use failsafe.Core.Message.{AccountId}
use failsafe.Server.Error.{ServerError, bad_request, internal}
use failsafe.Server.RefreshToken.{is_some}

abbrev pub Text : Type 0
Text = List ℕ

-- `char::is_whitespace` and `char::to_uppercase`.
pub record Chars : Type 0 where
  pub is_whitespace : ℕ → Bool
  pub to_uppercase : ℕ → Text

abbrev pub code_len : ℕ
code_len = 8

-- The letters from 65 and the digits from 48.
abbrev pub code_charset : Text
code_charset =
    65 ∷ 66 ∷ 67 ∷ 68 ∷ 69 ∷ 70 ∷ 71 ∷ 72 ∷ 73 ∷ 74 ∷ 75 ∷ 76 ∷ 77 ∷ 78 ∷ 79 ∷ 80 ∷ 81 ∷ 82 ∷ 83
    ∷ 84 ∷ 85 ∷ 86 ∷ 87 ∷ 88 ∷ 89 ∷ 90 ∷ 48 ∷ 49 ∷ 50 ∷ 51 ∷ 52 ∷ 53 ∷ 54 ∷ 55 ∷ 56 ∷ 57 ∷ []

abbrev char_at : Option ℕ → ℕ
char_at none = 0
char_at (some c) = c

-- The indices are random numbers below the length of the charset.
unfoldable pub generate_code : List ℕ → Text
generate_code picks = map (λ i. char_at (get_elem? code_charset i)) picks

abbrev pub is_code_char : ℕ → Bool
is_code_char c = (leb 65 c && leb c 90) || (leb 48 c && leb c 57)

-- The length of a text in UTF-8.
abbrev pub utf8_len : ℕ → ℕ
utf8_len c = if ltb c 128 then 1 else if ltb c 2048 then 2 else if ltb c 65536 then 3 else 4

abbrev pub byte_len : Text → ℕ
byte_len [] = 0
byte_len (c ∷ cs) = utf8_len c + byte_len cs

module _ (chars : Chars) where
  open chars use {is_whitespace, to_uppercase}

  abbrev pub trim_start : Text → Text
  trim_start [] = []
  trim_start (c ∷ cs) = if is_whitespace c then trim_start cs else c ∷ cs

  abbrev drop_blank : ℕ → Text → Text
  drop_blank c [] = if is_whitespace c then [] else c ∷ []
  drop_blank c (d ∷ ds) = c ∷ d ∷ ds

  abbrev pub trim_end : Text → Text
  trim_end [] = []
  trim_end (c ∷ cs) = drop_blank c (trim_end cs)

  abbrev pub uppercase : Text → Text
  uppercase [] = []
  uppercase (c ∷ cs) = to_uppercase c ++ uppercase cs

  unfoldable pub normalize_code : Text → Option Text
  normalize_code code =
      let normalized = uppercase (trim_end (trim_start code)) in
      if not (nat_beq (byte_len normalized) code_len)
      then none
      else if not (all is_code_char normalized)
      then none
      else some normalized

abbrev text_beq : Text → Text → Bool
text_beq [] [] = true
text_beq [] (d ∷ ds) = false
text_beq (c ∷ cs) [] = false
text_beq (c ∷ cs) (d ∷ ds) = nat_beq c d && text_beq cs ds

-- entity/pairing_code.rs
pub record PairingRow : Type 0 where
  pub id : ℕ
  pub account_id : AccountId
  pub code : Text
  pub expires_at : ℕ
  pub used_at : Option ℕ
  pub created_at : ℕ

abbrev pub PairingTable : Type 0
PairingTable = List PairingRow

-- `D` is the table of devices, `V` a device that is to be registered, `A` an answer.
pub record Services (D V A : Type 0) : Type 0 where
  pub register_device : AccountId → V → D → Result ServerError D
  pub issue_auth_response : AccountId → Result ServerError A

abbrev pub by_code : Text → PairingTable → Option PairingRow
by_code code rows = find? (λ (row : PairingRow). text_beq row.code code) rows

-- `update_many` of the row with an id whose code is not used, and how many rows that were.
abbrev pub use_row : ℕ → ℕ → PairingRow → PairingRow
use_row id now row =
    if (row.id == id) && not (is_some row.used_at) then record row { used_at = some now } else row

abbrev pub rows_affected : ℕ → PairingTable → ℕ
rows_affected id [] = 0
rows_affected id (row ∷ rows) =
    (if (row.id == id) && not (is_some row.used_at) then 1 else 0) + rows_affected id rows

module _ {D V A : Type 0} (chars : Chars) (services : Services D V A) where
  open services use {register_device, issue_auth_response}

  abbrev pub Redeemed : Type 0
  Redeemed = PairingTable × D × Result ServerError A

  abbrev committed : PairingRow → ℕ → PairingTable → D → Result ServerError D → Redeemed
  committed row now rows devices (err e) = (rows, devices, err e)
  committed row now rows devices (ok devices') =
      if nat_beq (rows_affected row.id rows) 0
      then (rows, devices, err (bad_request "pairing code already used"))
      else (map (use_row row.id now) rows, devices', issue_auth_response row.account_id)

  abbrev registered : AccountId → Option V → D → Result ServerError D
  registered account_id none devices = ok devices
  registered account_id (some device) devices = register_device account_id device devices

  abbrev redeem_row : Option V → ℕ → Option PairingRow → PairingTable → D → Redeemed
  redeem_row device now none rows devices =
      (rows, devices, err (bad_request "invalid pairing code"))
  redeem_row device now (some row) rows devices =
      if ltb row.expires_at now
      then (rows, devices, err (bad_request "pairing code expired"))
      else if is_some row.used_at
      then (rows, devices, err (bad_request "pairing code already used"))
      else committed row now rows devices (registered row.account_id device devices)

  abbrev redeem_code : Option V → ℕ → Option Text → PairingTable → D → Redeemed
  redeem_code device now none rows devices =
      (rows, devices, err (bad_request "pairing code must be 8 uppercase alphanumeric characters"))
  redeem_code device now (some code) rows devices =
      redeem_row device now (by_code code rows) rows devices

  unfoldable pub redeem_pairing_code : Text → Option V → ℕ → PairingTable → D → Redeemed
  redeem_pairing_code code device now rows devices =
      redeem_code device now (normalize_code chars code) rows devices

abbrev pub new_code : AccountId → ℕ → ℕ → Text → PairingRow
new_code account_id now id code = record {
  id = id;
  account_id = account_id;
  code = code;
  expires_at = now + 600;
  used_at = none;
  created_at = now;
}

-- `create_pairing_code` tries the codes of at most ten attempts, each with its row's id; an insert
-- fails at the latest when the code is taken. 10 minutes are 600 seconds.
unfoldable pub create_each :
    (PairingRow → PairingTable → Option String)
    → AccountId
    → ℕ
    → List (ℕ × List ℕ)
    → PairingTable
    → PairingTable × Result ServerError Text
create_each insert_error account_id now [] rows =
    (rows, err (internal "failed to generate unique pairing code"))
create_each insert_error account_id now ((id, picks) ∷ attempts) rows =
    let row = new_code account_id now id (generate_code picks) in
    elim (insert_error row rows) [
      | none ↦ (rows ++ row ∷ [], ok (generate_code picks))
      | some e ↦ create_each insert_error account_id now attempts rows
    ]

unfoldable pub create_pairing_code :
    (PairingRow → PairingTable → Option String)
    → AccountId
    → ℕ
    → List (ℕ × List ℕ)
    → PairingTable
    → PairingTable × Result ServerError Text
create_pairing_code insert_error account_id now attempts rows =
    create_each insert_error account_id now (take 10 attempts) rows
