-- ===== src/Server/Pairing/Once.antt =====
-- routes/pairing.rs: a pairing code after it was redeemed.
use failsafe.Prelude.{
  ℕ, ◌≡◌, refl, sym, ap, ◌∙◌, subst, inl, inr, false, String, Option, none, some, List, [], ◌∷◌,
  take, ltb, nat_beq, nat_key, Result, ok, err, arith, Bool-cases, Option-cases, beq_refl,
}
use failsafe.Core.Message.{AccountId}
use failsafe.Server.Error.{ServerError, bad_request}
use failsafe.Server.RefreshToken.{is_some}
use failsafe.Server.Pairing.{
  Text, Chars, PairingRow, PairingTable, Services, by_code, use_row, rows_affected, Redeemed,
  committed, registered, redeem_row, redeem_pairing_code, normalize_code, create_pairing_code,
}
use failsafe.Server.Pairing.Used.{IsUsed, by_code-use_row, use_row-IsUsed, create_each-IsUsed}

module _ {D V A : Type 0} (chars : Chars) (services : Services D V A) where
  committed-IsUsed :
      (row : PairingRow) (now : ℕ) (code : Text) (rows : PairingTable) (devices : D)
      (o : Result ServerError D)
      → IsUsed code rows
      → IsUsed code (committed chars services row now rows devices o).0
  committed-IsUsed row now code rows devices (err e) h = h
  committed-IsUsed row now code rows devices (ok d) h =
      elim (Bool-cases (nat_beq (rows_affected row.id rows) 0)) [
        | inl e ↦ rw e h
        | inr e ↦ rw e (use_row-IsUsed row.id now code rows h)
      ]

  redeem_row-IsUsed :
      (device : Option V) (now : ℕ) (o : Option PairingRow) (code : Text) (rows : PairingTable)
      (devices : D)
      → IsUsed code rows
      → IsUsed code (redeem_row chars services device now o rows devices).0
  redeem_row-IsUsed device now none code rows devices h = h
  redeem_row-IsUsed device now (some row) code rows devices h =
      elim (Bool-cases (ltb row.expires_at now)) [
        | inl e ↦ rw e h
        | inr e ↦ elim (Bool-cases (is_some row.used_at)) [
          | inl f ↦ rw (e, f) h
          | inr f ↦
              rw (e, f)
                (committed-IsUsed row now code rows devices
                  (registered chars services row.account_id device devices) h)
        ]
      ]

  redeem-IsUsed :
      (text : Text) (device : Option V) (now : ℕ) (code : Text) (rows : PairingTable) (devices : D)
      → IsUsed code rows
      → IsUsed code (redeem_pairing_code chars services text device now rows devices).0
  unfolding redeem_pairing_code
  redeem-IsUsed text device now code rows devices h =
      elim (Option-cases (normalize_code chars text)) [
        | inl e ↦ rw e h
        | inr (n, e) ↦ rw e (redeem_row-IsUsed device now (by_code n rows) code rows devices h)
      ]

  committed-uses :
      (row : PairingRow) (now : ℕ) (code : Text) (rows : PairingTable) (devices : D)
      (o : Result ServerError D) (answer : A)
      → by_code code rows ≡ some row
      → is_some row.used_at ≡ false
      → (committed chars services row now rows devices o).2 ≡ ok answer
      → IsUsed code (committed chars services row now rows devices o).0
  committed-uses row now code rows devices (err e) answer at unused h = absurd (ground arith)
  committed-uses row now code rows devices (ok d) answer at unused h =
      elim (Bool-cases (nat_beq (rows_affected row.id rows) 0)) [
        | inl e ↦ absurd (ground (arith, e, h))
        | inr e ↦ rw e (
          use_row row.id now row,
          by_code-use_row row.id now code rows row at,
          ground (arith, unused, beq_refl row.id),
        )
      ]

  -- A redeemed row is used.
  redeem_row-uses :
      (device : Option V) (now : ℕ) (o : Option PairingRow) (code : Text) (rows : PairingTable)
      (devices : D) (answer : A)
      → by_code code rows ≡ o
      → (redeem_row chars services device now o rows devices).2 ≡ ok answer
      → IsUsed code (redeem_row chars services device now o rows devices).0
  redeem_row-uses device now none code rows devices answer at h = absurd (ground arith)
  redeem_row-uses device now (some row) code rows devices answer at h =
      elim (Bool-cases (ltb row.expires_at now)) [
        | inl e ↦ absurd (ground (arith, e, h))
        | inr e ↦ elim (Bool-cases (is_some row.used_at)) [
          | inl f ↦ absurd (ground (arith, e, f, h))
          | inr f ↦
              let o = registered chars services row.account_id device devices in
              let same : redeem_row chars services device now (some row) rows devices
                  ≡ committed chars services row now rows devices o =
                rw (e, f) refl in
              subst (λ (r : Redeemed chars services). IsUsed code r.0) (sym same)
                (committed-uses row now code rows devices o answer at f
                  (ap (λ r. r.2) (sym same) ∙ h))
        ]
      ]

  -- The calls that change the codes.
  pub data Call : Type 0 where
    creates : (PairingRow → PairingTable → Option String) → AccountId → ℕ → List (ℕ × List ℕ) → Call
    redeems : Text → Option V → ℕ → Call

  unfoldable pub history : List Call → PairingTable × D → PairingTable × D
  history [] s = s
  history (creates insert_error account_id now attempts ∷ cs) (rows, devices) =
      history cs ((create_pairing_code insert_error account_id now attempts rows).0, devices)
  history (redeems code device now ∷ cs) (rows, devices) =
      let r = redeem_pairing_code chars services code device now rows devices in
      history cs (r.0, r.1)

  history-IsUsed :
      (cs : List Call) (code : Text) (s : PairingTable × D)
      → IsUsed code s.0
      → IsUsed code (history cs s).0
  unfolding history create_pairing_code
  history-IsUsed [] code s h = h
  history-IsUsed (creates insert_error account_id now attempts ∷ cs) code (rows, devices) h =
      history-IsUsed cs code _
        (create_each-IsUsed insert_error account_id now (take 10 attempts) code rows h)
  history-IsUsed (redeems text device now ∷ cs) code (rows, devices) h =
      let r = redeem_pairing_code chars services text device now rows devices in
      history-IsUsed cs code (r.0, r.1) (redeem-IsUsed text device now code rows devices h)

  -- The tables are as before, and the request is a bad one.
  abbrev pub IsRefused : PairingTable × D → Redeemed chars services → Type 0
  IsRefused s r =
      (r.0 ≡ s.0) × (r.1 ≡ s.1) × ((message : String) × (r.2 ≡ err (bad_request message)))

  IsUsed-IsRefused :
      (text n : Text) (device : Option V) (now : ℕ) (s : PairingTable × D)
      → normalize_code chars text ≡ some n
      → IsUsed n s.0
      → IsRefused s (redeem_pairing_code chars services text device now s.0 s.1)
  unfolding redeem_pairing_code
  IsUsed-IsRefused text n device now s e (row, at, used) =
      elim (Bool-cases (ltb row.expires_at now)) [
        | inl late ↦ rw (e, at, late) (refl, refl, ("pairing code expired", refl))
        | inr fresh ↦ rw (e, at, fresh, used) (refl, refl, ("pairing code already used", refl))
      ]

  redeem-uses :
      (text n : Text) (device : Option V) (now : ℕ) (rows : PairingTable) (devices : D) (answer : A)
      → normalize_code chars text ≡ some n
      → (redeem_pairing_code chars services text device now rows devices).2 ≡ ok answer
      → IsUsed n (redeem_pairing_code chars services text device now rows devices).0
  unfolding redeem_pairing_code
  redeem-uses text n device now rows devices answer e h =
      let same : redeem_pairing_code chars services text device now rows devices
          ≡ redeem_row chars services device now (by_code n rows) rows devices =
        rw e refl in
      subst (λ (r : Redeemed chars services). IsUsed n r.0) (sym same)
        (redeem_row-uses device now (by_code n rows) n rows devices answer refl
          (ap (λ r. r.2) (sym same) ∙ h))

  -- A pairing code that was redeemed is refused ever after, in whatever spelling, whatever codes are
  -- made and redeemed between, and a refused request changes no table.
  pub redeem_pairing_code-once :
      (text text' n : Text) (device device' : Option V) (now now' : ℕ) (rows : PairingTable)
      (devices : D) (answer : A) (cs : List Call)
      → normalize_code chars text ≡ some n
      → normalize_code chars text' ≡ some n
      → (redeem_pairing_code chars services text device now rows devices).2 ≡ ok answer
      → let r = redeem_pairing_code chars services text device now rows devices in
        let s = history cs (r.0, r.1) in
        IsRefused s (redeem_pairing_code chars services text' device' now' s.0 s.1)
  redeem_pairing_code-once text text' n device device' now now' rows devices answer cs e e' h =
      let r = redeem_pairing_code chars services text device now rows devices in
      IsUsed-IsRefused text' n device' now' (history cs (r.0, r.1)) e'
        (history-IsUsed cs n (r.0, r.1) (redeem-uses text n device now rows devices answer e h))
