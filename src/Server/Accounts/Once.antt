-- ===== src/Server/Accounts/Once.antt =====
-- routes/auth.rs and totp.rs: a recovery code after it was used.
use failsafe.Prelude.{
  ℕ, suc, ◌≡◌, ◌≢◌, refl, true, false, String, some, List, [], ◌∷◌, ◌++◌, All, ok, arith, inl, inr,
  if◌then◌else◌, ◌==◌, nat_key, string_key, Option-cases, Bool-cases,
}
use failsafe.Prelude.Stateful.{◌>>◌, Keeps, >>-Keeps}
use failsafe.Core.Message.{AccountId}
use failsafe.Server.Totp.{hash_recovery_code, generate_recovery_codes}
use failsafe.Server.Accounts.State.{AccountRow, RecoveryRow, Tables}
use failsafe.Server.Accounts.{
  Server, Faults, Draws, use_codes, any_usable, usable, without_codes, consume_recovery_code,
  add_account,
}
use failsafe.Server.Accounts.Changes.{code_rows}
use failsafe.Server.Accounts.Requests.{Request, Requests, serve_all, check-Keeps}
use failsafe.Server.Accounts.Kept.{Steps, register-Keeps, serve_all-Keeps}

module _ (id : AccountId) (hash : String) where
  usable-used :
      (i : AccountId) (h : String) (now : ℕ) (row : RecoveryRow)
      → usable id hash row ≡ false
      → usable id hash (if usable i h row then record row { used_at = some now } else row) ≡ false
  usable-used i h now row off = elim (Bool-cases (usable i h row)) [
    | inl on ↦ rw on (ground arith)
    | inr other ↦ rw other off
  ]

  use_codes-unusable :
      (i : AccountId) (h : String) (now : ℕ) (rows : List RecoveryRow)
      → any_usable id hash rows ≡ false
      → any_usable id hash (use_codes i h now rows) ≡ false
  unfolding use_codes any_usable
  use_codes-unusable i h now [] off = refl
  use_codes-unusable i h now (row ∷ rows) off =
      let first = usable-used i h now row (ground (arith, off)) in
      let more = use_codes-unusable i h now rows (ground (arith, off)) in rw first more

  use_codes_self :
      (now : ℕ) (rows : List RecoveryRow) → any_usable id hash (use_codes id hash now rows) ≡ false
  unfolding use_codes any_usable
  use_codes_self now [] = refl
  use_codes_self now (row ∷ rows) = elim (Bool-cases (usable id hash row)) [
    | inl on ↦ rw on (ground (arith, use_codes_self now rows))
    | inr off ↦ rw off (rw off (use_codes_self now rows))
  ]

  without_codes-unusable :
      (i : AccountId) (rows : List RecoveryRow)
      → any_usable id hash rows ≡ false
      → any_usable id hash (without_codes i rows) ≡ false
  unfolding any_usable
  without_codes-unusable i [] off = refl
  without_codes-unusable i (row ∷ rows) off =
      let more = without_codes-unusable i rows (ground (arith, off)) in
      elim (Bool-cases (row.account_id == i)) [
        | inl gone ↦ rw gone more
        | inr stays ↦ rw stays (ground (arith, off, more))
      ]

  append-unusable :
      (rows new : List RecoveryRow)
      → any_usable id hash rows ≡ false
      → any_usable id hash new ≡ false
      → any_usable id hash (rows ++ new) ≡ false
  unfolding any_usable
  append-unusable [] new off newer = newer
  append-unusable (row ∷ rows) new off newer =
      let more = append-unusable rows new (ground (arith, off)) newer in ground (arith, off, more)

module _ (server : Server) (id : AccountId) (code : String) where
  abbrev hash : String
  hash = hash_recovery_code server.unicode server.crypto code

  -- None of the recovery codes that a request would make has the hash of this one.
  abbrev pub Others : Draws → Type 0
  Others d =
      All (λ (c : String). (hash_recovery_code server.unicode server.crypto c == hash) ≡ false)
        (generate_recovery_codes d.draws)

  abbrev pub IsUsedUp : Tables → Type 0
  IsUsedUp s = any_usable id hash s.recovery ≡ false

  code_rows-unusable :
      (f : Faults) (d : Draws) (i : AccountId) (next : ℕ) (codes : List String)
      → All
          (λ (c : String). (hash_recovery_code server.unicode server.crypto c == hash) ≡ false)
          codes
      → any_usable id hash (code_rows server f d i next codes) ≡ false
  unfolding any_usable
  code_rows-unusable f d i next [] h = refl
  code_rows-unusable f d i next (c ∷ cs) h =
      let more = code_rows-unusable f d i (suc next) cs h.1 in ground (arith, h.0, more)

  add_account-IsUsedUp :
      (f : Faults) (d : Draws) (row : AccountRow) → Keeps IsUsedUp (add_account server f d row)
  add_account-IsUsedUp f d row =
      >>-Keeps IsUsedUp _ _ (check-Keeps IsUsedUp f.write_account) (λ s h. h)

  IsUsedUp-Steps : Steps server IsUsedUp Others
  unfolding consume_recovery_code
  IsUsedUp-Steps = record {
    registered = λ f d email password.
        register-Keeps server IsUsedUp f d (add_account-IsUsedUp f d) (λ i s h. h) email password;
    issued = λ f d i s h. h;
    consumed = λ f d i c. >>-Keeps IsUsedUp _ _ (check-Keeps IsUsedUp f.use_code) λ s h.
        use_codes-unusable id hash i (hash_recovery_code server.unicode server.crypto c) d.now
          s.recovery h;
    exchanged = λ f d raw s h. h;
    ended = λ f d raw s h. h;
    revoked = λ f d i s h. h;
    updated = λ f d i change same.
        >>-Keeps IsUsedUp _ _ (check-Keeps IsUsedUp f.write_account) (λ s h. h);
    deleted = λ f d i.
        >>-Keeps IsUsedUp _ _ (check-Keeps IsUsedUp f.delete_codes)
          λ s h. without_codes-unusable id hash i s.recovery h;
    inserted = λ f d i others. >>-Keeps IsUsedUp _ _ (check-Keeps IsUsedUp f.insert_code) λ s h.
        append-unusable id hash s.recovery
          (code_rows server f d i d.code_id (generate_recovery_codes d.draws)) h
          (code_rows-unusable f d i d.code_id (generate_recovery_codes d.draws) others);
  }

  consume-IsUsedUp :
      (f : Faults) (d : Draws) (s : Tables)
      → (consume_recovery_code server f d id code s).1 ≡ ok true
      → IsUsedUp (consume_recovery_code server f d id code s).0
  unfolding consume_recovery_code ◌>>◌
  consume-IsUsedUp f d s h = elim (Option-cases f.use_code) [
    | inl fine ↦ rw fine (use_codes_self id hash d.now s.recovery)
    | inr (e, fault) ↦ absurd (ground (arith, fault, h))
  ]

  IsUsedUp-refuses :
      (f : Faults) (d : Draws) (s : Tables)
      → IsUsedUp s
      → (consume_recovery_code server f d id code s).1 ≢ ok true
  unfolding consume_recovery_code ◌>>◌
  IsUsedUp-refuses f d s used h = elim (Option-cases f.use_code) [
    | inl fine ↦ absurd (ground (arith, fine, used, h))
    | inr (e, fault) ↦ absurd (ground (arith, fault, h))
  ]

  -- A recovery code that was taken once is not taken again for the account, whatever requests come
  -- between, as long as none of them makes recovery codes of which one has the same hash.
  pub consume_recovery_code-once :
      (f f' : Faults) (d d' : Draws) (s : Tables) (rs : Requests)
      → (consume_recovery_code server f d id code s).1 ≡ ok true
      → All (λ (r : Faults × Draws × Request). Others r.1) rs
      → let s' = serve_all server rs (consume_recovery_code server f d id code s).0 in
        (consume_recovery_code server f' d' id code s').1 ≢ ok true
  consume_recovery_code-once f f' d d' s rs h others =
      IsUsedUp-refuses f' d' (serve_all server rs (consume_recovery_code server f d id code s).0) (
        serve_all-Keeps server IsUsedUp Others IsUsedUp-Steps rs
          (consume_recovery_code server f d id code s).0 others (consume-IsUsedUp f d s h))
