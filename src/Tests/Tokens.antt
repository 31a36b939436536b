-- ===== src/Tests/Tokens.antt =====
-- A signer whose tokens are the claims written out, with its laws.
use failsafe.Prelude.{
  ℕ, zero, suc, ◌≤◌, ◌≡◌, refl, ap, Bool, true, false, String, Option, none, some, Result, ok, leb,
  arith, if◌then◌else◌, string_key, ◌==◌, beq_refl,
}
use failsafe.Prelude.Strings.{append, Without, split_once, split_once-colon}
use failsafe.Server.Jwt.{Claims, Signer}
use failsafe.Server.Jwt.Kinds.{SignerLaws}

unfoldable pub unary : ℕ → String
unary zero = ""
unary (suc n) = append "1" (unary n)

unfoldable pub count : String → ℕ
count String.[] = zero
count (String.◌∷◌ c s) = suc (count s)

count-unary : (n : ℕ) → count (unary n) ≡ n
unfolding count unary
count-unary zero = refl
count-unary (suc n) = ap suc (count-unary n)

unary-Without : (n : ℕ) → Without 58 (unary n)
unfolding unary
unary-Without zero = tt
unary-Without (suc n) = (refl, unary-Without n)

abbrev flag : Option Bool → String
flag none = ""
flag (some false) = "1"
flag (some true) = "11"

abbrev unflag : ℕ → Option Bool
unflag zero = none
unflag (suc zero) = some false
unflag (suc (suc n)) = some true

unflag-flag : (m : Option Bool) → (unflag (count (flag m)) ≡ m) × Without 58 (flag m)
unfolding count
unflag-flag none = (refl, tt)
unflag-flag (some false) = (refl, (refl, tt))
unflag-flag (some true) = (refl, (refl, (refl, tt)))

unfoldable pub written : Claims → String
written c = append (unary c.exp) (
    append ":" (append (unary c.iat) (append ":" (append (flag c.mfa_pending) (append ":" c.sub)))))

abbrev read_sub : ℕ → ℕ → ℕ → Option (String × String) → Option Claims
read_sub now exp iat none = none
read_sub now exp iat (some (f, sub)) =
    if leb now exp
    then some (record { sub = sub; exp = exp; iat = iat; mfa_pending = unflag (count f) })
    else none

abbrev read_flag : ℕ → ℕ → Option (String × String) → Option Claims
read_flag now exp none = none
read_flag now exp (some (i, rest)) = read_sub now exp (count i) (split_once 58 rest)

abbrev read_iat : ℕ → Option (String × String) → Option Claims
read_iat now none = none
read_iat now (some (e, rest)) = read_flag now (count e) (split_once 58 rest)

unfoldable pub reads : ℕ → String → Option Claims
reads now token = read_iat now (split_once 58 token)

reads-written : (c : Claims) (now : ℕ) → now ≤ c.exp → reads now (written c) ≡ some c
unfolding reads written
reads-written c now h =
    rw
      (split_once-colon (unary c.exp)
        (append (unary c.iat) (append ":" (append (flag c.mfa_pending) (append ":" c.sub))))
        (unary-Without c.exp))
      (rw
        (split_once-colon (unary c.iat) (append (flag c.mfa_pending) (append ":" c.sub))
          (unary-Without c.iat))
        (rw (split_once-colon (flag c.mfa_pending) c.sub (unflag-flag c.mfa_pending).1)
          (ground (arith, count-unary c.exp, count-unary c.iat, (unflag-flag c.mfa_pending).0))))

ok-inj : {E A : Type 0} {a b : A} → ◌≡◌ {A = Result E A} (ok a) (ok b) → a ≡ b
ok-inj h = cc

abbrev pub signer : Signer
signer = record {
  encode = λ c. ok (written c);
  decode = reads;
  show_id = unary;
  parse_id = λ s. some (count s);
  argon2_hash = λ password salt. some password;
  argon2_parse = λ hash. some hash;
  argon2_verify = λ password hash. password == hash;
}

pub signer-Laws : SignerLaws signer
signer-Laws = record {
  decode_back = λ c token now made young. rw (← ok-inj made) (reads-written c now young);
  parse_back = λ a. ap some (count-unary a);
  argon2_back = λ password salt hash made. (hash, refl, ground (arith, made, beq_refl password));
}
