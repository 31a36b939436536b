-- ===== src/Prelude/Stateful.antt =====
-- Code that works on a state and may fail: it leaves the state, and answers or fails. The rules say
-- what such code keeps; they follow the way that it is put together.
use failsafe.Prelude.{◌≡◌, refl, arith, Bool, true, false, Result, ok, err, if◌then◌else◌}

abbrev pub Stateful : Type 0 → Type 0 → Type 0 → Type 0
Stateful S E A = S → S × Result E A

abbrev pub continue_ : {S E A B : Type 0} → (A → Stateful S E B) → S × Result E A → S × Result E B
continue_ rest (s, err e) = (s, err e)
continue_ rest (s, ok a) = rest a s

infixl 5 ◌>>=◌ ◌>>◌
unfoldable pub ◌>>=◌ : {S E A B : Type 0} → Stateful S E A → (A → Stateful S E B) → Stateful S E B
◌>>=◌ m rest s = continue_ rest (m s)

unfoldable pub ◌>>◌ : {S E A B : Type 0} → Stateful S E A → Stateful S E B → Stateful S E B
◌>>◌ m rest s = continue_ (λ a. rest) (m s)

-- What does not touch the state.
unfoldable pub lift : {S E A : Type 0} → Result E A → Stateful S E A
lift r s = (s, r)

module _ {S E : Type 0} (P : S → Type 0) where
  -- The code leaves a state of which `P` holds so, also when it fails.
  abbrev pub Keeps : {A : Type 0} → Stateful S E A → Type 0
  Keeps m = (s : S) → P s → P (m s).0

  pub continue_-Keeps :
      {A B : Type 0} (rest : A → Stateful S E B) (r : S × Result E A)
      → ((a : A) → Keeps (rest a))
      → P r.0
      → P (continue_ rest r).0
  continue_-Keeps rest (s, err e) k h = h
  continue_-Keeps rest (s, ok a) k h = k a s h

  pub >>=-Keeps :
      {A B : Type 0} (m : Stateful S E A) (rest : A → Stateful S E B)
      → Keeps m
      → ((a : A) → Keeps (rest a))
      → Keeps (m >>= rest)
  unfolding ◌>>=◌
  >>=-Keeps m rest first then_ s h = continue_-Keeps rest (m s) then_ (first s h)

  pub >>-Keeps :
      {A B : Type 0} (m : Stateful S E A) (rest : Stateful S E B)
      → Keeps m
      → Keeps rest
      → Keeps (m >> rest)
  unfolding ◌>>◌
  >>-Keeps m rest first then_ s h = continue_-Keeps (λ a. rest) (m s) (λ a. then_) (first s h)

  pub lift-Keeps : {A : Type 0} (r : Result E A) → Keeps (lift r)
  unfolding lift
  lift-Keeps r s h = h

  pub if-Keeps :
      {A : Type 0} (b : Bool) (m n : Stateful S E A)
      → Keeps m
      → Keeps n
      → Keeps (if b then m else n)
  if-Keeps true m n first second = first
  if-Keeps false m n first second = second

  -- It keeps `P`, and what it answers has `Q`.
  abbrev pub Gives : {A : Type 0} → (A → Type 0) → Stateful S E A → Type 0
  Gives {A} Q m = (s : S) → P s → P (m s).0 × ((a : A) → (m s).1 ≡ ok a → Q a)

  continue_-Gives :
      {A B : Type 0} {Q : A → Type 0} {R : B → Type 0} (rest : A → Stateful S E B)
      (r : S × Result E A)
      → ((a : A) → Q a → Gives R (rest a))
      → P r.0
      → ((a : A) → r.1 ≡ ok a → Q a)
      → P (continue_ rest r).0 × ((b : B) → (continue_ rest r).1 ≡ ok b → R b)
  continue_-Gives rest (s, err e) k h known = (h, λ b is. absurd (ground arith))
  continue_-Gives rest (s, ok a) k h known = k a (known a refl) s h

  pub >>=-Gives :
      {A B : Type 0} {Q : A → Type 0} {R : B → Type 0} (m : Stateful S E A)
      (rest : A → Stateful S E B)
      → Gives Q m
      → ((a : A) → Q a → Gives R (rest a))
      → Gives R (m >>= rest)
  unfolding ◌>>=◌
  >>=-Gives m rest first then_ s h = continue_-Gives rest (m s) then_ (first s h).0 (first s h).1

  pub >>=-Keeps_given :
      {A B : Type 0} {Q : A → Type 0} (m : Stateful S E A) (rest : A → Stateful S E B)
      → Gives Q m
      → ((a : A) → Q a → Keeps (rest a))
      → Keeps (m >>= rest)
  >>=-Keeps_given m rest first then_ s h =
      (>>=-Gives {R = λ b. Unit {0}} m rest first (λ a known t k. (then_ a known t k, λ b is. tt)) s
        h).0

  pub >>-Gives :
      {A B : Type 0} {R : B → Type 0} (m : Stateful S E A) (rest : Stateful S E B)
      → Keeps m
      → Gives R rest
      → Gives R (m >> rest)
  unfolding ◌>>◌
  >>-Gives m rest first then_ s h =
      continue_-Gives {Q = λ a. Unit {0}} (λ a. rest) (m s) (λ a known. then_) (first s h)
        (λ a is. tt)

  pub lift-Gives :
      {A : Type 0} {Q : A → Type 0} (r : Result E A) → ((a : A) → r ≡ ok a → Q a) → Gives Q (lift r)
  unfolding lift
  lift-Gives r known s h = (h, known)

pub ok-inj : {E A : Type 0} {a b : A} → ◌≡◌ {A = Result E A} (ok a) (ok b) → a ≡ b
ok-inj h = cc
