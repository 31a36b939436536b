-- ===== src/Prelude/Shuffle.antt =====
-- One list is the other in some order: each element in turn has its place in the second list.
use failsafe.Prelude.{◌≡◌, List, [], ◌∷◌, ◌++◌, All, All-append, subst, sym}

pub data Shuffle {ℓ} {A : Type ℓ} : List A → List A → Type ℓ where
  nil : Shuffle [] []
  put :
      {x : A} {xs ds : List A} (as' bs : List A)
      → ds ≡ as' ++ x ∷ bs
      → Shuffle xs (as' ++ bs)
      → Shuffle (x ∷ xs) ds

module _ {ℓ κ} {A : Type ℓ} (P : A → Type κ) where
  pub All-split : (as' bs : List A) → All P (as' ++ bs) → All P as' × All P bs
  All-split [] bs h = (tt, h)
  All-split (a ∷ as') bs h = let r = All-split as' bs h.1 in ((h.0, r.0), r.1)

  pub All-Shuffle : {xs ds : List A} → Shuffle xs ds → All P xs → All P ds
  All-Shuffle nil h = tt
  All-Shuffle (put {x = x} as' bs e s) h =
      let r = All-split as' bs (All-Shuffle s h.1) in
      subst (All P) (sym e) (All-append P as' (x ∷ bs) r.0 (h.0, r.1))
