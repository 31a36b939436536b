-- ===== src/Daemon/Service/Agreement.antt =====
-- daemon.rs and sync.rs: the registry and the features of the device beside the list of the server.
use failsafe.Prelude.{
  ◌≡◌, refl, sym, ap, subst, ◌∙◌, inl, inr, Bool, true, false, ◌||◌, Option, none, some, List, [],
  ◌∷◌, all, ◌==◌, arith, string_key, Bool-cases, ok, err, Result-cases, beq→eq,
}
use failsafe.Prelude.Assoc.{contains, to_set}
use failsafe.Prelude.Sets.{contains-to_set}
use failsafe.Core.Message.{DeviceId, FeatureId}
use failsafe.Core.Catalog.{is_known_feature}
use failsafe.Core.Registry.{Methods, Registry, Exit, returned, panicked, is_registered, is_enabled}
use failsafe.Daemon.Config.{Save, apply_server_policy}
use failsafe.Daemon.Sync.{DeviceInfo, find_self_device, same_set}
use failsafe.Daemon.Sync.Features.{sync_features_to_registry-Synced}
use failsafe.Daemon.Service.{
  Own, Daemon, Finish, finished, aborted, apply_self, apply_self_from_server, take_features,
  persist, synced, sync_from_server, name_changed, features_changed, named,
}
use failsafe.Daemon.Service.Settled.{IsSettled, apply_self-IsSettled}

all-member :
    (p : FeatureId → Bool) (f : FeatureId) (fs : List FeatureId)
    → all p fs ≡ true
    → contains f fs ≡ true
    → p f ≡ true
unfolding contains
all-member p f [] h m = absurd (ground arith)
all-member p f (g ∷ fs) h m = elim (Bool-cases (g == f)) [
  | inl same ↦ ground (arith, h, ap p (beq→eq g f same))
  | inr other ↦ all-member p f fs (ground (arith, h)) (ground (arith, m, other))
]

-- Sets that are equal have the same members.
same_set-contains :
    (f : FeatureId) (fs gs : List FeatureId) → same_set fs gs ≡ true → contains f gs ≡ contains f fs
same_set-contains f fs gs h =
    let left : contains f fs ≡ true → contains f gs ≡ true =
      all-member (λ g. contains g gs) f fs (ground (arith, h)) in
    let right : contains f gs ≡ true → contains f fs ≡ true =
      all-member (λ g. contains g fs) f gs (ground (arith, h)) in
    elim (Bool-cases (contains f fs)) [
      | inl inside ↦ left inside ∙ sym inside
      | inr outside ↦ elim (Bool-cases (contains f gs)) [
        | inl inside ↦ absurd (ground (arith, right inside, outside))
        | inr outside' ↦ outside' ∙ sym outside
      ]
    ]

module _ {F W : Type 0} (methods : Methods F) (save : Save W) where
  -- A feature that the build knows and has is enabled exactly when it is one of the device's.
  abbrev pub Agrees : Registry F → List FeatureId → Type 0
  Agrees r local_features =
      (f : FeatureId)
      → is_known_feature f ≡ true
      → is_registered methods f r ≡ true
      → is_enabled methods f r ≡ contains f local_features

  Agrees-same :
      (r r' : Registry F) (ls ls' : List FeatureId)
      → r' ≡ r
      → ls' ≡ ls
      → Agrees r ls
      → Agrees r' ls'
  Agrees-same r r' ls ls' e e' v =
      subst (λ x. Agrees x ls') (sym e) (subst (λ x. Agrees r x) (sym e') v)

  persist-ok :
      (changed : Bool) (d : DeviceInfo) (s : Own F W × Exit) (b : Bool)
      → (persist methods save changed d s).1 ≡ finished (ok b)
      → (s.1 ≡ returned (ok tt))
        × ((persist methods save changed d s).0.registry ≡ s.0.registry)
        × ((persist methods save changed d s).0.local_features ≡ s.0.local_features)
  persist-ok changed d (s, panicked) b h = absurd (ground arith)
  persist-ok changed d (s, returned (err e)) b h = absurd (ground arith)
  persist-ok false d (s, returned (ok tt)) b h = (refl, refl, refl)
  persist-ok true d (s, returned (ok tt)) b h =
      elim (Result-cases (apply_server_policy save d.name d.enabled_features s.stored).1) [
        | inl (x, e) ↦ rw e (refl, refl, refl)
        | inr (c, e) ↦ rw e (refl, refl, refl)
      ]

  take_features-Agrees :
      (changed : Bool) (target : List FeatureId) (now : Bool) (s : Own F W)
      → Agrees s.registry s.local_features
      → let t = take_features methods save changed target now s in
        t.1 ≡ returned (ok tt) → Agrees t.0.registry t.0.local_features
  take_features-Agrees false target now s v h = v
  take_features-Agrees true target now s v h = λ f known present.
      let synced_ = sync_features_to_registry-Synced methods target now f s.registry h in
      ground (arith, synced_.0, synced_.1, known, present)

  apply_self-Agrees :
      (now : Bool) (o : Option DeviceInfo) (s : Own F W) (b : Bool)
      → Agrees s.registry s.local_features
      → (apply_self methods save now o s).1 ≡ finished (ok b)
      → let s' = (apply_self methods save now o s).0 in Agrees s'.registry s'.local_features
  apply_self-Agrees now none s b v h = v
  apply_self-Agrees now (some d) s b v h =
      let t =
        take_features methods save (features_changed d s) (to_set d.enabled_features) now
          (named d s) in
      let k = persist-ok (name_changed d s || features_changed d s) d t b h in
      let w =
        take_features-Agrees (features_changed d s) (to_set d.enabled_features) now (named d s) v
          k.0 in
      let s' = (apply_self methods save now (some d) s).0 in
      Agrees-same t.0.registry s'.registry t.0.local_features s'.local_features k.1 k.2 w

  synced-ok :
      (self_id : DeviceId) (devices : List DeviceInfo) (d : Daemon F W) (a : Own F W × Finish Bool)
      → (synced methods save self_id devices d a).1 ≡ finished (ok tt)
      → ((b : Bool) × (a.1 ≡ finished (ok b)))
        × ((synced methods save self_id devices d a).0.own ≡ a.0)
  synced-ok self_id devices d (own, aborted) h = absurd (ground arith)
  synced-ok self_id devices d (own, finished (err e)) h = absurd (ground arith)
  synced-ok self_id devices d (own, finished (ok b)) h = ((b, refl), refl)

  -- After a sync that succeeds, with the device in the server's list, the device's features are
  -- those of its entry, and agreement with the registry is kept.
  pub sync_from_server-Agrees :
      (self_id : DeviceId) (now : Bool) (devices : List DeviceInfo) (d : Daemon F W)
      (i : DeviceInfo)
      → find_self_device self_id devices ≡ some i
      → Agrees d.own.registry d.own.local_features
      → (sync_from_server methods save self_id now (some (ok devices)) d).1 ≡ finished (ok tt)
      → let own = (sync_from_server methods save self_id now (some (ok devices)) d).0.own in
        Agrees own.registry own.local_features
        × ((f : FeatureId) → contains f own.local_features ≡ contains f i.enabled_features)
  unfolding sync_from_server apply_self_from_server
  sync_from_server-Agrees self_id now devices d i found v h =
      let a = apply_self methods save now (find_self_device self_id devices) d.own in
      let k = synced-ok self_id devices d a h in
      let w = apply_self-Agrees now (find_self_device self_id devices) d.own k.0.0 v k.0.1 in
      let settled = apply_self-IsSettled methods save now i d.own in
      let settled' : IsSettled methods save i a.0 = rw found settled in
      rw k.1 (
        w,
        λ f.
            same_set-contains f (to_set i.enabled_features) a.0.local_features settled'.1
            ∙ contains-to_set f i.enabled_features,
      )
