-- ===== src/Daemon/Sync/Policy.antt =====
-- sync.rs: the directory and the addresses after `apply_server_devices`.
use failsafe.Prelude.{
  ◌≡◌, ◌≢◌, refl, ◌∙◌, inl, inr, ◌⊎◌, Bool, true, false, not, ◌&&◌, List, [], ◌∷◌, ◌++◌, ◌==◌, All,
  some, none, arith, nat_key, string_key, pair_key, Bool-cases, if◌then◌else◌, beq→eq, beq_refl,
  beq-eq-false,
}
use failsafe.Prelude.Assoc.{get, contains, contains-add, contains-discard, get-insert}
use failsafe.Core.Message.{DeviceId, FeatureId}
use failsafe.Core.Catalog.{all_ids, is_known_feature}
use failsafe.Core.Peer.{PeerDirectory, replace_peers, set_feature_enabled, is_feature_enabled}
use failsafe.Prelude.Sets.{contains-to_set, contains-append}
use failsafe.Daemon.Sync.{
  DeviceInfo, Gathered, apply_features, apply_device, apply_each, apply_server_devices,
}

set_feature_enabled-disabled :
    (d e : DeviceId) (f g : FeatureId) (enabled : Bool) (p : PeerDirectory)
    → contains (e, g) (set_feature_enabled d f enabled p).disabled
      ≡ (if (d == e) && (f == g) then not enabled else contains (e, g) p.disabled)
unfolding set_feature_enabled
set_feature_enabled-disabled d e f g true p = contains-discard (d, f) (e, g) p.disabled
set_feature_enabled-disabled d e f g false p = contains-add (d, f) (e, g) p.disabled

-- Both sides have the feature.
abbrev pub shared : FeatureId → List FeatureId → List FeatureId → Bool
shared f local_features remote_features = contains f local_features && contains f remote_features

apply_features-disabled :
    (d e : DeviceId) (ls rs fs : List FeatureId) (g : FeatureId) (p : PeerDirectory)
    → contains (e, g) (apply_features d ls rs fs p).disabled
      ≡ (if (d == e) && contains g fs then not (shared g ls rs) else contains (e, g) p.disabled)
unfolding apply_features contains
apply_features-disabled d e ls rs [] g p = ground arith
apply_features-disabled d e ls rs (f ∷ fs) g p =
    let rest =
      apply_features-disabled d e ls rs fs g (set_feature_enabled d f (shared f ls rs) p) in
    let one = set_feature_enabled-disabled d e f g (shared f ls rs) p in
    elim (Bool-cases (f == g)) [
      | inl same ↦ ground (arith, rest, one, same, beq→eq f g same)
      | inr other ↦ ground (arith, rest, one, other)
    ]

module _ (self_id : DeviceId) (local_features : List FeatureId) where
  -- No device of the list is a peer with the id `d`.
  abbrev pub NoPeer : DeviceId → List DeviceInfo → Type 0
  NoPeer d devices = All (λ (i : DeviceInfo). (i.device_id ≡ self_id) ⊎ (i.device_id ≢ d)) devices

  peer-ne :
      (d : DeviceId) (i : DeviceInfo)
      → (i.device_id == self_id) ≡ false
      → (i.device_id ≡ self_id) ⊎ (i.device_id ≢ d)
      → (i.device_id == d) ≡ false
  peer-ne d i peer (inl self) = ground (arith, self, nat_key.same_iff i.device_id self_id)
  peer-ne d i peer (inr ne) = beq-eq-false i.device_id d ne

  -- What a peer's own entry sets.
  apply_device-peer :
      (f : FeatureId) (d : DeviceInfo) (g : Gathered)
      → d.device_id ≢ self_id
      → let g' = apply_device self_id local_features d g in
        (contains (d.device_id, f) g'.peers.disabled ≡ (
          if is_known_feature f
          then not (shared f local_features d.enabled_features)
          else contains (d.device_id, f) g.peers.disabled))
        × (contains d.device_id g'.peer_ids ≡ true)
        × (get d.device_id g'.addresses ≡ some d.iroh_public_key)
  unfolding apply_device contains is_known_feature
  apply_device-peer f d g ne =
      let same = beq_refl d.device_id in
      rw (beq-eq-false d.device_id self_id ne) (
        ground (
          arith,
          same,
          apply_features-disabled d.device_id d.device_id local_features d.enabled_features all_ids
              f g.peers,
        ),
        ground (arith, same, contains-append d.device_id g.peer_ids (d.device_id ∷ [])),
        ground (arith, same, get-insert d.device_id d.device_id d.iroh_public_key g.addresses),
      )

  apply_device-others :
      (d : DeviceId) (f : FeatureId) (i : DeviceInfo) (g : Gathered)
      → (i.device_id ≡ self_id) ⊎ (i.device_id ≢ d)
      → (contains (d, f) (apply_device self_id local_features i g).peers.disabled
          ≡ contains (d, f) g.peers.disabled)
        × (contains d (apply_device self_id local_features i g).peer_ids ≡ contains d g.peer_ids)
        × (get d (apply_device self_id local_features i g).addresses ≡ get d g.addresses)
  unfolding apply_device contains
  apply_device-others d f i g h = elim (Bool-cases (i.device_id == self_id)) [
    | inl self ↦ rw self (refl, refl, refl)
    | inr peer ↦
        let other = peer-ne d i peer h in
        rw peer (
          ground (
            arith,
            other,
            apply_features-disabled i.device_id d local_features i.enabled_features all_ids f
                g.peers,
          ),
          ground (arith, other, contains-append d g.peer_ids (i.device_id ∷ [])),
          ground (arith, other, get-insert i.device_id d i.iroh_public_key g.addresses),
        )
  ]

  -- What the loop leaves of the entries of `d`, which no device in the list has.
  apply_each-others :
      (d : DeviceId) (f : FeatureId) (ds : List DeviceInfo) (g : Gathered)
      → NoPeer d ds
      → (contains (d, f) (apply_each self_id local_features ds g).peers.disabled
          ≡ contains (d, f) g.peers.disabled)
        × (contains d (apply_each self_id local_features ds g).peer_ids ≡ contains d g.peer_ids)
        × (get d (apply_each self_id local_features ds g).addresses ≡ get d g.addresses)
  unfolding apply_each
  apply_each-others d f [] g h = (refl, refl, refl)
  apply_each-others d f (i ∷ ds) g h =
      let one = apply_device-others d f i g h.0 in
      let rest = apply_each-others d f ds (apply_device self_id local_features i g) h.1 in
      (rest.0 ∙ one.0, rest.1 ∙ one.1, rest.2 ∙ one.2)

  apply_each-append :
      (as' bs : List DeviceInfo) (g : Gathered)
      → apply_each self_id local_features (as' ++ bs) g
        ≡ apply_each self_id local_features bs (apply_each self_id local_features as' g)
  unfolding apply_each
  apply_each-append [] bs g = refl
  apply_each-append (a ∷ as') bs g =
      apply_each-append as' bs (apply_device self_id local_features a g)

  apply_each-peer :
      (f : FeatureId) (as' bs : List DeviceInfo) (d : DeviceInfo) (g : Gathered)
      → d.device_id ≢ self_id
      → NoPeer d.device_id bs
      → let g' = apply_each self_id local_features (as' ++ d ∷ bs) g in
        (contains (d.device_id, f) g'.peers.disabled ≡ (
          if is_known_feature f
          then not (shared f local_features d.enabled_features)
          else contains (d.device_id, f) (apply_each self_id local_features as' g).peers.disabled))
        × (contains d.device_id g'.peer_ids ≡ true)
        × (get d.device_id g'.addresses ≡ some d.iroh_public_key)
  unfolding apply_each
  apply_each-peer f as' bs d g ne none_after =
      let g0 = apply_each self_id local_features as' g in
      let here = apply_device-peer f d g0 ne in
      let later =
        apply_each-others d.device_id f bs (apply_device self_id local_features d g0) none_after in
      rw (apply_each-append as' (d ∷ bs) g) (later.0 ∙ here.0, later.1 ∙ here.1, later.2 ∙ here.2)

  apply_server_devices-eq :
      (f : FeatureId) (d : DeviceId) (ds : List DeviceInfo) (p : PeerDirectory)
      → let g =
          apply_each self_id local_features ds
            (record { peers = p; peer_ids = []; addresses = [] }) in
        let r = apply_server_devices self_id local_features ds p in
        (is_feature_enabled d f r.0
          ≡ (contains d g.peer_ids && not (contains (d, f) g.peers.disabled)))
        × (get d r.1 ≡ get d g.addresses)
  unfolding apply_server_devices is_feature_enabled replace_peers
  apply_server_devices-eq f d ds p = (rw (contains-to_set d _) refl, refl)

  -- A peer's last entry in the server's list decides: a feature the build knows is enabled for the
  -- peer exactly when both devices have it, one that it does not know as it was before, and the
  -- peer's address is that of the entry.
  pub apply_server_devices-peer :
      (f : FeatureId) (as' bs : List DeviceInfo) (d : DeviceInfo) (p : PeerDirectory)
      → d.device_id ≢ self_id
      → NoPeer d.device_id bs
      → let r = apply_server_devices self_id local_features (as' ++ d ∷ bs) p in
        let before = apply_server_devices self_id local_features as' p in
        (is_feature_enabled d.device_id f r.0 ≡ (
          if is_known_feature f
          then shared f local_features d.enabled_features
          else not (contains (d.device_id, f) before.0.disabled)))
        × (get d.device_id r.1 ≡ some d.iroh_public_key)
  unfolding replace_peers apply_server_devices
  apply_server_devices-peer f as' bs d p ne none_after =
      let all_ = apply_server_devices-eq f d.device_id (as' ++ d ∷ bs) p in
      let at =
        apply_each-peer f as' bs d (record { peers = p; peer_ids = []; addresses = [] }) ne
          none_after in
      (ground (arith, all_.0, at.0, at.1), all_.1 ∙ at.2)

  -- The device itself and every device that the server does not list gets no message of any
  -- feature and has no address.
  pub apply_server_devices-NoPeer :
      (f : FeatureId) (d : DeviceId) (ds : List DeviceInfo) (p : PeerDirectory)
      → NoPeer d ds
      → let r = apply_server_devices self_id local_features ds p in
        (is_feature_enabled d f r.0 ≡ false) × (get d r.1 ≡ none)
  unfolding contains get
  apply_server_devices-NoPeer f d ds p h =
      let all_ = apply_server_devices-eq f d ds p in
      let one = apply_each-others d f ds (record { peers = p; peer_ids = []; addresses = [] }) h in
      (ground (arith, all_.0, one.1), all_.1 ∙ one.2)
