-- ===== src/Core/Registry.antt =====
-- registry.rs: the features of this device and which of them are enabled. A feature is a value of
-- `F` with the methods of the trait; a method gives the feature after the call and its result.
pub mod Safety
pub mod Delivery
pub mod Effects
use failsafe.Prelude.{
  ◌≡◌, Bool, true, false, String, Option, none, some, List, [], ◌∷◌, if◌then◌else◌, string_key,
  Result, ok, err,
}
use failsafe.Prelude.Assoc.{get, insert, contains, add, discard}
use failsafe.Core.Message.{FeatureId, FeatureMessage}

pub data FeatureError : Type 0 where
  already_registered : FeatureId → FeatureError
  not_registered : FeatureId → FeatureError
  not_enabled : FeatureId → FeatureError
  failed : FeatureId → String → FeatureError

abbrev pub Done : Type 0
Done = Result FeatureError (Unit {0})

-- The trait `Feature`. Its id does not change.
pub record Methods (F : Type 0) : Type 0 where
  pub id : F → FeatureId
  pub start : F → F × Done
  pub stop : F → F × Done
  pub handle : FeatureMessage → F → F × Done

-- What a call leads to: a result, or a panic at an `expect`.
pub data Exit : Type 0 where
  returned : Done → Exit
  panicked : Exit

pub record Registry (F : Type 0) : Type 0 where
  pub features : List (FeatureId × F)
  pub enabled : List FeatureId

module _ {F : Type 0} (methods : Methods F) where
  open methods use {id, start, stop, handle}

  abbrev registered : Option F → Bool
  registered none = false
  registered (some f) = true

  unfoldable pub is_registered : FeatureId → Registry F → Bool
  is_registered i r = registered (get i r.features)

  unfoldable pub is_enabled : FeatureId → Registry F → Bool
  is_enabled i r = contains i r.enabled

  abbrev pub new : Registry F
  new = record { features = []; enabled = [] }

  unfoldable pub register : F → Registry F → Registry F × Done
  unfolding is_registered
  register f r =
      if is_registered (id f) r
      then (r, err (already_registered (id f)))
      else (record r { features = insert (id f) f r.features }, ok tt)

  unfoldable pub enable : FeatureId → Registry F → Registry F × Done
  unfolding is_registered
  enable i r =
      if is_registered i r
      then (record r { enabled = add i r.enabled }, ok tt)
      else (r, err (not_registered i))

  -- The feature after a method call goes back to its place.
  abbrev put : FeatureId → F × Done → Registry F → Registry F × Exit
  put i (f, result) r = (record r { features = insert i f r.features }, returned result)

  abbrev put_quietly : FeatureId → Option F → Registry F → Registry F
  put_quietly i none r = r
  put_quietly i (some f) r = record r { features = insert i (stop f).0 r.features }

  unfoldable pub disable : FeatureId → Registry F → Registry F
  disable i r = put_quietly i (get i r.features) (record r { enabled = discard i r.enabled })

  -- `get_mut(&id).expect(…)` and `start`.
  abbrev start_at : FeatureId → Option F → Registry F → Registry F × Exit
  start_at i none r = (r, panicked)
  start_at i (some f) r = put i (start f) r

  abbrev start_after : FeatureId → Registry F × Done → Registry F × Exit
  start_after i (r, err e) = (r, returned (err e))
  start_after i (r, ok u) = start_at i (get i r.features) r

  unfoldable pub enable_and_start : FeatureId → Registry F → Registry F × Exit
  unfolding enable
  enable_and_start i r = start_after i (enable i r)

  -- The loop of `start_enabled` over the ids that were enabled when it began.
  unfoldable pub start_each : List FeatureId → Registry F → Registry F × Exit
  start_each [] r = (r, returned (ok tt))
  start_each (i ∷ is') r =
      let (r', exit) = start_at i (get i r.features) r in
      elim exit [
        | returned (ok u) ↦ start_each is' r'
        | returned (err e) ↦ (r', returned (err e))
        | panicked ↦ (r', panicked)
      ]

  unfoldable pub start_enabled : Registry F → Registry F × Exit
  unfolding start_each
  start_enabled r = start_each r.enabled r

  abbrev handle_at : FeatureId → FeatureMessage → Option F → Registry F → Registry F × Exit
  handle_at i message none r = (r, returned (err (not_registered i)))
  handle_at i message (some f) r = put i (handle message f) r

  unfoldable pub dispatch : FeatureMessage → Registry F → Registry F × Exit
  unfolding is_enabled
  dispatch message r =
      if is_enabled message.feature r
      then handle_at message.feature message (get message.feature r.features) r
      else (r, returned (err (not_enabled message.feature)))
