-- ===== src/Driver/Volumes.antt =====
-- What the controller's handlers are for, without Cloud Storage: a volume is missing or has a
-- capacity, and each request changes one volume in one of a few ways.
pub mod Buckets
pub mod Steps
pub mod Requests
pub mod Kept
pub mod Retry
use csi_gcs.Base.{String, ◌≡◌, ◌≢◌, Bool, true, false, Option, none, some, ℤ, pos, ltb_ℤ}
use csi_gcs.Go.{Outcome, ok, err}
use csi_gcs.World.{Attrs}
use csi_gcs.Util.Capacity.{bucket_capacity}

-- A volume whose capacity cannot be read is a bucket with a label "capacity" that is no number.
pub data VolumeState : Type 0 where
  missing unreadable : VolumeState
  stated : ℤ → VolumeState

abbrev pub of_capacity : Outcome ℤ → VolumeState
of_capacity (ok i) = stated i
of_capacity (err e) = unreadable

abbrev pub volume_of : Option Attrs → VolumeState
volume_of none = missing
volume_of (some a) = of_capacity (bucket_capacity a)

abbrev pub Volumes : Type 0
Volumes = String → VolumeState

pub data Command : Type 0 where
  create expand : ℤ → Command
  delete inspect : Command

-- The changes of one volume by a command. A command that fails half way leaves a volume without a
-- stated capacity at most.
infix 40 ◌⊢◌⟶◌
pub data ◌⊢◌⟶◌ : Command → VolumeState → VolumeState → Type 0 where
  keep : {c : Command} {v : VolumeState} → c ⊢ v ⟶ v
  make : {new : ℤ} → create new ⊢ missing ⟶ stated (pos 0)
  make_sized : {new : ℤ} → create new ⊢ missing ⟶ stated new
  size : {new : ℤ} → create new ⊢ stated (pos 0) ⟶ stated new
  grow : {i new : ℤ} → ltb_ℤ i new ≡ true → expand new ⊢ stated i ⟶ stated new
  remove : {v : VolumeState} → delete ⊢ v ⟶ missing

-- A step of all volumes: a command at the volume `n`.
abbrev pub Step : Command → String → Volumes → Volumes → Type 0
Step c n a b = ((m : String) → n ≢ m → b m ≡ a m) × (c ⊢ a n ⟶ b n)

-- The volume is there, with at least this capacity.
abbrev pub AtLeast : ℤ → VolumeState → Type 0
AtLeast c v = (i : ℤ) × (v ≡ stated i) × (ltb_ℤ i c ≡ false)
