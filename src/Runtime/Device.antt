-- ===== src/Runtime/Device.antt =====
-- runtime/device.py: the devices of a thread, one for each torch device. The IREE runtime opens a
-- device, and is a parameter.
use shark_turbine.Common.{
  ℕ, Bool, Option, none, some, Name, codes, if◌then◌else◌, ◌==◌, nat_key, list_key, option_key,
  pair_key,
}
use shark_turbine.Common.Exc.{Result, ok, err, Exec}
use shark_turbine.Common.Dict.{Dict, lookup, insert}

-- torch.device: its type and its index.
abbrev pub TorchDevice : Type 0
TorchDevice = Name × Option ℕ

module _ {D : Type 0} (new_device : Name → Result D) where
  -- _create_device_from_torch
  unfoldable pub create_device_from_torch : TorchDevice → Result (Option D)
  create_device_from_torch (type, index) =
      if type == codes "cpu"
      then elim (new_device (codes "local-task")) [ err e ↦ err e | ok d ↦ ok (some d) ]
      else ok none

  abbrev pub remember :
      TorchDevice → Result (Option D) → Dict TorchDevice D → Result (Option D) × Dict TorchDevice D
  remember td (err e) mapping = (err e, mapping)
  remember td (ok none) mapping = (ok none, mapping)
  remember td (ok (some d)) mapping = (ok (some d), insert td d mapping)

  -- lookup_device_from_torch
  unfoldable pub lookup_device_from_torch :
      TorchDevice → (create : Bool) → Exec (Dict TorchDevice D) (Option D)
  lookup_device_from_torch td create mapping = elim (lookup td mapping) [
    | some d ↦ (ok (some d), mapping)
    | none ↦
        if create then remember td (create_device_from_torch td) mapping else (ok none, mapping)
  ]
