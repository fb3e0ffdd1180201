-- ===== src/MDict/Put.antt =====
-- usual/mdict.c: mdict_put_str changes the value of one key.
use libusual_archive.Base.{ℕ, ◌≡◌, false, List, ◌⊎◌}
use libusual_archive.Index.{Index}
use libusual_archive.MDict.Dict.{MDictElem, mdict_getkey, MDict, Granted}
use libusual_archive.MDict.Map.{IsScarce}

module _ (index : Index MDictElem mdict_getkey) where
  -- Why mdict_put_str fails: as above, or for the memory of a copy.
  abbrev pub IsShort : Granted → MDict index.State → List ℕ → Type 0
  IsShort granted dict key =
      (granted.vptr ≡ false)
      ⊎ ((granted.kptr ≡ false) ⊎ IsScarce index granted.el granted.node dict key)
