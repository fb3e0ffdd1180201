-- ===== src/MDict/Whole.antt =====
-- usual/mdict.c: a dictionary that is written as the text of a URL and read again.
use libusual_archive.Base.{
  ℕ, ◌+◌, ◌^◌, ◌≤◌, ◌≡◌, ◌≢◌, Bool, true, false, ◌||◌, none, some, List, [], inl, inr, ◌⊎◌, OneOf,
  Returns, Returns-map,
}
use libusual_archive.Index.{Index}
use libusual_archive.Mbuf.State.{MBuf}
use libusual_archive.Mbuf.View.{IsValid}
use libusual_archive.Mbuf.Writing.{Appended}
use libusual_archive.MDict.Text.{IsAlnum}
use libusual_archive.MDict.Dict.{
  MDictElem, mdict_getkey, MDict, mdict_get_buf, mdict_urlencode, mdict_urldecode,
}
use libusual_archive.MDict.Lookup.{IsDict}
use libusual_archive.MDict.Map.{IsFresh}
use libusual_archive.MDict.WriteAll.{AreTexts, room_for, mdict_urlencode_lem}
use libusual_archive.MDict.Puts.{generous}
use libusual_archive.MDict.ReadAll.{fill_empty}

module _ (index : Index MDictElem mdict_getkey) (granted : MBuf → Bool) (isalnum : ℕ → Bool) where
  -- Keys and values of bytes, and no empty key without a value.
  pub record IsSource (dict : MDict index.State) : Type 0 where
    pub is_dict : IsDict index dict
    pub texts : AreTexts index granted isalnum dict.val (index.contents dict.tree)
    pub keys :
        (el : MDictElem) → OneOf el (index.contents dict.tree) → index.IsKey (mdict_getkey el)
    pub written :
        (el : MDictElem)
        → OneOf el (index.contents dict.tree)
        → el.key ≡ []
        → dict.val el.address ≢ none

  -- What mdict_urlencode leaves, for a reader with memory at `place` that begins with the dictionary `d`.
  abbrev pub IsWhole :
      (MDict index.State → ℕ) → MDict index.State → MDict index.State → MBuf → Bool × MBuf → Type 0
  IsWhole place dict d dst (ok, dst') =
      ((ok ≡ true)
        × ((text : List ℕ) × Appended dst text dst'
            × Returns
                (λ r.
                  (r.0 ≡ true)
                  × ((k : List ℕ) → mdict_get_buf index (r.1) k ≡ mdict_get_buf index dict k))
                (mdict_urldecode index (generous index place) d text)))
      ⊎ ((ok ≡ false)
          × IsValid dst'
          × (((dst.reader || dst.fixed) ≡ true) ⊎ ((b : MBuf) × (granted b ≡ false))))

  -- For an isalnum that is false on `%`, `+`, `&` and `=`, a dictionary of bytes whose keys the index takes and in which an
  -- empty key has a value that is not NULL, a valid buffer whose write cursor, with two bytes for each element and three for each
  -- byte of its key and value, is at most 2^30, and an empty dictionary for which each allocation succeeds and gives memory that
  -- no element uses: mdict_urlencode returns. Either it gives true and has added a text from which mdict_urldecode makes a
  -- dictionary that gives the same for every key, with true; or it gives false, and the buffer is fixed, a reader, or could
  -- not grow.
  pub mdict_urlencode-urldecode :
      (place : MDict index.State → ℕ) (dict d : MDict index.State) (dst : MBuf)
      → IsAlnum isalnum
      → IsSource dict
      → IsValid dst
      → dst.write_pos + room_for index granted isalnum dict.val (index.contents dict.tree) ≤ 2 ^ 30
      → IsDict index d
      → index.contents d.tree ≡ []
      → ((e : MDict index.State) → IsFresh index (some (place e)) e)
      → Returns (IsWhole place dict d dst) (mdict_urlencode index granted isalnum dict dst)
  mdict_urlencode-urldecode place dict d dst signs source v room h empty fresh =
      Returns-map
        (mdict_urlencode_lem index granted isalnum dict.val dict.tree dst source.is_dict.valid v
          source.texts room)
        λ (ok, dst') w. elim w [
          | inr failed ↦ inr failed
          | inl (e, a) ↦ inl (
            e,
            (
              _,
              a,
              fill_empty index place isalnum granted dict.val dict.tree source.is_dict.valid
                  source.texts source.keys source.written signs fresh d source.is_dict h empty,
            ),
          )
        ]
