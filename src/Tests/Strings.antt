-- ===== src/Tests/Strings.antt =====
-- Strings of capacity 4.
use ftl.Base.{ℕ, ◌≤◌, ◌<◌, ◌≡◌, ◌⊎◌, arith, List, [], ◌∷◌, length, All, done, ok, err}
use ftl.ArrayVec.ArrayString.{
  ArrayString, from_ascii_str, as_bytes, non_ascii, capacity, IsAscii, IsFirst, from_ascii_str_lem,
}

abbrev name : List ℕ
name = b'i' ∷ b'n' ∷ b'i' ∷ b't' ∷ []

from_ascii_str_lem_example :
    ((s : ArrayString) × (from_ascii_str 4 name ≡ done (ok s))
      × All IsAscii name
      × (length name ≤ 4)
      × (as_bytes s ≡ done name))
    ⊎ (((b : ℕ) × (from_ascii_str 4 name ≡ done (err (non_ascii b))) × IsFirst name b)
        ⊎ ((from_ascii_str 4 name ≡ done (err capacity)) × All IsAscii name × (4 < length name)))
from_ascii_str_lem_example = from_ascii_str_lem 4 name (omega arith)
