-- ===== src/Tests/Sizes.antt =====
-- The sizes of the example in the documentation of `ByteSize`.
use ftl.Base.{ℕ, ◌*◌, ◌≡◌, refl, some, get_elem?}
use ftl.ByteSize.{ByteUnit, b, mib, units, fmt, IsScaled, fmt-IsScaled}

bytes : fmt 128 ≡ (128, some b)
unfolding fmt
bytes = refl

mebibytes : fmt (16 * 1024 * 1024) ≡ (16, some mib)
unfolding fmt
mebibytes = refl

fmt-IsScaled_example :
    (value i : ℕ) × (unit : ByteUnit) × (fmt 5000000 ≡ (value, some unit))
    × (get_elem? units i ≡ some unit)
    × IsScaled 5000000 value i
fmt-IsScaled_example = fmt-IsScaled 5000000
