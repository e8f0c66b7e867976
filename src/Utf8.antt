-- ===== src/Utf8.antt =====
-- `std::str::from_utf8`: which byte strings are UTF-8.
use rust_proxy.Prelude.{ℕ, zero, suc, List, [], ◌∷◌, Bool, ◌&&◌, leb, ltb, ◌==◌, if◌then◌else◌}

abbrev between : ℕ → ℕ → ℕ → Bool
between lo hi b = leb lo b && leb b hi

-- After a lead byte: how many bytes follow, and the range of the next one. 5 rejects the byte.
unfoldable pub lead : ℕ → ℕ × ℕ × ℕ
lead b =
    if ltb b 0x80
    then (0, 0x80, 0xbf)
    else if between 0xc2 0xdf b
    then (1, 0x80, 0xbf)
    else if b == 0xe0
    then (2, 0xa0, 0xbf)
    else if b == 0xed
    then (2, 0x80, 0x9f)
    else if between 0xe1 0xef b
    then (2, 0x80, 0xbf)
    else if b == 0xf0
    then (3, 0x90, 0xbf)
    else if between 0xf1 0xf3 b
    then (3, 0x80, 0xbf)
    else if b == 0xf4
    then (3, 0x80, 0x8f)
    else (5, 0x80, 0xbf)

-- `more` bytes of a character are still to come, the next between `lo` and `hi`.
unfoldable pub scan : ℕ → ℕ → ℕ → List ℕ → Bool
unfolding lead
scan more lo hi [] = more == 0
scan zero lo hi (b ∷ bs) = let (more, lo', hi') = lead b in ltb more 5 && scan more lo' hi' bs
scan (suc more) lo hi (b ∷ bs) = between lo hi b && scan more 0x80 0xbf bs

unfoldable pub is_utf8 : List ℕ → Bool
unfolding scan
is_utf8 bs = scan 0 0x80 0xbf bs
