-- ===== src/Crypt/Des/Tables.antt =====
-- The eight S-boxes and the two tables of the key schedule of DES.
use Prim.Native.Nat.{ℕ}
use mathlib.Core.List.{List, [], ◌∷◌}

abbrev pub sb1 : List ℕ
sb1 =
    0x0101_0400 ∷ 0x0000_0000 ∷ 0x0001_0000 ∷ 0x0101_0404 ∷ 0x0101_0004 ∷ 0x0001_0404 ∷ 0x0000_0004
    ∷ 0x0001_0000 ∷ 0x0000_0400 ∷ 0x0101_0400 ∷ 0x0101_0404 ∷ 0x0000_0400 ∷ 0x0100_0404
    ∷ 0x0101_0004 ∷ 0x0100_0000 ∷ 0x0000_0004 ∷ 0x0000_0404 ∷ 0x0100_0400 ∷ 0x0100_0400
    ∷ 0x0001_0400 ∷ 0x0001_0400 ∷ 0x0101_0000 ∷ 0x0101_0000 ∷ 0x0100_0404 ∷ 0x0001_0004
    ∷ 0x0100_0004 ∷ 0x0100_0004 ∷ 0x0001_0004 ∷ 0x0000_0000 ∷ 0x0000_0404 ∷ 0x0001_0404
    ∷ 0x0100_0000 ∷ 0x0001_0000 ∷ 0x0101_0404 ∷ 0x0000_0004 ∷ 0x0101_0000 ∷ 0x0101_0400
    ∷ 0x0100_0000 ∷ 0x0100_0000 ∷ 0x0000_0400 ∷ 0x0101_0004 ∷ 0x0001_0000 ∷ 0x0001_0400
    ∷ 0x0100_0004 ∷ 0x0000_0400 ∷ 0x0000_0004 ∷ 0x0100_0404 ∷ 0x0001_0404 ∷ 0x0101_0404
    ∷ 0x0001_0004 ∷ 0x0101_0000 ∷ 0x0100_0404 ∷ 0x0100_0004 ∷ 0x0000_0404 ∷ 0x0001_0404
    ∷ 0x0101_0400 ∷ 0x0000_0404 ∷ 0x0100_0400 ∷ 0x0100_0400 ∷ 0x0000_0000 ∷ 0x0001_0004
    ∷ 0x0001_0400 ∷ 0x0000_0000 ∷ 0x0101_0004 ∷ []

abbrev pub sb2 : List ℕ
sb2 =
    0x8010_8020 ∷ 0x8000_8000 ∷ 0x0000_8000 ∷ 0x0010_8020 ∷ 0x0010_0000 ∷ 0x0000_0020 ∷ 0x8010_0020
    ∷ 0x8000_8020 ∷ 0x8000_0020 ∷ 0x8010_8020 ∷ 0x8010_8000 ∷ 0x8000_0000 ∷ 0x8000_8000
    ∷ 0x0010_0000 ∷ 0x0000_0020 ∷ 0x8010_0020 ∷ 0x0010_8000 ∷ 0x0010_0020 ∷ 0x8000_8020
    ∷ 0x0000_0000 ∷ 0x8000_0000 ∷ 0x0000_8000 ∷ 0x0010_8020 ∷ 0x8010_0000 ∷ 0x0010_0020
    ∷ 0x8000_0020 ∷ 0x0000_0000 ∷ 0x0010_8000 ∷ 0x0000_8020 ∷ 0x8010_8000 ∷ 0x8010_0000
    ∷ 0x0000_8020 ∷ 0x0000_0000 ∷ 0x0010_8020 ∷ 0x8010_0020 ∷ 0x0010_0000 ∷ 0x8000_8020
    ∷ 0x8010_0000 ∷ 0x8010_8000 ∷ 0x0000_8000 ∷ 0x8010_0000 ∷ 0x8000_8000 ∷ 0x0000_0020
    ∷ 0x8010_8020 ∷ 0x0010_8020 ∷ 0x0000_0020 ∷ 0x0000_8000 ∷ 0x8000_0000 ∷ 0x0000_8020
    ∷ 0x8010_8000 ∷ 0x0010_0000 ∷ 0x8000_0020 ∷ 0x0010_0020 ∷ 0x8000_8020 ∷ 0x8000_0020
    ∷ 0x0010_0020 ∷ 0x0010_8000 ∷ 0x0000_0000 ∷ 0x8000_8000 ∷ 0x0000_8020 ∷ 0x8000_0000
    ∷ 0x8010_0020 ∷ 0x8010_8020 ∷ 0x0010_8000 ∷ []

abbrev pub sb3 : List ℕ
sb3 =
    0x0000_0208 ∷ 0x0802_0200 ∷ 0x0000_0000 ∷ 0x0802_0008 ∷ 0x0800_0200 ∷ 0x0000_0000 ∷ 0x0002_0208
    ∷ 0x0800_0200 ∷ 0x0002_0008 ∷ 0x0800_0008 ∷ 0x0800_0008 ∷ 0x0002_0000 ∷ 0x0802_0208
    ∷ 0x0002_0008 ∷ 0x0802_0000 ∷ 0x0000_0208 ∷ 0x0800_0000 ∷ 0x0000_0008 ∷ 0x0802_0200
    ∷ 0x0000_0200 ∷ 0x0002_0200 ∷ 0x0802_0000 ∷ 0x0802_0008 ∷ 0x0002_0208 ∷ 0x0800_0208
    ∷ 0x0002_0200 ∷ 0x0002_0000 ∷ 0x0800_0208 ∷ 0x0000_0008 ∷ 0x0802_0208 ∷ 0x0000_0200
    ∷ 0x0800_0000 ∷ 0x0802_0200 ∷ 0x0800_0000 ∷ 0x0002_0008 ∷ 0x0000_0208 ∷ 0x0002_0000
    ∷ 0x0802_0200 ∷ 0x0800_0200 ∷ 0x0000_0000 ∷ 0x0000_0200 ∷ 0x0002_0008 ∷ 0x0802_0208
    ∷ 0x0800_0200 ∷ 0x0800_0008 ∷ 0x0000_0200 ∷ 0x0000_0000 ∷ 0x0802_0008 ∷ 0x0800_0208
    ∷ 0x0002_0000 ∷ 0x0800_0000 ∷ 0x0802_0208 ∷ 0x0000_0008 ∷ 0x0002_0208 ∷ 0x0002_0200
    ∷ 0x0800_0008 ∷ 0x0802_0000 ∷ 0x0800_0208 ∷ 0x0000_0208 ∷ 0x0802_0000 ∷ 0x0002_0208
    ∷ 0x0000_0008 ∷ 0x0802_0008 ∷ 0x0002_0200 ∷ []

abbrev pub sb4 : List ℕ
sb4 =
    0x0080_2001 ∷ 0x0000_2081 ∷ 0x0000_2081 ∷ 0x0000_0080 ∷ 0x0080_2080 ∷ 0x0080_0081 ∷ 0x0080_0001
    ∷ 0x0000_2001 ∷ 0x0000_0000 ∷ 0x0080_2000 ∷ 0x0080_2000 ∷ 0x0080_2081 ∷ 0x0000_0081
    ∷ 0x0000_0000 ∷ 0x0080_0080 ∷ 0x0080_0001 ∷ 0x0000_0001 ∷ 0x0000_2000 ∷ 0x0080_0000
    ∷ 0x0080_2001 ∷ 0x0000_0080 ∷ 0x0080_0000 ∷ 0x0000_2001 ∷ 0x0000_2080 ∷ 0x0080_0081
    ∷ 0x0000_0001 ∷ 0x0000_2080 ∷ 0x0080_0080 ∷ 0x0000_2000 ∷ 0x0080_2080 ∷ 0x0080_2081
    ∷ 0x0000_0081 ∷ 0x0080_0080 ∷ 0x0080_0001 ∷ 0x0080_2000 ∷ 0x0080_2081 ∷ 0x0000_0081
    ∷ 0x0000_0000 ∷ 0x0000_0000 ∷ 0x0080_2000 ∷ 0x0000_2080 ∷ 0x0080_0080 ∷ 0x0080_0081
    ∷ 0x0000_0001 ∷ 0x0080_2001 ∷ 0x0000_2081 ∷ 0x0000_2081 ∷ 0x0000_0080 ∷ 0x0080_2081
    ∷ 0x0000_0081 ∷ 0x0000_0001 ∷ 0x0000_2000 ∷ 0x0080_0001 ∷ 0x0000_2001 ∷ 0x0080_2080
    ∷ 0x0080_0081 ∷ 0x0000_2001 ∷ 0x0000_2080 ∷ 0x0080_0000 ∷ 0x0080_2001 ∷ 0x0000_0080
    ∷ 0x0080_0000 ∷ 0x0000_2000 ∷ 0x0080_2080 ∷ []

abbrev pub sb5 : List ℕ
sb5 =
    0x0000_0100 ∷ 0x0208_0100 ∷ 0x0208_0000 ∷ 0x4200_0100 ∷ 0x0008_0000 ∷ 0x0000_0100 ∷ 0x4000_0000
    ∷ 0x0208_0000 ∷ 0x4008_0100 ∷ 0x0008_0000 ∷ 0x0200_0100 ∷ 0x4008_0100 ∷ 0x4200_0100
    ∷ 0x4208_0000 ∷ 0x0008_0100 ∷ 0x4000_0000 ∷ 0x0200_0000 ∷ 0x4008_0000 ∷ 0x4008_0000
    ∷ 0x0000_0000 ∷ 0x4000_0100 ∷ 0x4208_0100 ∷ 0x4208_0100 ∷ 0x0200_0100 ∷ 0x4208_0000
    ∷ 0x4000_0100 ∷ 0x0000_0000 ∷ 0x4200_0000 ∷ 0x0208_0100 ∷ 0x0200_0000 ∷ 0x4200_0000
    ∷ 0x0008_0100 ∷ 0x0008_0000 ∷ 0x4200_0100 ∷ 0x0000_0100 ∷ 0x0200_0000 ∷ 0x4000_0000
    ∷ 0x0208_0000 ∷ 0x4200_0100 ∷ 0x4008_0100 ∷ 0x0200_0100 ∷ 0x4000_0000 ∷ 0x4208_0000
    ∷ 0x0208_0100 ∷ 0x4008_0100 ∷ 0x0000_0100 ∷ 0x0200_0000 ∷ 0x4208_0000 ∷ 0x4208_0100
    ∷ 0x0008_0100 ∷ 0x4200_0000 ∷ 0x4208_0100 ∷ 0x0208_0000 ∷ 0x0000_0000 ∷ 0x4008_0000
    ∷ 0x4200_0000 ∷ 0x0008_0100 ∷ 0x0200_0100 ∷ 0x4000_0100 ∷ 0x0008_0000 ∷ 0x0000_0000
    ∷ 0x4008_0000 ∷ 0x0208_0100 ∷ 0x4000_0100 ∷ []

abbrev pub sb6 : List ℕ
sb6 =
    0x2000_0010 ∷ 0x2040_0000 ∷ 0x0000_4000 ∷ 0x2040_4010 ∷ 0x2040_0000 ∷ 0x0000_0010 ∷ 0x2040_4010
    ∷ 0x0040_0000 ∷ 0x2000_4000 ∷ 0x0040_4010 ∷ 0x0040_0000 ∷ 0x2000_0010 ∷ 0x0040_0010
    ∷ 0x2000_4000 ∷ 0x2000_0000 ∷ 0x0000_4010 ∷ 0x0000_0000 ∷ 0x0040_0010 ∷ 0x2000_4010
    ∷ 0x0000_4000 ∷ 0x0040_4000 ∷ 0x2000_4010 ∷ 0x0000_0010 ∷ 0x2040_0010 ∷ 0x2040_0010
    ∷ 0x0000_0000 ∷ 0x0040_4010 ∷ 0x2040_4000 ∷ 0x0000_4010 ∷ 0x0040_4000 ∷ 0x2040_4000
    ∷ 0x2000_0000 ∷ 0x2000_4000 ∷ 0x0000_0010 ∷ 0x2040_0010 ∷ 0x0040_4000 ∷ 0x2040_4010
    ∷ 0x0040_0000 ∷ 0x0000_4010 ∷ 0x2000_0010 ∷ 0x0040_0000 ∷ 0x2000_4000 ∷ 0x2000_0000
    ∷ 0x0000_4010 ∷ 0x2000_0010 ∷ 0x2040_4010 ∷ 0x0040_4000 ∷ 0x2040_0000 ∷ 0x0040_4010
    ∷ 0x2040_4000 ∷ 0x0000_0000 ∷ 0x2040_0010 ∷ 0x0000_0010 ∷ 0x0000_4000 ∷ 0x2040_0000
    ∷ 0x0040_4010 ∷ 0x0000_4000 ∷ 0x0040_0010 ∷ 0x2000_4010 ∷ 0x0000_0000 ∷ 0x2040_4000
    ∷ 0x2000_0000 ∷ 0x0040_0010 ∷ 0x2000_4010 ∷ []

abbrev pub sb7 : List ℕ
sb7 =
    0x0020_0000 ∷ 0x0420_0002 ∷ 0x0400_0802 ∷ 0x0000_0000 ∷ 0x0000_0800 ∷ 0x0400_0802 ∷ 0x0020_0802
    ∷ 0x0420_0800 ∷ 0x0420_0802 ∷ 0x0020_0000 ∷ 0x0000_0000 ∷ 0x0400_0002 ∷ 0x0000_0002
    ∷ 0x0400_0000 ∷ 0x0420_0002 ∷ 0x0000_0802 ∷ 0x0400_0800 ∷ 0x0020_0802 ∷ 0x0020_0002
    ∷ 0x0400_0800 ∷ 0x0400_0002 ∷ 0x0420_0000 ∷ 0x0420_0800 ∷ 0x0020_0002 ∷ 0x0420_0000
    ∷ 0x0000_0800 ∷ 0x0000_0802 ∷ 0x0420_0802 ∷ 0x0020_0800 ∷ 0x0000_0002 ∷ 0x0400_0000
    ∷ 0x0020_0800 ∷ 0x0400_0000 ∷ 0x0020_0800 ∷ 0x0020_0000 ∷ 0x0400_0802 ∷ 0x0400_0802
    ∷ 0x0420_0002 ∷ 0x0420_0002 ∷ 0x0000_0002 ∷ 0x0020_0002 ∷ 0x0400_0000 ∷ 0x0400_0800
    ∷ 0x0020_0000 ∷ 0x0420_0800 ∷ 0x0000_0802 ∷ 0x0020_0802 ∷ 0x0420_0800 ∷ 0x0000_0802
    ∷ 0x0400_0002 ∷ 0x0420_0802 ∷ 0x0420_0000 ∷ 0x0020_0800 ∷ 0x0000_0000 ∷ 0x0000_0002
    ∷ 0x0420_0802 ∷ 0x0000_0000 ∷ 0x0020_0802 ∷ 0x0420_0000 ∷ 0x0000_0800 ∷ 0x0400_0002
    ∷ 0x0400_0800 ∷ 0x0000_0800 ∷ 0x0020_0002 ∷ []

abbrev pub sb8 : List ℕ
sb8 =
    0x1000_1040 ∷ 0x0000_1000 ∷ 0x0004_0000 ∷ 0x1004_1040 ∷ 0x1000_0000 ∷ 0x1000_1040 ∷ 0x0000_0040
    ∷ 0x1000_0000 ∷ 0x0004_0040 ∷ 0x1004_0000 ∷ 0x1004_1040 ∷ 0x0004_1000 ∷ 0x1004_1000
    ∷ 0x0004_1040 ∷ 0x0000_1000 ∷ 0x0000_0040 ∷ 0x1004_0000 ∷ 0x1000_0040 ∷ 0x1000_1000
    ∷ 0x0000_1040 ∷ 0x0004_1000 ∷ 0x0004_0040 ∷ 0x1004_0040 ∷ 0x1004_1000 ∷ 0x0000_1040
    ∷ 0x0000_0000 ∷ 0x0000_0000 ∷ 0x1004_0040 ∷ 0x1000_0040 ∷ 0x1000_1000 ∷ 0x0004_1040
    ∷ 0x0004_0000 ∷ 0x0004_1040 ∷ 0x0004_0000 ∷ 0x1004_1000 ∷ 0x0000_1000 ∷ 0x0000_0040
    ∷ 0x1004_0040 ∷ 0x0000_1000 ∷ 0x0004_1040 ∷ 0x1000_1000 ∷ 0x0000_0040 ∷ 0x1000_0040
    ∷ 0x1004_0000 ∷ 0x1004_0040 ∷ 0x1000_0000 ∷ 0x0004_0000 ∷ 0x1000_1040 ∷ 0x0000_0000
    ∷ 0x1004_1040 ∷ 0x0004_0040 ∷ 0x1000_0040 ∷ 0x1004_0000 ∷ 0x1000_1000 ∷ 0x1000_1040
    ∷ 0x0000_0000 ∷ 0x1004_1040 ∷ 0x0004_1000 ∷ 0x0004_1000 ∷ 0x0000_1040 ∷ 0x0000_1040
    ∷ 0x0004_0040 ∷ 0x1000_0000 ∷ 0x1004_1000 ∷ []

abbrev pub lhs : List ℕ
lhs =
    0x0000_0000 ∷ 0x0000_0001 ∷ 0x0000_0100 ∷ 0x0000_0101 ∷ 0x0001_0000 ∷ 0x0001_0001 ∷ 0x0001_0100
    ∷ 0x0001_0101 ∷ 0x0100_0000 ∷ 0x0100_0001 ∷ 0x0100_0100 ∷ 0x0100_0101 ∷ 0x0101_0000
    ∷ 0x0101_0001 ∷ 0x0101_0100 ∷ 0x0101_0101 ∷ []

abbrev pub rhs : List ℕ
rhs =
    0x0000_0000 ∷ 0x0100_0000 ∷ 0x0001_0000 ∷ 0x0101_0000 ∷ 0x0000_0100 ∷ 0x0100_0100 ∷ 0x0001_0100
    ∷ 0x0101_0100 ∷ 0x0000_0001 ∷ 0x0100_0001 ∷ 0x0001_0001 ∷ 0x0101_0001 ∷ 0x0000_0101
    ∷ 0x0100_0101 ∷ 0x0001_0101 ∷ 0x0101_0101 ∷ []
