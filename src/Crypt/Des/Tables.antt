-- ===== src/Crypt/Des/Tables.antt =====
-- The tables of lualib-src/lua-crypt.c's DES.
use demo_skynet_server.Common.{ℕ, List, [], ◌∷◌}

abbrev pub sb1 : List ℕ
sb1 =
    0x01010400 ∷ 0x00000000 ∷ 0x00010000 ∷ 0x01010404 ∷ 0x01010004 ∷ 0x00010404 ∷ 0x00000004
    ∷ 0x00010000 ∷ 0x00000400 ∷ 0x01010400 ∷ 0x01010404 ∷ 0x00000400 ∷ 0x01000404 ∷ 0x01010004
    ∷ 0x01000000 ∷ 0x00000004 ∷ 0x00000404 ∷ 0x01000400 ∷ 0x01000400 ∷ 0x00010400 ∷ 0x00010400
    ∷ 0x01010000 ∷ 0x01010000 ∷ 0x01000404 ∷ 0x00010004 ∷ 0x01000004 ∷ 0x01000004 ∷ 0x00010004
    ∷ 0x00000000 ∷ 0x00000404 ∷ 0x00010404 ∷ 0x01000000 ∷ 0x00010000 ∷ 0x01010404 ∷ 0x00000004
    ∷ 0x01010000 ∷ 0x01010400 ∷ 0x01000000 ∷ 0x01000000 ∷ 0x00000400 ∷ 0x01010004 ∷ 0x00010000
    ∷ 0x00010400 ∷ 0x01000004 ∷ 0x00000400 ∷ 0x00000004 ∷ 0x01000404 ∷ 0x00010404 ∷ 0x01010404
    ∷ 0x00010004 ∷ 0x01010000 ∷ 0x01000404 ∷ 0x01000004 ∷ 0x00000404 ∷ 0x00010404 ∷ 0x01010400
    ∷ 0x00000404 ∷ 0x01000400 ∷ 0x01000400 ∷ 0x00000000 ∷ 0x00010004 ∷ 0x00010400 ∷ 0x00000000
    ∷ 0x01010004 ∷ []

abbrev pub sb2 : List ℕ
sb2 =
    0x80108020 ∷ 0x80008000 ∷ 0x00008000 ∷ 0x00108020 ∷ 0x00100000 ∷ 0x00000020 ∷ 0x80100020
    ∷ 0x80008020 ∷ 0x80000020 ∷ 0x80108020 ∷ 0x80108000 ∷ 0x80000000 ∷ 0x80008000 ∷ 0x00100000
    ∷ 0x00000020 ∷ 0x80100020 ∷ 0x00108000 ∷ 0x00100020 ∷ 0x80008020 ∷ 0x00000000 ∷ 0x80000000
    ∷ 0x00008000 ∷ 0x00108020 ∷ 0x80100000 ∷ 0x00100020 ∷ 0x80000020 ∷ 0x00000000 ∷ 0x00108000
    ∷ 0x00008020 ∷ 0x80108000 ∷ 0x80100000 ∷ 0x00008020 ∷ 0x00000000 ∷ 0x00108020 ∷ 0x80100020
    ∷ 0x00100000 ∷ 0x80008020 ∷ 0x80100000 ∷ 0x80108000 ∷ 0x00008000 ∷ 0x80100000 ∷ 0x80008000
    ∷ 0x00000020 ∷ 0x80108020 ∷ 0x00108020 ∷ 0x00000020 ∷ 0x00008000 ∷ 0x80000000 ∷ 0x00008020
    ∷ 0x80108000 ∷ 0x00100000 ∷ 0x80000020 ∷ 0x00100020 ∷ 0x80008020 ∷ 0x80000020 ∷ 0x00100020
    ∷ 0x00108000 ∷ 0x00000000 ∷ 0x80008000 ∷ 0x00008020 ∷ 0x80000000 ∷ 0x80100020 ∷ 0x80108020
    ∷ 0x00108000 ∷ []

abbrev pub sb3 : List ℕ
sb3 =
    0x00000208 ∷ 0x08020200 ∷ 0x00000000 ∷ 0x08020008 ∷ 0x08000200 ∷ 0x00000000 ∷ 0x00020208
    ∷ 0x08000200 ∷ 0x00020008 ∷ 0x08000008 ∷ 0x08000008 ∷ 0x00020000 ∷ 0x08020208 ∷ 0x00020008
    ∷ 0x08020000 ∷ 0x00000208 ∷ 0x08000000 ∷ 0x00000008 ∷ 0x08020200 ∷ 0x00000200 ∷ 0x00020200
    ∷ 0x08020000 ∷ 0x08020008 ∷ 0x00020208 ∷ 0x08000208 ∷ 0x00020200 ∷ 0x00020000 ∷ 0x08000208
    ∷ 0x00000008 ∷ 0x08020208 ∷ 0x00000200 ∷ 0x08000000 ∷ 0x08020200 ∷ 0x08000000 ∷ 0x00020008
    ∷ 0x00000208 ∷ 0x00020000 ∷ 0x08020200 ∷ 0x08000200 ∷ 0x00000000 ∷ 0x00000200 ∷ 0x00020008
    ∷ 0x08020208 ∷ 0x08000200 ∷ 0x08000008 ∷ 0x00000200 ∷ 0x00000000 ∷ 0x08020008 ∷ 0x08000208
    ∷ 0x00020000 ∷ 0x08000000 ∷ 0x08020208 ∷ 0x00000008 ∷ 0x00020208 ∷ 0x00020200 ∷ 0x08000008
    ∷ 0x08020000 ∷ 0x08000208 ∷ 0x00000208 ∷ 0x08020000 ∷ 0x00020208 ∷ 0x00000008 ∷ 0x08020008
    ∷ 0x00020200 ∷ []

abbrev pub sb4 : List ℕ
sb4 =
    0x00802001 ∷ 0x00002081 ∷ 0x00002081 ∷ 0x00000080 ∷ 0x00802080 ∷ 0x00800081 ∷ 0x00800001
    ∷ 0x00002001 ∷ 0x00000000 ∷ 0x00802000 ∷ 0x00802000 ∷ 0x00802081 ∷ 0x00000081 ∷ 0x00000000
    ∷ 0x00800080 ∷ 0x00800001 ∷ 0x00000001 ∷ 0x00002000 ∷ 0x00800000 ∷ 0x00802001 ∷ 0x00000080
    ∷ 0x00800000 ∷ 0x00002001 ∷ 0x00002080 ∷ 0x00800081 ∷ 0x00000001 ∷ 0x00002080 ∷ 0x00800080
    ∷ 0x00002000 ∷ 0x00802080 ∷ 0x00802081 ∷ 0x00000081 ∷ 0x00800080 ∷ 0x00800001 ∷ 0x00802000
    ∷ 0x00802081 ∷ 0x00000081 ∷ 0x00000000 ∷ 0x00000000 ∷ 0x00802000 ∷ 0x00002080 ∷ 0x00800080
    ∷ 0x00800081 ∷ 0x00000001 ∷ 0x00802001 ∷ 0x00002081 ∷ 0x00002081 ∷ 0x00000080 ∷ 0x00802081
    ∷ 0x00000081 ∷ 0x00000001 ∷ 0x00002000 ∷ 0x00800001 ∷ 0x00002001 ∷ 0x00802080 ∷ 0x00800081
    ∷ 0x00002001 ∷ 0x00002080 ∷ 0x00800000 ∷ 0x00802001 ∷ 0x00000080 ∷ 0x00800000 ∷ 0x00002000
    ∷ 0x00802080 ∷ []

abbrev pub sb5 : List ℕ
sb5 =
    0x00000100 ∷ 0x02080100 ∷ 0x02080000 ∷ 0x42000100 ∷ 0x00080000 ∷ 0x00000100 ∷ 0x40000000
    ∷ 0x02080000 ∷ 0x40080100 ∷ 0x00080000 ∷ 0x02000100 ∷ 0x40080100 ∷ 0x42000100 ∷ 0x42080000
    ∷ 0x00080100 ∷ 0x40000000 ∷ 0x02000000 ∷ 0x40080000 ∷ 0x40080000 ∷ 0x00000000 ∷ 0x40000100
    ∷ 0x42080100 ∷ 0x42080100 ∷ 0x02000100 ∷ 0x42080000 ∷ 0x40000100 ∷ 0x00000000 ∷ 0x42000000
    ∷ 0x02080100 ∷ 0x02000000 ∷ 0x42000000 ∷ 0x00080100 ∷ 0x00080000 ∷ 0x42000100 ∷ 0x00000100
    ∷ 0x02000000 ∷ 0x40000000 ∷ 0x02080000 ∷ 0x42000100 ∷ 0x40080100 ∷ 0x02000100 ∷ 0x40000000
    ∷ 0x42080000 ∷ 0x02080100 ∷ 0x40080100 ∷ 0x00000100 ∷ 0x02000000 ∷ 0x42080000 ∷ 0x42080100
    ∷ 0x00080100 ∷ 0x42000000 ∷ 0x42080100 ∷ 0x02080000 ∷ 0x00000000 ∷ 0x40080000 ∷ 0x42000000
    ∷ 0x00080100 ∷ 0x02000100 ∷ 0x40000100 ∷ 0x00080000 ∷ 0x00000000 ∷ 0x40080000 ∷ 0x02080100
    ∷ 0x40000100 ∷ []

abbrev pub sb6 : List ℕ
sb6 =
    0x20000010 ∷ 0x20400000 ∷ 0x00004000 ∷ 0x20404010 ∷ 0x20400000 ∷ 0x00000010 ∷ 0x20404010
    ∷ 0x00400000 ∷ 0x20004000 ∷ 0x00404010 ∷ 0x00400000 ∷ 0x20000010 ∷ 0x00400010 ∷ 0x20004000
    ∷ 0x20000000 ∷ 0x00004010 ∷ 0x00000000 ∷ 0x00400010 ∷ 0x20004010 ∷ 0x00004000 ∷ 0x00404000
    ∷ 0x20004010 ∷ 0x00000010 ∷ 0x20400010 ∷ 0x20400010 ∷ 0x00000000 ∷ 0x00404010 ∷ 0x20404000
    ∷ 0x00004010 ∷ 0x00404000 ∷ 0x20404000 ∷ 0x20000000 ∷ 0x20004000 ∷ 0x00000010 ∷ 0x20400010
    ∷ 0x00404000 ∷ 0x20404010 ∷ 0x00400000 ∷ 0x00004010 ∷ 0x20000010 ∷ 0x00400000 ∷ 0x20004000
    ∷ 0x20000000 ∷ 0x00004010 ∷ 0x20000010 ∷ 0x20404010 ∷ 0x00404000 ∷ 0x20400000 ∷ 0x00404010
    ∷ 0x20404000 ∷ 0x00000000 ∷ 0x20400010 ∷ 0x00000010 ∷ 0x00004000 ∷ 0x20400000 ∷ 0x00404010
    ∷ 0x00004000 ∷ 0x00400010 ∷ 0x20004010 ∷ 0x00000000 ∷ 0x20404000 ∷ 0x20000000 ∷ 0x00400010
    ∷ 0x20004010 ∷ []

abbrev pub sb7 : List ℕ
sb7 =
    0x00200000 ∷ 0x04200002 ∷ 0x04000802 ∷ 0x00000000 ∷ 0x00000800 ∷ 0x04000802 ∷ 0x00200802
    ∷ 0x04200800 ∷ 0x04200802 ∷ 0x00200000 ∷ 0x00000000 ∷ 0x04000002 ∷ 0x00000002 ∷ 0x04000000
    ∷ 0x04200002 ∷ 0x00000802 ∷ 0x04000800 ∷ 0x00200802 ∷ 0x00200002 ∷ 0x04000800 ∷ 0x04000002
    ∷ 0x04200000 ∷ 0x04200800 ∷ 0x00200002 ∷ 0x04200000 ∷ 0x00000800 ∷ 0x00000802 ∷ 0x04200802
    ∷ 0x00200800 ∷ 0x00000002 ∷ 0x04000000 ∷ 0x00200800 ∷ 0x04000000 ∷ 0x00200800 ∷ 0x00200000
    ∷ 0x04000802 ∷ 0x04000802 ∷ 0x04200002 ∷ 0x04200002 ∷ 0x00000002 ∷ 0x00200002 ∷ 0x04000000
    ∷ 0x04000800 ∷ 0x00200000 ∷ 0x04200800 ∷ 0x00000802 ∷ 0x00200802 ∷ 0x04200800 ∷ 0x00000802
    ∷ 0x04000002 ∷ 0x04200802 ∷ 0x04200000 ∷ 0x00200800 ∷ 0x00000000 ∷ 0x00000002 ∷ 0x04200802
    ∷ 0x00000000 ∷ 0x00200802 ∷ 0x04200000 ∷ 0x00000800 ∷ 0x04000002 ∷ 0x04000800 ∷ 0x00000800
    ∷ 0x00200002 ∷ []

abbrev pub sb8 : List ℕ
sb8 =
    0x10001040 ∷ 0x00001000 ∷ 0x00040000 ∷ 0x10041040 ∷ 0x10000000 ∷ 0x10001040 ∷ 0x00000040
    ∷ 0x10000000 ∷ 0x00040040 ∷ 0x10040000 ∷ 0x10041040 ∷ 0x00041000 ∷ 0x10041000 ∷ 0x00041040
    ∷ 0x00001000 ∷ 0x00000040 ∷ 0x10040000 ∷ 0x10000040 ∷ 0x10001000 ∷ 0x00001040 ∷ 0x00041000
    ∷ 0x00040040 ∷ 0x10040040 ∷ 0x10041000 ∷ 0x00001040 ∷ 0x00000000 ∷ 0x00000000 ∷ 0x10040040
    ∷ 0x10000040 ∷ 0x10001000 ∷ 0x00041040 ∷ 0x00040000 ∷ 0x00041040 ∷ 0x00040000 ∷ 0x10041000
    ∷ 0x00001000 ∷ 0x00000040 ∷ 0x10040040 ∷ 0x00001000 ∷ 0x00041040 ∷ 0x10001000 ∷ 0x00000040
    ∷ 0x10000040 ∷ 0x10040000 ∷ 0x10040040 ∷ 0x10000000 ∷ 0x00040000 ∷ 0x10001040 ∷ 0x00000000
    ∷ 0x10041040 ∷ 0x00040040 ∷ 0x10000040 ∷ 0x10040000 ∷ 0x10001000 ∷ 0x10001040 ∷ 0x00000000
    ∷ 0x10041040 ∷ 0x00041000 ∷ 0x00041000 ∷ 0x00001040 ∷ 0x00001040 ∷ 0x00040040 ∷ 0x10000000
    ∷ 0x10041000 ∷ []

abbrev pub lhs : List ℕ
lhs =
    0x00000000 ∷ 0x00000001 ∷ 0x00000100 ∷ 0x00000101 ∷ 0x00010000 ∷ 0x00010001 ∷ 0x00010100
    ∷ 0x00010101 ∷ 0x01000000 ∷ 0x01000001 ∷ 0x01000100 ∷ 0x01000101 ∷ 0x01010000 ∷ 0x01010001
    ∷ 0x01010100 ∷ 0x01010101 ∷ []

abbrev pub rhs : List ℕ
rhs =
    0x00000000 ∷ 0x01000000 ∷ 0x00010000 ∷ 0x01010000 ∷ 0x00000100 ∷ 0x01000100 ∷ 0x00010100
    ∷ 0x01010100 ∷ 0x00000001 ∷ 0x01000001 ∷ 0x00010001 ∷ 0x01010001 ∷ 0x00000101 ∷ 0x01000101
    ∷ 0x00010101 ∷ 0x01010101 ∷ []
