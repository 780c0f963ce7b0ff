-- ===== src/Crypt.antt =====
-- lualib-src/lua-crypt.c: the key exchange, the encodings of bytes and the cipher that the login of
-- clients is made of.
pub mod DiffieHellman
pub mod Base64
pub mod Hex
pub mod Des
