-- ===== src/Crypt.antt =====
-- Server/skynet/lualib-src/lua-crypt.c: the encodings, the key exchange and the hashes that the
-- login handshake uses. A Lua string is the list of its bytes; an error is the `luaL_error` call.
pub mod Key
pub mod Dh
pub mod Power
pub mod Agree
pub mod Hex
pub mod Base64
pub mod Des
pub mod Hash
pub mod Digest
pub mod Random
mod Tests
