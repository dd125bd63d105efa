-- ===== src/Client/Errors.antt =====
-- `Error` of crates/wasm-client/src/lib.rs: a constructor for each message that the code builds, with
-- the values that it puts into the text. `F` is the error of the crates below.
use autonomi_webrtc_direct_p.Prelude.{ℕ, Bytes}

pub data Error (F : Type 0) : Type 0 where
  address_length : Error F
  map_unverified : F → Error F
  not_a_data_map : F → Error F
  hex_length : ℕ → Error F
  not_hex : Error F
  chunk_unverified : Bytes → F → Error F
  root_unresolved : F → Error F
  incomplete : Error F
  missing_chunk : Bytes → Error F
  decryption_failed : F → Error F
  -- no message of the source: an index out of bounds, which panics
  panicked : Error F
