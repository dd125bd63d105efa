-- ===== src/Client/Tests/Retrieves.antt =====
-- The tests that retrieve what was uploaded.
use autonomi_webrtc_direct_p.Prelude.Dict
use autonomi_webrtc_direct_p.Prelude.Dict.{Dict}
use autonomi_webrtc_direct_p.Crates.{Crates}
