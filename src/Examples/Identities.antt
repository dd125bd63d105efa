-- ===== src/Examples/Identities.antt =====
-- The identity's theorems on a disk of one file.
use autonomi_webrtc_direct_p.Prelude.{◌≡◌, refl, [], ◌∷◌, Bytes, ok, err, Option, none, some}
use autonomi_webrtc_direct_p.Identity.{undecodable, create_keypair, load_or_create_keypair}
use autonomi_webrtc_direct_p.Identity.Restart.{load_or_create_keypair_undecodable}
use autonomi_webrtc_direct_p.Examples.Disk.{disk, disk_laws, numbers, numbers_laws}

abbrev stored : Option Bytes
stored = some (42 ∷ [])

first_start : load_or_create_keypair disk numbers tt 42 none ≡ (ok 42, stored)
unfolding load_or_create_keypair create_keypair
first_start = refl

load_or_create_keypair_undecodable_example :
    load_or_create_keypair disk numbers tt 42 (some []) ≡ (err (undecodable 7), some [])
load_or_create_keypair_undecodable_example =
    load_or_create_keypair_undecodable disk disk_laws numbers numbers_laws tt 42 (some []) [] 7 refl
      refl
