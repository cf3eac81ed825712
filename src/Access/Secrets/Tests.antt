-- ===== src/Access/Secrets/Tests.antt =====
-- Tests of the rotation of secrets.
use agents_with_chatgpt.Prelude.{
  ◌≡◌, ◌≢◌, ◌↔◌, ◌≤◌, ◌-◌, refl, true, none, some, [], ◌∷◌, arith, eq_iff,
}
use agents_with_chatgpt.Access.Secrets.{Secret, Security, authenticate, rotate}
use agents_with_chatgpt.Access.Secrets.Rotation.{rotate-grace}

abbrev current : Secret
current = record { id = "sec_1"; secret = "z2cs_1"; created_at = 0; retired_at = none }

abbrev security : Security
security = record { install_id = "inst_1"; secrets = current ∷ []; rotation_grace = 86400000 }

abbrev fresh : Secret
fresh = record { id = "sec_2"; secret = "z2cs_2"; created_at = 1000; retired_at = none }

filled : current.secret ≢ ""
filled = ground (arith, eq_iff current.secret "")

fresh_filled : fresh.secret ≢ ""
fresh_filled = ground (arith, eq_iff fresh.secret "")

other : current.secret ≢ fresh.secret
other = ground (arith, eq_iff current.secret fresh.secret)

rotate-grace_example :
    ((authenticate 2000 (some "z2cs_1") (rotate 1000 "sec_2" "z2cs_2" security) ≡ true)
      ↔ (2000 - 1000 ≤ 86400000))
    × (authenticate 2000 (some "z2cs_2") (rotate 1000 "sec_2" "z2cs_2" security) ≡ true)
rotate-grace_example =
    rotate-grace 1000 2000 "sec_2" "z2cs_2" security current [] refl refl filled fresh_filled other
      tt
