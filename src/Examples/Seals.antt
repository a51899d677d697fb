-- ===== src/Examples/Seals.antt =====
-- What a seal binds, at two rows that differ in a column that it does not bind.
use broadcast_pool.Prelude.{false, ◌≡◌, refl, some, All, map, codes, show_nat, arith}
use broadcast_pool.Db.{Row, expected_mac, map_broadcast_row}
use broadcast_pool.Db.Seal.{tampered-map_broadcast_row}
use broadcast_pool.Db.Seal.Binds.{Clean, columns, untampered-columns}
use broadcast_pool.Examples.Toy.{toy, toy-Decodes}
use broadcast_pool.Examples.World.{key, bare}

abbrev before : Row
before =
    let r = record (bare "s" "ee" 0) { status = "scheduled" } in
    record r { row_mac = some (expected_mac key r) }

abbrev after : Row
after = record before { retry_count = 3 }

before-Clean : All Clean (map codes (columns before))
unfolding show_nat
before-Clean = ground arith

intact : (map_broadcast_row 5 key after).tampered ≡ some false
unfolding expected_mac
intact = (tampered-map_broadcast_row 5 key after).1 refl

untampered-columns_example : columns after ≡ columns before
unfolding expected_mac
untampered-columns_example =
    untampered-columns toy-Decodes 5 key before after before-Clean before-Clean (λ e. refl) refl
      refl intact
