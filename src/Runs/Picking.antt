-- ===== src/Runs/Picking.antt =====
-- A run of the choice of a snapshot.
use reserve_os.Base.{ℕ, ◌≡◌, refl, arith, [], ◌∷◌, List, Bytes, codes, map}
use reserve_os.Replay.{pick_snapshot_for_height, parse_int64, parse_int64_from}
use reserve_os.Replay.Pick.{path_of, Picked, pick_snapshot_for_height_lem}

abbrev heights : List ℕ
heights = 5 ∷ 12 ∷ 9 ∷ []

-- What is not a digit is left out, a sign with it.
parse_int64_minus : parse_int64 (codes "-1 000") ≡ 1000
unfolding parse_int64 parse_int64_from
parse_int64_minus = refl

pick_snapshot_for_height_lem_example :
    (end : Bytes × ℕ) × (pick_snapshot_for_height
        (map (path_of (codes "runtime/snapshots")) heights)
        10
      ≡ end.0)
    × Picked (codes "runtime/snapshots") 10 ([], 0) heights end
pick_snapshot_for_height_lem_example =
    pick_snapshot_for_height_lem (codes "runtime/snapshots") 10 heights
      (omega arith, (omega arith, (omega arith, tt)))
