-- ===== src/Tests/Clock.antt =====
-- pkg/cc/clock.go and pkg/cc/partition.go, at two partitions and one service.
use cs.Prelude.{ℕ, String, ◌≡◌, refl, [], ◌∷◌}
use cs.Prelude.Tests.{string_discrete, string_key}
use cs.Prelude.Map.{lookup}
use cs.Prelude.Tables.{slice_get}
use cs.Prelude.Run.{ok}
use cs.Cc.Partition.{Hashing}
use cs.Cc.Clock.{TxClockManager, get}

abbrev mgr : TxClockManager
mgr = record { partitions = 2; clocks = (("users", 4) ∷ []) ∷ (("users", 6) ∷ []) ∷ [] }

reads_6 : get mgr 1 "users" ≡ ok 6
unfolding get slice_get lookup string_discrete
reads_6 = refl

abbrev constant_hash : Hashing String
constant_hash = record { Seed = ℕ; sum64 = λ seed text. seed; show = λ key. key }
