-- ===== src/Tests/RoundRobin.antt =====
-- A queue of three items.
use common_core.Base.{ℕ, ◌≡◌, some, List, [], ◌∷◌, arith}
use common_core.RoundRobin.{empty_queue, put_each}
use common_core.RoundRobin.Newest.{holding, put_each-newest}

abbrev five : List ℕ
five = 1 ∷ 2 ∷ 3 ∷ 4 ∷ 5 ∷ []

put_each-newest_example : put_each five (empty_queue 3) ≡ some (holding 3 (3 ∷ 4 ∷ 5 ∷ []))
put_each-newest_example = put_each-newest 3 five (omega arith)
