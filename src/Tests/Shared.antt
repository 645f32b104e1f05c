-- ===== src/Tests/Shared.antt =====
-- Tests of the models of loudmouth/lm-data-objects.c and lm-utils.c.
use loudmouth.Base.{◌≡◌, ◌≢◌, refl, arith}
use loudmouth.Utils.{generate_id}
use loudmouth.Utils.Ids.{id_after, generate_id-differs}

generate_id-differs_example : id_after 0 4294967295 0 23 ≢ id_after 1 4294967295 0 23
generate_id-differs_example =
    generate_id-differs 0 1 4294967295 0 23 (omega arith) (omega arith) (omega arith) (omega arith)
      (omega arith)

-- At two times ids can be the same, since nothing is written between the two numbers.
same_ids : (generate_id 1 0 23).1 ≡ (generate_id 12 0 3).1
unfolding generate_id
same_ids = refl
