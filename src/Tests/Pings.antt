-- ===== src/Tests/Pings.antt =====
-- Tests of the model of loudmouth/lm-feature-ping.c.
use loudmouth.Base.{◌≡◌, arith, List, [], ◌∷◌, none, some, Text, codes}
use loudmouth.Ping.{Ping, keep_alive_reply}
use loudmouth.Ping.Silence.{silence, time_outs, pings, silence-keep_alive_reply}

abbrev running : Ping
running = record { keep_alive_rate = 30; keep_alive_source = some 5; keep_alive_counter = 2 }

abbrev ids : List Text
ids = codes "1" ∷ codes "2" ∷ codes "3" ∷ codes "4" ∷ codes "5" ∷ []

silence-keep_alive_reply_example :
    let es = (silence none (keep_alive_reply running).0 ids).1 in
    (time_outs es ≡ 2) × (pings es ≡ 5)
silence-keep_alive_reply_example = silence-keep_alive_reply none running ids (omega arith)
