-- ===== src/Bucket/Laws.antt =====
-- Taking a token from a bucket.
use that_limit.Prelude.{◌-◌, ◌≡◌, arith}
use that_limit.Bucket.{Bucket, consume}

-- A take leaves one token less, answers with what is left, and changes nothing else. At zero it
-- takes nothing and answers 0, as it does for the last token.
pub consume_lem :
    (b : Bucket)
    → ((consume b).0 ≡ record b { tokens = b.tokens - 1 }) × ((consume b).1 ≡ b.tokens - 1)
unfolding consume
consume_lem b = ground arith
