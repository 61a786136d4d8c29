-- ===== src/Tests/Shutdown.antt =====
-- One bucket with 9 tokens, when the background task has the command.
use that_limit.Prelude.{List, [], ◌∷◌}
use that_limit.Platform.InMemory.{memory}
use that_limit.Store.Background.Worker.{tick}
use that_limit.System.Ledger.Shutdown.{Turn}
use that_limit.Tests.Data.{alice, open_db, bucket, moment, with_bucket}

-- One step returns them, while a call takes two of them from the bucket, and one finds no more.
abbrev turns : List (Turn alice 61000 memory)
turns =
    record {
      wake = tick;
      chunk = 0;
      moment = moment 3;
      world = (open_db 90, with_bucket (bucket 7));
    }
    ∷ record {
      wake = tick;
      chunk = 0;
      moment = moment 4;
      world = (open_db 99, with_bucket (bucket 7));
    }
    ∷ []
