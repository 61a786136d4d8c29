-- ===== src/Tests/Stuck.antt =====
-- A bucket that was marked as exhausted, long after the end of its window.
use that_limit.Prelude.{◌≡◌, refl, err, false, arith}
use that_limit.Bucket.{set_exhausted}
use that_limit.Bucket.Ids.{id_eq}
use that_limit.Config.{default}
use that_limit.Duration.{Duration}
use that_limit.Platform.InMemory.{memory}
use that_limit.Store.{checking, finished, exhausted}
use that_limit.Store.Background.Worker
use that_limit.System.{System, step, Reach, here, next}
use that_limit.System.Stuck.{IsStuck, refuses_forever}
use that_limit.Tests.Data.{alice, empty_db, bucket, moment, with_bucket}
use that_limit.Tests.System.{home}

-- The bucket ended at 61 s; without cleanup there is no background task.
abbrev late : System memory
late =
    let config = record default { cleanup = record default.cleanup { enabled = false } } in
    record {
      db = empty_db;
      clock = 61_001;
      stores = λ _. record (with_bucket (set_exhausted (bucket 0))) { config = config };
      tasks = λ _. checking alice;
      workers = λ _. Worker.first config.cleanup;
    }

late-IsStuck : IsStuck memory alice home 0 late
unfolding id_eq set_exhausted
late-IsStuck = record {
  marked = record { bucket = set_exhausted (bucket 0); found = refl; marked = refl };
  idle = refl;
  calm = λ i h. tt;
}

-- A day later another call has asked.
abbrev next_day : System memory
next_day = step memory home late 1 (moment 86_461_000)

next_day-Reach : Reach memory home late next_day
next_day-Reach = next here 1 (moment 86_461_000) (omega arith)

refuses_forever_example :
    (d : Duration) × ((step memory home next_day 0 (moment 86_461_001)).tasks 0
      ≡ finished (err (exhausted alice d)))
refuses_forever_example =
    refuses_forever memory alice home 0 0 refl late-IsStuck refl next_day-Reach (moment 86_461_001)
