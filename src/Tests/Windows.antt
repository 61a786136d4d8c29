-- ===== src/Tests/Windows.antt =====
-- Runs of the two scripts for two keys.
use that_limit.Prelude.{true, false, none, List, [], ◌∷◌}
use that_limit.Lease.Windows.{Windows, Run, lease, release, Answer, leased, released}

-- Nine of ten tokens go back in time, but the same again a window later do not.
abbrev runs : List Run
runs =
    record { now = 1000; key = "k"; op = lease 10 100 60 }
    ∷ record { now = 1500; key = "j"; op = lease 5 8 60 }
    ∷ record { now = 2000; key = "k"; op = release 9 61000 }
    ∷ record { now = 3000; key = "j"; op = lease 5 8 60 }
    ∷ record { now = 4000; key = "j"; op = lease 5 8 60 }
    ∷ record { now = 70000; key = "k"; op = lease 10 100 60 }
    ∷ record { now = 70001; key = "k"; op = release 9 61000 }
    ∷ []

abbrev answers : List Answer
answers =
    leased 10 60000 61000
    ∷ leased 5 60000 61500
    ∷ released true
    ∷ leased 3 58500 61500
    ∷ leased 0 57500 61500
    ∷ leased 10 60000 130000
    ∷ released false
    ∷ []

abbrev closed : Windows
closed k = none
