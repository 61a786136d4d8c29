-- ===== src/System/Ledger/Leads.antt =====
-- Which tasks get or hold the tokens of an id.
use that_limit.Prelude.{ℕ, ◌≡◌, ◌≢◌, refl, some, arith}
use that_limit.Bucket.{BucketId}
use that_limit.Bucket.Ids.{id_eq_iff}
use that_limit.Platform.{Platform}
use that_limit.Store.{
  Task, checking, claiming, leasing, settling, waking, arming, waiting, spending, dropping,
  finished, Store, Moment, advance,
}
use that_limit.System.SingleFlight.{leads}
use that_limit.System.Ledger.{held, received}

module _ (id : BucketId) (w : ℕ) where
  pub held-leads : (t : Task) → leads t ≢ some id → held id w t ≡ 0
  held-leads (settling j n ttl v) h = ground (arith, id_eq_iff j id)
  held-leads (checking j) h = refl
  held-leads (claiming j) h = refl
  held-leads (leasing j) h = refl
  held-leads (waking j res) h = refl
  held-leads (arming j n) h = refl
  held-leads (waiting j n b) h = refl
  held-leads (spending j) h = refl
  held-leads (dropping j) h = refl
  held-leads (finished res) h = refl

  pub leads_of_held : (t : Task) → held id w t ≢ 0 → leads t ≡ some id
  leads_of_held (settling j n ttl v) h = ground (arith, id_eq_iff j id)
  leads_of_held (checking j) h = absurd (h refl)
  leads_of_held (claiming j) h = absurd (h refl)
  leads_of_held (leasing j) h = absurd (h refl)
  leads_of_held (waking j res) h = absurd (h refl)
  leads_of_held (arming j n) h = absurd (h refl)
  leads_of_held (waiting j n b) h = absurd (h refl)
  leads_of_held (spending j) h = absurd (h refl)
  leads_of_held (dropping j) h = absurd (h refl)
  leads_of_held (finished res) h = absurd (h refl)

  pub received-leads :
      (p : Platform) (m : Moment p) (db : p.redis.Db) (s : Store p) (t : Task)
      → leads t ≢ some id
      → received id w t (advance p m (db, s) t).1 ≡ 0
  unfolding advance
  received-leads p m db s (leasing j) h = ground (arith, id_eq_iff j id)
  received-leads p m db s (settling j n ttl v) h = refl
  received-leads p m db s (checking j) h = refl
  received-leads p m db s (claiming j) h = refl
  received-leads p m db s (waking j res) h = refl
  received-leads p m db s (arming j n) h = refl
  received-leads p m db s (waiting j n b) h = refl
  received-leads p m db s (spending j) h = refl
  received-leads p m db s (dropping j) h = refl
  received-leads p m db s (finished res) h = refl
