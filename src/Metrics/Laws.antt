-- ===== src/Metrics/Laws.antt =====
-- The maps of the collector have the same keys, so no read through a missing pointer occurs.
use local_router.Prelude.{
  String, ◌≡◌, Bool, true, false, none, some, arith, str_eq, eq_iff, if◌then◌else◌, Option-cases,
  inl, inr,
}
use local_router.Prelude.Int.{ℤ, pos}
use local_router.GoMap
use local_router.GoMap.{GoMap, get-put}
use local_router.Metrics.{
  Collector, ensure_provider, add_at, provider_ok, provider_fail, add_concurrent_active,
  record_concurrency_rejected,
}

abbrev pub present : GoMap ℤ → String → Bool
present m id = elim (GoMap.get m id) [ none ↦ false | some n ↦ true ]

abbrev pub SameKeys : GoMap ℤ → GoMap ℤ → Type 0
SameKeys m n = (id : String) → present m id ≡ present n id

pub record IsAligned (c : Collector) : Type 0 where
  pub fails : SameKeys c.provider_checks_fail c.provider_checks_ok
  pub latencies : SameKeys c.provider_latency_ms c.provider_checks_ok
  pub actives : SameKeys c.concurrent_active c.provider_checks_ok
  pub rejects : SameKeys c.concurrent_rejected c.provider_checks_ok

present-put :
    (m : GoMap ℤ) (k j : String) (v : ℤ)
    → present (GoMap.put m k v) j ≡ (if str_eq k j then true else present m j)
present-put m k j v = ground (arith, get-put m k j v)

SameKeys-put :
    (m n : GoMap ℤ) (k : String) (v w : ℤ)
    → SameKeys m n
    → SameKeys (GoMap.put m k v) (GoMap.put n k w)
SameKeys-put m n k v w s j = ground (arith, get-put m k j v, get-put n k j w, s j)

-- A write at a key that is there already.
SameKeys-put_left :
    (m n : GoMap ℤ) (k : String) (v : ℤ)
    → present n k ≡ true
    → SameKeys m n
    → SameKeys (GoMap.put m k v) n
SameKeys-put_left m n k v p s j = ground (arith, get-put m k j v, s j, eq_iff k j)

SameKeys-put_right :
    (m n : GoMap ℤ) (k : String) (v : ℤ)
    → present n k ≡ true
    → SameKeys m n
    → SameKeys m (GoMap.put n k v)
SameKeys-put_right m n k v p s j = ground (arith, get-put n k j v, s j, eq_iff k j)

present-ensure_provider :
    (id : String) (c : Collector) → present (ensure_provider id c).provider_checks_ok id ≡ true
unfolding ensure_provider
present-ensure_provider id c =
    ground (arith, get-put c.provider_checks_ok id id (pos 0), eq_iff id id)

ensure_provider-IsAligned :
    (id : String) (c : Collector) → IsAligned c → IsAligned (ensure_provider id c)
unfolding ensure_provider
ensure_provider-IsAligned id c a = elim (Option-cases (GoMap.get c.provider_checks_ok id)) [
  | inr (n, old) ↦ rw (old, ensure_provider) a
  | inl missing ↦
      rw (missing, ensure_provider)
        (record {
          fails = SameKeys-put _ _ id _ _ a.fails;
          latencies = SameKeys-put _ _ id _ _ a.latencies;
          actives = SameKeys-put _ _ id _ _ a.actives;
          rejects = SameKeys-put _ _ id _ _ a.rejects;
        })
]

-- Every method keeps the five maps on the same keys, so that `Snapshot` and the additions find a
-- counter wherever `providerChecksOK` has one.
pub methods-IsAligned :
    (id : String) (n : ℤ) (c : Collector)
    → IsAligned c
    → IsAligned (provider_ok id n c)
      × IsAligned (provider_fail id c)
      × IsAligned (add_concurrent_active id n c)
      × IsAligned (record_concurrency_rejected id c)
unfolding provider_ok provider_fail add_concurrent_active record_concurrency_rejected add_at
methods-IsAligned id n c a =
    let b = ensure_provider-IsAligned id c a in
    let here = present-ensure_provider id c in
    (
      record {
        fails = SameKeys-put_right _ _ id _ here b.fails;
        latencies = SameKeys-put _ _ id _ _ b.latencies;
        actives = SameKeys-put_right _ _ id _ here b.actives;
        rejects = SameKeys-put_right _ _ id _ here b.rejects;
      },
      record {
        fails = SameKeys-put_left _ _ id _ here b.fails;
        latencies = b.latencies;
        actives = b.actives;
        rejects = b.rejects;
      },
      record {
        fails = b.fails;
        latencies = b.latencies;
        actives = SameKeys-put_left _ _ id _ here b.actives;
        rejects = b.rejects;
      },
      record {
        fails = b.fails;
        latencies = b.latencies;
        actives = b.actives;
        rejects = SameKeys-put_left _ _ id _ here b.rejects;
      },
    )
