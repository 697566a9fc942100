-- ===== src/Store/Snapshots/Again.antt =====
-- `Import` of knowledge/sqlstore.go, of a snapshot of the same store.
use vessica_knowledge_server.Base.{
  ℕ, String, true, ◌==◌, ◌&&◌, some, List, [], ◌∷◌, Member, ◌≡◌, refl, ◌∙◌, arith, eq_refl, inl,
  inr, ok, Bool-cases, select-Member, sort_by-Member, ◌>>=◌, bind_ok, reject_if, All, ℤ, int_eq,
  nat_eq,
}
use vessica_knowledge_server.Models.{Event, Snapshot}
use vessica_knowledge_server.Store.Tables.{Tables}
use vessica_knowledge_server.Store.Read.{find_event}
use vessica_knowledge_server.Store.Queries.{list_events}
use vessica_knowledge_server.Service.Host.{Host}
use vessica_knowledge_server.Store.Snapshots.{
  export, import_event, import_events, import_snapshot, compare_counts, count_at, snapshot_checksum,
  collected,
}

module _ {F : Type 0} where
  own_key :
      (e : Event F)
      → (e.workspace_id == e.workspace_id && e.idempotency_key == e.idempotency_key) ≡ true
  own_key e = ground (arith, eq_refl e.workspace_id, eq_refl e.idempotency_key)

  -- An event of the log is found by its key, or an older one is.
  find_event-Member :
      (e : Event F) (es : List (Event F))
      → Member e es
      → (old : Event F) × (find_event e.workspace_id e.idempotency_key es ≡ some old)
  unfolding find_event
  find_event-Member e [] m = elim m [ ]
  find_event-Member e (d ∷ es) (inl same) = rw (same, own_key e) (e, refl)
  find_event-Member e (d ∷ es) (inr m) =
      elim (Bool-cases
        (d.workspace_id == e.workspace_id && d.idempotency_key == e.idempotency_key)) [
          | inl same ↦ rw same (d, refl)
          | inr apart ↦ rw apart (find_event-Member e es m)
        ]

  list_events-Member :
      (w : String) (s : Tables F) (e : Event F) → Member e (list_events w s) → Member e s.events
  unfolding list_events
  list_events-Member w s e m = (select-Member _ e s.events (sort_by-Member _ e _ m)).0

module _ {F : Type 0} ⦃host : Host F⦄ (marshal : Snapshot F → String) where
  import_event-known :
      (snap : Snapshot F) (now : ℕ) (s : Tables F) (e : Event F)
      → Member e s.events
      → import_event marshal snap now e s ≡ (ok tt, s)
  unfolding import_event
  import_event-known snap now s e m =
      let (old, found) = find_event-Member e s.events m in rw (import_event, found) refl

  import_events-known :
      (snap : Snapshot F) (now : ℕ) (s : Tables F) (es : List (Event F))
      → ((e : Event F) → Member e es → Member e s.events)
      → import_events marshal snap now es s ≡ (ok tt, s)
  unfolding import_events
  import_events-known snap now s [] known = refl
  import_events-known snap now s (e ∷ es) known =
      bind_ok (import_event marshal snap now e) (λ _. import_events marshal snap now es)
        (import_event-known snap now s e (known e (inl refl)))
      ∙ import_events-known snap now s es (λ d m. known d (inr m))

  -- Counts that agree pass.
  compare_counts-All :
      (got counts : List (String × ℤ)) (s : Tables F)
      → All (λ c. int_eq (count_at c.0 got) c.1 ≡ true) counts
      → compare_counts marshal got counts s ≡ (ok tt, s)
  unfolding compare_counts ◌>>=◌ reject_if
  compare_counts-All got [] s h = refl
  compare_counts-All got ((k, n) ∷ counts) s h = rw (h.0) (compare_counts-All got counts s h.1)

  nat_eq_own : (n : ℕ) → nat_eq n n ≡ true
  nat_eq_own n = ground arith

  compare_counts-own :
      (now : ℕ) (w : String) (s : Tables F)
      → compare_counts marshal (export marshal now w s).counts (export marshal now w s).counts s
        ≡ (ok tt, s)
  unfolding export count_at
  compare_counts-own now w s = compare_counts-All _ _ s (
    nat_eq_own _,
    (nat_eq_own _, (nat_eq_own _, (nat_eq_own _, (nat_eq_own _, (nat_eq_own _, tt))))),
  )

  -- A snapshot of a store can be imported into this store: the import succeeds and changes nothing.
  pub import_snapshot-export :
      (now imported checked : ℕ) (w : String) (s : Tables F)
      → import_snapshot marshal imported checked (export marshal now w s) s ≡ (ok tt, s)
  unfolding import_snapshot export snapshot_checksum ◌>>=◌ reject_if
  import_snapshot-export now imported checked w s =
      rw
        (
          eq_refl (snapshot_checksum marshal (collected marshal now w s)),
          import_events-known (export marshal now w s) imported s (list_events w s)
              (list_events-Member w s),
        )
        (compare_counts-own now w s)
