-- ===== src/Service/Writing/Keeps.antt =====
-- Rules that carry a property of the store through a write, one for each way to build it.
use vessica_knowledge_server.Base.{
  String, ◌≡◌, refl, inl, inr, Option, none, some, Bool, true, false, ok, err, Failure, Action,
  reject_if, pure, ◌>>◌, ◌>>=◌, bind_ok, bind_err, ◌∷◌, if◌then◌else◌,
}
use mathlib.Core.Option.{some-injective}
use mathlib.Core.Path.{subst}
use vessica_knowledge_server.Models.{Event, WriteOptions}
use vessica_knowledge_server.Store.Tables.{Tables}
use vessica_knowledge_server.Store.Read.{or_missing}
use vessica_knowledge_server.Store.Write.{event_tx, event_clash, constraint_failed}
use vessica_knowledge_server.Service.Writing.{once, choose, replay}
use vessica_knowledge_server.Service.Writing.Outcome.{recorded, replay-cases}

module _ {F : Type 0} (P : Tables F → Type 0) (s : Tables F) (at_start : P s) where
  committed :
      {A : Type 0} (v : A) (clash : Bool) (applied : Option (Tables F))
      → ((s2 : Tables F) → clash ≡ false → applied ≡ some s2 → P s2)
      → P
          (((λ _.
                if clash
                then (err constraint_failed, s)
                else elim applied [ none ↦ (err constraint_failed, s) | some s' ↦ (ok tt, s') ])
              >> pure v)
            s).1
  unfolding ◌>>=◌
  committed v true applied h = at_start
  committed v false none h = at_start
  committed v false (some s2) h = h s2 refl refl

  pub tx-Keeps :
      {A : Type 0} (v : A) (e : Event F) (apply : Tables F → Option (Tables F))
      → ((s2 : Tables F)
          → event_clash e s.events ≡ false
          → apply (record s { events = e ∷ s.events }) ≡ some s2
          → P s2)
      → P ((event_tx e apply >> pure v) s).1
  unfolding event_tx ◌>>=◌
  tx-Keeps v e apply h =
      committed v (event_clash e s.events) (apply (record s { events = e ∷ s.events })) h

  -- What `apply` does behind a `put_row`.
  pub row-Keeps :
      {T : Type 0} (put : Option T) (f : T → Tables F) (s2 : Tables F)
      → ◌≡◌ {A = Option (Tables F)} (elim put [ none ↦ none | some t ↦ some (f t) ]) (some s2)
      → ((t : T) → put ≡ some t → P (f t))
      → P s2
  row-Keeps none f s2 e h = cc
  row-Keeps (some t) f s2 e h = subst P (some-injective (f t) s2 e) (h t refl)

  -- What `apply` does behind the check of a scope.
  pub clash-Keeps :
      (clash : Bool) (s3 s2 : Tables F)
      → ◌≡◌ {A = Option (Tables F)} (if clash then none else some s3) (some s2)
      → (clash ≡ false → P s3)
      → P s2
  clash-Keeps true s3 s2 applied k = cc
  clash-Keeps false s3 s2 applied k = subst P (some-injective s3 s2 applied) (k refl)

  pub reject-Keeps :
      {A : Type 0} (b : Bool) (f : Failure) (m : Action (Tables F) A)
      → (b ≡ false → P (m s).1)
      → P ((reject_if b f >> m) s).1
  unfolding ◌>>=◌ reject_if
  reject-Keeps true f m h = at_start
  reject-Keeps false f m h = h refl

  found_or_missing :
      {A B : Type 0} (text : String) (found : Option A) (k : A → Action (Tables F) B)
      → ((a : A) → found ≡ some a → P (k a s).1)
      → P (((λ t. (or_missing text found, t)) >>= k) s).1
  unfolding ◌>>=◌
  found_or_missing text none k h = at_start
  found_or_missing text (some a) k h = h a refl

  -- A look-up that fails with a `NotFound`, and the rest of the method.
  pub found-Keeps :
      {A B : Type 0} (m : Action (Tables F) A) (text : String) (found : Option A)
      (k : A → Action (Tables F) B)
      → m s ≡ (or_missing text found, s)
      → ((a : A) → found ≡ some a → P (k a s).1)
      → P ((m >>= k) s).1
  unfolding ◌>>=◌
  found-Keeps m text found k e h = rw e (found_or_missing text found k h)

  chosen :
      {A : Type 0} (again : Event F → Action (Tables F) A) (fresh : Action (Tables F) A)
      (found : Option (Event F))
      → ((old : Event F) → (again old s).1 ≡ s)
      → P (fresh s).1
      → P (choose again fresh found s).1
  chosen again fresh none reads h = h
  chosen again fresh (some old) reads h = rw (reads old) at_start

  pub once-Keeps :
      {A : Type 0} (o : WriteOptions) (again : Event F → Action (Tables F) A)
      (fresh : Action (Tables F) A)
      → ((old : Event F) → (again old s).1 ≡ s)
      → P (fresh s).1
      → P (once o again fresh s).1
  unfolding once
  once-Keeps o again fresh reads h = elim (replay-cases o) [
    | inl good ↦
        rw (bind_ok (replay o) (choose again fresh) (good s))
          (chosen again fresh (recorded o s) reads h)
    | inr (f, bad) ↦ rw (bind_err (replay o) (choose again fresh) (bad s)) at_start
  ]
