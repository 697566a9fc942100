-- ===== src/Service/Writing/Outcome.antt =====
-- What a write of the service may do to the store: refuse, replay an earlier write, or write once.
use vessica_knowledge_server.Base.{
  ◌≡◌, ◌≢◌, ◌⊎◌, inl, inr, ◌∷◌, Option, none, some, Bool, true, false, Result, ok, err, Failure,
  Action, refl, reject_if, ◌>>◌, ◌>>=◌, bind_ok, bind_err, sym, ap, ◌∙◌,
}
use vessica_knowledge_server.Models.{Event, WriteOptions}
use vessica_knowledge_server.Store.Tables.{Tables}
use vessica_knowledge_server.Store.Read.{find_event, get_event_by_idempotency}
use vessica_knowledge_server.Store.Write.Effect.{Effect}
use vessica_knowledge_server.Service.Writing.{once, choose, replay, validate_write}

module _ {F : Type 0} where
  -- The event that the store holds for the key of a write.
  abbrev pub recorded : WriteOptions → Tables F → Option (Event F)
  recorded o s = find_event o.workspace_id o.idempotency_key s.events

  -- An error leaves the store alone. A success either finds the key recorded and leaves the store
  -- alone, or finds it new, returns `u` and records exactly the event `e`.
  abbrev pub Outcome :
      {A : Type 0} → Tables F → WriteOptions → A → Event F → Result A × Tables F → Type 0
  Outcome s o u e (err _, s') = s' ≡ s
  Outcome s o u e (ok v, s') =
      (recorded o s ≢ none) × (s' ≡ s)
      ⊎ (recorded o s ≡ none) × (v ≡ u) × (s'.events ≡ e ∷ s.events)

  -- A check passes at every state or refuses at every state, and changes none.
  abbrev Passes : Action (Tables F) (Unit {0}) → Type 0
  Passes m =
      ((s : Tables F) → m s ≡ (ok tt, s)) ⊎ ((f : Failure) × ((s : Tables F) → m s ≡ (err f, s)))

  reject-Passes :
      (b : Bool) (f : Failure) (m : Action (Tables F) (Unit {0}))
      → Passes m
      → Passes (reject_if b f >> m)
  unfolding ◌>>=◌ reject_if
  reject-Passes true f m h = inr (f, λ s. refl)
  reject-Passes false f m h = h

  reject_last-Passes : (b : Bool) (f : Failure) → Passes (reject_if b f)
  unfolding reject_if
  reject_last-Passes true f = inr (f, λ s. refl)
  reject_last-Passes false f = inl (λ s. refl)

  validate_write-Passes : (o : WriteOptions) → Passes (validate_write o)
  unfolding validate_write
  validate_write-Passes o =
      reject-Passes _ _ _ (reject-Passes _ _ _ (reject-Passes _ _ _ (reject_last-Passes _ _)))

  -- The options are valid, and the key is looked up, or the call is refused whatever the state.
  pub replay-cases :
      (o : WriteOptions)
      → ((s : Tables F) → replay o s ≡ (ok (recorded o s), s))
        ⊎ ((f : Failure) × ((s : Tables F) → replay o s ≡ (err f, s)))
  unfolding replay get_event_by_idempotency
  replay-cases o = elim (validate_write-Passes o) [
    | inl passed ↦ inl (λ s. bind_ok (validate_write o) _ (passed s))
    | inr (f, bad) ↦ inr (f, λ s. bind_err (validate_write o) _ (bad s))
  ]

  -- A call that succeeded once has valid options: with its key recorded it is answered by `again`.
  pub once-replayed :
      {A : Type 0} (s s' : Tables F) {s1 : Tables F} (o : WriteOptions) (r : A) (old : Event F)
      (again again' : Event F → Action (Tables F) A) (fresh fresh' : Action (Tables F) A)
      → once o again fresh s ≡ (ok r, s1)
      → recorded o s' ≡ some old
      → once o again' fresh' s' ≡ again' old s'
  unfolding once
  once-replayed s s' o r old again again' fresh fresh' done found = elim (replay-cases o) [
    | inl good ↦ rw (bind_ok (replay o) (choose again' fresh') (good s'), found) refl
    | inr (f, bad) ↦ cc (done, bind_err (replay o) (choose again fresh) (bad s))
  ]

  -- With valid options and a new key the call runs its body.
  pub once-fresh :
      {A : Type 0} (s : Tables F) {s1 : Tables F} (o : WriteOptions) (r : A)
      (again : Event F → Action (Tables F) A) (fresh : Action (Tables F) A)
      → once o again fresh s ≡ (ok r, s1)
      → recorded o s ≡ none
      → fresh s ≡ (ok r, s1)
  unfolding once
  once-fresh s o r again fresh done new = elim (replay-cases o) [
    | inl good ↦
        ap (λ k. choose again fresh k s) (sym new)
        ∙ sym (bind_ok (replay o) (choose again fresh) (good s))
        ∙ done
    | inr (f, bad) ↦ cc (done, bind_err (replay o) (choose again fresh) (bad s))
  ]

  pub reject-Effect :
      {A : Type 0} (b : Bool) (f : Failure) (m : Action (Tables F) A) (s : Tables F) (u : A)
      (e : Event F)
      → Effect s u e (m s)
      → Effect s u e ((reject_if b f >> m) s)
  unfolding ◌>>=◌ reject_if
  reject-Effect true f m s u e h = refl
  reject-Effect false f m s u e h = h

  pub reject-ok :
      {A : Type 0} (b : Bool) (f : Failure) (m : Action (Tables F) A) (s : Tables F) {s1 : Tables F}
      (r : A)
      → (reject_if b f >> m) s ≡ (ok r, s1)
      → m s ≡ (ok r, s1)
  unfolding ◌>>=◌ reject_if
  reject-ok true f m s r h = cc
  reject-ok false f m s r h = h

  replayed :
      {A : Type 0} (s : Tables F) (o : WriteOptions) (u : A) (e : Event F) (p : Result A × Tables F)
      → recorded o s ≢ none
      → p.1 ≡ s
      → Outcome s o u e p
  replayed s o u e (err f, s') old same = same
  replayed s o u e (ok v, s') old same = inl (old, same)

  written :
      {A : Type 0} (s : Tables F) (o : WriteOptions) (u : A) (e : Event F) (p : Result A × Tables F)
      → recorded o s ≡ none
      → Effect s u e p
      → Outcome s o u e p
  written s o u e (err f, s') new h = h
  written s o u e (ok v, s') new h = inr (new, h.0, h.1)

  -- The rest of the method, behind the look-up of the key.
  continued :
      {A : Type 0} (s : Tables F) (o : WriteOptions) (u : A) (e : Event F)
      (again : Event F → Action (Tables F) A) (fresh : Action (Tables F) A)
      (found : Option (Event F))
      → found ≡ recorded o s
      → ((old : Event F) → (again old s).1 ≡ s)
      → Effect s u e (fresh s)
      → Outcome s o u e (choose again fresh found s)
  continued s o u e again fresh none found reads h = written s o u e (fresh s) (sym found) h
  continued s o u e again fresh (some old) found reads h =
      replayed s o u e (again old s) (λ new. cc) (reads old)

  -- A write of the service is refused, replayed or made once.
  pub once-Outcome :
      {A : Type 0} (s : Tables F) (o : WriteOptions) (u : A) (e : Event F)
      (again : Event F → Action (Tables F) A) (fresh : Action (Tables F) A)
      → ((old : Event F) → (again old s).1 ≡ s)
      → Effect s u e (fresh s)
      → Outcome s o u e (once o again fresh s)
  unfolding once
  once-Outcome s o u e again fresh reads h = elim (replay-cases o) [
    | inl good ↦
        rw (bind_ok (replay o) (choose again fresh) (good s))
          (continued s o u e again fresh (recorded o s) refl reads h)
    | inr (f, bad) ↦ rw (bind_err (replay o) (choose again fresh) (bad s)) refl
  ]
