-- ===== src/Session.antt =====
-- A request's database session (app/infrastructure/db/session.py): the store as last committed, the
-- store with the request's own writes, and the supply of fresh identifiers (`uuid4`, taken never
-- to repeat). An exception that leaves the request rolls back to what was committed; code that
-- catches it still finds what was written.
use blanco_financas_api.Prelude.{
  ℕ, ◌≡◌, refl, ◌⊎◌, inl, inr, ◌+◌, Bool, true, false, Option, none, some,
}
use blanco_financas_api.Errors.{Error, Result, ok, err}
use blanco_financas_api.Calendar.{Date}
use blanco_financas_api.Store.{Store}

pub record Session : Type 0 where
  pub committed : Store
  pub current : Store
  pub next_id : ℕ

-- The readings of the clocks that a request makes, taken at one moment: `utcnow`, and the date in
-- America/Sao_Paulo.
pub record Clock : Type 0 where
  pub now : ℕ
  pub today : Date

pub data Outcome (A : Type 0) : Type 0 where
  done : A → Session → Outcome A
  raised : Error → Session → Outcome A

abbrev pub Action : Type 0 → Type 0
Action A = Session → Outcome A

module _ {A : Type 0} where
  abbrev pub pure : A → Action A
  pure a s = done a s

  abbrev pub raise : Error → Action A
  raise e s = raised e s

  abbrev pub lift : Result A → Action A
  lift r s = elim r [ ok a ↦ done a s | err e ↦ raised e s ]

  abbrev pub gets : (Store → A) → Action A
  gets query s = done (query s.current) s

  -- The row, or the exception where there is none.
  abbrev pub or_raise : Option A → Error → Action A
  or_raise o e s = elim o [ none ↦ raised e s | some a ↦ done a s ]

infixl 5 ◌>>=◌ ◌>>◌
abbrev pub ◌>>=◌ : {A B : Type 0} → Action A → (A → Action B) → Action B
◌>>=◌ m f s = elim (m s) [ done a s' ↦ f a s' | raised e s' ↦ raised e s' ]

pub >>=-run :
    {A B : Type 0} (m : Action A) (f : A → Action B) (s : Session) {a : A} {t : Session}
    → m s ≡ done a t
    → (m >>= f) s ≡ f a t
>>=-run m f s h = rw (◌>>=◌, h) refl

-- A sequence that ended had both its parts end.
pub >>=-done :
    {A B : Type 0} (m : Action A) (f : A → Action B) (s : Session) {b : B} {s' : Session}
    → (m >>= f) s ≡ done b s'
    → (a : A) × (t : Session) × (m s ≡ done a t) × (f a t ≡ done b s')
>>=-done m f s {b} {s'} h = go (m s) refl h
  where
    go :
        (o : Outcome _)
        → m s ≡ o
        → elim o [ done a t ↦ f a t | raised e t ↦ raised e t ] ≡ done b s'
        → (a : _) × (t : Session) × (m s ≡ done a t) × (f a t ≡ done b s')
    go (done a t) e k = (a, t, e, k)
    go (raised x t) e k = absurd cc

-- A sequence that raised did so in its first part, or in the rest.
pub >>=-raised :
    {A B : Type 0} (m : Action A) (f : A → Action B) (s : Session) {e : Error} {s' : Session}
    → (m >>= f) s ≡ raised e s'
    → (m s ≡ raised e s') ⊎ ((a : A) × (t : Session) × (m s ≡ done a t) × (f a t ≡ raised e s'))
>>=-raised m f s {e} {s'} h = go (m s) refl h
  where
    go :
        (o : Outcome _)
        → m s ≡ o
        → elim o [ done a t ↦ f a t | raised x t ↦ raised x t ] ≡ raised e s'
        → (m s ≡ raised e s') ⊎ ((a : _) × (t : Session) × (m s ≡ done a t) × (f a t ≡ raised e s'))
    go (done a t) q k = inr (a, t, q, k)
    go (raised x t) q k = let p : x ≡ e = cc in let r : t ≡ s' = cc in inl (rw (p, r) at q)

abbrev pub ◌>>◌ : {A B : Type 0} → Action A → Action B → Action B
m >> k = m >>= λ _. k

abbrev pub raise_if : Bool → Error → Action (Unit {0})
raise_if test e s = elim test [ true ↦ raised e s | false ↦ done tt s ]

abbrev pub modify : (Store → Store) → Action (Unit {0})
modify write s = done tt (record s { current = write s.current })

abbrev pub fresh_id : Action ℕ
fresh_id s = done s.next_id (record s { next_id = s.next_id + 1 })

-- `session.commit()`
abbrev pub commit : Action (Unit {0})
commit s = done tt (record s { committed = s.current })

abbrev pub open_session : Store → ℕ → Session
open_session db next_id = record { committed = db; current = db; next_id = next_id }

-- What a request answers, and the store that it leaves.
abbrev pub close_session : {A : Type 0} → Outcome A → Result A × Store
close_session (done a s) = (ok a, s.current)
close_session (raised e s) = (err e, s.committed)

-- `get_db_session` around a request handler.
unfoldable pub run_request : {A : Type 0} → Action A → Store → ℕ → Result A × Store
run_request m db next_id = close_session (m (open_session db next_id))

-- A request that answered without an exception ended, and leaves the session's store.
pub run_request-ok :
    {A : Type 0} (m : Action A) (db : Store) (next_id : ℕ) {a : A}
    → (run_request m db next_id).0 ≡ ok a
    → (s' : Session) × (m (open_session db next_id) ≡ done a s')
      × ((run_request m db next_id).1 ≡ s'.current)
unfolding run_request
run_request-ok m db next_id {a} h = go (m (open_session db next_id)) refl h
  where
    go :
        (o : Outcome _)
        → m (open_session db next_id) ≡ o
        → (close_session o).0 ≡ ok a
        → (s' : Session) × (m (open_session db next_id) ≡ done a s')
          × ((close_session (m (open_session db next_id))).1 ≡ s'.current)
    go (done b s') e k = (s', rw e (let q : b ≡ a = cc in rw q refl), rw e refl)
    go (raised x s') e k = absurd cc
