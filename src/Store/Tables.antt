-- ===== src/Store/Tables.antt =====
-- Reading a table after a row was merged into it.
use blanco_financas_api.Prelude.{
  All-both, ℕ, ◌≡◌, ◌≢◌, refl, sym, ap, ◌∙◌, arith, ◌==◌, ==_iff, ==_refl, if◌then◌else◌, Bool,
  true, false, ◌&&◌, Bool-cases, inl, inr, some, List, [], ◌∷◌, find_by, find_by-test, All, is_some,
  none,
}
use blanco_financas_api.Subscriptions.{Subscription}
use blanco_financas_api.Transactions.{Transaction}
use blanco_financas_api.Users.{User}
use blanco_financas_api.Store.{
  AuditLog, put_audit, Store, merge, by_key, find_transaction, put_transaction, stored_items,
  find_subscription, put_subscription, find_user, put_user,
}

pub ne_test : (a b : ℕ) → a ≢ b → (a == b) ≡ false
ne_test a b h = ground arith

true≢false_of : {b : Bool} → b ≡ true → b ≡ false → ⊥
true≢false_of p q = cc

pub some_injective : {A : Type 0} {a b : A} → some a ≡ some b → a ≡ b
some_injective h = cc

module _ {A : Type 0} (key : A → ℕ) where
  -- Every row has a key of its own.
  abbrev pub Distinct : List A → Type 0
  Distinct [] = Unit
  Distinct (x ∷ xs) = All (λ y. key y ≢ key x) xs × Distinct xs

  pub by_key-merge :
      (wanted : ℕ) (row : A) (xs : List A)
      → by_key key wanted (merge key row xs)
        ≡ (if key row == wanted then some row else by_key key wanted xs)
  unfolding by_key merge
  by_key-merge wanted row [] = refl
  by_key-merge wanted row (x ∷ xs) = ground (arith, by_key-merge wanted row xs)

  pub found_key :
      (p : A → Bool) (k : ℕ) (xs : List A) {a : A}
      → All (λ y. key y ≢ k) xs
      → find_by p xs ≡ some a
      → key a ≢ k
  found_key p k [] d h = cc
  found_key p k (x ∷ xs) {a} d h = elim (Bool-cases (p x)) [
    | inl here ↦ let e : x ≡ a = cc in ground arith
    | inr later ↦ found_key p k xs d.1 (rw later at h)
  ]

  -- Every row is the one that its key finds.
  pub by_key-own : (xs : List A) → Distinct xs → All (λ y. by_key key (key y) xs ≡ some y) xs
  unfolding by_key
  by_key-own [] d = tt
  by_key-own (x ∷ xs) d = (
    rw (==_refl (key x)) refl,
    All-both xs (λ y other own. rw (ne_test (key x) (key y) (λ q. other (sym q))) own) d.0
        (by_key-own xs d.1),
  )

  -- A row found by a test is replaced by a row of its key that passes the test.
  pub find_by-merge :
      (p : A → Bool) (row : A) (xs : List A) {a : A}
      → Distinct xs
      → find_by p xs ≡ some a
      → key row ≡ key a
      → p row ≡ true
      → find_by p (merge key row xs) ≡ some row
  unfolding merge
  find_by-merge p row [] d h e t = cc
  find_by-merge p row (x ∷ xs) {a} d h e t = elim (Bool-cases (p x)) [
    | inl here ↦
        let first : x ≡ a = some_injective (rw here at h) in
        let same : (key x == key row) ≡ true =
          (==_iff (key x) (key row)).1 (ap key first ∙ sym e) in
        rw (same, t)
    | inr later ↦
        let rest : find_by p xs ≡ some a = rw later at h in
        let other : (key x == key row) ≡ false =
          ne_test (key x) (key row) (λ q. found_key p (key x) xs d.0 rest (sym e ∙ sym q)) in
        rw (other, later) (find_by-merge p row xs d.1 rest e t)
  ]

  others-merge :
      (k : ℕ) (row : A) (xs : List A)
      → All (λ y. key y ≢ k) xs
      → key row ≢ k
      → All (λ y. key y ≢ k) (merge key row xs)
  unfolding merge
  others-merge k row [] d n = (n, tt)
  others-merge k row (x ∷ xs) d n = elim (Bool-cases (key x == key row)) [
    | inl same ↦ rw same (n, d.1)
    | inr other ↦ rw other (d.0, others-merge k row xs d.1 n)
  ]

  pub merge-Distinct : (row : A) (xs : List A) → Distinct xs → Distinct (merge key row xs)
  unfolding merge
  merge-Distinct row [] d = (tt, tt)
  merge-Distinct row (x ∷ xs) d = elim (Bool-cases (key x == key row)) [
    | inl same ↦ let e : key x ≡ key row = (==_iff (key x) (key row)).0 same in rw same (rw e at d)
    | inr other ↦
        let n : key row ≢ key x = λ q. true≢false_of ((==_iff (key x) (key row)).1 (sym q)) other in
        rw other (others-merge (key x) row xs d.0 n, merge-Distinct row xs d.1)
  ]

module _ {A : Type 0} (key : A → ℕ) (p : A → Bool) (row : A) where
  -- A row that passes a test is found by it where none was found before.
  pub find_by-merge-none :
      (xs : List A) → find_by p xs ≡ none → p row ≡ true → find_by p (merge key row xs) ≡ some row
  unfolding merge
  find_by-merge-none [] h t = rw t refl
  find_by-merge-none (x ∷ xs) h t = elim (Bool-cases (p x)) [
    | inl here ↦ absurd (let k = rw here at h in cc)
    | inr later ↦
        let rest : find_by p xs ≡ none = rw later at h in
        elim (Bool-cases (key x == key row)) [
          | inl same ↦ rw (same, t) refl
          | inr other ↦ rw (other, later) (find_by-merge-none xs rest t)
        ]
  ]

  -- Some row is found by a test that the merged row passes.
  pub find_by-merge_some :
      (xs : List A) → p row ≡ true → is_some (find_by p (merge key row xs)) ≡ true
  unfolding merge
  find_by-merge_some [] t = rw t refl
  find_by-merge_some (x ∷ xs) t = elim (Bool-cases (key x == key row)) [
    | inl same ↦ rw (same, t) refl
    | inr other ↦ rw other (elim (Bool-cases (p x)) [
      | inl here ↦ rw here refl
      | inr later ↦ rw later (find_by-merge_some xs t)
    ])
  ]

module _ {A : Type 0} (key : A → ℕ) (live : A → Bool) (wanted : ℕ) where
  none_of_key :
      (xs : List A)
      → All (λ y. key y ≢ wanted) xs
      → find_by (λ x. key x == wanted && live x) xs ≡ none
  none_of_key [] a = refl
  none_of_key (x ∷ xs) a =
      let other : (key x == wanted) ≡ false = ne_test (key x) wanted a.0 in
      rw other (none_of_key xs a.1)

  -- A row is no longer found where the row of its key is not live.
  pub find_by-merge-gone :
      (row : A) (xs : List A)
      → Distinct key xs
      → key row ≡ wanted
      → live row ≡ false
      → find_by (λ x. key x == wanted && live x) (merge key row xs) ≡ none
  unfolding merge
  find_by-merge-gone row [] d e l = ground arith
  find_by-merge-gone row (x ∷ xs) d e l = elim (Bool-cases (key x == key row)) [
    | inl same ↦
        let own : key x ≡ wanted = (==_iff (key x) (key row)).0 same ∙ e in
        let rest = none_of_key xs (rw own at d.0) in rw same (ground (arith, rest))
    | inr other ↦
        let away : (key x == wanted) ≡ false = rw e at other in
        rw (other, away) (find_by-merge-gone row xs d.1 e l)
  ]

-- A saved transaction is found again, with its stored items.
pub find_transaction-put :
    (t : Transaction) (db : Store)
    → find_transaction t.id (put_transaction t db)
      ≡ some (record t { items = stored_items (find_transaction t.id db) })
unfolding find_transaction put_transaction
find_transaction-put t db =
    let row : Transaction = record t { items = stored_items (find_transaction t.id db) } in
    rw (by_key-merge (λ (x : Transaction). x.id) t.id row db.transactions, ==_refl t.id)

pub find_transaction-id :
    (wanted : ℕ) (db : Store) {t : Transaction}
    → find_transaction wanted db ≡ some t
    → t.id ≡ wanted
unfolding find_transaction by_key
find_transaction-id wanted db {t} h =
    (==_iff t.id wanted).0 (find_by-test (λ (x : Transaction). x.id == wanted) db.transactions h)

pub find_transaction-put_audit :
    (wanted : ℕ) (a : AuditLog) (db : Store)
    → find_transaction wanted (put_audit a db) ≡ find_transaction wanted db
unfolding find_transaction put_audit
find_transaction-put_audit wanted a db = refl

pub find_subscription-put :
    (s : Subscription) (db : Store) → find_subscription s.id (put_subscription s db) ≡ some s
unfolding find_subscription put_subscription
find_subscription-put s db =
    rw (by_key-merge (λ (x : Subscription). x.id) s.id s db.subscriptions, ==_refl s.id)

pub find_subscription-id :
    (wanted : ℕ) (db : Store) {s : Subscription}
    → find_subscription wanted db ≡ some s
    → s.id ≡ wanted
unfolding find_subscription by_key
find_subscription-id wanted db {s} h =
    (==_iff s.id wanted).0 (find_by-test (λ (x : Subscription). x.id == wanted) db.subscriptions h)

pub find_subscription-put_audit :
    (wanted : ℕ) (a : AuditLog) (db : Store)
    → find_subscription wanted (put_audit a db) ≡ find_subscription wanted db
unfolding find_subscription put_audit
find_subscription-put_audit wanted a db = refl

pub find_user-put : (u : User) (db : Store) → find_user u.id (put_user u db) ≡ some u
unfolding find_user put_user
find_user-put u db = rw (by_key-merge (λ (x : User). x.id) u.id u db.users, ==_refl u.id)
