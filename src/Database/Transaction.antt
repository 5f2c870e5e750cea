-- ===== src/Database/Transaction.antt =====
-- What Database::transaction promises to the function that it runs.
use academia_cr.Prelude.{String, ◌≡◌, refl, ◌⊎◌, inl, inr, none, some, arith}
use academia_cr.Database.{Connection, Result, ok, throw, Answers, transaction}

-- The connection inside a transaction that was begun at `c`.
abbrev pub begun : Connection → Connection
begun c = record c { backup = some c.tables }

-- The connection after a commit.
abbrev pub committed : Connection → Connection
committed c = record c { backup = none }

module _ {A : Type 0} where
  -- `func` leaves BEGIN, COMMIT and ROLLBACK to the transaction.
  abbrev pub IsBody : (Connection → Result A × Connection) → Type 0
  IsBody func = (c : Connection) → (func c).1.backup ≡ c.backup

  pub Result-cases :
      (r : Result A × Connection)
      → ((a : A) × (d : Connection) × (r ≡ (ok a, d)))
        ⊎ ((message : String) × (d : Connection) × (r ≡ (throw message, d)))
  Result-cases (ok a, d) = inl (a, d, refl)
  Result-cases (throw message, d) = inr (message, d, refl)

  module _ (e : Answers) (func : Connection → Result A × Connection) (c d : Connection) where
    -- If a transaction throws, be it in BEGIN, in the function that it runs or in COMMIT, every table
    -- is as before it, and so is the connection's open transaction or the lack of one. The function
    -- must leave BEGIN, COMMIT and ROLLBACK to the transaction.
    pub transaction_failed :
        (message : String)
        → IsBody func
        → transaction e func c ≡ (throw message, d)
        → (d.tables ≡ c.tables) × (d.backup ≡ c.backup)
    unfolding transaction
    transaction_failed message body h = ground (arith, body (begun c))

    -- A transaction that returns a value was begun outside any other, its function returned that
    -- value inside it, and the tables are those that the function left, with nothing left to undo.
    pub transaction_ok :
        (a : A)
        → transaction e func c ≡ (ok a, d)
        → (c.backup ≡ none)
          × (func (begun c) ≡ (ok a, (func (begun c)).1))
          × (d ≡ committed (func (begun c)).1)
    unfolding transaction
    transaction_ok a h = ground arith
