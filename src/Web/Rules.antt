-- ===== src/Web/Rules.antt =====
-- What holds of every reply of a handler, by the way the handler is put together.
use calbridge.Common.{◌≡◌, refl, ℕ, Text, codes, [], ◌∷◌, Option, none, some}
use calbridge.Store.{Db, Result, ok, err, M}
use calbridge.Crypto.{done, refused}
use calbridge.Crypto
use calbridge.Web.{
  World, Session, Outside, Reply, reply, panics, waits, settled, or_reply, with_session, with_body,
  unless,
}
use calbridge.Web.Views.{Body, error}
use calbridge.Web.Sources.{with_encrypted, with_new_password}

-- `P` of an answer, `N` of the world that a panic leaves, and `W` where the handler waits for ever.
module _ (P : Body → World → Type 0) (N : World → Type 0) (W : Type 0) where
  abbrev pub Ends : Reply → Type 0
  Ends (reply status body w) = P body w
  Ends (panics w) = N w
  Ends waits = W

  module _ (w : World) (refuses : (why : Text) → P (error why) w) where
    pub Ends-unless : (o : Option Text) (k : Reply) → Ends k → Ends (unless o w k)
    unfolding unless
    Ends-unless none k h = h
    Ends-unless (some why) k h = refuses why

    pub Ends-with_session :
        (o : Option Session) (k : Session → Reply)
        → ((u : Session) → Ends (k u))
        → Ends (with_session o w k)
    unfolding with_session
    Ends-with_session none k h = refuses (codes "Unauthorized")
    Ends-with_session (some u) k h = h u

    pub Ends-with_body :
        {A : Type 0} (o : Option A) (k : A → Reply)
        → ((a : A) → Ends (k a))
        → Ends (with_body o w k)
    unfolding with_body
    Ends-with_body none k h = refuses (codes "Invalid request body")
    Ends-with_body (some a) k h = h a

    pub Ends-with_encrypted :
        (r : Crypto.Result) (k : Text → Reply)
        → ((t : Text) → Ends (k t))
        → Ends (with_encrypted r w k)
    unfolding with_encrypted
    Ends-with_encrypted (done t) k h = h t
    Ends-with_encrypted (refused e) k h = refuses (codes "Failed to encrypt credentials")

    pub Ends-with_new_password :
        (out : Outside) (random : Option Text) (password stored : Text) (k : Text → Reply)
        → ((t : Text) → Ends (k t))
        → Ends (with_new_password out random password stored w k)
    unfolding with_new_password
    Ends-with_new_password out random [] stored k h = h stored
    Ends-with_new_password out random (c ∷ cs) stored k h = Ends-with_encrypted _ k h

  Ends-settled :
      {A : Type 0} (status : ℕ) (why : Text) (r : Result A × Db) (w : World) (k : A → World → Reply)
      → P (error why) (record w { db = r.1 })
      → ((a : A) → r.0 ≡ ok a → Ends (k a (record w { db = r.1 })))
      → Ends (settled status why r w k)
  unfolding settled
  Ends-settled status why (ok a, db) w k h f = f a refl
  Ends-settled status why (err e, db) w k h f = h

  pub Ends-or_reply :
      {A : Type 0} (status : ℕ) (why : Text) (call : M A) (w : World) (k : A → World → Reply)
      → P (error why) (record w { db = (call w.db).1 })
      → ((a : A) → (call w.db).0 ≡ ok a → Ends (k a (record w { db = (call w.db).1 })))
      → Ends (or_reply status why call w k)
  unfolding or_reply
  Ends-or_reply status why call w k h f = Ends-settled status why (call w.db) w k h f
