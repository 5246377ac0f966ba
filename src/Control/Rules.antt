-- ===== src/Control/Rules.antt =====
-- Rules for the handlers of requests: what holds of the response and the database at the end, read
-- off from the first step and the rest.
use dev_ops_deployment_tool.Common.{ℕ, ◌≡◌, refl, Bool, true, false, Option, none, some}
use dev_ops_deployment_tool.Control.Database.{
  Db, Response, reply, error, Action, ◌>>=◌, ◌>>◌, require, check, write_or, and_then,
}

abbrev pub Post {ℓ κ} : {A : Type ℓ} → (Response A → Db → Type κ) → Response A × Db → Type κ
Post P (r, db) = P r db

module _ {ℓ κ} {B : Type ℓ} (P : Response B → Db → Type κ) where
  pub require-rule {ι} :
      {A : Type ι} (o : Option A) (code : ℕ) (f : A → Action B) (db : Db)
      → ((a : A) → o ≡ some a → Post P (f a db))
      → (o ≡ none → P (error code) db)
      → Post P ((require o code >>= f) db)
  require-rule none code f db h k = k refl
  require-rule (some a) code f db h k = h a refl

  pub check-rule :
      (b : Bool) (code : ℕ) (m : Action B) (db : Db)
      → (b ≡ true → Post P (m db))
      → (b ≡ false → P (error code) db)
      → Post P ((check b code >> m) db)
  check-rule true code m db h k = h refl
  check-rule false code m db h k = k refl

  pub write_or-rule :
      (code : ℕ) (fails : Bool) (change : Db → Db) (m : Action B) (db : Db)
      → (fails ≡ false → Post P (m (change db)))
      → (fails ≡ true → P (error code) db)
      → Post P ((write_or code fails change >> m) db)
  write_or-rule code true change m db h k = k refl
  write_or-rule code false change m db h k = h refl

  bind_ended {ι τ} :
      {A : Type ι} (Q : Response A → Db → Type τ) (f : A → Action B) (r : Response A) (db : Db)
      → Q r db
      → ((a : A) (db' : Db) → Q (reply a) db' → Post P (f a db'))
      → ((code : ℕ) (db' : Db) → Q (error code) db' → P (error code) db')
      → Post P (and_then r f db)
  bind_ended Q f (reply a) db q h k = h a db q
  bind_ended Q f (error code) db q h k = k code db q

  -- A step of which `Q` is known.
  pub bind-rule {ι τ} :
      {A : Type ι} (Q : Response A → Db → Type τ) (m : Action A) (f : A → Action B) (db : Db)
      → Post Q (m db)
      → ((a : A) (db' : Db) → Q (reply a) db' → Post P (f a db'))
      → ((code : ℕ) (db' : Db) → Q (error code) db' → P (error code) db')
      → Post P ((m >>= f) db)
  bind-rule Q m f db q h k = bind_ended Q f (m db).0 (m db).1 q h k

  pub weaken-rule {τ} :
      (Q : Response B → Db → Type τ) (r : Response B × Db)
      → Post Q r
      → ((b : B) (db' : Db) → Q (reply b) db' → P (reply b) db')
      → ((code : ℕ) (db' : Db) → Q (error code) db' → P (error code) db')
      → Post P r
  weaken-rule Q (reply b, db) q h k = h b db q
  weaken-rule Q (error code, db) q h k = k code db q
