-- ===== src/V1/Actions.antt =====
-- What the asynchronous methods of the first version have in common: they act on a store and return or
-- throw. What was written before a throw stays written.
use secure_mcp.Shared.{ℕ, ◌≡◌, refl, Bool, true, false, not, Option, none, some, List}

-- The client's own error, one of JSON.parse, one of jsonwebtoken, an error with a text, and a text with another error's behind it.
pub data Failure : Type 0 where
  client syntax token_error : Failure
  failure : List ℕ → Failure
  because : List ℕ → Failure → Failure

pub data Result (A : Type 0) : Type 0 where
  ok : A → Result A
  thrown : Failure → Result A

abbrev pub Method : Type 0 → Type 0 → Type 0
Method S A = S → Result A × S

abbrev pub after : {S A B : Type 0} → Result A × S → (A → Method S B) → Result B × S
after (ok a, s) f = f a s
after (thrown e, s) f = (thrown e, s)

infixl 5 ◌>>=◌ ◌>>◌
abbrev pub ◌>>=◌ : {S A B : Type 0} → Method S A → (A → Method S B) → Method S B
◌>>=◌ m f s = after (m s) f

abbrev pub ◌>>◌ : {S A B : Type 0} → Method S A → Method S B → Method S B
◌>>◌ m k s = after (m s) (λ _. k)

abbrev pub replied : {A : Type 0} → Option A → Result A
replied none = thrown client
replied (some a) = ok a

module _ {S A : Type 0} where
  abbrev pub pure : A → Method S A
  pure a s = (ok a, s)

  abbrev pub throw : Failure → Method S A
  throw e s = (thrown e, s)

  -- Calls that do not throw.
  abbrev pub reads : (S → A) → Method S A
  reads f s = (ok (f s), s)

  abbrev pub runs : (S → A × S) → Method S A
  runs f s = (ok (f s).0, (f s).1)

  -- A command that only reads, and one that may write; without a reply the client throws.
  abbrev pub asks : (S → Option A) → Method S A
  asks f s = (replied (f s), s)

  abbrev pub calls : (S → Option A × S) → Method S A
  calls f s = (replied (f s).0, (f s).1)

  -- `try { … } catch (error) { … }`
  abbrev pub handled : Result A × S → (Failure → Method S A) → Result A × S
  handled (ok a, s) handle = (ok a, s)
  handled (thrown e, s) handle = handle e s

  abbrev pub catch : Method S A → (Failure → Method S A) → Method S A
  catch m handle s = handled (m s) handle

  -- `try { … } finally { … }`, whose end does not throw.
  abbrev pub finally : Method S A → (S → S) → Method S A
  finally m last s = ((m s).0, last (m s).1)

-- `JSON.parse(text)`
abbrev pub parsed_or : {S A : Type 0} → Option A → Method S A
parsed_or none s = (thrown syntax, s)
parsed_or (some a) s = (ok a, s)

-- `if (condition) throw new Error(text)`
abbrev pub throw_if : {S : Type 0} → Bool → List ℕ → Method S Unit
throw_if true e s = (thrown (failure e), s)
throw_if false e s = (ok tt, s)

-- What stands behind a method that returns.
pub bind-ok :
    {S A B : Type 0} (r : Result A × S) (f : A → Method S B) (last : S) (b : B)
    → after r f ≡ (ok b, last)
    → (a : A) × (s' : S) × (r ≡ (ok a, s')) × (f a s' ≡ (ok b, last))
bind-ok (ok a, s) f last b h = (a, s, refl, h)
bind-ok (thrown e, s) f last b h = absurd (cc)

-- A test that is passed, a command that replies, a `try` whose `catch` throws, and the end of a method.
pub throw_if-ok :
    {S B : Type 0} (c : Bool) (e : List ℕ) (s : S) (f : Unit → Method S B) (last : S) (b : B)
    → after (throw_if c e s) f ≡ (ok b, last)
    → (c ≡ false) × (f tt s ≡ (ok b, last))
throw_if-ok true e s f last b h = absurd (cc)
throw_if-ok false e s f last b h = (refl, h)

pub replied-ok :
    {S A B : Type 0} (o : Option A) (s : S) (f : A → Method S B) (last : S) (b : B)
    → after (replied o, s) f ≡ (ok b, last)
    → (a : A) × (o ≡ some a) × (f a s ≡ (ok b, last))
replied-ok none s f last b h = absurd (cc)
replied-ok (some a) s f last b h = (a, refl, h)

pub handled-ok :
    {S A : Type 0} (r : Result A × S) (e : Failure) (last : S) (a : A)
    → handled r (λ x. throw e) ≡ (ok a, last)
    → r ≡ (ok a, last)
handled-ok (ok b, s) e last a h = h
handled-ok (thrown x, s) e last a h = absurd (cc)

pub pure-ok : {S A : Type 0} (a b : A) (s last : S) → pure a s ≡ (ok b, last) → (a ≡ b) × (s ≡ last)
pure-ok a b s last h = ((cc), (cc))

pub not-false : (b : Bool) → not b ≡ false → b ≡ true
not-false true h = refl
not-false false h = absurd (cc)
