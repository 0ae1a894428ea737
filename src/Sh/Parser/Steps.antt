-- ===== src/Sh/Parser/Steps.antt =====
-- What the combinators of libmesabox/src/posix/sh/parser.rs do with a result that is known.
use mesabox.Common.{ℕ, false, ◌≡◌, refl, [], ◌∷◌, ◌==◌, arith}
use mesabox.Common.Bytes.{Bytes}
use mesabox.Sh.Parser.Defs
use mesabox.Sh.Parser.Defs.{ParserErrorKind, Errors, Parsed, ok, err, endless, item, is_next}
use mesabox.Sh.Parser.State
use mesabox.Sh.Parser.State.{Parser}

-- Another first byte.
pub is_next-ne :
    (v : ℕ) (vs : Bytes) (c : ℕ) (rest : Bytes)
    → (c == v) ≡ false
    → is_next (v ∷ vs) (c ∷ rest) ≡ err (item (v ∷ vs) ∷ [])
unfolding is_next
is_next-ne v vs c rest h = ground arith

-- An error, and a loop that does not end, are the result of what begins with them.
module _ {A B : Type 0} (p : Parser) where
  pub bind-err :
      (r : Parser × Parsed A) (f : A → Parser → Bytes → Parser × Parsed B) (e : Errors)
      → r ≡ (p, err e)
      → State.and_then r f ≡ (p, err e)
  bind-err r f e h = rw h refl

  pub bind-endless :
      (r : Parser × Parsed A) (f : A → Parser → Bytes → Parser × Parsed B)
      → r ≡ (p, endless)
      → State.and_then r f ≡ (p, endless)
  bind-endless r f h = rw h refl

  pub bind-ok :
      (r : Parser × Parsed A) (f : A → Parser → Bytes → Parser × Parsed B) (a : A) (rest : Bytes)
      → r ≡ (p, ok a rest)
      → State.and_then r f ≡ f a p rest
  bind-ok r f a rest h = rw h refl

  pub attempt-ok :
      (r : Parser × Parsed A) (f : A → Parser → Bytes → Parser × Parsed B)
      (g : Parser → Parser × Parsed B) (a : A) (rest : Bytes)
      → r ≡ (p, ok a rest)
      → State.attempt r f g ≡ f a p rest
  attempt-ok r f g a rest h = rw h refl

  pub attempt-err :
      (r : Parser × Parsed A) (f : A → Parser → Bytes → Parser × Parsed B)
      (g : Parser → Parser × Parsed B) (e : Errors)
      → r ≡ (p, err e)
      → State.attempt r f g ≡ g p
  attempt-err r f g e h = rw h refl

  pub attempt-endless :
      (r : Parser × Parsed A) (f : A → Parser → Bytes → Parser × Parsed B)
      (g : Parser → Parser × Parsed B)
      → r ≡ (p, endless)
      → State.attempt r f g ≡ (p, endless)
  attempt-endless r f g h = rw h refl

  pub then-endless :
      (r : Parsed A) (f : A → Bytes → Parsed B) → r ≡ endless → Defs.and_then r f ≡ endless
  then-endless r f h = rw h refl

module _ {A : Type 0} (p : Parser) where
  pub else-err :
      (r : Parser × Parsed A) (f : Parser → Parser × Parsed A) (e : Errors)
      → r ≡ (p, err e)
      → State.or_else r f ≡ f p
  else-err r f e h = rw h refl

  pub else-ok :
      (r : Parser × Parsed A) (f : Parser → Parser × Parsed A) (a : A) (rest : Bytes)
      → r ≡ (p, ok a rest)
      → State.or_else r f ≡ (p, ok a rest)
  else-ok r f a rest h = rw h refl

  pub else-endless :
      (r : Parser × Parsed A) (f : Parser → Parser × Parsed A)
      → r ≡ (p, endless)
      → State.or_else r f ≡ (p, endless)
  else-endless r f h = rw h refl

  pub kind-endless :
      (k : ParserErrorKind) (r : Parser × Parsed A)
      → r ≡ (p, endless)
      → State.with_kind k r ≡ (p, endless)
  kind-endless k r h = rw h refl

  pub kind-ok :
      (k : ParserErrorKind) (r : Parser × Parsed A) (a : A) (rest : Bytes)
      → r ≡ (p, ok a rest)
      → State.with_kind k r ≡ (p, ok a rest)
  kind-ok k r a rest h = rw h refl
