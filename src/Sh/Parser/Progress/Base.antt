-- ===== src/Sh/Parser/Progress/Base.antt =====
-- The relation between the input and the state before a parser and what it returns, and the rules for
-- putting parsers together.
use mesabox.Common.{
  ℕ, ◌+◌, ◌≤◌, ◌<◌, [], ◌∷◌, ◌++◌, length, All, ◌≡◌, refl, ap, ◌∙◌, append_assoc, length-append,
  arith,
}
use mesabox.Common.Bytes.{Bytes}
use mesabox.Sh.Parser.Defs
use mesabox.Sh.Parser.Defs.{ParserErrorKind, Errors, Parsed, ok, err, panic, endless, no_fuel}
use mesabox.Sh.Parser.State
use mesabox.Sh.Parser.State.{HereDocMarker, Parser}

-- `rest` is what is left of the input after `k` bytes or more.
abbrev pub Left : ℕ → Bytes → Bytes → Type 0
Left k rest input = (taken : Bytes) × (taken ++ rest ≡ input) × (k ≤ length taken)

-- The fuel was enough, and a success leaves an end of the input.
abbrev pub Within : {A : Type 0} → ℕ → Bytes → Parsed A → Type 0
Within k input (ok a rest) = Left k rest input
Within k input (err e) = Unit {0}
Within k input panic = Unit {0}
Within k input endless = Unit {0}
Within k input no_fuel = ⊥

-- Every marker waits for the text of a here-document of the store.
abbrev pub IsValid : Parser → Type 0
IsValid p = All (λ m. m.heredoc < length p.heredocs) p.heredoc_markers

-- No here-document is lost. The line number is that of the start: nothing counts lines.
abbrev pub Extends : Parser → Parser → Type 0
Extends p p' =
    (length p.heredocs ≤ length p'.heredocs) × (IsValid p → IsValid p') × (p.linenum ≡ p'.linenum)

abbrev pub Keeps : {A : Type 0} → ℕ → Parser → Bytes → Parser × Parsed A → Type 0
Keeps k p input r = Extends p r.0 × Within k input r.1

pub Left-length : (k : ℕ) (rest input : Bytes) → Left k rest input → length rest + k ≤ length input
Left-length k rest input (taken, e, le) =
    omega (arith, ap (λ (s : Bytes). length s) e, length-append taken rest)

pub Left-refl : (input : Bytes) → Left 0 input input
Left-refl input = ([], refl, omega arith)

pub Left-trans : (k j m : ℕ) (c b a : Bytes) → m ≤ k + j → Left k b a → Left j c b → Left m c a
Left-trans k j m c b a h (s, e, le) (t, f, le') = (
  s ++ t,
  append_assoc s t c ∙ ap (λ (r : Bytes). s ++ r) f ∙ e,
  omega (arith, length-append s t),
)

pub Extends-refl : (p : Parser) → Extends p p
Extends-refl p = (omega arith, λ v. v, refl)

pub Extends-trans : (p q r : Parser) → Extends p q → Extends q r → Extends p r
Extends-trans p q r (a, b, e) (c, d, f) = (omega arith, λ v. d (b v), e ∙ f)

pub extend-Within :
    {A : Type 0} (k j m : ℕ) (rest input : Bytes) (s : Parsed A)
    → m ≤ k + j
    → Left k rest input
    → Within j rest s
    → Within m input s
extend-Within k j m rest input (ok b rest') h w v = Left-trans k j m rest' rest input h w v
extend-Within k j m rest input (err e) h w v = tt
extend-Within k j m rest input panic h w v = tt
extend-Within k j m rest input endless h w v = tt
extend-Within k j m rest input no_fuel h w v = v

-- Rules without the state. `m` is what the whole takes, `k` and `j` the parts.
pub and_then-Within :
    {A : Type 0} {B : Type 0} (k j m : ℕ) (input : Bytes) (r : Parsed A) (f : A → Bytes → Parsed B)
    → m ≤ k + j
    → Within k input r
    → ((a : A) (rest : Bytes) → length rest + k ≤ length input → Within j rest (f a rest))
    → Within m input (Defs.and_then r f)
and_then-Within k j m input (ok a rest) f h w g =
    extend-Within k j m rest input (f a rest) h w (g a rest (Left-length k rest input w))
and_then-Within k j m input (err e) f h w g = tt
and_then-Within k j m input panic f h w g = tt
and_then-Within k j m input endless f h w g = tt
and_then-Within k j m input no_fuel f h w g = w

-- What follows goes on from the input that was there before.
pub check-Within :
    {A : Type 0} {B : Type 0} (k j : ℕ) (input : Bytes) (r : Parsed A) (q : Parsed B)
    → Within k input r
    → Within j input q
    → Within j input (Defs.and_then r λ a rest. q)
check-Within k j input (ok a rest) q w v = v
check-Within k j input (err e) q w v = tt
check-Within k j input panic q w v = tt
check-Within k j input endless q w v = tt
check-Within k j input no_fuel q w v = w

pub or_else-Within :
    {A : Type 0} (k : ℕ) (input : Bytes) (r q : Parsed A)
    → Within k input r
    → Within k input q
    → Within k input (Defs.or_else r q)
or_else-Within k input (ok a rest) q w v = w
or_else-Within k input (err e) q w v = v
or_else-Within k input panic q w v = w
or_else-Within k input endless q w v = w
or_else-Within k input no_fuel q w v = w

pub map_err-Within :
    {A : Type 0} (k : ℕ) (input : Bytes) (f : Errors → Errors) (r : Parsed A)
    → Within k input r
    → Within k input (Defs.map_err f r)
map_err-Within k input f (ok a rest) w = w
map_err-Within k input f (err e) w = w
map_err-Within k input f panic w = w
map_err-Within k input f endless w = w
map_err-Within k input f no_fuel w = w

pub weaken-Within :
    {A : Type 0} (k m : ℕ) (input : Bytes) (r : Parsed A)
    → m ≤ k
    → Within k input r
    → Within m input r
weaken-Within k m input (ok a rest) h (s, e, le) = (s, e, omega arith)
weaken-Within k m input (err e) h w = tt
weaken-Within k m input panic h w = tt
weaken-Within k m input endless h w = tt
weaken-Within k m input no_fuel h w = w

-- The same with the state.
pub and_then-Keeps :
    {A B : Type 0} (k j m : ℕ) (p : Parser) (input : Bytes) (r : Parser × Parsed A)
    (f : A → Parser → Bytes → Parser × Parsed B)
    → m ≤ k + j
    → Keeps k p input r
    → ((a : A) (p' : Parser) (rest : Bytes)
        → length rest + k ≤ length input
        → Keeps j p' rest (f a p' rest))
    → Keeps m p input (State.and_then r f)
and_then-Keeps k j m p input (p', ok a rest) f h (e, w) g =
    let after = g a p' rest (Left-length k rest input w) in
    (
      Extends-trans p p' (f a p' rest).0 e after.0,
      and_then-Within k j m input (ok a rest) (λ b i. (f b p' i).1) h w (λ b i le. (g b p' i le).1),
    )
and_then-Keeps k j m p input (p', err e') f h (e, w) g = (e, tt)
and_then-Keeps k j m p input (p', panic) f h (e, w) g = (e, tt)
and_then-Keeps k j m p input (p', endless) f h (e, w) g = (e, tt)
and_then-Keeps k j m p input (p', no_fuel) f h (e, w) g = (e, w)

pub recover-Keeps :
    {A : Type 0} (k : ℕ) (p : Parser) (input : Bytes) (r : Parser × Parsed A)
    (f : Errors → Parser → Parser × Parsed A)
    → Keeps k p input r
    → ((e : Errors) (p' : Parser) → Keeps k p' input (f e p'))
    → Keeps k p input (State.recover r f)
recover-Keeps k p input (p', ok a rest) f h g = h
recover-Keeps k p input (p', err e) f h g =
    (Extends-trans p p' (f e p').0 h.0 (g e p').0, (g e p').1)
recover-Keeps k p input (p', panic) f h g = h
recover-Keeps k p input (p', endless) f h g = h
recover-Keeps k p input (p', no_fuel) f h g = h

pub or_else-Keeps :
    {A : Type 0} (k : ℕ) (p : Parser) (input : Bytes) (r : Parser × Parsed A)
    (f : Parser → Parser × Parsed A)
    → Keeps k p input r
    → ((p' : Parser) → Keeps k p' input (f p'))
    → Keeps k p input (State.or_else r f)
or_else-Keeps k p input (p', ok a rest) f h g = h
or_else-Keeps k p input (p', err e) f h g = (Extends-trans p p' (f p').0 h.0 (g p').0, (g p').1)
or_else-Keeps k p input (p', panic) f h g = h
or_else-Keeps k p input (p', endless) f h g = h
or_else-Keeps k p input (p', no_fuel) f h g = h

pub with_kind-Keeps :
    {A : Type 0} (k : ℕ) (p : Parser) (input : Bytes) (kind : ParserErrorKind)
    (r : Parser × Parsed A)
    → Keeps k p input r
    → Keeps k p input (State.with_kind kind r)
with_kind-Keeps k p input kind (p', r) h = (h.0, map_err-Within k input (λ e. e ++ kind ∷ []) r h.1)

-- A parser that does not touch the state, and a value that is returned at once.
pub lift-Keeps :
    {A : Type 0} (k : ℕ) (p : Parser) (input : Bytes) (r : Parsed A)
    → Within k input r
    → Keeps k p input (p, r)
lift-Keeps k p input r w = (Extends-refl p, w)

pub ok-Keeps : {A : Type 0} (p : Parser) (input : Bytes) (a : A) → Keeps 0 p input (p, ok a input)
ok-Keeps p input a = (Extends-refl p, Left-refl input)

pub weaken-Keeps :
    {A : Type 0} (k m : ℕ) (p : Parser) (input : Bytes) (r : Parser × Parsed A)
    → m ≤ k
    → Keeps k p input r
    → Keeps m p input r
weaken-Keeps k m p input (p', r) h (e, w) = (e, weaken-Within k m input r h w)

pub attempt-Keeps :
    {A B : Type 0} (k j m : ℕ) (p : Parser) (input : Bytes) (r : Parser × Parsed A)
    (f : A → Parser → Bytes → Parser × Parsed B) (g : Parser → Parser × Parsed B)
    → m ≤ k + j
    → Keeps k p input r
    → ((a : A) (p' : Parser) (rest : Bytes)
        → length rest + k ≤ length input
        → Keeps j p' rest (f a p' rest))
    → ((p' : Parser) → Keeps m p' input (g p'))
    → Keeps m p input (State.attempt r f g)
attempt-Keeps k j m p input (p', ok a rest) f g h w u v =
    and_then-Keeps k j m p input (p', ok a rest) f h w u
attempt-Keeps k j m p input (p', err e') f g h w u v =
    (Extends-trans p p' (g p').0 w.0 (v p').0, (v p').1)
attempt-Keeps k j m p input (p', panic) f g h w u v = w
attempt-Keeps k j m p input (p', endless) f g h w u v = w
attempt-Keeps k j m p input (p', no_fuel) f g h w u v = w

-- A parser that starts behind a part of the input.
pub shift-Keeps :
    {A : Type 0} (k j m : ℕ) (p : Parser) (rest input : Bytes) (r : Parser × Parsed A)
    → m ≤ k + j
    → Left k rest input
    → Keeps j p rest r
    → Keeps m p input r
shift-Keeps k j m p rest input r h l w = (w.0, extend-Within k j m rest input r.1 h l w.1)
