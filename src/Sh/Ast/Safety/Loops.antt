-- ===== src/Sh/Ast/Safety/Loops.antt =====
-- libmesabox/src/posix/sh/ast.rs: panics and balance of scopes and loops, for loops.
use mesabox.Common.{
  ℕ, zero, suc, ◌+◌, ◌≡◌, refl, some, ◌∙◌, ap, ℤ, pos, is_zero, Bool, false, List, [], ◌∷◌, ◌==◌,
  arith, Bool-cases, inl, inr,
}
use mesabox.Common.Bytes.{Bytes}
use mesabox.Sh.Env.{break, continue, no_break, enter_scope, exit_scope, set_var, CheckBreak}
use mesabox.Sh.Ast.Run.{
  pred, returned, unwrap, ◌>>=◌, inc_loop_depth, dec_loop_depth, check_break_loop, check_break,
  dec_break_counter, set_loop_depth, set_break_counter,
}
use mesabox.Sh.Ast.Shell.{Env, Shell}
use mesabox.Sh.Ast.Parts.{
  Action, after_body, condition, decide, round, while_loop, in_loop, fake_subshell, for_loop,
  for_words, is_break, same,
}
use mesabox.Sh.Ast.Safety.Shape.{
  Shape, shape, deeper, entered, HasStreams, shape-set_var, shape-enter_scope, exit_scope-shape,
}
use mesabox.Sh.Ast.Safety.Safe.{Safe, bind-Safe, then-Safe, Keeps, SafeAt, Lawful}

pred-positive : (n : ℕ) → (n == 0) ≡ false → (m : ℕ) × (pred n ≡ some m)
pred-positive zero h = absurd (cc h)
pred-positive (suc n) h = (n, refl)

module _ {W R : Type 0} where
  dec_break_counter-Safe :
      (s : Shape) (env : Env W R)
      → (env.break_counter == 0) ≡ false
      → shape env ≡ s
      → Safe (λ env'. shape env' ≡ s) (dec_break_counter env)
  unfolding dec_break_counter shape
  dec_break_counter-Safe s env e h = let (n, p) = pred-positive env.break_counter e in rw p h

  check_break_loop-Safe :
      (s : Shape) (env : Env W R) → shape env ≡ s → Safe (Keeps s) (check_break_loop env)
  unfolding check_break_loop check_break
  check_break_loop-Safe s env h = elim (Bool-cases (env.break_counter == 0)) [
    | inl e ↦ rw e h
    | inr e ↦ rw e (
        bind-Safe (λ env'. shape env' ≡ s) (Keeps s) (dec_break_counter env) _
          (dec_break_counter-Safe s env e h) (λ env' kept. kept))
  ]

  after_body-Safe :
      (s : Shape) (again : ℤ → Action W R)
      → ((code : ℤ) → SafeAt s (again code))
      → (r : Env W R × ℤ) → Keeps s r
      → Safe (Keeps s) (after_body again r)
  unfolding after_body
  after_body-Safe s again h (env, code) e =
      bind-Safe (Keeps s) _ (check_break_loop env) _ (check_break_loop-Safe s env e) (λ c kept.
        elim (Bool-cases (is_break c.1)) [ inl b ↦ rw b kept | inr b ↦ rw b (h code c.0 kept) ])

  shape-inc : (env : Env W R) → shape (inc_loop_depth env) ≡ deeper (shape env)
  unfolding shape inc_loop_depth
  shape-inc env = let e : env.loop_depth + 1 ≡ suc env.loop_depth = omega arith in rw e

  dec_loop_depth-Safe :
      (s : Shape) (r : Env W R × ℤ)
      → Keeps (deeper s) r
      → Safe (Keeps s) (dec_loop_depth r.0 >>= λ env'. returned (env', r.1))
  unfolding dec_loop_depth shape
  dec_loop_depth-Safe (loops, args, fds) (env, code) h =
      let e : env.loop_depth ≡ suc loops = ap (λ t. t.0) h in rw e (λ i. (loops, (h i).1, (h i).2))

  leave-shape :
      (s : Shape) (env env' : Env W R)
      → shape env ≡ s
      → shape env' ≡ s
      → shape (set_break_counter (set_loop_depth env' env.loop_depth) 0) ≡ s
  unfolding shape
  leave-shape s env env' e e' = λ i. ((e i).0, (e' i).1, (e' i).2)

  leave-Safe :
      (s : Shape) (env : Env W R) (r : Env W R × ℤ)
      → shape env ≡ s
      → Keeps (entered s) r
      → Safe (Keeps s) (
          unwrap (exit_scope r.0) >>= λ env'.
          returned (set_break_counter (set_loop_depth env' env.loop_depth) 0, r.1))
  leave-Safe s env r e h =
      let (env', left, kept) = exit_scope-shape r.0 s h in rw left (leave-shape s env env' e kept)

  pub in_loop-Safe :
      (s : Shape) (loop : Action W R) → SafeAt (deeper s) loop → SafeAt s (in_loop loop)
  unfolding in_loop inc_loop_depth dec_loop_depth
  in_loop-Safe s loop h env e =
      bind-Safe (Keeps (deeper s)) _ (loop (inc_loop_depth env)) _
        (h (inc_loop_depth env) (shape-inc env ∙ ap deeper e))
        (λ r kept. dec_loop_depth-Safe s r kept)

  pub fake_subshell-Safe :
      (s : Shape) (func : Action W R) → SafeAt (entered s) func → SafeAt s (fake_subshell func)
  unfolding fake_subshell
  fake_subshell-Safe s func h env e =
      bind-Safe (Keeps (entered s)) _ (func (enter_scope env)) _
        (h (enter_scope env) (shape-enter_scope env ∙ ap entered e))
        (λ r kept. leave-Safe s env r e kept)

  -- What a condition leaves, with its result and with what `break` and `continue` ask for.
  condition-Safe : (s : Shape) (cond : Action W R) → SafeAt s cond → SafeAt s (condition cond)
  unfolding condition
  condition-Safe s cond h env e = bind-Safe (Keeps s) _ (cond env) _ (h env e) (λ r kept.
      elim (Bool-cases (is_zero r.1)) [
        | inl z ↦ rw z (
            bind-Safe (Keeps s) _ (check_break_loop r.0) _ (check_break_loop-Safe s r.0 kept)
              (λ c left. left))
        | inr z ↦ rw z kept
      ])

  module _ (s : Shape) (cond body : Action W R) (hc : SafeAt s cond) (hb : SafeAt s body) where
    decide-Safe :
        (desired : Bool) (again : ℤ → Action W R)
        → ((code : ℤ) → SafeAt s (again code))
        → (code : ℤ) (env : Env W R) (res : Bool) (kind : CheckBreak) → shape env ≡ s
        → Safe (Keeps s) (decide desired body again code (env, (res, kind)))
    unfolding decide
    decide-Safe desired again h code env res break e = e
    decide-Safe desired again h code env res continue e = h code env e
    decide-Safe desired again h code env res no_break e = elim (Bool-cases (same res desired)) [
      | inl b ↦ rw b (bind-Safe (Keeps s) _ (body env) _ (hb env e) (after_body-Safe s again h))
      | inr b ↦ rw b e
    ]

    pub while_loop-Safe :
        (n : ℕ) (desired : Bool) (code : ℤ) → SafeAt s (while_loop n cond desired body code)
    unfolding while_loop round
    while_loop-Safe zero desired code env e = tt
    while_loop-Safe (suc n) desired code env e =
        bind-Safe (Keeps s) _ (condition cond env) _ (condition-Safe s cond hc env e) (λ c kept.
          decide-Safe desired (while_loop n cond desired body) (while_loop-Safe n desired) code c.0
            c.1.0 c.1.1 kept)

module _ {W R P : Type 0} (shell : Shell W R P) (lawful : Lawful shell) (s : Shape)
    (hs : HasStreams s) where
  for_loop-Safe :
      (name : Bytes) (words : List W) (body : Action W R)
      → SafeAt s body
      → (code : ℤ) → SafeAt s (for_loop shell name words body code)
  unfolding for_loop
  for_loop-Safe name [] body h code env e = e
  for_loop-Safe name (word ∷ words) body h code env e =
      then-Safe s (shell.eval word env) _ (lawful.eval s hs word env e) (λ q kept.
        then-Safe s (body (set_var q.0 name q.1).0) _
          (h (set_var q.0 name q.1).0 (shape-set_var q.0 name q.1 ∙ kept))
          (after_body-Safe s (for_loop shell name words body) (for_loop-Safe name words body h)))

  pub for_words-Safe :
      (name : Bytes) (words : List W) (body : Action W R)
      → SafeAt s body
      → SafeAt s (for_words shell name words body)
  unfolding for_words
  for_words-Safe name [] body h env e = tt
  for_words-Safe name (word ∷ words) body h env e =
      for_loop-Safe name (word ∷ words) body h (pos 0) env e
