-- ===== src/Session/Rule.antt =====
-- How to reason about the loop of `run_connected_session`, leantty_ssh/src/lib.rs.
use mathlib.Core.Path.{subst}
use leantty.Prelude.{Bool, true, false, List, [], ◌∷◌, ◌++◌, ◌≡◌, refl, ap, sym, ◌∙◌, All}
use leantty.Session.Loop.{
  Turn, Step, Loop, Ending, Next, again, broken, Context, is_enabled, take_turn, then_loop,
  session_loop,
}

abbrev turned : Context → Loop → Turn → List Turn → Bool → List Step × Next
turned c l t ts true = then_loop (λ l'. session_loop c l' ts) (take_turn c l t)
turned c l t ts false = session_loop c l ts

pub session_loop-turned :
    (c : Context) (l : Loop) (t : Turn) (ts : List Turn)
    → session_loop c l (t ∷ ts) ≡ turned c l t ts (is_enabled c l t)
unfolding session_loop
session_loop-turned c l t ts = go (is_enabled c l t)
  where
    go :
        (b : Bool)
        → ◌≡◌ {A = List Step × Next}
            (elim b [
              | true ↦ then_loop (λ l'. session_loop c l' ts) (take_turn c l t)
              | false ↦ session_loop c l ts
            ])
            (turned c l t ts b)
    go true = refl
    go false = refl

-- What holds of a state holds of every later one, and of the steps in between, if each turn that is
-- taken keeps it.
module _ (c : Context) (T : Turn → Type 0) (S : List Step → Type 0) (Q : Next → Type 0)
    (nothing : S []) (both : (s t : List Step) → S s → S t → S (s ++ t))
    (step : (l : Loop) (t : Turn)
      → is_enabled c l t ≡ true
      → T t
      → Q (again l)
      → S (take_turn c l t).0 × Q (take_turn c l t).1) where
  abbrev Keeps : List Step × Next → Type 0
  Keeps r = S r.0 × Q r.1

  then_loop-Keeps :
      (rest : Loop → List Step × Next) (r : List Step × Next)
      → Keeps r
      → ((l : Loop) → Q (again l) → Keeps (rest l))
      → Keeps (then_loop rest r)
  then_loop-Keeps rest (steps, broken l e) h k = h
  then_loop-Keeps rest (steps, again l) h k = (both steps (rest l).0 h.0 (k l h.1).0, (k l h.1).1)

  turned-Keeps :
      (l : Loop) (t : Turn) (ts : List Turn) (b : Bool)
      → is_enabled c l t ≡ b
      → T t
      → Q (again l)
      → ((l' : Loop) → Q (again l') → Keeps (session_loop c l' ts))
      → Keeps (turned c l t ts b)
  turned-Keeps l t ts true e h q k =
      then_loop-Keeps (λ l'. session_loop c l' ts) (take_turn c l t) (step l t e h q) k
  turned-Keeps l t ts false e h q k = k l q

  pub session_loop_rule :
      (l : Loop) (ts : List Turn)
      → All T ts
      → Q (again l)
      → S (session_loop c l ts).0 × Q (session_loop c l ts).1
  session_loop_rule l [] h q = unfold session_loop in (nothing, q)
  session_loop_rule l (t ∷ ts) h q =
      subst Keeps (sym (session_loop-turned c l t ts)) (
        turned-Keeps l t ts (is_enabled c l t) refl h.0 q (λ l' q'. session_loop_rule l' ts h.1 q'))

-- The turn by which the loop was left.
pub record IsLeft (c : Context) (l : Loop) (ts : List Turn) (l' : Loop) (e : Ending) : Type 0 where
  pub before : List Turn
  pub last : Turn
  pub after : List Turn
  pub state : Loop
  pub split : ts ≡ before ++ last ∷ after
  pub reached : (session_loop c l before).1 ≡ again state
  pub enabled : is_enabled c state last ≡ true
  pub leaves : (take_turn c state last).1 ≡ broken l' e

then_loop-again :
    (rest : Loop → List Step × Next) (r : List Step × Next) (l : Loop)
    → r.1 ≡ again l
    → (then_loop rest r).1 ≡ (rest l).1
then_loop-again rest (steps, again k) l h = ap (λ x. (rest x).1) (loop_of-again h)
  where
    loop_of : Next → Loop
    loop_of (again x) = x
    loop_of (broken x e) = x

    loop_of-again : again k ≡ again l → k ≡ l
    loop_of-again e = ap loop_of e
then_loop-again rest (steps, broken k e) l h = cc

then_loop-broken :
    (rest : Loop → List Step × Next) (r : List Step × Next) (l : Loop) (e : Ending)
    → r.1 ≡ broken l e
    → (then_loop rest r).1 ≡ broken l e
then_loop-broken rest (steps, again k) l e h = cc
then_loop-broken rest (steps, broken k e') l e h = h

-- One more turn in front.
turned-IsLeft :
    (c : Context) (l : Loop) (t : Turn) (ts : List Turn) (b : Bool) (n : Next) (l' : Loop)
    (e : Ending)
    → is_enabled c l t ≡ b
    → (take_turn c l t).1 ≡ n
    → ((l : Loop) → (session_loop c l ts).1 ≡ broken l' e → IsLeft c l ts l' e)
    → (turned c l t ts b).1 ≡ broken l' e
    → IsLeft c l (t ∷ ts) l' e
turned-IsLeft c l t ts false n l' e off k rest h =
    let r : IsLeft c l ts l' e = rest l h in
    record {
      before = t ∷ r.before;
      last = r.last;
      after = r.after;
      state = r.state;
      split = ap (λ x. t ∷ x) r.split;
      reached = ap (λ x. x.1) (session_loop-turned c l t r.before) ∙ rw off r.reached;
      enabled = r.enabled;
      leaves = r.leaves;
    }
turned-IsLeft c l t ts true (broken l'' e') l' e on k rest h = record {
  before = [];
  last = t;
  after = ts;
  state = l;
  split = refl;
  reached = unfold session_loop in refl;
  enabled = on;
  leaves = k ∙ sym (then_loop-broken (λ x. session_loop c x ts) (take_turn c l t) l'' e' k) ∙ h;
}
turned-IsLeft c l t ts true (again l'') l' e on k rest h =
    let go : Loop → List Step × Next = λ x. session_loop c x ts in
    let r : IsLeft c l'' ts l' e =
      rest l'' (sym (then_loop-again go (take_turn c l t) l'' k) ∙ h) in
    record {
      before = t ∷ r.before;
      last = r.last;
      after = r.after;
      state = r.state;
      split = ap (λ x. t ∷ x) r.split;
      reached =
          ap (λ x. x.1) (session_loop-turned c l t r.before)
          ∙ rw on (then_loop-again (λ x. session_loop c x r.before) (take_turn c l t) l'' k)
          ∙ r.reached;
      enabled = r.enabled;
      leaves = r.leaves;
    }

pub session_loop-IsLeft :
    (c : Context) (l : Loop) (ts : List Turn) (l' : Loop) (e : Ending)
    → (session_loop c l ts).1 ≡ broken l' e
    → IsLeft c l ts l' e
session_loop-IsLeft c l [] l' e h = unfold session_loop in cc
session_loop-IsLeft c l (t ∷ ts) l' e h =
    turned-IsLeft c l t ts (is_enabled c l t) (take_turn c l t).1 l' e refl refl
      (λ k. session_loop-IsLeft c k ts l' e)
      (sym (ap (λ x. x.1) (session_loop-turned c l t ts)) ∙ h)
