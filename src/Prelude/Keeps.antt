-- ===== src/Prelude/Keeps.antt =====
-- Loops of actions, and what an action keeps: a statement about the state that holds before it and
-- after it, also where it fails.
use mathlib.Core.Path.{◌≡◌, refl, subst}
use mathlib.Core.Bool.{Bool, true, false}
use mathlib.Core.List.{List, [], ◌∷◌}
use mathlib.Core.Option.{Option, none, some}
use mass_net_wallet.Prelude.Tests.{if◌then◌else◌}
use mass_net_wallet.Prelude.Exec.{
  Error, Result, ok, err, Exec, pure, raise, lift, reads, wrap, guard, continue, ◌>>=◌,
}

-- for _, x := range xs { ... }
unfoldable pub for_each : {S X : Type 0} → (X → Exec S (Unit {0})) → List X → Exec S (Unit {0})
for_each body [] = pure tt
for_each body (x ∷ xs) = body x >>= λ _. for_each body xs

-- the same, where the body also changes a local variable
unfoldable pub for_with : {S X L : Type 0} → (X → L → Exec S L) → List X → L → Exec S L
for_with body [] l = pure l
for_with body (x ∷ xs) l = body x l >>= λ l'. for_with body xs l'

-- a nil value, and one that is there
unfoldable pub if_nil : {X B : Type 0} → Option X → B → (X → B) → B
if_nil none b f = b
if_nil (some x) b f = f x

pub record Keeps {S A : Type 0} (P : S → Type 0) (m : Exec S A) : Type 0 where
  pub run : (s : S) → P s → P (m s).1

module _ {S : Type 0} {P : S → Type 0} where
  pub Keeps-pure : {A : Type 0} (a : A) → Keeps P (pure a)
  unfolding ◌>>=◌
  Keeps-pure a = record { run = λ s h. h }

  pub Keeps-raise : {A : Type 0} (e : Error) → Keeps P (raise {A = A} e)
  unfolding ◌>>=◌
  Keeps-raise e = record { run = λ s h. h }

  pub Keeps-lift : {A : Type 0} (r : Result A) → Keeps P (lift r)
  unfolding ◌>>=◌
  Keeps-lift r = record { run = λ s h. h }

  pub Keeps-reads : {A : Type 0} (f : S → Result A) → Keeps P (reads f)
  unfolding ◌>>=◌
  Keeps-reads f = record { run = λ s h. h }

  pub Keeps-guard : (b : Bool) (e : Error) → Keeps P (guard b e)
  Keeps-guard true e = record { run = λ s h. h }
  Keeps-guard false e = record { run = λ s h. h }

  pub Keeps-wrap : {A : Type 0} {m : Exec S A} → Keeps P m → Keeps P (wrap m)
  unfolding ◌>>=◌
  Keeps-wrap k = record { run = λ s h. k.run s h }

  pub Keeps-bind :
      {A B : Type 0} {m : Exec S A} {f : A → Exec S B}
      → Keeps P m
      → ((a : A) → Keeps P (f a))
      → Keeps P (m >>= f)
  unfolding ◌>>=◌
  Keeps-bind {A} {B} {m} {f} k l = record { run = λ s h. go (m s).0 (m s).1 (k.run s h) }
    where
      go : (r : Result A) (s : S) → P s → P (continue r f s).1
      go (ok a) s h = (l a).run s h
      go (err e) s h = h

  -- what follows may use the result that is lifted
  pub Keeps-lift_bind :
      {A B : Type 0} {f : A → Exec S B} (r : Result A)
      → ((a : A) → r ≡ ok a → Keeps P (f a))
      → Keeps P (lift r >>= f)
  unfolding ◌>>=◌
  Keeps-lift_bind (ok a) k = record { run = λ s h. (k a refl).run s h }
  Keeps-lift_bind (err e) k = record { run = λ s h. h }

  pub Keeps-if :
      {A : Type 0} {m n : Exec S A} (b : Bool)
      → Keeps P m
      → Keeps P n
      → Keeps P (if b then m else n)
  Keeps-if true k l = k
  Keeps-if false k l = l

  pub Keeps-if_nil :
      {X A : Type 0} {m : Exec S A} {f : X → Exec S A} (o : Option X)
      → Keeps P m
      → ((x : X) → Keeps P (f x))
      → Keeps P (if_nil o m f)
  unfolding if_nil
  Keeps-if_nil none k l = k
  Keeps-if_nil (some x) k l = l x

  pub Keeps-for_each :
      {X : Type 0} {body : X → Exec S (Unit {0})}
      → ((x : X) → Keeps P (body x))
      → (xs : List X) → Keeps P (for_each body xs)
  unfolding for_each
  Keeps-for_each k [] = Keeps-pure tt
  Keeps-for_each k (x ∷ xs) = Keeps-bind (k x) (λ _. Keeps-for_each k xs)

  pub Keeps-for_with :
      {X L : Type 0} {body : X → L → Exec S L}
      → ((x : X) (l : L) → Keeps P (body x l))
      → (xs : List X) (l : L) → Keeps P (for_with body xs l)
  unfolding for_with
  Keeps-for_with k [] l = Keeps-pure l
  Keeps-for_with k (x ∷ xs) l = Keeps-bind (k x l) (λ l'. Keeps-for_with k xs l')

-- Where the statement `P` holds and the action succeeds, `Q` holds of its result and of the state.
pub record Leads {S A : Type 0} (P : S → Type 0) (m : Exec S A) (Q : A → S → Type 0) : Type 0 where
  pub run : (s : S) → P s → (a : A) → (m s).0 ≡ ok a → Q a (m s).1

pub ok_inj {ℓ} : {A : Type ℓ} {a b : A} → ok a ≡ ok b → a ≡ b
ok_inj e = cc

module _ {S : Type 0} {P : S → Type 0} where
  pub Leads-Keeps : {A : Type 0} {m : Exec S A} → Keeps P m → Leads P m (λ _ s. P s)
  Leads-Keeps k = record { run = λ s h a e. k.run s h }

  pub Leads-pure :
      {A : Type 0} {Q : A → S → Type 0} (a : A) → ((s : S) → P s → Q a s) → Leads P (pure a) Q
  unfolding ◌>>=◌
  Leads-pure {A} {Q} a q = record { run = λ s h b e. subst (λ (x : A). Q x s) (ok_inj e) (q s h) }

  pub Leads-raise : {A : Type 0} {Q : A → S → Type 0} (e : Error) → Leads P (raise {A = A} e) Q
  unfolding ◌>>=◌
  Leads-raise e = record { run = λ s h a g. absurd (cc) }

  pub Leads-reads :
      {A : Type 0} {Q : A → S → Type 0} (f : S → Result A)
      → ((s : S) (a : A) → P s → f s ≡ ok a → Q a s)
      → Leads P (reads f) Q
  unfolding ◌>>=◌
  Leads-reads f q = record { run = λ s h a e. q s a h e }

  pub Leads-lift :
      {A : Type 0} {Q : A → S → Type 0} (r : Result A)
      → ((s : S) (a : A) → P s → r ≡ ok a → Q a s)
      → Leads P (lift r) Q
  unfolding ◌>>=◌
  Leads-lift r q = record { run = λ s h a e. q s a h e }

  pub Leads-bind :
      {A B : Type 0} {Q : A → S → Type 0} {R : B → S → Type 0} {m : Exec S A} {f : A → Exec S B}
      → Leads P m Q
      → ((a : A) → Leads (Q a) (f a) R)
      → Leads P (m >>= f) R
  unfolding ◌>>=◌
  Leads-bind {A} {B} {Q} {R} {m} {f} k l = record {
    run = λ s h b e. go (m s).0 (m s).1 (λ a g. k.run s h a g) b e;
  }
    where
      go :
          (r : Result A) (s : S)
          → ((a : A) → r ≡ ok a → Q a s)
          → (b : B) → (continue r f s).0 ≡ ok b
          → R b (continue r f s).1
      go (ok a) s q b e = (l a).run s (q a refl) b e
      go (err x) s q b e = absurd (cc)

  pub Leads-if :
      {A : Type 0} {Q : A → S → Type 0} {m n : Exec S A} (b : Bool)
      → (b ≡ true → Leads P m Q)
      → (b ≡ false → Leads P n Q)
      → Leads P (if b then m else n) Q
  Leads-if true k l = k refl
  Leads-if false k l = l refl

pub ruleset keeps = (
  Keeps-pure, Keeps-raise, Keeps-lift, Keeps-reads, Keeps-guard, Keeps-wrap, Keeps-bind, Keeps-if,
  Keeps-if_nil, Keeps-for_each, Keeps-for_with,
)
